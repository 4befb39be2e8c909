-- ===== src/Reductions.antt =====
-- am++/reductions.hpp: message types that leave out messages that need not be sent.
pub mod SimpleCache
pub mod UnorderedSet
pub mod Combine
pub mod WriteThrough
pub mod Locking
