-- ===== src/Addressing.antt =====
-- am++/object_based_addressing.hpp: messages that find the rank that owns what they are about.
pub mod Ranks
pub mod Routing
pub mod Direct
pub mod Hops
