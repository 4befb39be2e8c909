-- ===== src/Coalescing.antt =====
-- Message types that collect messages for one destination and send them together.
pub mod Basic
pub mod Sized
pub mod Counter
