-- ===== src/Transport.antt =====
-- am++/transport.hpp and src/transport.cpp: what the transports share.
pub mod Flush
pub mod Requests
