-- ===== src/Network.antt =====
-- src/network.
pub mod Message
