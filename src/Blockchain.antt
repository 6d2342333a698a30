-- ===== src/Blockchain.antt =====
-- src/blockchain.
pub mod Merkle
pub mod Index
pub mod Chain
pub mod Block
