-- ===== src/Consensus.antt =====
-- src/consensus.
pub mod Validation
pub mod Difficulty
