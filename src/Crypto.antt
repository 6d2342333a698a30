-- ===== src/Crypto.antt =====
-- src/crypto: the parts that the blocks and the transactions use.
pub mod Hash
pub mod ProofOfWork
