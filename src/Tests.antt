-- ===== src/Tests.antt =====
-- Concrete runs of the theorems, on a small chain: one unspent output, a transaction that spends
-- it, and a block with it.
mod Data
mod Utxo
mod Wire
mod Scripts
mod Blocks
mod Consensus
mod Coins
mod Mempool
mod Chain
mod Messages
