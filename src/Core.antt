-- ===== src/Core.antt =====
-- src/core and the amounts of include/dinari/types.h.
pub mod Amount
pub mod OutPoint
pub mod TxOut
pub mod TxIn
pub mod Transaction
pub mod Utxo
pub mod Script
pub mod Fees
pub mod Coins
pub mod Mempool
