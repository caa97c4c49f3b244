-- ===== src/Transaction.antt =====
-- src/transaction: the ticket dispenser, and the transactions that buffer writes to all stores.
pub mod TxManager
pub mod Database
