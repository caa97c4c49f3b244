-- ===== src/Storage.antt =====
-- src/storage: nodes, edges, the write-ahead log, and the stores.
pub mod Node
pub mod Edge
pub mod Ids
pub mod Consistency
pub mod WalLog
pub mod WalThread
pub mod NodeStore
pub mod EdgeStore
pub mod PropStore
pub mod StoreLog
