-- ===== src/Tests.antt =====
-- The theorems applied at concrete inputs, and runs of the definitions.
mod Codec
mod Cells
mod Logs
mod Saves
mod Wal
mod Nodes
mod Snapshots
mod Recovery
mod Edges
mod Tickets
mod Transactions
mod IndexModels
mod Queries
