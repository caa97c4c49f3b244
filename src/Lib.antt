-- ===== src/Lib.antt =====
-- LightGraph: the storage engine of a property graph, its write-ahead log, and its transactions.
--
-- The parts and the files that model them:
-- - Base, Types: numbers, lists and machine words, and the ids of src/lib.rs. A u64 counter is a
--   number that wraps where the code's atomic addition wraps (`incr64`, `decr64`).
-- - Extern: the crates that the code calls, as interfaces with the behaviour that they document:
--   `DashMap` as a map with get, insert and remove, `SegQueue` as a first-in first-out queue,
--   `bincode` as a serializer whose output reads back, the files of the operating system with calls
--   that can fail, and floating point. Extern/Models and Extern/Devices have concrete ones.
-- - Wal: src/wal/mod.rs. A writer over a file whose calls can fail; the clocks that a call sees are
--   arguments. The reader takes one unit of fuel for each byte of the file and one more; a record takes
--   four bytes at least.
-- - Snapshot: src/snapshot/mod.rs. The directory is an argument, and its files are known by their names.
-- - Storage/Node, Storage/Edge, Storage/Consistency: the records of src/storage/mod.rs and the
--   levels of src/storage/consistency.rs.
-- - Storage/WalLog: the byte format of src/storage/wal_thread.rs, `encode_insert`, `encode_delete`
--   and `replay_wal`. The reader takes one unit of fuel for each byte of the file and one more; a
--   record is longer than a byte, so the fuel lasts.
-- - Storage/WalThread: the rest of that file. A state holds the handle, the channel, the loop's
--   buffer, the file as written and the file as synced; `wal_round` is one round of the loop, whose
--   clock and operating system are an argument; what a failed write leaves in the `BufWriter` is part
--   of the state. `flush_now` is `flush`, which blocks for as many
--   rounds as the channel has commands; `shutdown_now` and `drop_now` are `shutdown` and `drop`,
--   with no round of the loop between the flag and the command that is sent after it.
-- - Storage/NodeStore: src/storage/node_store.rs, each operation a function on the store's state.
--   `open_store` is `open`, with the content of the log file as an argument. The stores send to the
--   log thread of their state, and recovery replays what that thread has written.
-- - Storage/EdgeStore: src/storage/edge_store.rs, with the chains of edges that begin in the nodes.
--   The loops that follow a chain take fuel; more fuel than the chain is long is enough. Storage/Ids is
--   what the ids of a store promise, and Operations runs sequences of its calls.
-- - Storage/StoreLog: src/storage/store_log.rs, where every call of the operating system succeeds. The
--   reader's fuel is that of Storage/WalLog.
-- - Transaction/TxManager: src/transaction/tx_manager.rs. `commit` and `rollback` run against any
--   behaviour of the other threads, given round by round; Order has any number of transactions as
--   a step relation, whose loads are single rounds of the loops of `commit` and `rollback`, and whose
--   stores are steps of their own.
--   `rollback` waits without a limit, so its model takes fuel; the limit of `commit` is the code's.
-- - Storage/PropStore: src/storage/prop_store.rs. Strings are their UTF-8 bytes, and floating point
--   numbers their bits; `from_utf8_lossy` is an argument of the replay.
-- - Transaction/Database: src/transaction/mod.rs. A transaction is its buffers and flags, and the
--   stores that it shares with its database are passed along with it; `open_database` is `open`.
-- - Index/Property: src/index/property/mod.rs, the predicates and their evaluation; bitmaps, trees
--   and floating point numbers are interfaces.
-- - Index/Analyzer: src/index/fulltext/analyzer.rs. The loop takes one unit of fuel for each character
--   and one more; a round takes a character at least.
-- - Index/FullText: src/index/fulltext/mod.rs and scorer.rs; Index/Ranking is the sort by score, which
--   panics at a score that is not a number, and Index/Totals the map of scores.
-- - Index/Vector: src/index/vector, whose graph panics at every call.
-- - Query: src/query. Plan has the types, Builder the builder, Search the hybrid search; `none` is a
--   panic of one of the searches or of the sort.
-- - Tests: the theorems at concrete inputs.
--
-- Not modelled: the distributed layer, which is types and stubs; the capacity of the channel, which
-- only makes senders wait; calls of one store from several threads at once; the creation of directories
-- and errors in opening the logs of the stores; the memory that a buffer of the configured size takes;
-- where a log reader stands after its replay; the write that a `BufWriter` tries once more when it is
-- dropped with bytes that could not be written.
pub mod Base
pub mod Types
pub mod Wal
pub mod Snapshot
pub mod Extern
pub mod Storage
pub mod Transaction
pub mod Index
pub mod Query
pub mod Tests
