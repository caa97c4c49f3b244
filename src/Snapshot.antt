-- ===== src/Snapshot.antt =====
-- src/snapshot/mod.rs: snapshots of the stores, the manifest that names the latest one, and recovery.
pub mod Name
pub mod Written
pub mod Restart
pub mod Failure
pub mod Calls
pub mod Merged
pub mod Due
mod Manager
unfoldable pub use Manager.*
