-- ===== src/Extern.antt =====
-- Crates that the program uses and does not contain, as interfaces with the behaviour that their
-- documentation states: dashmap's `DashMap`, crossbeam's `SegQueue`, `bincode`, `serde_json`; the files
-- of the operating system; and floating point.
pub mod Models
pub mod Devices
mod Interfaces
mod FileSystem
mod Numbers
pub use Interfaces.*
pub use FileSystem.*
pub use Numbers.*
