-- ===== src/FillRocks.antt =====
-- src/fill_rocksdb_plugin.cpp: the session that fills the RocksDB database.
pub mod State
pub mod Fields
pub mod Rows
pub mod Blocks
pub mod Entries
pub mod Covered
pub mod Removal
pub mod Tables
pub mod Store
pub mod Trim
pub mod Session
pub mod Truncated
pub mod Trimmed
pub mod Batches
pub mod Pending
pub mod Snapshots
pub mod Check
pub mod Checked
pub mod Tests
pub mod TrimTests
