-- ===== src/Rdb.antt =====
-- src/state_history_rocksdb.hpp: reading ranges of keys.
pub mod Bytes
pub mod Range
pub mod Database
pub mod Keeps
pub mod Model
pub mod InRange
pub mod Subkeys
pub mod SubkeysEnd
mod Tests
