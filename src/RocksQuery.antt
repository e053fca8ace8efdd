-- ===== src/RocksQuery.antt =====
-- src/wasm_ql_rocksdb_plugin.cpp: queries of the key-value database.
pub mod Session
pub mod Bounds
pub mod Snapshot
mod Tests
