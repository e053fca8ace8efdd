-- ===== src/WasmQl.antt =====
-- src/wasm_ql.cpp: the core of the query service.
pub mod State
pub mod Query
pub mod Frame
pub mod Rounds
pub mod Reply
pub mod Consistent
mod Tests
