-- ===== src/SqlConverter.antt =====
-- src/abieos_sql_converter.cpp: the conversion of SHiP types and values to SQL.
pub mod Escape
pub mod Escaped
pub mod Types
pub mod Union
pub mod Value
pub mod Create
pub mod Width
mod Tests
