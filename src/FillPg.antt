-- ===== src/FillPg.antt =====
-- src/fill_pg_plugin.cpp: the session that fills PostgreSQL from the state history plugin.
pub mod Database
pub mod State
pub mod Rows
pub mod Session
pub mod Blocks
pub mod Written
pub mod Keeps
pub mod Consistent
pub mod Status
pub mod Start
mod Memory
mod Tests
