-- ===== src/QueryConfig.antt =====
-- src/query_config.hpp: the tables, indexes and queries of a configuration.
pub mod Types
pub mod Prepare
pub mod InRange
pub mod Resolved
pub mod Prepared
mod Tests
