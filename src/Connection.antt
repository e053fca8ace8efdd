-- ===== src/Connection.antt =====
-- src/state_history_connection.hpp: the connection to nodeos's state history plugin.
pub mod State
pub mod Start
pub mod Closed
mod Tests
