-- ===== src/Kv.antt =====
-- src/state_history_kv.hpp: the keys of the key-value database.
pub mod Types
pub mod Keys
pub mod Positions
pub mod Laws
pub mod RoundTrip
pub mod Order
pub mod Increment
pub mod Successor
pub mod Tests
