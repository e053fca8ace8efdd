-- ===== src/Json.antt =====
-- libraries/eosiolib/wasmql/eosio/to_json.hpp and parse_json.hpp.
pub mod Write
pub mod Parse
pub mod Numbers
pub mod Integers
pub mod Containers
mod Tests
