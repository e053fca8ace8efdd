-- ===== src/Lib.antt =====
-- Verification of the history tools: programs that take the history of a chain from nodeos's state
-- history plugin, store it in PostgreSQL or RocksDB, and answer queries on it.
--
-- How the parts fit together. `fill_pg_plugin` (src/fill_pg_plugin.cpp) receives a status, an ABI
-- and blocks over a connection; its filters (src/state_history.hpp) choose the transaction traces,
-- the converter (src/abieos_sql_converter.cpp) makes rows and tables of values in ABI types, and the
-- rows go to PostgreSQL by COPY streams beside a transaction that records the block. The key-value
-- database (src/state_history_kv.hpp) holds rows and index entries under keys whose byte order is
-- that of their parts. The query service (src/wasm_ql.cpp) runs WebAssembly programs on a session of
-- a database and tries again where a fork came between. The libraries that those programs use read
-- and write JSON (libraries/eosiolib/wasmql/eosio/parse_json.hpp and to_json.hpp).
--
-- The files.
--   Common, Common/…: tests on native numbers, lists, bytes, results, decimal digits.
--   History: src/state_history.hpp. Filter has `matches` and the two `filter`s, Variant the two
--     `check_variant`s.
--   SqlConverter: src/abieos_sql_converter.cpp. Escape and Escaped have the text of fields, Types
--     `get_field_def`, Union `union_fields_t`, Value `to_sql_value` and `to_sql_values`, Create
--     `create_sql_type` and `create_table`, Width the number of columns and of values.
--   FillPg: src/fill_pg_plugin.cpp. Database has the statements and what SQL says of them, State the
--     session's members, Rows the handlers of a block's parts, Session the rest of `fpg_session`.
--     Blocks, Written, Keeps, Consistent, Start and Status have the proofs; Memory is a database.
--   FillRocks: src/fill_rocksdb_plugin.cpp. State has the session's members, Fields `fill_fields` and
--     `fill`, Tables `init_tables`, Rows `add_row` and `remove_row`, Blocks the handlers of a block's
--     parts with `end_write`, Store what is read of the database, Trim the batch of `trim`, Session the
--     rest of `flm_session`, Check `check`. Entries, Covered, Removal, Truncated, Trimmed, Batches, Pending,
--     Snapshots and Checked have the proofs.
--   Calls: a method of a session, which leaves its changes where it throws.
--   Kv: src/state_history_kv.hpp. Types has the templates over a type, Keys the keys, Positions the
--     positions of fields and the keys made of them; Laws, RoundTrip, Order, Increment and
--     Successor the proofs.
--   WasmQl: src/wasm_ql.cpp. State has `thread_state`, the database interfaces and the programs,
--     Query the host functions and `query`; Frame, Rounds, Reply and Consistent have the proofs.
--   Connection: src/state_history_connection.hpp. State has the connection and its handlers, Start
--     the block to start with, Closed what the client hears.
--   Rdb: src/state_history_rocksdb.hpp. Range has `for_each`, Subkeys `for_each_subkey`, Database the
--     reads and the batches; InRange, Keeps and SubkeysEnd have the proofs; Model is a database.
--   RocksQuery: src/wasm_ql_rocksdb_plugin.cpp. Session has `rocksdb_query_session`; Bounds and Snapshot
--     the proofs on the number of rows and on the version of a row that a block sees.
--   QueryConfig: src/query_config.hpp. Types has the records, Prepare `prepare`; InRange, Resolved and
--     Prepared the proofs that what it makes refers to what is there.
--   BlockSelect: libraries/eosiolib/wasmql/eosio/block_select.hpp.
--   TaggedVariant: libraries/eosiolib/wasmql/eosio/tagged_variant.hpp, its binary form; RoundTrip the proof.
--   Json: Write is to_json.hpp, Parse is parse_json.hpp, Numbers, Integers and Containers the proofs.
--
-- `fill_rocksdb_plugin` (src/fill_rocksdb_plugin.cpp) stores the same blocks as rows and index
-- entries of the key-value database, in two batches that it writes one behind the other, and
-- `wasm_ql_rocksdb_plugin` (src/wasm_ql_rocksdb_plugin.cpp) answers queries from them. What a table, an
-- index or a query of either database names is looked up once, by `prepare` (src/query_config.hpp).
--
-- How state and operations correspond. `Session` has the members of `fpg_session`, `World` is the
-- session with the database, and an operation takes a world and gives one. A transaction is the list
-- of its statements, run at its commit; what an exception leaves is what was committed before it.
-- A stream is its name and its lines, run as one `copy` when it is flushed. Where a call
-- throws, the connection closes and `closed` destroys the session, so an exception comes with the
-- database alone (`Outcome`): the head that `truncate` has moved and the rows that the streams hold are
-- gone with the session, and the next one loads what was committed. The three versions of a
-- blocks result differ in how the header's bytes are had, and are one record here. The converter's
-- cache of union fields, keyed by a type's name, is computed where it is used. An error carries the
-- fixed text of the exception, without the names that are appended to it.
--
-- Numbers. A `uint32_t` that the source adds to or takes from wraps as it does there, in `before`,
-- `after`, `next_ordinal`, `is_bulk` and `complement`. A checksum is the number of its bits, or its
-- bytes in JSON; a name is its number, except that it is its text where text is compared.
--
-- Other code is a parameter: abieos's serialization (`Abieos`, with `IsAbieos`, and `Library`),
-- PostgreSQL (`Postgres`, with `IsSql`), `separated_list` of pqxx and `join` of boost, RocksDB
-- (`Rocksdb` and `Iterator`, with `IsStore`), the streams of the contract library (`Stream`),
-- the values that abieos reads and writes (`Serial`), and the databases and files of the query service
-- (`Backend`, `Serializer`). An iterator's own failures are left out.
--
-- A WebAssembly program is the sequence of its calls of the host: what a host function puts into its
-- memory goes to the rest of the sequence. What other threads change is a state that each call of a
-- database takes and gives back.
--
-- Fuel. The digits of a number have as many rounds as a number of 64 bits has digits, or one more
-- than the number; elements and members of JSON have one more than the characters that are left, of
-- which each round takes at least one between two elements.
--
-- `for_each_subkey` has a round for each seek, and one more than there are entries are enough.
--
-- Not modelled: sockets and threads, the HTTP server and command-line options, which are calls of
-- boost; the virtual machine's memory; the ABI that the filler receives, the tables that it creates
-- from it and the text of its trim function; the query of PostgreSQL, which is still to
-- be modelled; the JSON of names, assets, dates and floating-point
-- numbers, whose text is of other libraries.
pub mod Common
pub mod Calls
pub mod History
pub mod SqlConverter
pub mod FillPg
pub mod QueryConfig
pub mod FillRocks
pub mod Kv
pub mod Json
pub mod TaggedVariant
pub mod WasmQl
pub mod Connection
pub mod Rdb
pub mod RocksQuery
pub mod BlockSelect
