-- ===== src/Pnp.antt =====
-- src/pnp: plug-and-play node-ID allocation. The SQLite engine is an interface (Sqlite), the
-- database wrapper is Db, and the allocator's state machine is Allocator. Memory is a table in
-- memory that has the interface's laws, for the tests.
pub mod Hex
pub mod Sqlite
pub mod Db
pub mod Memory
pub mod Allocator
pub mod Open
