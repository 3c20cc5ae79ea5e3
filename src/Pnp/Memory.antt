-- ===== src/Pnp/Memory.antt =====
-- A table in memory, ordered by node ID, that meets the interface of Sqlite and never fails but on
-- a primary key that is taken. It shows that the interface's laws can hold, and runs the tests.
pub mod Rows
pub mod Laws
