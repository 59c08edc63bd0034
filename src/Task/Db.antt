-- ===== src/Task/Db.antt =====
-- The tables that the task system reads and writes, and the queries of internal/database on them.
-- Ids, uuids and tokens are compared only by equality, so they are numbers. A table with a primary
-- key is a function; the task table is a list in insertion order. `now` is the database clock in
-- seconds, constant in a transaction.
mod Rows
pub mod Owners
pub mod Tasks
pub mod Cascade
pub mod Resets
pub mod Batches
pub use Rows.*
