-- ===== src/Task.antt =====
-- The task system, internal/task, over the tables of internal/database.
pub mod Json
pub mod Errors
pub mod Db
pub mod Locks
pub mod Catalog
pub mod Batch
pub mod Store
pub mod Enqueue
pub mod Successors
pub mod Runner
pub mod Run
pub mod Lifecycle
