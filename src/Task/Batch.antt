-- ===== src/Task/Batch.antt =====
-- internal/task/batch.go: the lifecycle of a batch. An operation takes the tables and returns its
-- value or error with the tables after its transaction; an error, and a return before the commit,
-- leave them as they were.
pub mod Rest
pub mod Settling
pub mod Moving
pub mod Claims
pub mod Withdrawal
pub mod Sequels
pub mod Resumption
pub mod Settlement
