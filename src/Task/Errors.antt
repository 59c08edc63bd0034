-- ===== src/Task/Errors.antt =====
-- What an operation of internal/task returns: a value, or one of the package's errors. The errors of
-- the database itself (a lost connection, a failed commit) are not modelled.
pub data TaskError : Type 0 where
  lock_busy batch_not_found batch_not_queued batch_locked batch_terminal : TaskError
  batch_not_resumable claim_refused dedup_violation no_owner no_rows lease_lost : TaskError

pub data Result (A : Type 0) : Type 0 where
  ok : A → Result A
  err : TaskError → Result A
