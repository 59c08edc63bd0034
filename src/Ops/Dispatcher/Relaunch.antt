-- ===== src/Ops/Dispatcher/Relaunch.antt =====
-- internal/ops/dispatch/dispatcher.go and launcher.go: a batch whose launch failed.
use edub_kushim.Base.{
  ℕ, suc, ◌+◌, ◌*◌, ◌^◌, ◌-◌, Option, ◌≡◌, inl, inr, true, false, none, some, leb, if◌then◌else◌,
  arith, Bool-cases,
}
use edub_kushim.Types.{BatchStatus, LockName}
use edub_kushim.Types.Statuses.{batch_processing}
use edub_kushim.Task.Db.{Db, BatchRow}
use edub_kushim.Task.Db.Owners.{owned_by}
use edub_kushim.Task.Locks.{held_by_batch}
use edub_kushim.Task.Batch.Moving.{fail_unstarted_batch}
use edub_kushim.Ops.Backoff.{Failures, LaunchFailure, count_of, max_launch_failures}
use edub_kushim.Ops.Dispatcher.{requeue_after_launch_failure, handle_launch_failure}

-- The batch gave up its lease and its locks, and has the status.
pub record Returned (b : ℕ) (status : BatchStatus) (row : BatchRow) (after : Db) : Type 0 where
  pub has_status : after.batches b ≡ some (record row { status = status })
  pub no_lease : after.owners b ≡ none
  pub no_lock : (name : LockName) → held_by_batch b (after.signals name) ≡ false

-- The status that the policy gives, by the failures that were counted before.
abbrev pub next_status : ℕ → BatchStatus
next_status before =
    if leb max_launch_failures (suc before) then BatchStatus.failed else BatchStatus.queued

pub by_count :
    (b token now : ℕ) (failures : Failures) (db : Db)
    → (handle_launch_failure b token now failures db).1 ≡ (
        if leb max_launch_failures (suc (count_of (failures b)))
        then (fail_unstarted_batch b token db).1
        else requeue_after_launch_failure b token db)
unfolding handle_launch_failure
by_count b token now failures db =
    elim (Bool-cases (leb max_launch_failures (suc (count_of (failures b))))) [
      | inl e ↦ ground (arith, e)
      | inr e ↦ ground (arith, e)
    ]

-- What is remembered of a batch after the failed launch that follows so many others.
abbrev remembered : ℕ → ℕ → Option LaunchFailure
remembered now before =
    if leb max_launch_failures (suc before)
    then none
    else some (record { count = suc before; next_attempt = now + 5 * 2 ^ (suc before - 1) })

-- A launch that failed at a time, on these tables and with this token.
pub record Failed (b : ℕ) : Type 0 where
  pub token : ℕ
  pub at : ℕ
  pub db : Db

abbrev pub outcome_of : (b : ℕ) → Failed b → Failures → Failures × Db
outcome_of b f failures = handle_launch_failure b f.token f.at failures f.db

-- What the launch's batch comes to: a token that does not hold the lease any more changes no table, and a
-- processing batch that it leases is returned with the status.
pub record Relaunched (b : ℕ) (status : BatchStatus) (f : Failed b) (after : Db) : Type 0 where
  pub fenced : owned_by (f.db.owners b) f.token ≡ false → after ≡ f.db
  pub returned :
      (row : BatchRow)
      → f.db.batches b ≡ some row
      → batch_processing row.status ≡ true
      → owned_by (f.db.owners b) f.token ≡ true
      → Returned b status row after
