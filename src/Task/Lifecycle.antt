-- ===== src/Task/Lifecycle.antt =====
-- Every operation that writes a batch's status or its lease, as a step on the tables.
pub mod Graph
pub mod Steps
pub mod FollowUps
pub mod Enqueueing
pub mod Paths
use edub_kushim.Base.{ℕ, String, Bool, true, false, Option, List, [], ◌∷◌}
use edub_kushim.Types.{TaskType, LockName}
use edub_kushim.Task.Json.{Raw}
use edub_kushim.Task.Db.{Db}
use edub_kushim.Task.Db.Owners.{
  adopt_batch_owner, heartbeat_batch_owner, release_batch_owner, release_stale_batch_owner,
}
use edub_kushim.Task.Db.Cascade.{discard_orphaned_successors}
use edub_kushim.Task.Db.Batches.{requeue_processing_batch}
use edub_kushim.Task.Errors.{Result, ok, err}
use edub_kushim.Task.Locks.{
  acquire_locks, release_locks_for_token, release_locks_for_batch, touch_locks_for_token,
}
use edub_kushim.Task.Catalog.{Catalog}
use edub_kushim.Task.Enqueue.{TaskSpec, BatchSpec}
use edub_kushim.Task.Enqueue.Inserting.{enqueue_batch}
use edub_kushim.Task.Store.{SuccessorPlan, complete_task, fail_task}
use edub_kushim.Task.Store.Claiming.{claim_next_pending}
use edub_kushim.Task.Batch.Settling.{
  ClaimRequest, Execution, claim_batch, settle_batch, pause_batch,
}
use edub_kushim.Task.Batch.Moving.{
  reset_processing, resume_batch, cancel_batch, fail_unstarted_batch,
}

-- What the program and its environment may do next, with the answers of the outside world.
pub data Op : Type 0 where
  enqueue : Catalog → (ℕ → ℕ) → BatchSpec → List TaskSpec → Op
  claim : ClaimRequest → Op
  settle : Catalog → (ℕ → ℕ) → Execution → Op
  pause : Execution → Op
  cancel : (alive signal_lands : ℕ → Bool) → ℕ → Op
  fail_unstarted : (batch token : ℕ) → Op
  reset : (ℕ → String) → (batch limit : ℕ) → Bool → Op
  resume : (ℕ → String) → (batch limit : ℕ) → Bool → Op
  requeue : ℕ → Op
  adopt : (batch token pid : ℕ) → Op
  heartbeat : ℕ → Op
  release : (batch token : ℕ) → Op
  release_stale : (batch token pid window : ℕ) → Op
  claim_task : Option ℕ → TaskType → Op
  complete : (id : ℕ) → Raw → (token : ℕ) → List SuccessorPlan → Op
  fail : (id task_id : ℕ) → String → (token : ℕ) → Op
  sweep_orphans : ℕ → Op
  acquire : (holds waits : List LockName) → (token batch : Option ℕ) → Op
  release_locks : Option ℕ → List LockName → Op
  release_batch_locks : ℕ → Op
  touch_locks : Option ℕ → List LockName → Op
  tick : ℕ → Op

-- The transaction of AcquireLocks commits or changes nothing.
abbrev pub locked_or_kept : Db → Result Db → Db
locked_or_kept db (ok locked) = locked
locked_or_kept db (err e) = db

-- The tables after the operation.
unfoldable pub exec : Op → Db → Db
exec (enqueue catalog uuids spec tasks) db = (enqueue_batch catalog uuids spec tasks db).1
exec (claim request) db = (claim_batch request db).1
exec (settle catalog uuids execution) db = (settle_batch catalog uuids execution db).1
exec (pause execution) db = (pause_batch execution db).1
exec (cancel alive signal_lands b) db = (cancel_batch alive signal_lands b db).1
exec (fail_unstarted b token) db = (fail_unstarted_batch b token db).1
exec (reset text b limit locks) db = (reset_processing text b limit locks db).1
exec (resume text b limit failed) db = (resume_batch text b limit failed db).1
exec (requeue b) db = (requeue_processing_batch b db).1
exec (adopt b token pid) db = (adopt_batch_owner b token pid db).1
exec (heartbeat token) db = heartbeat_batch_owner token db
exec (release b token) db = (release_batch_owner b token db).1
exec (release_stale b token pid window) db = (release_stale_batch_owner b token pid window db).1
exec (claim_task owner type) db = (claim_next_pending owner type db).1
exec (complete id result token plans) db = ((complete_task id result token plans db).2)
exec (fail id task_id error token) db = ((fail_task id task_id error token db).2)
exec (sweep_orphans b) db = (discard_orphaned_successors b db).1
exec (acquire holds waits token b) db = locked_or_kept db (acquire_locks holds waits token b db)
exec (release_locks token names) db = release_locks_for_token token names db
exec (release_batch_locks b) db = release_locks_for_batch b db
exec (touch_locks token names) db = touch_locks_for_token token names db
exec (tick now) db = record db { now = now }

abbrev pub is_resume : Op → Bool
is_resume (resume text b limit failed) = true
is_resume _ = false

unfoldable pub run : List Op → Db → Db
unfolding exec
run [] db = db
run (op ∷ ops) db = run ops (exec op db)
