-- ===== src/Ops/Dispatcher.antt =====
-- internal/ops/dispatch/dispatcher.go: the sweep over the queued candidates, and what follows a launch that
-- fails. The tables are as each query finds them; the processes that run beside a sweep are not modelled, and
-- a child's exit is a step of its own. `tokens b` is the uuid drawn for batch `b`, and `forks b` tells
-- whether its command starts.
pub mod Budget
pub mod Relaunch
use edub_kushim.Base.{
  ℕ, zero, suc, ◌+◌, Bool, true, false, not, ◌&&◌, ◌||◌, List, [], ◌∷◌, Option, none, some, ltb,
  leb, ◌==◌, if◌then◌else◌,
}
use edub_kushim.Base.Tables.{put, delete}
use edub_kushim.Types.{TaskType, LockName, Host, lock_declaration_for}
use edub_kushim.Task.Errors.{Result, ok, err}
use edub_kushim.Task.Catalog.{Catalog}
use edub_kushim.Task.Db.{Db, OwnerRow}
use edub_kushim.Task.Db.Owners.{release_batch_owner}
use edub_kushim.Task.Db.Batches.{requeue_processing_batch}
use edub_kushim.Task.Locks.{release_locks_for_batch, union_lock_names}
use edub_kushim.Task.Batch.Settling.{ClaimRequest, claim_batch}
use edub_kushim.Task.Batch.Moving.{fail_unstarted_batch}
use edub_kushim.Ops.Launch.{
  LaunchTarget, Resolution, refused, launch, resolve_launch_target, in_process_eligible,
  lock_sets_from, batch_lock_sets, no_locks,
}
use edub_kushim.Ops.Backoff.{
  Failures, LaunchFailure, max_launch_failures, cooling, record_failure, clear_failure,
}

-- EffectiveBudget; a configured value that is not positive is 0 here.
unfoldable pub effective_budget : ℕ → ℕ
effective_budget configured = if ltb 0 configured then configured else 2

pub record Candidate : Type 0 where
  pub batch : ℕ
  pub task_types : List TaskType

-- What this process is: its identity, host, and the types it runs itself.
pub record Dispatcher : Type 0 where
  pub catalog : Catalog
  pub host : Host
  pub dispatcher_id : ℕ
  pub in_process : Option (List TaskType)

abbrev claimed : Result (Unit {0}) × Db → Bool × Db
claimed (ok u, db) = (true, db)
claimed (err e, db) = (false, db)

-- claimCandidate: whether the claim landed.
unfoldable pub claim_candidate : Dispatcher → ℕ → ℕ → List LockName × List LockName → Db → Bool × Db
unfolding claim_batch
claim_candidate d b token (holds, waits) db = claimed (
    claim_batch
      (record {
        batch = b;
        exec_token = token;
        holds = holds;
        waits = waits;
        dispatcher = some d.dispatcher_id;
      })
      db)

-- requeueAfterLaunchFailure: without the lease the transaction is rolled back.
unfoldable pub requeue_after_launch_failure : ℕ → ℕ → Db → Db
unfolding release_batch_owner release_locks_for_batch requeue_processing_batch
requeue_after_launch_failure b token db =
    let (released, db₁) = release_batch_owner b token db in
    if released then (requeue_processing_batch b (release_locks_for_batch b db₁)).1 else db

-- handleLaunchFailure; the retry after the delay is a wake of the dispatcher.
unfoldable pub handle_launch_failure : ℕ → ℕ → ℕ → Failures → Db → Failures × Db
unfolding record_failure
handle_launch_failure b token now failures db =
    let ((count, delay), after) = record_failure b now failures in
    if leb max_launch_failures count
    then (after, (fail_unstarted_batch b token db).1)
    else (after, requeue_after_launch_failure b token db)

abbrev unadopted : ℕ → Option OwnerRow → Bool
unadopted token none = false
unadopted token (some o) = o.owner_id == token && o.pid == 0

-- childExited, by whether the exit was clean.
unfoldable pub child_exited : Bool → ℕ → ℕ → ℕ → Failures → Db → Failures × Db
unfolding clear_failure handle_launch_failure
child_exited clean b token now failures db =
    if clean
    then (clear_failure b failures, db)
    else if not (unadopted token (db.owners b))
    then (clear_failure b failures, db)
    else handle_launch_failure b token now failures db

-- What a sweep has at hand, and the batches it has started, the last one first.
pub record Sweep : Type 0 where
  pub db : Db
  pub failures : Failures
  pub live : ℕ
  pub started : List Candidate

-- How the sweep goes on after a candidate: with the next, or not at all.
pub data Progress : Type 0 where
  go_on : Sweep → Progress
  stop : Sweep → Progress

module _ (d : Dispatcher) (tokens : ℕ → ℕ) (forks : ℕ → Bool) (now budget : ℕ) where
  abbrev pub holds_of : Candidate → List LockName
  holds_of c = (batch_lock_sets c.task_types).0

  -- A batch that holds no lock, with the budget used up.
  unfoldable pub over_budget : Candidate → Sweep → Bool
  over_budget c s = no_locks (holds_of c) && leb budget s.live

  unfoldable pub with_started : Candidate → Db → Sweep → Sweep
  with_started c db s = record {
    db = db;
    failures = s.failures;
    live = if no_locks (holds_of c) then suc s.live else s.live;
    started = c ∷ s.started;
  }

  -- The run in this process starts with the claim.
  unfoldable pub start_in_process : Candidate → Sweep → Progress
  start_in_process c s =
      let (landed, db) =
        claim_candidate d c.batch (tokens c.batch) (batch_lock_sets c.task_types) s.db in
      if over_budget c s
      then go_on s
      else if not landed
      then go_on (record s { db = db })
      else go_on (with_started c db s)

  unfoldable pub fork_candidate : Candidate → Sweep → Progress
  fork_candidate c s =
      let (landed, db) =
        claim_candidate d c.batch (tokens c.batch) (batch_lock_sets c.task_types) s.db in
      if over_budget c s
      then go_on s
      else if not landed
      then go_on (record s { db = db })
      else if not (forks c.batch)
      then (let (failures, after) =
            handle_launch_failure c.batch (tokens c.batch) now s.failures db in
          stop (record { db = after; failures = failures; live = s.live; started = s.started }))
      else go_on (with_started c db s)

  unfoldable pub sweep_candidate : Candidate → Sweep → Progress
  sweep_candidate c s =
      if cooling c.batch now s.failures
      then go_on s
      else if in_process_eligible d.catalog d.host d.in_process c.task_types
      then start_in_process c s
      else elim (resolve_launch_target d.catalog c.batch c.task_types d.host) [
        | refused e ↦ go_on s
        | launch target ↦ fork_candidate c s
      ]

  unfoldable pub sweep : List Candidate → Sweep → Sweep
  unfolding sweep_candidate
  sweep [] s = s
  sweep (c ∷ candidates) s = elim (sweep_candidate c s) [
    | go_on next ↦ sweep candidates next
    | stop end_of_sweep ↦ end_of_sweep
  ]
