-- ===== src/Examples/Runs.antt =====
-- Runs over the small tables: batch 2 is processing under the lease of token 9, and its one task waits to
-- be claimed.
use edub_kushim.Base.{
  ap, arith, ◌≢◌, ℕ, String, ◌≡◌, ◌⊎◌, refl, ◌-◌, ◌+◌, ◌==◌, ltb, if◌then◌else◌, true, false, any,
  none, some, Option, [], ◌∷◌,
}
use mathlib.Core.List.{Memᴰ}
use edub_kushim.Types.{
  BatchStatus, TaskStatus, TaskType, task_types_waiting_on, lock_declaration_for,
}
use edub_kushim.Task.Json.{blank}
use edub_kushim.Task.Errors.{ok}
use edub_kushim.Task.Db.{Db, TaskRow}
use edub_kushim.Task.Db.Owners.{adopt_batch_owner, release_batch_owner}
use edub_kushim.Task.Store.Claiming.{claim_next_pending}
use edub_kushim.Task.Db.Tasks.{
  count_processing_tasks, complete_blocking_task, list_waiting_successors,
}
use edub_kushim.Task.Db.Cascade.{discard_orphaned_successors, restore_discarded_successors}
use edub_kushim.Task.Db.Resets.{reset_processing_tasks, quarantine_processing_tasks}
use edub_kushim.Task.Locks.{release_locks_for_token, release_locks_for_batch}
use edub_kushim.Task.Batch.Settling.{settle_batch, create_follow_up_batch, declared_batch}
use edub_kushim.Task.Batch.Moving.{reset_processing}
use edub_kushim.Task.Store.{complete_task, activate_successors}
use edub_kushim.Task.Store.Idle.{Idle}
use edub_kushim.Task.Successors.{PlanError, plan_successors}
use edub_kushim.Task.Runner.{
  World, Handled, returned, failed, complete_task_with_retry, finish, max_attempts, run_next,
  after_claim, run_claimed, complete_planned, conclude, settle_run,
}
use edub_kushim.Task.Runner.Outcome.{run_next-Idle}
use edub_kushim.Task.Runner.Attempts.{
  Lands, GivesUp, Paused, complete_task_with_retry-outcome, finish-Paused,
}
use edub_kushim.Task.Run.{
  RunWorld, Report, run_batch, held_locks, list_batch_task_types, run_claimed_batch, torn_down,
  run_adopted, after_drain, drained, work, teardown, end_run, close_run, settled_report,
  work_rounds,
}
use edub_kushim.Task.Run.Monitor.{
  monitor, look, has_live_task, seen, counted, completed, Decides, on_completed, ends_wait,
}
use edub_kushim.Task.Run.Teardown.{TornDown, starts, run_batch-TornDown}
use edub_kushim.Task.Run.Totality.{Ends, run_batch_total}
use edub_kushim.Examples.Data.{busy, done, all_types, batch_at, task_at, lease}

-- The lease is not adopted yet and the task has a payload.
abbrev open_task : TaskRow
open_task = record (task_at 12 2 TaskStatus.pending none) { payload = some blank }

abbrev ready : Db
ready = record busy {
  owners = λ b. if b == 2 then some (record lease { pid = 0 }) else none;
  tasks = open_task ∷ [];
}

abbrev no_render : PlanError → String
no_render e = ""

abbrev no_text : ℕ → String
no_text n = ""

abbrev ids : ℕ → ℕ
ids n = n + 100

-- The first two tries to complete are refused.
abbrev twice : ℕ → Option String
twice n = if ltb n 2 then some "busy" else none

abbrev world : Handled → World
world handled = record {
  registered = λ type. true;
  unknown_type = λ type. "unknown task type";
  handle = λ task db. (handled, db);
  meanwhile = λ n db. db;
  before_settle = λ db. db;
  read_error = none;
  complete_error = twice;
  interrupted = λ n. none;
  fail_refused = false;
  settle_refused = false;
  pause_refused = false;
  uuids = ids;
}

abbrev quiet_run : RunWorld
quiet_run = record {
  pid = 41;
  others = λ n db. db;
  reset_refused = false;
  polls = [];
  rounds = (world (returned blank), TaskType.consume) ∷ [];
  ticks = seen true done ∷ [];
  sweep_refused = false;
  settle_refused = false;
  release_refused = false;
  unlock_refused = false;
  requeue_refused = false;
  settle_uuids = ids;
}

abbrev claimed_task : TaskRow
claimed_task = record open_task { status = TaskStatus.processing; started_at = some 100 }

abbrev claimed_tables : Db
claimed_tables = record ready { tasks = claimed_task ∷ [] }

claims_it : claim_next_pending (some 9) TaskType.consume ready ≡ (ok claimed_task, claimed_tables)
unfolding claim_next_pending lock_declaration_for
claims_it = refl

quiet-Idle : (later : Db) → Idle 12 9 later → Idle 12 9 later
quiet-Idle later h = h

run_next-Idle_example :
    Idle 12 9 (run_next no_render all_types (world (returned blank)) 9 TaskType.consume ready).1
run_next-Idle_example =
    run_next-Idle no_render all_types (world (returned blank)) 9 TaskType.consume ready claims_it
      refl quiet-Idle

complete_task_with_retry-outcome_example :
    Lands (world (returned blank)) claimed_task 9 blank [] 0 (max_attempts - 1) claimed_tables (
      complete_task_with_retry no_render all_types
        (world (returned blank))
        claimed_task
        9
        blank
        []
        claimed_tables)
    ⊎ GivesUp (world (returned blank)) claimed_task 9 blank [] 0 (max_attempts - 1) claimed_tables (
        complete_task_with_retry no_render all_types
          (world (returned blank))
          claimed_task
          9
          blank
          []
          claimed_tables)
complete_task_with_retry-outcome_example =
    complete_task_with_retry-outcome (world (returned blank)) claimed_task 9 blank [] no_render
      all_types claimed_tables

undisturbed : (later : Db) → (later.batches 2 ≡ later.batches 2) × (later.owners 2 ≡ later.owners 2)
undisturbed later = (refl, refl)

finish-Paused_example :
    Paused 2
      (batch_at BatchStatus.processing)
      (finish no_render all_types
        (world (failed "no credit" true))
        claimed_task
        9
        (failed "no credit" true, claimed_tables)).1
finish-Paused_example =
    finish-Paused no_render all_types (world (failed "no credit" true)) claimed_task 9 2 refl refl
      undisturbed "no credit" claimed_tables {row = batch_at BatchStatus.processing} refl refl refl

abbrev run_2 : Option (Report × Db)
run_2 = run_batch no_render all_types no_text 3 quiet_run 2 9 ready

abbrev tables_of : Option (Report × Db) → Db
tables_of none = ready
tables_of (some (report, after)) = after

-- The run completes the task at the third try and settles the batch.
run_2_ends : run_2 ≡ some (Report.ended BatchStatus.completed, tables_of run_2)
unfolding run_batch run_claimed_batch list_batch_task_types adopt_batch_owner torn_down run_adopted
    after_drain drained held_locks work monitor look has_live_task teardown end_run close_run
    settled_report settle_batch work_rounds reset_processing release_batch_owner
    discard_orphaned_successors run_next after_claim run_claimed finish complete_planned conclude
    settle_run complete_task_with_retry claim_next_pending complete_task activate_successors
    lock_declaration_for restore_discarded_successors reset_processing_tasks
    quarantine_processing_tasks release_locks_for_token create_follow_up_batch
    release_locks_for_batch complete_blocking_task plan_successors list_waiting_successors
    declared_batch
run_2_ends = refl

run_2_completes : (tables_of run_2).batches 2 ≡ some (batch_at BatchStatus.completed)
unfolding run_batch run_claimed_batch list_batch_task_types adopt_batch_owner torn_down run_adopted
    after_drain drained held_locks work monitor look has_live_task teardown end_run close_run
    settled_report settle_batch work_rounds reset_processing release_batch_owner
    discard_orphaned_successors run_next after_claim run_claimed finish complete_planned conclude
    settle_run complete_task_with_retry claim_next_pending complete_task activate_successors
    lock_declaration_for restore_discarded_successors reset_processing_tasks
    quarantine_processing_tasks release_locks_for_token create_follow_up_batch
    release_locks_for_batch complete_blocking_task plan_successors list_waiting_successors
    declared_batch
run_2_completes = refl

run_batch-TornDown_example :
    ((starts 2 9 41 ready ≡ false) × (tables_of run_2 ≡ ready))
    ⊎ ((starts 2 9 41 ready ≡ true)
        × TornDown quiet_run 2 9
            (held_locks [] (list_batch_task_types 2 ready))
            (Report.ended BatchStatus.completed)
            (tables_of run_2))
run_batch-TornDown_example =
    run_batch-TornDown quiet_run 2 9 (λ n db h. h) (λ n db name h. h) no_render all_types no_text 3
      ready run_2_ends

-- A batch with a backup holds the maintenance lock and waits for one count of its waiters.
abbrev backup_batch : Db
backup_batch = record ready {
  tasks = record (task_at 12 2 TaskStatus.pending none) { task_type = TaskType.backup } ∷ [];
}

abbrev draining : RunWorld
draining = record quiet_run { polls = counted busy false ∷ counted done false ∷ [] }

ended_tasks :
    (t : TaskRow)
    → Memᴰ t done.tasks
    → t.batch_id ≡ some 2
    → (t.status ≢ TaskStatus.pending) × (t.status ≢ TaskStatus.processing)
ended_tasks t (Memᴰ.head e) here =
    let other = ap (λ (x : TaskRow). x.batch_id) e in ground (arith, other, here)
ended_tasks t (Memᴰ.tail (Memᴰ.head e)) here =
    let status = ap (λ (x : TaskRow). x.status) e in
    (λ p. ground (arith, status, p), λ p. ground (arith, status, p))
ended_tasks t (Memᴰ.tail (Memᴰ.tail m)) here = elim m [ ]

watched : Decides 2 draining.ticks
watched = record {
  tick = seen true done;
  ending = completed;
  member = Memᴰ.head refl;
  decides = on_completed {row = batch_at BatchStatus.processing} refl refl ended_tasks;
}

polled :
    any
      (ends_wait (task_types_waiting_on (held_locks [] (list_batch_task_types 2 backup_batch))))
      draining.polls
    ≡ true
unfolding count_processing_tasks task_types_waiting_on held_locks list_batch_task_types
polled = refl

run_batch_total_example : Ends (run_batch no_render all_types no_text 3 draining 2 9 backup_batch)
run_batch_total_example =
    run_batch_total no_render all_types no_text 3 draining 2 9 watched backup_batch polled
