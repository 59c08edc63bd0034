-- ===== src/Task/Runner/Outcome.antt =====
-- Runner.Next: what it leaves of the task that it claimed.
use Prim.Native.String.{◌++◌ as ◌<>◌}
use edub_kushim.Base.{
  ℕ, zero, suc, String, ◌≡◌, refl, inl, inr, Bool, true, false, Option, none, some, List, arith,
  Bool-cases, Option-cases,
}
use edub_kushim.Types.{TaskType}
use edub_kushim.Task.Json.{Raw}
use edub_kushim.Task.Errors.{ok}
use edub_kushim.Task.Db.{Db, TaskRow}
use edub_kushim.Task.Db.Tasks.{list_waiting_successors}
use edub_kushim.Task.Catalog.{Catalog}
use edub_kushim.Task.Store.{SuccessorPlan, SuccessorOutcome}
use edub_kushim.Task.Store.Idle.{Idle, fail_task-Idle, complete_task-Idle}
use edub_kushim.Task.Store.Claiming.{claim_next_pending}
use edub_kushim.Task.Successors.{PlanError, plan_successors}
use edub_kushim.Task.Runner.{
  World, Handled, returned, failed, panicked, Tried, landed, gave_up, NextError, complete_from,
  complete_task_with_retry, fail_claimed, settle_run, fail_and_settle, pause_or_settle, conclude,
  complete_planned, lost_unless, after_claim, finish, run_claimed, run_next,
}
use edub_kushim.Task.Runner.Resting.{settle-Idle, pause-Idle}

module _ (render : PlanError → String) (catalog : Catalog) (w : World) (task : TaskRow) (token : ℕ)
    (lands : w.fail_refused ≡ false)
    (others : (db : Db) → Idle task.id token db → Idle task.id token (w.before_settle db)) where
  settle_run-Idle :
      (batch : Option ℕ) (db : Db)
      → Idle task.id token db
      → Idle task.id token (settle_run render catalog w task token batch db)
  unfolding settle_run
  settle_run-Idle none db h = h
  settle_run-Idle (some b) db h =
      let settled =
        settle-Idle catalog w.uuids task.id token (record { batch = b; owner = some token }) db h in
      elim (Bool-cases w.settle_refused) [
        | inl e ↦ ground (arith, h)
        | inr e ↦ ground (arith, settled)
      ]

  fail_and_settle-Idle :
      (message : String) (db : Db)
      → Idle task.id token (fail_and_settle render catalog w task token message db).1
  unfolding fail_and_settle fail_claimed
  fail_and_settle-Idle message db = ground (
    arith,
    lands,
    settle_run-Idle task.batch_id _
        (others _ (fail_task-Idle task.id token task.task_id message db)),
  )

  pause_or_settle-Idle :
      (pause : Bool) (batch : Option ℕ) (db : Db)
      → Idle task.id token db
      → Idle task.id token (pause_or_settle render catalog w task token pause batch db)
  unfolding pause_or_settle
  pause_or_settle-Idle true (some b) db h = elim (Bool-cases w.pause_refused) [
    | inl e ↦ ground (arith, h)
    | inr e ↦ ground (arith, pause-Idle task.id token b db h)
  ]
  pause_or_settle-Idle true none db h = settle_run-Idle none db h
  pause_or_settle-Idle false none db h = settle_run-Idle none db h
  pause_or_settle-Idle false (some b) db h = settle_run-Idle (some b) db h

  lost_unless-Idle :
      (e : NextError) (out : Bool × Db)
      → Idle task.id token out.1
      → Idle task.id token (lost_unless e out).1
  lost_unless-Idle e (true, db) h = h
  lost_unless-Idle e (false, db) h = h

  -- A completion that landed left the task idle.
  landed-Idle :
      (result : Raw) (plans : List SuccessorPlan) (left n : ℕ) (db : Db) (rows : ℕ)
      (outcomes : List SuccessorOutcome) (after : Db)
      → complete_from w task token result plans left n db ≡ (landed rows outcomes, after)
      → Idle task.id token after
  unfolding complete_from
  landed-Idle result plans zero n db rows outcomes after h =
      elim (Option-cases (w.complete_error n)) [
        | inl e ↦ ground (arith, complete_task-Idle task.id token result plans db)
        | inr (text, e) ↦ ground arith
      ]
  landed-Idle result plans (suc left) n db rows outcomes after h =
      elim (Option-cases (w.complete_error n)) [
        | inl e ↦ ground (arith, complete_task-Idle task.id token result plans db)
        | inr (text, e) ↦ elim (Option-cases (w.interrupted n)) [
          | inl go ↦
              let later = w.meanwhile (suc n) db in
              landed-Idle result plans left (suc n) later rows outcomes after (ground arith)
          | inr (done, stop) ↦ ground arith
        ]
      ]

  conclude-Idle :
      (tried : Tried × Db)
      → ((rows : ℕ) (outcomes : List SuccessorOutcome) (after : Db)
          → tried ≡ (landed rows outcomes, after)
          → Idle task.id token after)
      → Idle task.id token (conclude render catalog w task token tried).1
  unfolding conclude
  conclude-Idle (landed rows outcomes, db) h =
      settle_run-Idle task.batch_id _ (others db (h rows outcomes db refl))
  conclude-Idle (gave_up e, db) h =
      lost_unless-Idle NextError.completion_lost (fail_and_settle render catalog w task token _ db)
        (fail_and_settle-Idle _ db)

  complete_planned-Idle :
      (result : Raw) (db : Db)
      → Idle task.id token (complete_planned render catalog w task token result db).1
  unfolding complete_planned complete_task_with_retry
  complete_planned-Idle result db = elim (Option-cases w.read_error) [
    | inr (e, why) ↦
        let message = "plan waiting successors: " <> e in
        let idle =
          lost_unless-Idle NextError.plans_lost
            (fail_and_settle render catalog w task token message db)
            (fail_and_settle-Idle message db) in
        ground (arith, idle)
    | inl fine ↦
        let plans =
          plan_successors render catalog (list_waiting_successors task.task_id db) result in
        let later = w.meanwhile 0 db in
        let idle =
          conclude-Idle (complete_from w task token result plans 2 0 later)
            (landed-Idle result plans 2 0 later) in
        ground (arith, idle)
  ]

  finish-Idle :
      (handled : Handled × Db) → Idle task.id token (finish render catalog w task token handled).1
  unfolding finish fail_claimed
  finish-Idle (returned result, db) = complete_planned-Idle result db
  finish-Idle (failed message pause, db) =
      let idle =
        pause_or_settle-Idle pause task.batch_id _
          (others _ (fail_task-Idle task.id token task.task_id message db)) in
      ground (arith, lands, idle)
  finish-Idle (panicked message, db) = fail_and_settle-Idle _ db

  run_claimed-Idle : (db : Db) → Idle task.id token (run_claimed render catalog w task token db).1
  unfolding run_claimed
  run_claimed-Idle db = elim (Option-cases task.payload) [
    | inl e ↦ ground (arith, fail_and_settle-Idle "task has nil payload" db)
    | inr (payload, e) ↦ elim (Bool-cases (w.registered task.task_type)) [
      | inl known ↦ ground (arith, finish-Idle (w.handle task db))
      | inr unknown ↦ ground (arith, fail_and_settle-Idle (w.unknown_type task.task_type) db)
    ]
  ]

-- Where Next claims a task and a write that fails a task is not refused by the database, the task is not
-- processing under the run's lease when Next is done with it: whatever the handler did or returned,
-- whatever others wrote while it ran, and however many tries to complete were refused. What others do just
-- before the batch is settled is supposed not to hand the task out again.
pub run_next-Idle :
    (render : PlanError → String) (catalog : Catalog) (w : World) (token : ℕ) (type : TaskType)
    (db : Db) {task : TaskRow} {claimed : Db}
    → claim_next_pending (some token) type db ≡ (ok task, claimed)
    → w.fail_refused ≡ false
    → ((later : Db) → Idle task.id token later → Idle task.id token (w.before_settle later))
    → Idle task.id token (run_next render catalog w token type db).1
unfolding run_next after_claim
run_next-Idle render catalog w token type db {task} {claimed} claim lands others =
    ground (arith, run_claimed-Idle render catalog w task token lands others claimed)
