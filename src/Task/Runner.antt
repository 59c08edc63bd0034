-- ===== src/Task/Runner.antt =====
-- internal/task/execute.go: Runner.Next, which claims one task of a type, hands it to its handler and
-- writes what became of it. The world is what the handlers return, what others write between the
-- runner's own transactions, and which writes the database refuses. The calls of the logger have no effect
-- on the tables.
pub mod Resting
pub mod Outcome
pub mod Attempts
use Prim.Native.String.{◌++◌ as ◌<>◌}
use edub_kushim.Base.{
  ℕ, zero, suc, ◌-◌, String, Bool, true, false, Option, none, some, List, if◌then◌else◌,
}
use edub_kushim.Types.{TaskType}
use edub_kushim.Task.Json.{Raw}
use edub_kushim.Task.Errors.{Result, ok, err, no_rows}
use edub_kushim.Task.Db.{Db, TaskRow}
use edub_kushim.Task.Db.Tasks.{list_waiting_successors}
use edub_kushim.Task.Catalog.{Catalog}
use edub_kushim.Task.Store.{SuccessorPlan, SuccessorOutcome, complete_task, fail_task}
use edub_kushim.Task.Store.Claiming.{claim_next_pending}
use edub_kushim.Task.Successors.{PlanError, plan_successors}
use edub_kushim.Task.Batch.Settling.{settle_batch, pause_batch}

-- What a handler's call comes to; `pause` is the flag PauseBatch of the error.
pub data Handled : Type 0 where
  returned : Raw → Handled
  failed : String → (pause : Bool) → Handled
  panicked : String → Handled

pub record World : Type 0 where
  -- whether the registry has a handler, and the text of its error where it has none
  pub registered : TaskType → Bool
  pub unknown_type : TaskType → String
  -- what the handler returns and the tables when it does: it may run for long
  pub handle : TaskRow → Db → Handled × Db
  -- the writes of others before the n-th try to complete, and before the batch is settled or paused
  pub meanwhile : ℕ → Db → Db
  pub before_settle : Db → Db
  -- errors of the database, each of which rolls its transaction back
  pub read_error : Option String
  pub complete_error : ℕ → Option String
  -- the context ended in the pause after the n-th try, with this error
  pub interrupted : ℕ → Option String
  pub fail_refused : Bool
  pub settle_refused : Bool
  pub pause_refused : Bool
  pub uuids : ℕ → ℕ

pub data Tried : Type 0 where
  landed : ℕ → List SuccessorOutcome → Tried
  gave_up : String → Tried

-- What Next reports of a task that it claimed, by the error that it returns.
pub data NextError : Type 0 where
  claim_failed panic_error plans_lost completion_lost : NextError

abbrev pub lost_unless : NextError → Bool × Db → Option NextError × Db
lost_unless e (true, db) = (none, db)
lost_unless e (false, db) = (some e, db)

-- failTask: whether the write landed.
unfoldable pub fail_claimed : World → TaskRow → ℕ → String → Db → Bool × Db
fail_claimed w task token message db =
    if w.fail_refused
    then (false, db)
    else (true, (fail_task task.id task.task_id message token db).2)

module _ (w : World) (task : TaskRow) (token : ℕ) where
  -- The attempts from the n-th on, counted from 0, with `left` retries after it.
  unfoldable pub complete_from : Raw → List SuccessorPlan → (left n : ℕ) → Db → Tried × Db
  complete_from result plans zero n db = elim (w.complete_error n) [
    | some e ↦ (gave_up e, db)
    | none ↦
        let (rows, outcomes, after) = complete_task task.id result token plans db in
        (landed rows outcomes, after)
  ]
  complete_from result plans (suc left) n db = elim (w.complete_error n) [
    | some e ↦ elim (w.interrupted n) [
      | some done ↦ (gave_up done, db)
      | none ↦ complete_from result plans left (suc n) (w.meanwhile (suc n) db)
    ]
    | none ↦
        let (rows, outcomes, after) = complete_task task.id result token plans db in
        (landed rows outcomes, after)
  ]

abbrev pub max_attempts : ℕ
max_attempts = 3

module _ (render : PlanError → String) (catalog : Catalog) (w : World) (task : TaskRow)
    (token : ℕ) where
  -- completeTaskWithRetry
  unfoldable pub complete_task_with_retry : Raw → List SuccessorPlan → Db → Tried × Db
  unfolding complete_from
  complete_task_with_retry result plans db =
      complete_from w task token result plans (max_attempts - 1) 0 db

  -- Runner.settle: the error is only logged, and a task without a batch settles nothing.
  unfoldable pub settle_run : Option ℕ → Db → Db
  settle_run none db = db
  settle_run (some b) db =
      if w.settle_refused
      then db
      else (settle_batch catalog w.uuids (record { batch = b; owner = some token }) db).1

  -- failAndSettle
  unfoldable pub fail_and_settle : String → Db → Bool × Db
  fail_and_settle message db =
      let (wrote, after) = fail_claimed w task token message db in
      if wrote then (true, settle_run task.batch_id (w.before_settle after)) else (false, after)

  -- the batch of a failed task, paused where the handler's error asks for it
  unfoldable pub pause_or_settle : Bool → Option ℕ → Db → Db
  pause_or_settle true (some b) db =
      if w.pause_refused then db else (pause_batch (record { batch = b; owner = some token }) db).1
  pause_or_settle true none db = settle_run none db
  pause_or_settle false batch db = settle_run batch db

  unfoldable pub conclude : Tried × Db → Option NextError × Db
  conclude (landed rows outcomes, db) = (none, settle_run task.batch_id (w.before_settle db))
  conclude (gave_up e, db) =
      lost_unless NextError.completion_lost
        (fail_and_settle ("complete task failed after retries: " <> e) db)

  -- buildSuccessorPlans, and the completion under its plans
  unfoldable pub complete_planned : Raw → Db → Option NextError × Db
  complete_planned result db = elim w.read_error [
    | some e ↦
        lost_unless NextError.plans_lost (fail_and_settle ("plan waiting successors: " <> e) db)
    | none ↦
        let children = list_waiting_successors task.task_id db in
        conclude (
          complete_task_with_retry result (plan_successors render catalog children result)
            (w.meanwhile 0 db))
  ]

  -- What follows the handler.
  unfoldable pub finish : Handled × Db → Option NextError × Db
  finish (returned result, db) = complete_planned result db
  finish (failed message pause, db) = (
    none,
    pause_or_settle pause task.batch_id (w.before_settle (fail_claimed w task token message db).1),
  )
  finish (panicked message, db) =
      (some NextError.panic_error, (fail_and_settle ("panic: " <> message) db).1)

  -- Next after the claim.
  unfoldable pub run_claimed : Db → Option NextError × Db
  run_claimed db = elim task.payload [
    | none ↦ (none, (fail_and_settle "task has nil payload" db).1)
    | some payload ↦
        if w.registered task.task_type
        then finish (w.handle task db)
        else (none, (fail_and_settle (w.unknown_type task.task_type) db).1)
  ]

unfoldable pub after_claim :
    (PlanError → String) → Catalog → World → ℕ → Result TaskRow × Db → Option NextError × Db
after_claim render catalog w token (ok task, claimed) =
    run_claimed render catalog w task token claimed
after_claim render catalog w token (err no_rows, db) = (none, db)
after_claim render catalog w token (err e, db) = (some NextError.claim_failed, db)

-- Next, for the store of a run that holds the lease under the token: no claimable task is an idle round.
unfoldable pub run_next :
    (PlanError → String) → Catalog → World → ℕ → TaskType → Db → Option NextError × Db
run_next render catalog w token type db =
    after_claim render catalog w token (claim_next_pending (some token) type db)
