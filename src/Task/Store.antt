-- ===== src/Task/Store.antt =====
-- internal/task/store.go: claiming, completing and failing a task under the lease of its batch.
pub mod Claiming
pub mod Guards
pub mod Eligibility
pub mod Claims
pub mod Idle
use Prim.Native.String.{◌++◌ as ◌<>◌}
use edub_kushim.Base.{
  ℕ, zero, suc, ◌+◌, String, Bool, true, false, ◌&&◌, ◌||◌, not, Option, none, some, List, [], ◌∷◌,
  any, ltb, ◌==◌, if◌then◌else◌,
}
use edub_kushim.Task.Json.{Raw}
use edub_kushim.Task.Db.{Db, TaskRow}
use edub_kushim.Task.Db.Tasks.{
  complete_blocking_task, fail_blocking_task, discard_waiting_successor,
  set_waiting_successor_pending,
}
use edub_kushim.Task.Db.Cascade.{discard_waiting_branch}

pub data Activation : Type 0 where
  activated discarded_duplicate discarded_invalid already_transitioned : Activation

-- One waiting successor's activation input; with an error the payload and the key are not used.
pub record SuccessorPlan : Type 0 where
  pub id : ℕ
  pub task_id : ℕ
  pub payload : Raw
  pub dedup_key : String
  pub error : Option String

pub record SuccessorOutcome : Type 0 where
  pub task_id : ℕ
  pub activation : Activation
  pub error : Option String

-- discardDuplicateSuccessor: the row and the waiting branch below it
unfoldable pub discard_duplicate_successor : SuccessorPlan → Db → Db
discard_duplicate_successor plan db =
    let reason = "duplicate of live work: " <> plan.dedup_key in
    (discard_waiting_branch plan.task_id reason (discard_waiting_successor plan.id reason db).1).1

abbrev outcome_of : SuccessorPlan → Activation → Option String → SuccessorOutcome
outcome_of plan activation error = record {
  task_id = plan.task_id;
  activation = activation;
  error = error;
}

-- The branch of a plan that could not be completed.
abbrev discard_invalid : SuccessorPlan → String → Db → SuccessorOutcome × Db
discard_invalid plan error db =
    let (rows, after) = discard_waiting_successor plan.id error db in
    if rows == 0
    then (outcome_of plan already_transitioned none, after)
    else (outcome_of plan discarded_invalid (some error), after)

unfoldable pub activate_successor : SuccessorPlan → Db → SuccessorOutcome × Db
activate_successor plan db = elim plan.error [
  | some error ↦ discard_invalid plan error db
  | none ↦ elim (set_waiting_successor_pending plan.id plan.payload plan.dedup_key db) [
    | none ↦ (outcome_of plan discarded_duplicate none, discard_duplicate_successor plan db)
    | some (zero, after) ↦ (outcome_of plan already_transitioned none, after)
    | some (suc n, after) ↦ (outcome_of plan activated none, after)
  ]
]

unfoldable pub activate_successors : List SuccessorPlan → Db → List SuccessorOutcome × Db
activate_successors [] db = ([], db)
activate_successors (plan ∷ plans) db =
    let (outcome, after) = activate_successor plan db in
    let (outcomes, last) = activate_successors plans after in (outcome ∷ outcomes, last)

-- CompleteTask: the rows completed and what became of each successor.
unfoldable pub complete_task :
    ℕ → Raw → ℕ → List SuccessorPlan → Db → ℕ × List SuccessorOutcome × Db
complete_task id result token plans db =
    let (rows, completed) = complete_blocking_task id result token db in
    let (outcomes, after) = activate_successors plans completed in
    if rows == 0 then (0, [], db) else (rows, outcomes, after)

-- FailTask: the rows failed and the successors discarded.
unfoldable pub fail_task : ℕ → ℕ → String → ℕ → Db → ℕ × ℕ × Db
fail_task id task_id error token db =
    let (rows, failed) = fail_blocking_task id error token db in
    let (discarded, after) = discard_waiting_branch task_id error failed in
    if ltb 0 rows then (rows, discarded, after) else (rows, 0, failed)
