-- ===== src/Task/Db/Tasks.antt =====
-- task.sql.go and batch.sql.go on the table task. An UPDATE gives the new table and, where the
-- program reads it, the number of rows; one that the dedup index can refuse gives an `Option`.
use text.Mathlib.Text.{◌==◌ as str_eq}
use edub_kushim.Base.{
  ℕ, String, Bool, false, ◌&&◌, Option, none, some, List, any, ◌==◌, if◌then◌else◌,
}
use edub_kushim.Base.Tables.{update_where, select_where, count_where, find_where, is_id}
use edub_kushim.Types.{TaskStatus, TaskType, same_type}
use edub_kushim.Types.Statuses.{is_pending, is_processing, is_waiting, is_live, is_unstarted}
use edub_kushim.Task.Json.{Raw}
use edub_kushim.Task.Db.Rows.{Db, TaskRow}
use edub_kushim.Task.Db.Owners.{batch_leased_by}

abbrev pub with_tasks : Db → List TaskRow → Db
with_tasks db tasks = record db { tasks = tasks }

abbrev pub in_batch : ℕ → TaskRow → Bool
in_batch b t = is_id t.batch_id b

abbrev same_key : Option String → Option String → Bool
same_key (some j) (some k) = str_eq j k
same_key _ _ = false

-- The partial unique index idx_task_dedup: another live row of the type has the key.
unfoldable pub dedup_taken : List TaskRow → TaskType → Option String → Bool
unfolding same_type
dedup_taken rows type key =
    any (λ t. is_live t.status && (same_type t.task_type type && same_key t.dedup_key key)) rows

-- ClaimTask
abbrev pub claimed_row : ℕ → TaskRow → TaskRow
claimed_row now t = record t {
  status = TaskStatus.processing;
  started_at = some now;
  progress = none;
}

unfoldable pub claim_task : ℕ → Db → ℕ × Db
unfolding update_where count_where
claim_task id db =
    let hit : TaskRow → Bool = λ t. t.id == id && is_pending t.status in
    (count_where hit db.tasks, with_tasks db (update_where hit (claimed_row db.now) db.tasks))

abbrev pub leased_task : Db → ℕ → ℕ → TaskRow → Bool
leased_task db id token t =
    t.id == id && (is_processing t.status && batch_leased_by db t.batch_id token)

abbrev pub completed_row : ℕ → Raw → TaskRow → TaskRow
completed_row now result t = record t {
  status = TaskStatus.completed;
  result = some result;
  completed_at = some now;
  attempts = 0;
}

-- CompleteBlockingTask
unfoldable pub complete_blocking_task : ℕ → Raw → ℕ → Db → ℕ × Db
unfolding update_where count_where batch_leased_by
complete_blocking_task id result token db =
    let hit = leased_task db id token in
    (
      count_where hit db.tasks,
      with_tasks db (update_where hit (completed_row db.now result) db.tasks),
    )

abbrev pub ended_row : TaskStatus → ℕ → String → TaskRow → TaskRow
ended_row status now error t = record t {
  status = status;
  completed_at = some now;
  error = some error;
}

-- FailBlockingTask
unfoldable pub fail_blocking_task : ℕ → String → ℕ → Db → ℕ × Db
unfolding update_where count_where batch_leased_by
fail_blocking_task id error token db =
    let hit = leased_task db id token in
    (
      count_where hit db.tasks,
      with_tasks db (update_where hit (ended_row TaskStatus.failed db.now error) db.tasks),
    )

abbrev pub waiting_row : ℕ → TaskRow → Bool
waiting_row id t = t.id == id && is_waiting t.status

-- DiscardWaitingSuccessor
unfoldable pub discard_waiting_successor : ℕ → String → Db → ℕ × Db
unfolding update_where count_where
discard_waiting_successor id error db = (
  count_where (waiting_row id) db.tasks,
  with_tasks db
      (update_where (waiting_row id) (ended_row TaskStatus.discarded db.now error) db.tasks),
)

abbrev pub armed_row : Raw → String → TaskRow → TaskRow
armed_row payload key t = record t {
  status = TaskStatus.pending;
  payload = some payload;
  dedup_key = some key;
  error = none;
  completed_at = none;
}

-- SetWaitingSuccessorPending: `none` is a violation of the dedup index.
unfoldable pub set_waiting_successor_pending : ℕ → Raw → String → Db → Option (ℕ × Db)
unfolding update_where count_where dedup_taken
set_waiting_successor_pending id payload key db =
    if any (λ t. waiting_row id t && dedup_taken db.tasks t.task_type (some key)) db.tasks
    then none
    else some (
      count_where (waiting_row id) db.tasks,
      with_tasks db (update_where (waiting_row id) (armed_row payload key) db.tasks),
    )

-- ListWaitingSuccessorsByParent, in enqueue order
unfoldable pub list_waiting_successors : ℕ → Db → List TaskRow
unfolding select_where
list_waiting_successors parent db =
    select_where (λ t. is_id t.parent_task_id parent && is_waiting t.status) db.tasks

-- GetNextPendingTaskOfTypeForOwner reads it; the conditions on batch and locks are the caller's.
unfoldable pub get_task : ℕ → Db → Option TaskRow
unfolding find_where
get_task id db = find_where (λ t. t.id == id) db.tasks

abbrev pub cancelled_row : ℕ → TaskRow → TaskRow
cancelled_row now t = record t { status = TaskStatus.cancelled; completed_at = some now }

-- CancelPendingTasksByBatch
unfoldable pub cancel_pending_tasks : ℕ → Db → ℕ × Db
unfolding update_where count_where
cancel_pending_tasks b db =
    let hit : TaskRow → Bool = λ t. in_batch b t && is_unstarted t.status in
    (count_where hit db.tasks, with_tasks db (update_where hit (cancelled_row db.now) db.tasks))

-- CancelProcessingTasksByBatch
unfoldable pub cancel_processing_tasks : ℕ → Db → ℕ × Db
unfolding update_where count_where
cancel_processing_tasks b db =
    let hit : TaskRow → Bool = λ t. in_batch b t && is_processing t.status in
    (count_where hit db.tasks, with_tasks db (update_where hit (cancelled_row db.now) db.tasks))

-- CountProcessingTasks
unfoldable pub count_processing_tasks : List TaskType → Db → ℕ
unfolding count_where same_type
count_processing_tasks types db =
    count_where (λ t. is_processing t.status && any (same_type t.task_type) types) db.tasks
