-- ===== src/Task/Db/Resets.antt =====
-- The queries that hand interrupted and failed tasks back to the queue.
use edub_kushim.Base.{
  ℕ, ◌+◌, String, Bool, true, ◌&&◌, not, Option, none, some, List, [], ◌∷◌, map, ltb, leb,
  if◌then◌else◌,
}
use edub_kushim.Base.Tables.{update_where, select_where, count_where}
use edub_kushim.Types.{TaskStatus, TaskType}
use edub_kushim.Types.Statuses.{is_processing, is_failed, is_live}
use edub_kushim.Task.Db.Rows.{Db, TaskRow}
use edub_kushim.Task.Db.Tasks.{with_tasks, in_batch, dedup_taken, ended_row}

pub record TaskIdentity : Type 0 where
  pub task_id : ℕ
  pub task_type : TaskType

abbrev pub exhausted : ℕ → ℕ → TaskRow → Bool
exhausted b limit t = in_batch b t && (is_processing t.status && leb limit t.attempts)

abbrev pub retryable : ℕ → ℕ → TaskRow → Bool
retryable b limit t = in_batch b t && (is_processing t.status && ltb t.attempts limit)

module _ (retries_text : ℕ → String) where
  -- QuarantineProcessingTasksByBatch. `retries_text` renders 'Max retries exceeded (n)'.
  unfoldable pub quarantine_processing_tasks : ℕ → ℕ → Db → List TaskIdentity × Db
  unfolding update_where select_where
  quarantine_processing_tasks b limit db = (
    map (λ (t : TaskRow). record { task_id = t.task_id; task_type = t.task_type })
        (select_where (exhausted b limit) db.tasks),
    with_tasks db (
        update_where (exhausted b limit)
          (λ t. ended_row TaskStatus.failed db.now (retries_text t.attempts) t) db.tasks),
  )

abbrev requeued_row : TaskRow → TaskRow
requeued_row t = record t {
  status = TaskStatus.pending;
  attempts = t.attempts + 1;
  progress = none;
}

-- ResetProcessingTasksByBatch
unfoldable pub reset_processing_tasks : ℕ → ℕ → Db → ℕ × Db
unfolding update_where count_where
reset_processing_tasks b limit db = (
  count_where (retryable b limit) db.tasks,
  with_tasks db (update_where (retryable b limit) requeued_row db.tasks),
)

-- No two live rows share a type and a key.
unfoldable pub dedup_unique : List TaskRow → Bool
unfolding dedup_taken
dedup_unique [] = true
dedup_unique (t ∷ rows) =
    not (is_live t.status && dedup_taken rows t.task_type t.dedup_key) && dedup_unique rows

abbrev retried_row : TaskRow → TaskRow
retried_row t = record t {
  status = TaskStatus.pending;
  result = none;
  error = none;
  started_at = none;
  completed_at = none;
  attempts = 0;
}

-- RetryFailedTasksByBatch: `none` is a violation of the dedup index.
unfoldable pub retry_failed_tasks : ℕ → Db → Option (ℕ × Db)
unfolding update_where count_where dedup_unique
retry_failed_tasks b db =
    let hit : TaskRow → Bool = λ t. in_batch b t && is_failed t.status in
    let rows = update_where hit retried_row db.tasks in
    if dedup_unique rows then some (count_where hit db.tasks, with_tasks db rows) else none
