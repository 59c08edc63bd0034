-- ===== src/Task/Batch/Moving.antt =====
-- Resetting, cancelling, failing and resuming a batch. `alive` and `signalled` are the answers of the
-- operating system: whether a positive pid is a live process, and whether SIGTERM was delivered.
use edub_kushim.Base.{
  ℕ, String, Bool, true, false, ◌&&◌, not, Option, none, some, List, [], ◌∷◌, ltb, ◌==◌,
  if◌then◌else◌,
}
use edub_kushim.Types.{TaskType, same_type, terminal}
use edub_kushim.Types.Statuses.{is_unstarted}
use edub_kushim.Base.Tables.{count_where}
use edub_kushim.Task.Errors.{
  Result, ok, err, batch_not_found, batch_terminal, batch_locked, batch_not_resumable,
  dedup_violation,
}
use edub_kushim.Task.Db.{Db, OwnerRow}
use edub_kushim.Task.Db.Owners.{stale_lease, release_batch_owner}
use edub_kushim.Task.Db.Tasks.{in_batch, cancel_pending_tasks, cancel_processing_tasks}
use edub_kushim.Task.Db.Cascade.{restore_discarded_successors}
use edub_kushim.Task.Db.Resets.{
  TaskIdentity, quarantine_processing_tasks, reset_processing_tasks, retry_failed_tasks,
}
use edub_kushim.Task.Db.Batches.{
  set_batch_cancelled, set_batch_failed, set_batch_resumed, resumable,
}
use edub_kushim.Task.Locks.{release_locks_for_batch}

abbrev pub lease_stale_seconds : ℕ
lease_stale_seconds = 15

pub record ResetResult : Type 0 where
  pub reset : ℕ
  pub quarantined : List TaskIdentity

-- ConsumeTaskIDs
unfoldable pub consume_task_ids : List TaskIdentity → List ℕ
unfolding same_type
consume_task_ids [] = []
consume_task_ids (t ∷ ts) =
    let rest = consume_task_ids ts in
    if same_type t.task_type TaskType.consume then t.task_id ∷ rest else rest

module _ (retries_text : ℕ → String) where
  -- resetProcessingTx, with the locks released first where it takes the batch over
  unfoldable pub reset_processing : ℕ → ℕ → Bool → Db → ResetResult × Db
  reset_processing b limit release_locks db =
      let db₀ = if release_locks then release_locks_for_batch b db else db in
      let (quarantined, db₁) = quarantine_processing_tasks retries_text b limit db₀ in
      let (reset, db₂) = reset_processing_tasks b limit db₁ in
      (record { reset = reset; quarantined = quarantined }, restore_discarded_successors b db₂)

pub record ResumeResult : Type 0 where
  pub resumed : Bool
  pub resume_reset : ℕ
  pub failed_retried : ℕ

unfoldable pub retried : ℕ → Bool → Db → Option (ℕ × Db)
unfolding retry_failed_tasks restore_discarded_successors
retried b include_failed db =
    if include_failed
    then elim (retry_failed_tasks b db) [
      | none ↦ none
      | some (n, after) ↦ some (n, restore_discarded_successors b after)
    ]
    else some (0, db)

-- counts.Pending + counts.Waiting
unfoldable pub unstarted_tasks : ℕ → Db → ℕ
unfolding count_where
unstarted_tasks b db = count_where (λ t. in_batch b t && is_unstarted t.status) db.tasks

abbrev pub live_lease : Db → Option OwnerRow → Bool
unfolding stale_lease
live_lease db none = false
live_lease db (some o) = not (stale_lease db.now lease_stale_seconds o)

unfoldable pub drop_lease : ℕ → Option OwnerRow → Db → Db
unfolding release_batch_owner
drop_lease b none db = db
drop_lease b (some o) db = (release_batch_owner b o.owner_id db).1

module _ (retries_text : ℕ → String) where
  -- The transaction of ResumeBatch: what it returns, and the tables where it commits.
  unfoldable pub resume_work : ℕ → ℕ → Bool → Db → Result ResumeResult × Option Db
  unfolding retried unstarted_tasks drop_lease
  resume_work b limit include_failed db =
      let (reset, db₁) = reset_processing retries_text b limit true db in
      elim (retried b include_failed db₁) [
        | none ↦ (err dedup_violation, none)
        | some (n, db₂) ↦
            let report = λ (done : Bool).
              let r : Result ResumeResult =
                ok (record { resumed = done; resume_reset = reset.reset; failed_retried = n }) in
              r in
            let (written, queued) = set_batch_resumed b db₂ in
            if unstarted_tasks b db₂ == 0
            then (report false, none)
            else if written
            then (report true, some (drop_lease b (db.owners b) queued))
            else (report false, none)
      ]

  abbrev pub committed {ℓ} : {A : Type ℓ} → Db → A × Option Db → A × Db
  committed db (r, none) = (r, db)
  committed db (r, some after) = (r, after)

  -- ResumeBatch
  unfoldable pub resume_batch : ℕ → ℕ → Bool → Db → Result ResumeResult × Db
  unfolding stale_lease
  resume_batch b limit include_failed db = elim (db.batches b) [
    | none ↦ (err batch_not_found, db)
    | some row ↦
        if not (resumable row.status)
        then (err batch_not_resumable, db)
        else if live_lease db (db.owners b)
        then (err batch_locked, db)
        else committed db (resume_work b limit include_failed db)
  ]

pub record CancelResult : Type 0 where
  pub pending_cancelled : ℕ
  pub processing_cancelled : ℕ
  pub owner_pid : ℕ
  pub owner_alive : Bool
  pub signalled : Bool

abbrev pub pid_of : Option OwnerRow → ℕ
pid_of none = 0
pid_of (some o) = o.pid

-- IsAlive: a pid that is not positive is never alive.
unfoldable pub is_alive : (ℕ → Bool) → ℕ → Bool
is_alive alive pid = ltb 0 pid && alive pid

-- The cancel transaction.
unfoldable pub cancel_work : (ℕ → Bool) → (ℕ → Bool) → ℕ → Db → Result CancelResult × Db
unfolding is_alive drop_lease
cancel_work alive signal_lands b db =
    let (pending, db₁) = cancel_pending_tasks b db in
    let (processing, db₂) = cancel_processing_tasks b db₁ in
    let (written, db₃) = set_batch_cancelled b (release_locks_for_batch b db₂) in
    let pid = pid_of (db.owners b) in
    if written
    then (
      ok (record {
        pending_cancelled = pending;
        processing_cancelled = processing;
        owner_pid = pid;
        owner_alive = is_alive alive pid;
        signalled = is_alive alive pid && signal_lands pid;
      }),
      drop_lease b (db.owners b) db₃,
    )
    else (err batch_terminal, db)

-- CancelBatch
unfoldable pub cancel_batch : (ℕ → Bool) → (ℕ → Bool) → ℕ → Db → Result CancelResult × Db
cancel_batch alive signal_lands b db = elim (db.batches b) [
  | none ↦ (err batch_not_found, db)
  | some row ↦
      if terminal row.status then (err batch_terminal, db) else cancel_work alive signal_lands b db
]

-- FailUnstartedBatch: whether it applied.
unfoldable pub fail_unstarted_batch : ℕ → ℕ → Db → Bool × Db
fail_unstarted_batch b token db =
    let (released, db₁) = release_batch_owner b token db in
    let db₂ = (cancel_pending_tasks b db₁).1 in
    let db₃ = (cancel_processing_tasks b db₂).1 in
    let (written, db₄) = set_batch_failed b (release_locks_for_batch b db₃) in
    if released then (true, db₄) else (false, db)
