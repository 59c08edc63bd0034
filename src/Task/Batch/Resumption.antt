-- ===== src/Task/Batch/Resumption.antt =====
-- ResumeBatch: a batch goes back to the queue only if it has work, and without its old lease.
use edub_kushim.Base.{
  ℕ, ◌≡◌, refl, sym, subst, ◌∙◌, ◌⊎◌, inl, inr, arith, String, Bool, true, false, none, some, ◌==◌,
  Bool-cases, Option-cases, ==_refl,
}
use edub_kushim.Types.{BatchStatus, LockName}
use edub_kushim.Task.Db.{Db, BatchRow}
use edub_kushim.Task.Db.Cascade.{restore_discarded_successors}
use edub_kushim.Task.Db.Resets.{
  quarantine_processing_tasks, reset_processing_tasks, retry_failed_tasks,
}
use edub_kushim.Task.Db.Batches.{put_batch, set_batch_resumed, set_batch_status, resumable}
use edub_kushim.Task.Locks.{release_locks_for_batch, held_by_batch}
use edub_kushim.Task.Batch.Moving.{
  reset_processing, retried, unstarted_tasks, drop_lease, live_lease, resume_work, resume_batch,
}
use edub_kushim.Task.Batch.Withdrawal.{drop_lease-keeps, drop_lease-none}

-- The tables differ in the tasks only.
pub record OnlyTasks (db after : Db) : Type 0 where
  pub same_batches : after.batches ≡ db.batches
  pub same_owners : after.owners ≡ db.owners
  pub same_signals : after.signals ≡ db.signals

OnlyTasks-reset :
    (text : ℕ → String) (b limit : ℕ) (db : Db)
    → OnlyTasks (release_locks_for_batch b db) (reset_processing text b limit true db).1
unfolding reset_processing quarantine_processing_tasks reset_processing_tasks
    restore_discarded_successors
OnlyTasks-reset text b limit db = record {
  same_batches = refl;
  same_owners = refl;
  same_signals = refl;
}

OnlyTasks-retried :
    (b : ℕ) (include_failed : Bool) (db : Db) {n : ℕ} {after : Db}
    → retried b include_failed db ≡ some (n, after)
    → OnlyTasks db after
unfolding retried retry_failed_tasks restore_discarded_successors
OnlyTasks-retried b false db h = record {
  same_batches = ground arith;
  same_owners = ground arith;
  same_signals = ground arith;
}
OnlyTasks-retried b true db h = record {
  same_batches = ground arith;
  same_owners = ground arith;
  same_signals = ground arith;
}

-- The batch is queued again, with a task to run, no lease and no lock.
pub record Requeued (b : ℕ) (row : BatchRow) (after : Db) : Type 0 where
  pub is_queued : after.batches b ≡ some (record row { status = BatchStatus.queued })
  pub has_no_lease : after.owners b ≡ none
  pub has_no_lock : (name : LockName) → held_by_batch b (after.signals name) ≡ false
  pub has_work : (unstarted_tasks b after == 0) ≡ false

abbrev queued_again : ℕ → BatchRow → Db → Db
queued_again b row db = put_batch b (record row { status = BatchStatus.queued }) db

requeued :
    (b : ℕ) (row : BatchRow) (db worked : Db)
    → OnlyTasks (release_locks_for_batch b db) worked
    → (unstarted_tasks b worked == 0) ≡ false
    → Requeued b row (drop_lease b (db.owners b) (queued_again b row worked))
unfolding release_locks_for_batch unstarted_tasks
requeued b row db worked only work =
    let x = queued_again b row worked in
    let (same_batches, same_signals, same_tasks) = drop_lease-keeps b (db.owners b) x in
    record {
      is_queued = ground (arith, same_batches, ==_refl b);
      has_no_lease =
          subst (λ f. (drop_lease b (f b) x).owners b ≡ none) only.same_owners
            (drop_lease-none b x);
      has_no_lock = λ name. ground (arith, same_signals, only.same_signals);
      has_work = rw same_tasks work;
    }

resume_cases :
    (text : ℕ → String) (b limit : ℕ) (include_failed : Bool) (db : Db) {row : BatchRow}
    → db.batches b ≡ some row
    → resumable row.status ≡ true
    → ((resume_work text b limit include_failed db).1 ≡ none)
      ⊎ ((after : Db) × ((resume_work text b limit include_failed db).1 ≡ some after)
          × Requeued b row after)
unfolding resume_work set_batch_resumed set_batch_status release_locks_for_batch
resume_cases text b limit include_failed db {row} here fits =
    let reset = (reset_processing text b limit true db).1 in
    elim (Option-cases (retried b include_failed reset)) [
      | inl e ↦ inl (ground arith)
      | inr ((n, worked), e) ↦ elim (Bool-cases (unstarted_tasks b worked == 0)) [
        | inl idle ↦ inl (ground arith)
        | inr work ↦
            let first = OnlyTasks-reset text b limit db in
            let second = OnlyTasks-retried b include_failed reset e in
            let only : OnlyTasks (release_locks_for_batch b db) worked = record {
              same_batches = second.same_batches ∙ first.same_batches;
              same_owners = second.same_owners ∙ first.same_owners;
              same_signals = second.same_signals ∙ first.same_signals;
            } in
            inr (
              drop_lease b (db.owners b) (queued_again b row worked),
              ground (arith, only.same_batches),
              requeued b row db worked only work,
            )
      ]
    ]

-- Resuming a batch either changes nothing, or the batch was paused or had ended, its lease, if there was
-- one, was stale, and it is now queued, with a task to run, no lease and no lock.
pub resume_batch-outcome :
    (text : ℕ → String) (b limit : ℕ) (include_failed : Bool) (db : Db)
    → ((resume_batch text b limit include_failed db).1 ≡ db)
      ⊎ ((row : BatchRow) × (db.batches b ≡ some row)
          × (resumable row.status ≡ true)
          × (live_lease db (db.owners b) ≡ false)
          × Requeued b row (resume_batch text b limit include_failed db).1)
unfolding resume_batch
resume_batch-outcome text b limit include_failed db = elim (Option-cases (db.batches b)) [
  | inl absent ↦ inl (ground arith)
  | inr (row, here) ↦ elim (Bool-cases (resumable row.status)) [
    | inr ended ↦ inl (ground arith)
    | inl fits ↦ elim (Bool-cases (live_lease db (db.owners b))) [
      | inl live ↦ inl (ground arith)
      | inr stale ↦ elim (resume_cases text b limit include_failed db here fits) [
        | inl kept ↦ inl (ground arith)
        | inr (after, e, again) ↦
            let same : (resume_batch text b limit include_failed db).1 ≡ after = ground arith in
            inr (row, here, fits, stale, subst (Requeued b row) (sym same) again)
      ]
    ]
  ]
]
