-- ===== src/Task/Batch/Withdrawal.antt =====
-- CancelBatch: what a cancelled batch leaves behind.
use edub_kushim.Base.{
  map, [], ◌∷◌, ℕ, ◌≡◌, refl, ◌⊎◌, inl, inr, arith, Bool, true, false, ◌&&◌, not, Option, none,
  some, List, ◌==◌, if◌then◌else◌, Bool-cases, Option-cases, ==_refl, ap, sym, subst, ◌∙◌,
}
use edub_kushim.Base.Tables.{count_where, update_where, select_where}
use edub_kushim.Base.Updates.{any-none, any-update_where, select_where-update_where}
use edub_kushim.Types.{BatchStatus, TaskStatus, LockName, terminal}
use edub_kushim.Types.Statuses.{is_active, is_unstarted, is_processing}
use edub_kushim.Task.Errors.{ok, err, batch_not_found, batch_terminal}
use edub_kushim.Task.Db.{Db, BatchRow, OwnerRow, TaskRow}
use edub_kushim.Task.Db.Owners.{release_batch_owner}
use edub_kushim.Task.Db.Tasks.{
  in_batch, cancelled_row, cancel_pending_tasks, cancel_processing_tasks,
}
use edub_kushim.Task.Db.Batches.{put_batch, has_active_task, set_batch_cancelled, set_batch_status}
use edub_kushim.Task.Locks.{release_locks_for_batch, held_by_batch}
use edub_kushim.Task.Batch.Moving.{
  is_alive, pid_of, CancelResult, cancel_batch, cancel_work, drop_lease,
}

abbrev both_cancelled : ℕ → Db → Db
both_cancelled b db = (cancel_processing_tasks b (cancel_pending_tasks b db).1).1

abbrev unstarted_in : ℕ → TaskRow → Bool
unstarted_in b t = in_batch b t && is_unstarted t.status

abbrev processing_in : ℕ → TaskRow → Bool
processing_in b t = in_batch b t && is_processing t.status

cancelled-inactive : (b : ℕ) (db : Db) → has_active_task b (both_cancelled b db) ≡ false
unfolding cancel_pending_tasks cancel_processing_tasks
cancelled-inactive b db =
    let active : TaskRow → Bool = λ t. in_batch b t && is_active t.status in
    let set = cancelled_row db.now in
    let twice : TaskRow → Bool = λ t. active (if processing_in b t then set t else t) in
    any-update_where active (processing_in b) set (update_where (unstarted_in b) set db.tasks)
    ∙ any-update_where twice (unstarted_in b) set db.tasks
    ∙ any-none (λ t. twice (if unstarted_in b t then set t else t)) db.tasks (λ t. ground arith)

-- the tasks of other batches, and those of none
abbrev pub others : ℕ → Db → List TaskRow
others b db = select_where (λ t. not (in_batch b t)) db.tasks

cancelled-others : (b : ℕ) (db : Db) → others b (both_cancelled b db) ≡ others b db
unfolding cancel_pending_tasks cancel_processing_tasks
cancelled-others b db =
    let other : TaskRow → Bool = λ t. not (in_batch b t) in
    let set = cancelled_row db.now in
    select_where-update_where other (processing_in b) set
      (update_where (unstarted_in b) set db.tasks) (λ t h. ground arith)
    ∙ select_where-update_where other (unstarted_in b) set db.tasks (λ t h. ground arith)

-- The statuses of a task that a cancel ends.
abbrev unended : TaskStatus → Bool
unended TaskStatus.pending = true
unended TaskStatus.processing = true
unended TaskStatus.waiting = true
unended _ = false

-- A row after the cancel: a task of the batch that has not ended is cancelled at this time, with all its
-- other columns; every other row is as it was.
abbrev pub withdrawn : ℕ → ℕ → TaskRow → TaskRow
withdrawn b now t =
    if in_batch b t && unended t.status
    then record t { status = TaskStatus.cancelled; completed_at = some now }
    else t

cancelled-row :
    (b now : ℕ) (t : TaskRow) (status : TaskStatus)
    → t.status ≡ status
    → (let once = if unstarted_in b t then cancelled_row now t else t in
        if processing_in b once then cancelled_row now once else once)
      ≡ withdrawn b now t
cancelled-row b now t TaskStatus.pending e = ground arith
cancelled-row b now t TaskStatus.processing e = ground arith
cancelled-row b now t TaskStatus.waiting e = ground arith
cancelled-row b now t status e = ground arith

cancelled-rows :
    (b now : ℕ) (rows : List TaskRow)
    → update_where
        (processing_in b)
        (cancelled_row now)
        (update_where (unstarted_in b) (cancelled_row now) rows)
      ≡ map (withdrawn b now) rows
unfolding update_where
cancelled-rows b now [] = refl
cancelled-rows b now (t ∷ rows) =
    λ i. cancelled-row b now t t.status refl i ∷ cancelled-rows b now rows i

cancelled-tasks :
    (b : ℕ) (db : Db) → (both_cancelled b db).tasks ≡ map (withdrawn b db.now) db.tasks
unfolding cancel_pending_tasks cancel_processing_tasks
cancelled-tasks b db = cancelled-rows b db.now db.tasks

-- The batch is cancelled, with no lease, no lock and no task to run; its tasks that had not ended are
-- cancelled with their other columns as they were, and nothing else changed.
pub record Withdrawn (b : ℕ) (row : BatchRow) (db after : Db) : Type 0 where
  pub is_cancelled : after.batches b ≡ some (record row { status = BatchStatus.cancelled })
  pub no_active_task : has_active_task b after ≡ false
  pub no_lock : (name : LockName) → held_by_batch b (after.signals name) ≡ false
  pub no_lease : after.owners b ≡ none
  pub other_batches : (j : ℕ) → (j == b) ≡ false → after.batches j ≡ db.batches j
  pub other_leases : (j : ℕ) → (j == b) ≡ false → after.owners j ≡ db.owners j
  pub other_locks :
      (name : LockName)
      → held_by_batch b (db.signals name) ≡ false
      → after.signals name ≡ db.signals name
  pub other_tasks : others b after ≡ others b db
  pub all_tasks : after.tasks ≡ map (withdrawn b db.now) db.tasks

pub drop_lease-none : (b : ℕ) (db : Db) → (drop_lease b (db.owners b) db).owners b ≡ none
unfolding drop_lease release_batch_owner
drop_lease-none b db = elim (Option-cases (db.owners b)) [
  | inl e ↦ ground arith
  | inr (o, e) ↦ ground (arith, ==_refl b, ==_refl o.owner_id)
]

abbrev marked : ℕ → BatchRow → Db → Db
marked b row db =
    put_batch b (record row { status = BatchStatus.cancelled })
      (release_locks_for_batch b (both_cancelled b db))

mark-cancelled :
    (b : ℕ) (db : Db) {row : BatchRow}
    → db.batches b ≡ some row
    → terminal row.status ≡ false
    → set_batch_cancelled b (release_locks_for_batch b (both_cancelled b db))
      ≡ (true, marked b row db)
unfolding set_batch_cancelled set_batch_status release_locks_for_batch cancel_pending_tasks
    cancel_processing_tasks terminal
mark-cancelled b db here live = ground arith

-- the counts of the two updates, and the owner's process and whether it was signalled
abbrev pub report_of : (ℕ → Bool) → (ℕ → Bool) → ℕ → Db → CancelResult
report_of alive signal_lands b db =
    let pid = pid_of (db.owners b) in
    record {
      pending_cancelled = count_where (unstarted_in b) db.tasks;
      processing_cancelled = count_where (processing_in b) (cancel_pending_tasks b db).1.tasks;
      owner_pid = pid;
      owner_alive = is_alive alive pid;
      signalled = is_alive alive pid && signal_lands pid;
    }

cancel_batch-run :
    (alive signal_lands : ℕ → Bool) (b : ℕ) (db : Db) {row : BatchRow}
    → db.batches b ≡ some row
    → terminal row.status ≡ false
    → cancel_batch alive signal_lands b db
      ≡ (ok (report_of alive signal_lands b db), drop_lease b (db.owners b) (marked b row db))
unfolding cancel_batch cancel_work cancel_pending_tasks cancel_processing_tasks
cancel_batch-run alive signal_lands b db here live = ground (arith, mark-cancelled b db here live)

pub drop_lease-keeps :
    (b : ℕ) (o : Option OwnerRow) (db : Db)
    → ((drop_lease b o db).batches ≡ db.batches)
      × ((drop_lease b o db).signals ≡ db.signals)
      × ((drop_lease b o db).tasks ≡ db.tasks)
unfolding drop_lease release_batch_owner
drop_lease-keeps b none db = (refl, refl, refl)
drop_lease-keeps b (some o) db = (ground arith, ground arith, ground arith)

drop_lease-others :
    (b : ℕ) (o : Option OwnerRow) (db : Db) (j : ℕ)
    → (j == b) ≡ false
    → (drop_lease b o db).owners j ≡ db.owners j
unfolding drop_lease release_batch_owner
drop_lease-others b none db j h = refl
drop_lease-others b (some o) db j h = ground arith

tables-Withdrawn :
    (b : ℕ) (row : BatchRow) (db : Db)
    → Withdrawn b row db (drop_lease b (db.owners b) (marked b row db))
unfolding release_locks_for_batch cancel_pending_tasks cancel_processing_tasks
tables-Withdrawn b row db =
    let x = marked b row db in
    let (same_batches, same_signals, same_tasks) = drop_lease-keeps b (db.owners b) x in
    record {
      is_cancelled = ground (arith, same_batches, ==_refl b);
      no_active_task = rw same_tasks (cancelled-inactive b db);
      no_lock = λ name. ground (arith, same_signals);
      no_lease = drop_lease-none b x;
      other_batches = λ j h. ground (arith, same_batches);
      other_leases = λ j h. drop_lease-others b (db.owners b) x j h;
      other_locks = λ name h. ground (arith, same_signals);
      other_tasks = rw same_tasks (cancelled-others b db);
      all_tasks = rw same_tasks (cancelled-tasks b db);
    }

-- Cancelling an unknown or an ended batch is an error that changes nothing; cancelling any other
-- batch commits and reports the cancelled tasks and the owner. The batch is then cancelled, with no lease and
-- no lock; its pending, processing and waiting tasks are cancelled with their other columns as they were, and
-- no other row of the tables has changed.
pub cancel_batch-outcome :
    (alive signal_lands : ℕ → Bool) (b : ℕ) (db : Db)
    → ((db.batches b ≡ none) × (cancel_batch alive signal_lands b db ≡ (err batch_not_found, db)))
      ⊎ ((row : BatchRow) × (db.batches b ≡ some row)
          × (terminal row.status ≡ true)
          × (cancel_batch alive signal_lands b db ≡ (err batch_terminal, db)))
      ⊎ ((row : BatchRow) × (db.batches b ≡ some row)
          × (terminal row.status ≡ false)
          × ((cancel_batch alive signal_lands b db).0 ≡ ok (report_of alive signal_lands b db))
          × Withdrawn b row db (cancel_batch alive signal_lands b db).1)
unfolding cancel_batch
cancel_batch-outcome alive signal_lands b db = elim (Option-cases (db.batches b)) [
  | inl e ↦ inl (e, ground arith)
  | inr (row, e) ↦ elim (Bool-cases (terminal row.status)) [
    | inl ended ↦ inr (inl (row, e, ended, ground arith))
    | inr live ↦
        let ran = cancel_batch-run alive signal_lands b db e live in
        inr (
          inr (
            row,
            e,
            live,
            ap (λ r. r.0) ran,
            subst (Withdrawn b row db) (sym (ap (λ r. r.1) ran)) (tables-Withdrawn b row db),
          ))
  ]
]
