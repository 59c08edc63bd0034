-- ===== src/Examples/Batches.antt =====
-- Runs of the batch operations on the small tables.
use edub_kushim.Base.{
  ◌≢◌, ◌==◌, suc, ℕ, String, ◌≡◌, ◌⊎◌, refl, Bool, true, false, none, some, List, [], ◌∷◌, all, not,
}
use edub_kushim.Base.Tables.{put, count_where}
use edub_kushim.Types.{TaskType, BatchStatus, LockName, maintenance, storage, terminal}
use edub_kushim.Task.Errors.{TaskError, ok, err, batch_not_found, batch_terminal}
use edub_kushim.Task.Db.{Db, BatchRow, declared}
use edub_kushim.Task.Db.Batches.{create_batch, resumable}
use edub_kushim.Task.Catalog.{Catalog}
use edub_kushim.Task.Locks.{
  acquire_locks, acquire_locks_query, count_held_locks, lock_is_held, held_by_batch,
}
use edub_kushim.Task.Locks.Exclusion.{Free, Taken, acquire_locks-Taken}
use edub_kushim.Task.Batch.Settling.{
  declared_tasks, trigger_batch, create_follow_up_tasks, create_follow_up_batch, claim_batch,
  settle_batch, pause_batch,
}
use edub_kushim.Task.Batch.Sequels.{NoTask, Created, Appended, create_follow_up_batch-outcome}
use edub_kushim.Task.Batch.Claims.{Granted, claim_batch-outcome}
use edub_kushim.Task.Batch.Settlement.{
  ready_to_settle, settled_status, settle_batch-outcome, MayPause, pause_batch-outcome,
}
use edub_kushim.Task.Batch.Moving.{cancel_batch, resume_batch, live_lease}
use edub_kushim.Task.Batch.Withdrawal.{Withdrawn, report_of, cancel_batch-outcome}
use edub_kushim.Task.Batch.Resumption.{Requeued, resume_batch-outcome}
use edub_kushim.Task.Lifecycle.{Op, exec, run, is_resume}
use edub_kushim.Task.Lifecycle.Graph.{Evolves}
use edub_kushim.Task.Lifecycle.Paths.{exec-Evolves, terminal-run}
use edub_kushim.Examples.Data.{batch_at, busy, done, claim_1, run_2, payload, all_types}

abbrev no_types : Catalog
no_types type = none

abbrev counting : ℕ → ℕ
counting n = n

exec-Evolves_example :
    Evolves false (done.batches 2) ((exec (Op.settle no_types counting run_2) done).batches 2)
exec-Evolves_example = exec-Evolves (Op.settle no_types counting run_2) done 2

-- the settled tables, and two operations that come too late
abbrev settled : Db
settled = record done { batches = put 2 (batch_at BatchStatus.completed) done.batches }

abbrev late : List Op
late = Op.settle no_types counting run_2 ∷ Op.cancel (λ p. true) (λ p. true) 2 ∷ []

late_free : all (λ op. not (is_resume op)) late ≡ true
late_free = refl

completed_is_terminal : terminal BatchStatus.completed ≡ true
unfolding terminal
completed_is_terminal = refl

terminal-run_example : (run late settled).batches 2 ≡ some (batch_at BatchStatus.completed)
terminal-run_example = terminal-run late settled 2 refl completed_is_terminal late_free

claim_batch-outcome_example :
    ((e : TaskError) × (claim_batch claim_1 busy ≡ (err e, busy)))
    ⊎ ((row : BatchRow) × (busy.batches 1 ≡ some row)
        × ((claim_batch claim_1 busy).0 ≡ ok tt)
        × Granted claim_1 row busy (claim_batch claim_1 busy).1)
claim_batch-outcome_example = claim_batch-outcome claim_1 busy

-- the tables with the lock that claim_1 takes
abbrev locked : Db
locked = (acquire_locks_query (some 5) (some 1) (maintenance ∷ []) busy).1

acquired : acquire_locks (maintenance ∷ []) (storage ∷ []) (some 5) (some 1) busy ≡ ok locked
unfolding acquire_locks acquire_locks_query count_held_locks count_where lock_is_held
acquired = refl

acquire_locks-Taken_example :
    Free (maintenance ∷ []) busy
    × Free (storage ∷ []) busy
    × Taken (maintenance ∷ []) (some 5) (some 1) busy locked
acquire_locks-Taken_example =
    acquire_locks-Taken (maintenance ∷ []) (storage ∷ []) (some 5) (some 1) busy acquired

settle_batch-outcome_example :
    ((done.batches 2 ≡ none)
      × (settle_batch no_types counting run_2 done ≡ (err batch_not_found, done)))
    ⊎ ((row : BatchRow) × (done.batches 2 ≡ some row)
        × (ready_to_settle row run_2 done ≡ false)
        × (settle_batch no_types counting run_2 done ≡ (ok row.status, done)))
    ⊎ ((row : BatchRow) × (done.batches 2 ≡ some row)
        × (ready_to_settle row run_2 done ≡ true)
        × ((settle_batch no_types counting run_2 done).0 ≡ ok (settled_status 2 done))
        × ((settle_batch no_types counting run_2 done).1.batches 2
            ≡ some (record row { status = settled_status 2 done }))
        × ((name : LockName)
            → held_by_batch 2 ((settle_batch no_types counting run_2 done).1.signals name) ≡ false))
settle_batch-outcome_example = settle_batch-outcome no_types counting run_2 done

pause_batch-outcome_example :
    (¬ MayPause run_2 busy × (pause_batch run_2 busy ≡ (false, busy)))
    ⊎ ((may : MayPause run_2 busy) × ((pause_batch run_2 busy).0 ≡ true)
        × ((pause_batch run_2 busy).1.batches 2
            ≡ some (record may.row { status = BatchStatus.paused }))
        × ((pause_batch run_2 busy).1.owners 2 ≡ none)
        × ((name : LockName) → held_by_batch 2 ((pause_batch run_2 busy).1.signals name) ≡ false)
        × ((pause_batch run_2 busy).1.tasks ≡ busy.tasks)
        × ((j : ℕ) → (j == 2) ≡ false → (pause_batch run_2 busy).1.batches j ≡ busy.batches j))
pause_batch-outcome_example = pause_batch-outcome run_2 busy

abbrev everyone : ℕ → Bool
everyone pid = true

cancel_batch-outcome_example :
    ((busy.batches 2 ≡ none)
      × (cancel_batch everyone everyone 2 busy ≡ (err batch_not_found, busy)))
    ⊎ ((row : BatchRow) × (busy.batches 2 ≡ some row)
        × (terminal row.status ≡ true)
        × (cancel_batch everyone everyone 2 busy ≡ (err batch_terminal, busy)))
    ⊎ ((row : BatchRow) × (busy.batches 2 ≡ some row)
        × (terminal row.status ≡ false)
        × ((cancel_batch everyone everyone 2 busy).0 ≡ ok (report_of everyone everyone 2 busy))
        × Withdrawn 2 row busy (cancel_batch everyone everyone 2 busy).1)
cancel_batch-outcome_example = cancel_batch-outcome everyone everyone 2 busy

abbrev constant_text : ℕ → String
constant_text n = "Max retries exceeded"

-- batch 2 was paused, with its task interrupted
abbrev halted : Db
halted = record busy {
  batches = put 2 (batch_at BatchStatus.paused) busy.batches;
  owners = λ b. none;
}

resume_batch-outcome_example :
    ((resume_batch constant_text 2 3 false halted).1 ≡ halted)
    ⊎ ((row : BatchRow) × (halted.batches 2 ≡ some row)
        × (resumable row.status ≡ true)
        × (live_lease halted (halted.owners 2) ≡ false)
        × Requeued 2 row (resume_batch constant_text 2 3 false halted).1)
resume_batch-outcome_example = resume_batch-outcome constant_text 2 3 false halted

-- a completed batch that declared one task and settled
abbrev declaring : BatchRow
declaring = record (batch_at BatchStatus.completed) {
  follow_up = some (declared (record { task_type = TaskType.enrich; payload = payload } ∷ []));
}

create_follow_up_batch-outcome_example :
    ((create_follow_up_batch all_types counting declaring done ≡ done)
      × (((BatchStatus.completed ≢ BatchStatus.completed)
            × (BatchStatus.completed ≢ BatchStatus.failed))
          ⊎ (declared_tasks declaring.follow_up ≡ [])
          ⊎ NoTask (
              create_follow_up_tasks all_types
                (λ n. counting (suc n))
                0
                (declared_tasks declaring.follow_up)
                0
                (create_batch 0 trigger_batch done))))
    ⊎ ((m : ℕ) × ((BatchStatus.completed ≡ BatchStatus.completed)
          ⊎ (BatchStatus.completed ≡ BatchStatus.failed))
        × Created 0 done (create_follow_up_batch all_types counting declaring done)
        × Appended 0 (suc m) done (create_follow_up_batch all_types counting declaring done))
create_follow_up_batch-outcome_example =
    create_follow_up_batch-outcome all_types counting declaring done
