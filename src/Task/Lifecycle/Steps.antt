-- ===== src/Task/Lifecycle/Steps.antt =====
-- Each operation follows the diagram at every batch.
use edub_kushim.Base.{
  ℕ, ◌≡◌, refl, sym, ◌⊎◌, inl, inr, Bool, true, false, Option, none, some, arith, Option-cases,
  String, subst, ◌∙◌,
}
use edub_kushim.Types.{BatchStatus}
use edub_kushim.Types.Statuses.{batch_queued, batch_processing}
use edub_kushim.Task.Db.{Db, BatchRow, OwnerRow}
use edub_kushim.Task.Db.Owners.{try_insert_batch_owner, release_batch_owner}
use edub_kushim.Task.Db.Tasks.{cancel_pending_tasks, cancel_processing_tasks}
use edub_kushim.Task.Db.Cascade.{restore_discarded_successors}
use edub_kushim.Task.Db.Resets.{
  quarantine_processing_tasks, reset_processing_tasks, retry_failed_tasks,
}
use edub_kushim.Task.Db.Batches.{
  set_batch_status, mark_batch_claimed, set_batch_paused, set_batch_cancelled, set_batch_failed,
  set_batch_resumed, requeue_processing_batch, cancellable, resumable,
}
use edub_kushim.Task.Locks.{acquire_locks, release_locks_for_batch}
use edub_kushim.Task.Batch.Settling.{ClaimRequest, Execution, claim_batch, pause_batch}
use edub_kushim.Task.Batch.Moving.{
  reset_processing, resume_batch, resume_work, retried, drop_lease, cancel_batch, cancel_work,
  fail_unstarted_batch,
}
use edub_kushim.Task.Lifecycle.Graph.{
  Evolves, claimed, broke, unlaunched, halted, withdrawn, stopped, dropped, handed_back, resumed,
  set_batch_status-Evolves,
}

-- An operation whose only write of a status is a guarded one follows the diagram with it.
pub Evolves-of_cases :
    {r : Bool} {before written after : Option BatchRow}
    → (after ≡ before) ⊎ (after ≡ written)
    → Evolves r before written
    → Evolves r before after
Evolves-of_cases (inl same) e = inl same
Evolves-of_cases {r} {before} (inr wrote) e = subst (Evolves r before) (sym wrote) e

pub mark-Evolves :
    (b j : ℕ) (db : Db) → Evolves false (db.batches j) ((mark_batch_claimed b db).1.batches j)
unfolding mark_batch_claimed
mark-Evolves b j db =
    set_batch_status-Evolves batch_queued BatchStatus.processing b j db
      (elim [ BatchStatus.queued ↦ λ _. claimed | _ ↦ λ h. cc ])

claim_cases :
    (claim : ClaimRequest) (db : Db) (j : ℕ)
    → ((claim_batch claim db).1.batches j ≡ db.batches j)
      ⊎ ((claim_batch claim db).1.batches j ≡ (mark_batch_claimed claim.batch db).1.batches j)
unfolding claim_batch mark_batch_claimed try_insert_batch_owner acquire_locks
claim_cases claim db j = ground arith

pub claim-Evolves :
    (claim : ClaimRequest) (db : Db) (j : ℕ)
    → Evolves false (db.batches j) ((claim_batch claim db).1.batches j)
claim-Evolves claim db j = Evolves-of_cases (claim_cases claim db j) (mark-Evolves claim.batch j db)

pause_cases :
    (execution : Execution) (db : Db) (j : ℕ)
    → ((pause_batch execution db).1.batches j ≡ db.batches j)
      ⊎ ((pause_batch execution db).1.batches j
          ≡ (set_batch_status batch_processing BatchStatus.paused execution.batch db).1.batches j)
unfolding pause_batch set_batch_paused release_batch_owner release_locks_for_batch
pause_cases execution db j = ground arith

pub pause-Evolves :
    (execution : Execution) (db : Db) (j : ℕ)
    → Evolves false (db.batches j) ((pause_batch execution db).1.batches j)
pause-Evolves execution db j = Evolves-of_cases (pause_cases execution db j) (
    set_batch_status-Evolves batch_processing BatchStatus.paused execution.batch j db
      (elim [ BatchStatus.processing ↦ λ _. halted | _ ↦ λ h. cc ]))

cancel_cases :
    (alive signal_lands : ℕ → Bool) (b : ℕ) (db : Db) (j : ℕ)
    → ((cancel_batch alive signal_lands b db).1.batches j ≡ db.batches j)
      ⊎ ((cancel_batch alive signal_lands b db).1.batches j
          ≡ (set_batch_cancelled b db).1.batches j)
unfolding cancel_batch cancel_work set_batch_cancelled release_batch_owner release_locks_for_batch
    cancel_pending_tasks cancel_processing_tasks
cancel_cases alive signal_lands b db j = ground arith

pub cancel-Evolves :
    (alive signal_lands : ℕ → Bool) (b : ℕ) (db : Db) (j : ℕ)
    → Evolves false (db.batches j) ((cancel_batch alive signal_lands b db).1.batches j)
unfolding set_batch_cancelled
cancel-Evolves alive signal_lands b db j =
    Evolves-of_cases (cancel_cases alive signal_lands b db j) (
      set_batch_status-Evolves cancellable BatchStatus.cancelled b j db (elim [
        | BatchStatus.queued ↦ λ _. withdrawn
        | BatchStatus.processing ↦ λ _. stopped
        | BatchStatus.paused ↦ λ _. dropped
        | _ ↦ λ h. cc
      ]))

fail_unstarted_cases :
    (b token : ℕ) (db : Db) (j : ℕ)
    → ((fail_unstarted_batch b token db).1.batches j ≡ db.batches j)
      ⊎ ((fail_unstarted_batch b token db).1.batches j ≡ (set_batch_failed b db).1.batches j)
unfolding fail_unstarted_batch set_batch_failed release_batch_owner release_locks_for_batch
    cancel_pending_tasks cancel_processing_tasks
fail_unstarted_cases b token db j = ground arith

pub fail_unstarted-Evolves :
    (b token : ℕ) (db : Db) (j : ℕ)
    → Evolves false (db.batches j) ((fail_unstarted_batch b token db).1.batches j)
unfolding set_batch_failed
fail_unstarted-Evolves b token db j = Evolves-of_cases (fail_unstarted_cases b token db j) (
    set_batch_status-Evolves _ BatchStatus.failed b j db (elim [
      | BatchStatus.queued ↦ λ _. unlaunched
      | BatchStatus.processing ↦ λ _. broke
      | _ ↦ λ h. cc
    ]))

pub requeue-Evolves :
    (b : ℕ) (db : Db) (j : ℕ)
    → Evolves false (db.batches j) ((requeue_processing_batch b db).1.batches j)
unfolding requeue_processing_batch
requeue-Evolves b db j =
    set_batch_status-Evolves batch_processing BatchStatus.queued b j db
      (elim [ BatchStatus.processing ↦ λ _. handed_back | _ ↦ λ h. cc ])

pub batches-reset :
    (text : ℕ → String) (b limit : ℕ) (locks : Bool) (db : Db)
    → (reset_processing text b limit locks db).1.batches ≡ db.batches
unfolding reset_processing quarantine_processing_tasks reset_processing_tasks
    restore_discarded_successors release_locks_for_batch
batches-reset text b limit true db = refl
batches-reset text b limit false db = refl

batches-retried :
    (b : ℕ) (include_failed : Bool) (db : Db) {n : ℕ} {after : Db}
    → retried b include_failed db ≡ some (n, after)
    → after.batches ≡ db.batches
unfolding retried retry_failed_tasks restore_discarded_successors
batches-retried b false db h = ground arith
batches-retried b true db h = ground arith

batches-drop_lease :
    (b : ℕ) (o : Option OwnerRow) (db : Db) → (drop_lease b o db).batches ≡ db.batches
unfolding drop_lease release_batch_owner
batches-drop_lease b none db = refl
batches-drop_lease b (some o) db = ground arith

resumed_cong :
    (b j : ℕ) (d e : Db)
    → d.batches ≡ e.batches
    → (set_batch_resumed b d).1.batches j ≡ (set_batch_resumed b e).1.batches j
unfolding set_batch_resumed
resumed_cong b j d e h = ground arith

work_batches :
    (text : ℕ → String) (b limit : ℕ) (include_failed : Bool) (db : Db) (j : ℕ) {after : Db}
    → (resume_work text b limit include_failed db).1 ≡ some after
    → after.batches j ≡ (set_batch_resumed b db).1.batches j
unfolding resume_work
work_batches text b limit include_failed db j h =
    let db₁ = (reset_processing text b limit true db).1 in
    elim (Option-cases (retried b include_failed db₁)) [
      | inl e ↦ ground arith
      | inr ((n, db₂), e) ↦
          let kept : db₂.batches ≡ db.batches =
            batches-retried b include_failed db₁ e ∙ batches-reset text b limit true db in
          ground (
            arith,
            resumed_cong b j db₂ db kept,
            batches-drop_lease b (db.owners b) (set_batch_resumed b db₂).1,
          )
    ]

resume_cases :
    (text : ℕ → String) (b limit : ℕ) (include_failed : Bool) (db : Db) (j : ℕ)
    → ((resume_batch text b limit include_failed db).1.batches j ≡ db.batches j)
      ⊎ ((resume_batch text b limit include_failed db).1.batches j
          ≡ (set_batch_resumed b db).1.batches j)
unfolding resume_batch
resume_cases text b limit include_failed db j =
    elim (Option-cases (resume_work text b limit include_failed db).1) [
      | inl e ↦ inl (ground arith)
      | inr (after, e) ↦
          ground (arith, work_batches text b limit include_failed db j {after = after} e)
    ]

pub resume-Evolves :
    (text : ℕ → String) (b limit : ℕ) (include_failed : Bool) (db : Db) (j : ℕ)
    → Evolves true (db.batches j) ((resume_batch text b limit include_failed db).1.batches j)
unfolding set_batch_resumed
resume-Evolves text b limit include_failed db j =
    Evolves-of_cases (resume_cases text b limit include_failed db j)
      (set_batch_status-Evolves resumable BatchStatus.queued b j db (λ s h. resumed h))
