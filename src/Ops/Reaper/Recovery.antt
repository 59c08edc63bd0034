-- ===== src/Ops/Reaper/Recovery.antt =====
-- internal/ops/queue/reaper.go: a recovery leaves no batch processing without an owner.
use edub_kushim.Base.{
  ◌+◌, ◌<◌, Bool, false, if◌then◌else◌, Option-cases, ℕ, String, ◌≡◌, refl, ap, ◌⊎◌, inl, inr, true,
  false, none, some, arith, subst, Bool-cases,
}
use edub_kushim.Types.{BatchStatus, terminal}
use edub_kushim.Types.Statuses.{batch_processing}
use edub_kushim.Task.Errors.{Result, ok, err}
use edub_kushim.Task.Catalog.{Catalog}
use edub_kushim.Task.Db.{Db, BatchRow, OwnerRow}
use edub_kushim.Task.Db.Owners.{stale_lease, release_stale_batch_owner}
use edub_kushim.Task.Db.Batches.{has_failed_task}
use edub_kushim.Task.Batch.Rest.{AtRest, requeue-AtRest}
use edub_kushim.Task.Batch.Settling.{settle_batch, Execution}
use edub_kushim.Task.Batch.Settlement.{settle_batch-outcome, settled_status}
use edub_kushim.Task.Batch.Moving.{reset_processing, lease_stale_seconds}
use edub_kushim.Ops.Reaper.{
  RecoveryWorld, requeue_released, settle_released, StaleOwner, requeue_unsettled, recover_batch,
  reclaim_owner, has_pending_work,
}

terminal_rests : (status : BatchStatus) → terminal status ≡ true → batch_processing status ≡ false
unfolding terminal
terminal_rests status h = ground (arith, h)

AtRest-row :
    (b : ℕ) (db : Db) (row : BatchRow)
    → db.batches b ≡ some row
    → batch_processing row.status ≡ false
    → AtRest b db
unfolding AtRest
AtRest-row b db row here rests r h = ground (arith, here, rests, h)

settled_rests :
    (b : ℕ) (db : Db)
    → (terminal (settled_status b db) ≡ true) × (batch_processing (settled_status b db) ≡ false)
unfolding terminal
settled_rests b db = elim (Bool-cases (has_failed_task b db)) [
  | inl e ↦ rw e (refl, refl)
  | inr e ↦ rw e (refl, refl)
]

-- The listed lease is still the batch's: with its token and its pid, and silent for longer than the window.
pub record IsStillStale (o : StaleOwner) (db : Db) : Type 0 where
  pub lease : OwnerRow
  pub is_leased : db.owners o.batch ≡ some lease
  pub same_token : lease.owner_id ≡ o.owner_id
  pub same_pid : lease.pid ≡ o.pid
  pub silent : lease.last_heartbeat + 15 < db.now

released-IsStillStale :
    (o : StaleOwner) (db : Db)
    → (release_stale_batch_owner o.batch o.owner_id o.pid lease_stale_seconds db).0 ≡ true
    → IsStillStale o db
unfolding release_stale_batch_owner stale_lease
released-IsStillStale o db h = elim (Option-cases (db.owners o.batch)) [
  | inl e ↦ ground arith
  | inr (lease, e) ↦ record {
    lease = lease;
    is_leased = e;
    same_token = ground arith;
    same_pid = ground arith;
    silent = ground arith;
  }
]

IsStillStale-released :
    (o : StaleOwner) (db : Db)
    → IsStillStale o db
    → (release_stale_batch_owner o.batch o.owner_id o.pid lease_stale_seconds db).0 ≡ true
unfolding release_stale_batch_owner stale_lease
IsStillStale-released o db h = ground (arith, h.is_leased, h.same_token, h.same_pid, h.silent)

-- The batch rests, or the database refused to requeue it and it is left to manual recovery.
abbrev pub Handed : RecoveryWorld → ℕ → Db → Type 0
Handed w b db = (w.requeue_refused ≡ true) ⊎ AtRest b db

requeue_released-Handed :
    (w : RecoveryWorld) (b : ℕ) (db : Db) → Handed w b (requeue_released w b db)
unfolding requeue_released
requeue_released-Handed w b db = elim (Bool-cases w.requeue_refused) [
  | inl e ↦ inl e
  | inr e ↦ inr (rw e (requeue-AtRest b (w.others 3 db)))
]

unsettled-Handed :
    (w : RecoveryWorld) (b : ℕ) (out : Result BatchStatus × Db)
    → ((status : BatchStatus) → out.0 ≡ ok status → terminal status ≡ true → AtRest b out.1)
    → Handed w b (requeue_unsettled w b out)
unfolding requeue_unsettled
unsettled-Handed w b (err e, db) h = requeue_released-Handed w b db
unsettled-Handed w b (ok status, db) h = elim (Bool-cases (terminal status)) [
  | inl t ↦ inr (rw t (h status refl t))
  | inr t ↦ rw t (requeue_released-Handed w b db)
]

on_both :
    {A : Type 0} (P : A → Type 0) (test : Bool) {x y : A} → P x → P y → P (if test then x else y)
on_both P true px py = px
on_both P false px py = py

module _ (retries_text : ℕ → String) (catalog : Catalog) (uuids : ℕ → ℕ) (max_retries : ℕ) where
  settle-AtRest :
      (b : ℕ) (db : Db) (status : BatchStatus)
      → (settle_batch catalog uuids (record { batch = b; owner = none }) db).0 ≡ ok status
      → terminal status ≡ true
      → AtRest b (settle_batch catalog uuids (record { batch = b; owner = none }) db).1
  settle-AtRest b db status h t =
      let execution : Execution = record { batch = b; owner = none } in
      elim (settle_batch-outcome catalog uuids execution db) [
        | inl (absent, e) ↦ ground (arith, ap (λ (o : Result BatchStatus × Db). o.0) e, h)
        | inr (inl (row, here, shut, e)) ↦
            let same : status ≡ row.status =
              ground (arith, ap (λ (o : Result BatchStatus × Db). o.0) e, h) in
            rw e (AtRest-row b db row here (terminal_rests row.status (rw same at t)))
        | inr (inr (row, here, ready, e, after, locks)) ↦
            AtRest-row b _ _ after (settled_rests b db).1
      ]

  settle_released-Handed :
      (w : RecoveryWorld) (b : ℕ) (db : Db)
      → Handed w b (settle_released retries_text catalog uuids max_retries w b db)
  unfolding settle_released
  settle_released-Handed w b db =
      let later = w.others 2 db in
      on_both (Handed w b) w.settle_refused (requeue_released-Handed w b later)
        (unsettled-Handed w b _ (settle-AtRest b later))

  recover-Handed :
      (w : RecoveryWorld) (b : ℕ) (db : Db)
      → Handed w b (recover_batch retries_text catalog uuids max_retries w b db)
  unfolding recover_batch
  recover-Handed w b db =
      let entry = w.others 0 db in
      let checked = w.others 1 (reset_processing retries_text b max_retries true entry).1 in
      on_both (Handed w b) w.reset_refused (requeue_released-Handed w b entry) (
        on_both (Handed w b) w.check_refused (requeue_released-Handed w b checked) (
          on_both (Handed w b) (has_pending_work b checked) (requeue_released-Handed w b checked)
            (settle_released-Handed w b checked)))

  -- Reclaiming a listed lease changes nothing where the release is refused by the database, or where the
  -- batch's lease is not any more the listed one, with its token and pid and silent for more than fifteen
  -- seconds. Where it still is, then whichever later steps fail and whatever others write between them, the
  -- batch is not processing afterwards, unless the database refused to requeue it.
  pub reclaim_owner-AtRest :
      (w : RecoveryWorld) (o : StaleOwner) (db : Db)
      → (((w.release_refused ≡ true) ⊎ ¬ IsStillStale o db)
          × (reclaim_owner retries_text catalog uuids max_retries w o db ≡ db))
        ⊎ (IsStillStale o db
            × Handed w o.batch (reclaim_owner retries_text catalog uuids max_retries w o db))
  unfolding reclaim_owner
  reclaim_owner-AtRest w o db =
      let free = (release_stale_batch_owner o.batch o.owner_id o.pid lease_stale_seconds db).1 in
      elim (Bool-cases w.release_refused) [
        | inl r ↦ inl (inl r, ground arith)
        | inr r ↦
            elim (Bool-cases
              (release_stale_batch_owner o.batch o.owner_id o.pid lease_stale_seconds db).0) [
                | inl e ↦ inr (
                  released-IsStillStale o db e,
                  subst (Handed w o.batch) (ground arith) (recover-Handed w o.batch free),
                )
                | inr e ↦ inl (inr (λ h. absurd e (IsStillStale-released o db h)), ground arith)
              ]
      ]
    where
      absurd : {p : Bool} → p ≡ false → p ≡ true → ⊥
      absurd e h = ground (arith, e, h)
