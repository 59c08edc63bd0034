-- ===== src/Ops/Reaper.antt =====
-- internal/ops/queue/reaper.go and internal/service/batch.go: the recovery of batches whose lease went
-- stale. Files are not modelled, so the quarantine of the inbox files has no step, nor has the signal to
-- the process of the stale lease.
use edub_kushim.Base.{
  ℕ, String, Bool, true, false, not, List, [], ◌∷◌, Option, none, some, if◌then◌else◌,
}
pub mod Recovery
use edub_kushim.Types.{BatchStatus, terminal}
use edub_kushim.Task.Errors.{Result, ok, err}
use edub_kushim.Task.Catalog.{Catalog}
use edub_kushim.Task.Db.{Db}
use edub_kushim.Task.Db.Owners.{release_stale_batch_owner}
use edub_kushim.Task.Db.Batches.{requeue_processing_batch, has_active_task}
use edub_kushim.Task.Batch.Settling.{settle_batch}
use edub_kushim.Task.Batch.Moving.{reset_processing, lease_stale_seconds}

-- A row of the listing of stale leases.
pub record StaleOwner : Type 0 where
  pub batch : ℕ
  pub owner_id : ℕ
  pub pid : ℕ

-- HasPendingWork counts the pending, the processing and the waiting tasks.
abbrev pub has_pending_work : ℕ → Db → Bool
has_pending_work b db = has_active_task b db

-- What the world does while one stale lease is reclaimed.
pub record RecoveryWorld : Type 0 where
  pub release_refused : Bool
  pub reset_refused : Bool
  pub check_refused : Bool
  pub settle_refused : Bool
  pub requeue_refused : Bool
  -- what others write before the n-th step after the release
  pub others : ℕ → Db → Db

-- requeueReleasedBatch, and the requeue of a batch with work: a refused one is only logged.
unfoldable pub requeue_released : RecoveryWorld → ℕ → Db → Db
requeue_released w b db =
    let later = w.others 3 db in
    if w.requeue_refused then later else (requeue_processing_batch b later).1

-- What follows a settle: an error, or a status that is not final, requeues.
unfoldable pub requeue_unsettled : RecoveryWorld → ℕ → Result BatchStatus × Db → Db
unfolding terminal
requeue_unsettled w b (err e, db) = requeue_released w b db
requeue_unsettled w b (ok status, db) = if terminal status then db else requeue_released w b db

module _ (retries_text : ℕ → String) (catalog : Catalog) (uuids : ℕ → ℕ) (max_retries : ℕ) where
  -- The settle of a batch in which no work was seen.
  unfoldable pub settle_released : RecoveryWorld → ℕ → Db → Db
  settle_released w b db =
      let later = w.others 2 db in
      let settled = settle_batch catalog uuids (record { batch = b; owner = none }) later in
      if w.settle_refused then requeue_released w b later else requeue_unsettled w b settled

  -- A batch whose stale lease was released.
  unfoldable pub recover_batch : RecoveryWorld → ℕ → Db → Db
  recover_batch w b db =
      let entry = w.others 0 db in
      let reset = (reset_processing retries_text b max_retries true entry).1 in
      let checked = w.others 1 reset in
      if w.reset_refused
      then requeue_released w b entry
      else if w.check_refused
      then requeue_released w b checked
      else if has_pending_work b checked
      then requeue_released w b checked
      else settle_released w b checked

  unfoldable pub reclaim_owner : RecoveryWorld → StaleOwner → Db → Db
  reclaim_owner w o db =
      let (released, free) =
        release_stale_batch_owner o.batch o.owner_id o.pid lease_stale_seconds db in
      if w.release_refused then db else if released then recover_batch w o.batch free else db

  -- The pass over the page of stale leases that it listed, each recovered in its own world.
  unfoldable pub reclaim_stale_batches : List (RecoveryWorld × StaleOwner) → Db → Db
  reclaim_stale_batches [] db = db
  reclaim_stale_batches ((w, o) ∷ owners) db = reclaim_stale_batches owners (reclaim_owner w o db)
