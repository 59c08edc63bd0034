-- ===== src/Task/Batch/Rest.antt =====
-- A batch at rest: requeueing hands a processing batch back.
use edub_kushim.Base.{ℕ, ◌≡◌, false, some, arith, ==_refl}
use edub_kushim.Types.Statuses.{batch_processing}
use edub_kushim.Task.Db.{Db, BatchRow}
use edub_kushim.Task.Db.Batches.{requeue_processing_batch, set_batch_status}

-- The batch is not processing.
unfoldable pub AtRest : ℕ → Db → Type 0
AtRest b db = (row : BatchRow) → db.batches b ≡ some row → batch_processing row.status ≡ false

pub requeue-AtRest : (b : ℕ) (db : Db) → AtRest b (requeue_processing_batch b db).1
unfolding AtRest requeue_processing_batch set_batch_status
requeue-AtRest b db row h = ground (arith, ==_refl b, h)
