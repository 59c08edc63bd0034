-- ===== src/Task/Db/Batches.antt =====
-- batch.sql.go on the table batch. A write whose guard refuses gives `none` or the same table.
use edub_kushim.Base.{
  ◌≡◌, refl, ◌⊎◌, inl, inr, ℕ, suc, Bool, true, false, ◌&&◌, ◌||◌, not, Option, none, some, [], ◌∷◌,
  ◌++◌, any, ◌==◌, if◌then◌else◌,
}
use edub_kushim.Base.Tables.{put}
use edub_kushim.Types.{BatchStatus}
use edub_kushim.Types.Statuses.{
  batch_queued, batch_processing, batch_paused, is_active, is_failed, is_live,
}
use edub_kushim.Task.Db.Rows.{Db, BatchRow, TaskRow}
use edub_kushim.Task.Db.Owners.{owned_by}
use edub_kushim.Task.Db.Tasks.{in_batch, dedup_taken}

abbrev pub put_batch : ℕ → BatchRow → Db → Db
put_batch b row db = record db { batches = put b row db.batches }

abbrev write_row : (BatchStatus → Bool) → BatchStatus → ℕ → Db → Option BatchRow → Bool × Db
write_row guard status b db none = (false, db)
write_row guard status b db (some row) =
    if guard row.status
    then (true, put_batch b (record row { status = status }) db)
    else (false, db)

-- `UPDATE batch SET status = … WHERE id = … AND status IN (guard)`: whether a row was written.
unfoldable pub set_batch_status : (BatchStatus → Bool) → BatchStatus → ℕ → Db → Bool × Db
set_batch_status guard status b db = write_row guard status b db (db.batches b)

unfoldable pub mark_batch_claimed : ℕ → Db → Bool × Db
unfolding set_batch_status
mark_batch_claimed = set_batch_status batch_queued BatchStatus.processing

abbrev pub cancellable : BatchStatus → Bool
cancellable s = batch_queued s || (batch_processing s || batch_paused s)

unfoldable pub set_batch_cancelled : ℕ → Db → Bool × Db
unfolding set_batch_status
set_batch_cancelled = set_batch_status cancellable BatchStatus.cancelled

unfoldable pub set_batch_failed : ℕ → Db → Bool × Db
unfolding set_batch_status
set_batch_failed = set_batch_status (λ s. batch_queued s || batch_processing s) BatchStatus.failed

unfoldable pub requeue_processing_batch : ℕ → Db → Bool × Db
unfolding set_batch_status
requeue_processing_batch = set_batch_status batch_processing BatchStatus.queued

-- IN ('failed', 'completed', 'cancelled', 'paused')
abbrev pub resumable : BatchStatus → Bool
resumable BatchStatus.failed = true
resumable BatchStatus.completed = true
resumable BatchStatus.cancelled = true
resumable BatchStatus.paused = true
resumable _ = false

unfoldable pub set_batch_resumed : ℕ → Db → Bool × Db
unfolding set_batch_status
set_batch_resumed = set_batch_status resumable BatchStatus.queued

abbrev pub leased_to : Db → ℕ → Option ℕ → Bool
leased_to db b none = false
leased_to db b (some token) = owned_by (db.owners b) token

-- SetBatchPaused: the caller must own the lease; a NULL owner owns none.
unfoldable pub set_batch_paused : ℕ → Option ℕ → Db → Bool × Db
unfolding set_batch_status
set_batch_paused b owner db =
    if leased_to db b owner
    then set_batch_status batch_processing BatchStatus.paused b db
    else (false, db)

-- The owner condition of SettleBatch: no lease, or the caller's.
abbrev pub settle_authorized : Db → ℕ → Option ℕ → Bool
settle_authorized db b owner = elim (db.owners b) [ none ↦ true | some o ↦ leased_to db b owner ]

abbrev pub has_active_task : ℕ → Db → Bool
has_active_task b db = any (λ t. in_batch b t && is_active t.status) db.tasks

abbrev pub has_failed_task : ℕ → Db → Bool
has_failed_task b db = any (λ t. in_batch b t && is_failed t.status) db.tasks

abbrev settle_row : ℕ → Option ℕ → Db → Option BatchRow → Option (BatchRow × Db)
settle_row b owner db none = none
settle_row b owner db (some row) =
    let status = if has_failed_task b db then BatchStatus.failed else BatchStatus.completed in
    let settled = record row { status = status } in
    if batch_processing row.status && (not (has_active_task b db) && settle_authorized db b owner)
    then some (settled, put_batch b settled db)
    else none

-- SettleBatch: the settled row, or `none` when the guards refuse.
unfoldable pub settle_batch_row : ℕ → Option ℕ → Db → Option (BatchRow × Db)
settle_batch_row b owner db = settle_row b owner db (db.batches b)

-- CreateBatch: ON CONFLICT (id) DO NOTHING
unfoldable pub create_batch : ℕ → BatchRow → Db → Db
create_batch b row db = elim (db.batches b) [ none ↦ put_batch b row db | some _ ↦ db ]

pub data Insert : Type 0 where
  inserted : Db → Insert
  dedup_conflict : Insert
  id_conflict : Insert

pub Insert-cases :
    (r : Insert) → ((db : Db) × (r ≡ inserted db)) ⊎ (r ≡ dedup_conflict) ⊎ (r ≡ id_conflict)
Insert-cases (inserted db) = inl (db, refl)
Insert-cases dedup_conflict = inr (inl refl)
Insert-cases id_conflict = inr (inr refl)

-- CreateTask: the unique indexes are on task_id and, for live rows with a key, on type and key.
unfoldable pub create_task : TaskRow → Db → Insert
unfolding dedup_taken
create_task row db =
    if any (λ t. t.task_id == row.task_id) db.tasks
    then id_conflict
    else if is_live row.status && dedup_taken db.tasks row.task_type row.dedup_key
    then dedup_conflict
    else inserted (record db {
      tasks = db.tasks ++ record row { id = db.next_id } ∷ [];
      next_id = suc db.next_id;
    })
