-- ===== src/Task/Store/Claiming.antt =====
-- ClaimNextPending of store.go.
use edub_kushim.Base.{ℕ, Bool, false, ◌&&◌, ◌||◌, Option, none, some, ltb, ◌==◌, if◌then◌else◌}
use edub_kushim.Base.Tables.{find_where}
use edub_kushim.Types.{TaskType, same_type, lock_declaration_for}
use edub_kushim.Types.Statuses.{batch_queued, batch_processing, is_pending}
use edub_kushim.Task.Errors.{Result, ok, err, no_owner, no_rows}
use edub_kushim.Task.Db.{Db, BatchRow, TaskRow}
use edub_kushim.Task.Db.Owners.{batch_leased_by}
use edub_kushim.Task.Db.Tasks.{claim_task, get_task}
use edub_kushim.Task.Db.Batches.{mark_batch_claimed}
use edub_kushim.Task.Locks.{count_held_locks}

abbrev open_batch : Option BatchRow → Bool
open_batch none = false
open_batch (some row) = batch_queued row.status || batch_processing row.status

abbrev pub batch_open : Db → Option ℕ → Bool
batch_open db none = false
batch_open db (some b) = open_batch (db.batches b)

-- The WHERE clause of GetNextPendingTaskOfTypeForOwner.
unfoldable pub claimable : Db → TaskType → ℕ → TaskRow → Bool
unfolding batch_leased_by same_type
claimable db type owner t =
    is_pending t.status
    && (same_type t.task_type type
        && (batch_leased_by db t.batch_id owner && batch_open db t.batch_id))

-- GetNextPendingTaskOfTypeForOwner: the oldest claimable task, if no wait is held.
unfoldable pub next_pending_task : TaskType → ℕ → Db → Option TaskRow
unfolding find_where claimable count_held_locks
next_pending_task type owner db =
    if ltb 0 (count_held_locks (lock_declaration_for type).waits_for db)
    then none
    else find_where (claimable db type owner) db.tasks

-- The batch claim that goes with the task claim.
unfoldable pub flip_batch : Db → TaskRow → Option ℕ → Db → Result TaskRow × Db
unfolding mark_batch_claimed
flip_batch db task none claimed = (ok task, claimed)
flip_batch db task (some b) claimed = elim (claimed.batches b) [
  | none ↦ (err no_rows, db)
  | some row ↦
      let (marked, flipped) = mark_batch_claimed b claimed in
      if batch_queued row.status
      then if marked then (ok task, flipped) else (err no_rows, db)
      else if batch_processing row.status
      then (ok task, claimed)
      else (err no_rows, db)
]

unfoldable pub claim_selected : Db → TaskRow → Result TaskRow × Db
unfolding flip_batch claim_task get_task mark_batch_claimed
claim_selected db selected =
    let (rows, claimed) = claim_task selected.id db in
    if rows == 0 then (err no_rows, db) else elim (get_task selected.id claimed) [
      | none ↦ (err no_rows, db)
      | some task ↦ flip_batch db task task.batch_id claimed
    ]

-- ClaimNextPending: a store without an execution owner cannot claim.
unfoldable pub claim_next_pending : Option ℕ → TaskType → Db → Result TaskRow × Db
unfolding claim_selected flip_batch next_pending_task claim_task get_task mark_batch_claimed
claim_next_pending none type db = (err no_owner, db)
claim_next_pending (some owner) type db = elim (next_pending_task type owner db) [
  | none ↦ (err no_rows, db)
  | some selected ↦ claim_selected db selected
]
