-- ===== src/Task/Batch/Settlement.antt =====
-- SettleBatch and PauseBatch: when the batch ends, with which status, and what stays.
use edub_kushim.Base.{
  ℕ, ◌≡◌, ◌∙◌, ◌⊎◌, inl, inr, arith, Bool, true, false, ◌&&◌, not, none, some, if◌then◌else◌, ◌==◌,
  Bool-cases, Option-cases, ==_refl,
}
use edub_kushim.Types.{BatchStatus, LockName}
use edub_kushim.Types.Statuses.{batch_processing, BatchStatus-cases}
use edub_kushim.Task.Errors.{ok, err, batch_not_found}
use edub_kushim.Task.Db.{Db, BatchRow}
use edub_kushim.Task.Db.Owners.{release_batch_owner, owned_by}
use edub_kushim.Task.Db.Batches.{
  put_batch, has_active_task, has_failed_task, settle_authorized, settle_batch_row,
  set_batch_paused, set_batch_status,
}
use edub_kushim.Task.Locks.{release_locks_for_batch, held_by_batch}
use edub_kushim.Task.Catalog.{Catalog}
use edub_kushim.Task.Batch.Settling.{Execution, settle_batch, pause_batch, create_follow_up_batch}
use edub_kushim.Task.Lifecycle.FollowUps.{follow_up-Grows}

-- The guards of the update: processing, no task to run, and no lease but the caller's.
abbrev pub ready_to_settle : BatchRow → Execution → Db → Bool
ready_to_settle row execution db =
    batch_processing row.status
    && (not (has_active_task execution.batch db)
        && settle_authorized db execution.batch execution.owner)

abbrev pub settled_status : ℕ → Db → BatchStatus
settled_status b db = if has_failed_task b db then BatchStatus.failed else BatchStatus.completed

batches-settled :
    (catalog : Catalog) (uuids : ℕ → ℕ) (execution : Execution) (db : Db) {row : BatchRow}
    → db.batches execution.batch ≡ some row
    → ready_to_settle row execution db ≡ true
    → (settle_batch catalog uuids execution db).1.batches execution.batch
      ≡ some (record row { status = settled_status execution.batch db })
unfolding settle_batch settle_batch_row release_locks_for_batch
batches-settled catalog uuids execution db {row} here ready =
    let b = execution.batch in
    let settled : BatchRow = record row { status = settled_status b db } in
    let written = put_batch b settled db in
    let row_written : written.batches b ≡ some settled = ground (arith, ==_refl b) in
    let grown = follow_up-Grows catalog uuids settled written b in
    let kept : (create_follow_up_batch catalog uuids settled written).batches b ≡ some settled =
      elim grown [ inl same ↦ same ∙ row_written | inr (absent, new) ↦ cc ] in
    ground (arith, kept)

-- Settling an unknown batch is an error; where a guard refuses, the found status is returned; in
-- both cases nothing changes. Otherwise the batch fails if a task of it failed and completes if none did, that status
-- is returned, and the batch holds no lock.
pub settle_batch-outcome :
    (catalog : Catalog) (uuids : ℕ → ℕ) (execution : Execution) (db : Db)
    → ((db.batches execution.batch ≡ none)
        × (settle_batch catalog uuids execution db ≡ (err batch_not_found, db)))
      ⊎ ((row : BatchRow) × (db.batches execution.batch ≡ some row)
          × (ready_to_settle row execution db ≡ false)
          × (settle_batch catalog uuids execution db ≡ (ok row.status, db)))
      ⊎ ((row : BatchRow) × (db.batches execution.batch ≡ some row)
          × (ready_to_settle row execution db ≡ true)
          × ((settle_batch catalog uuids execution db).0 ≡ ok (settled_status execution.batch db))
          × ((settle_batch catalog uuids execution db).1.batches execution.batch
              ≡ some (record row { status = settled_status execution.batch db }))
          × ((name : LockName)
              → held_by_batch execution.batch
                  ((settle_batch catalog uuids execution db).1.signals name)
                ≡ false))
unfolding settle_batch settle_batch_row release_locks_for_batch
settle_batch-outcome catalog uuids execution db =
    let b = execution.batch in
    elim (Option-cases (db.batches b)) [
      | inl e ↦ inl (e, ground arith)
      | inr (row, e) ↦ elim (Bool-cases (ready_to_settle row execution db)) [
        | inr shut ↦ inr (inl (row, e, shut, ground arith))
        | inl ready ↦ inr (
            inr (
              row,
              e,
              ready,
              ground arith,
              batches-settled catalog uuids execution db e ready,
              λ name. ground arith,
            ))
      ]
    ]

-- The caller's lease is the batch's, and the batch is processing.
pub record MayPause (execution : Execution) (db : Db) : Type 0 where
  pub row : BatchRow
  pub token : ℕ
  pub has_token : execution.owner ≡ some token
  pub leased : owned_by (db.owners execution.batch) token ≡ true
  pub here : db.batches execution.batch ≡ some row
  pub busy : row.status ≡ BatchStatus.processing

-- Pausing takes effect exactly where the caller's lease is the batch's and the batch is processing: it is
-- then paused with no lease and no lock, and the tasks and the other batches are as before. Where that does
-- not hold, nothing changes.
pub pause_batch-outcome :
    (execution : Execution) (db : Db)
    → (¬ MayPause execution db × (pause_batch execution db ≡ (false, db)))
      ⊎ ((may : MayPause execution db) × ((pause_batch execution db).0 ≡ true)
          × ((pause_batch execution db).1.batches execution.batch
              ≡ some (record may.row { status = BatchStatus.paused }))
          × ((pause_batch execution db).1.owners execution.batch ≡ none)
          × ((name : LockName)
              → held_by_batch execution.batch ((pause_batch execution db).1.signals name) ≡ false)
          × ((pause_batch execution db).1.tasks ≡ db.tasks)
          × ((j : ℕ)
              → (j == execution.batch) ≡ false
              → (pause_batch execution db).1.batches j ≡ db.batches j))
unfolding pause_batch set_batch_paused set_batch_status release_batch_owner release_locks_for_batch
pause_batch-outcome execution db =
    let b = execution.batch in
    elim (Option-cases execution.owner) [
      | inl e ↦ inl (λ m. ground (arith, m.has_token), ground arith)
      | inr (token, e) ↦ elim (Bool-cases (owned_by (db.owners b) token)) [
        | inr away ↦ inl (λ m. ground (arith, m.has_token, m.leased), ground arith)
        | inl leased ↦ elim (Option-cases (db.batches b)) [
          | inl absent ↦ inl (λ m. ground (arith, m.here), ground arith)
          | inr (row, here) ↦ elim (BatchStatus-cases row.status) [
            | inr other ↦ inl (λ m. ground (arith, m.here, m.busy), ground arith)
            | inl busy ↦ inr (
              record {
                row = row;
                token = token;
                has_token = e;
                leased = leased;
                here = here;
                busy = busy;
              },
              ground arith,
              ground (arith, ==_refl b),
              ground (arith, ==_refl b),
              λ name. ground arith,
              ground arith,
              λ j h. ground arith,
            )
          ]
        ]
      ]
    ]
