-- ===== src/Task/Batch/Claims.antt =====
-- ClaimBatch: who gets a batch, and that a refused claim leaves no trace.
use edub_kushim.Base.{
  ℕ, ◌≡◌, refl, ap, sym, subst, ◌⊎◌, inl, inr, arith, true, Option, none, some, List, Bool-cases,
  Option-cases, ==_refl,
}
use edub_kushim.Base.Tables.{put}
use edub_kushim.Types.{BatchStatus, LockName}
use edub_kushim.Types.Statuses.{batch_queued}
use edub_kushim.Task.Errors.{
  TaskError, Result, ok, err, batch_not_found, batch_not_queued, batch_locked,
}
use edub_kushim.Task.Db.{Db, BatchRow, OwnerRow}
use edub_kushim.Task.Db.Owners.{try_insert_batch_owner}
use edub_kushim.Task.Db.Batches.{put_batch, mark_batch_claimed, set_batch_status}
use edub_kushim.Task.Locks.{acquire_locks, lock_is_held}
use edub_kushim.Task.Locks.Exclusion.{
  Free, Taken, distinct_locks, acquire_locks-Taken, acquire_locks_total,
}
use edub_kushim.Task.Batch.Settling.{ClaimRequest, claim_batch}

-- the lease that the claim inserts, with no process yet
abbrev pub fresh_lease : ClaimRequest → Db → OwnerRow
fresh_lease claim db = record {
  owner_id = claim.exec_token;
  pid = 0;
  dispatcher_id = claim.dispatcher;
  last_heartbeat = db.now;
}

abbrev leased : ClaimRequest → Db → Db
leased claim db = record db { owners = put claim.batch (fresh_lease claim db) db.owners }

-- The claim has the batch, its lease and its locks.
pub record Granted (claim : ClaimRequest) (row : BatchRow) (db after : Db) : Type 0 where
  pub was_queued : batch_queued row.status ≡ true
  pub had_no_lease : db.owners claim.batch ≡ none
  pub holds_were_free : Free claim.holds db
  pub waits_were_free : Free claim.waits db
  pub is_processing :
      after.batches claim.batch ≡ some (record row { status = BatchStatus.processing })
  pub has_lease : after.owners claim.batch ≡ some (fresh_lease claim db)
  pub has_locks : Taken claim.holds (some claim.exec_token) (some claim.batch) db after
  pub same_tasks : after.tasks ≡ db.tasks

Result-cases :
    {A : Type 0} (r : Result A) → ((e : TaskError) × (r ≡ err e)) ⊎ ((a : A) × (r ≡ ok a))
Result-cases (err e) = inl (e, refl)
Result-cases (ok a) = inr (a, refl)

kept-acquire :
    (holds waits : List LockName) (token batch : Option ℕ) (db : Db) {after : Db}
    → acquire_locks holds waits token batch db ≡ ok after
    → (after.batches ≡ db.batches) × (after.owners ≡ db.owners) × (after.tasks ≡ db.tasks)
unfolding acquire_locks
kept-acquire holds waits token batch db h = (ground arith, ground arith, ground arith)

claim_batch-run :
    (claim : ClaimRequest) (db locked : Db) {row : BatchRow}
    → db.batches claim.batch ≡ some row
    → batch_queued row.status ≡ true
    → db.owners claim.batch ≡ none
    → acquire_locks claim.holds claim.waits
        (some claim.exec_token)
        (some claim.batch)
        (leased claim db)
      ≡ ok locked
    → claim_batch claim db
      ≡ (ok tt, put_batch claim.batch (record row { status = BatchStatus.processing }) locked)
unfolding claim_batch try_insert_batch_owner mark_batch_claimed set_batch_status
claim_batch-run claim db locked here queued vacant got =
    let (same_batches, same_owners, same_tasks) =
      kept-acquire claim.holds claim.waits (some claim.exec_token) (some claim.batch)
        (leased claim db) got in
    ground (arith, same_batches)

granted :
    (claim : ClaimRequest) (db locked : Db) {row : BatchRow}
    → db.batches claim.batch ≡ some row
    → batch_queued row.status ≡ true
    → db.owners claim.batch ≡ none
    → acquire_locks claim.holds claim.waits
        (some claim.exec_token)
        (some claim.batch)
        (leased claim db)
      ≡ ok locked
    → Granted claim row db
        (put_batch claim.batch (record row { status = BatchStatus.processing }) locked)
unfolding lock_is_held
granted claim db locked here queued vacant got =
    let (same_batches, same_owners, same_tasks) =
      kept-acquire claim.holds claim.waits (some claim.exec_token) (some claim.batch)
        (leased claim db) got in
    let (holds_free, waits_free, taken) =
      acquire_locks-Taken claim.holds claim.waits (some claim.exec_token) (some claim.batch)
        (leased claim db) got in
    record {
      was_queued = queued;
      had_no_lease = vacant;
      holds_were_free = holds_free;
      waits_were_free = waits_free;
      is_processing = ground (arith, ==_refl claim.batch);
      has_lease = ground (arith, same_owners, ==_refl claim.batch);
      has_locks = taken;
      same_tasks = same_tasks;
    }

-- A claim is either refused, and changes nothing, or granted: the batch was queued and had no lease,
-- every hold and every wait was free, and the batch now processes under the claim's lease with its
-- locks, while no task has changed.
pub claim_batch-outcome :
    (claim : ClaimRequest) (db : Db)
    → ((e : TaskError) × (claim_batch claim db ≡ (err e, db)))
      ⊎ ((row : BatchRow) × (db.batches claim.batch ≡ some row)
          × ((claim_batch claim db).0 ≡ ok tt)
          × Granted claim row db (claim_batch claim db).1)
unfolding claim_batch try_insert_batch_owner mark_batch_claimed set_batch_status
claim_batch-outcome claim db =
    let locks_of =
      acquire_locks claim.holds claim.waits (some claim.exec_token) (some claim.batch) in
    elim (Option-cases (db.batches claim.batch)) [
      | inl absent ↦ inl (batch_not_found, ground arith)
      | inr (row, here) ↦ elim (Bool-cases (batch_queued row.status)) [
        | inr other ↦ inl (batch_not_queued, ground arith)
        | inl queued ↦ elim (Option-cases (db.owners claim.batch)) [
          | inr (o, taken) ↦ inl (batch_locked, ground arith)
          | inl vacant ↦ elim (Result-cases (locks_of (leased claim db))) [
            | inl (e, busy) ↦ inl (e, ground arith)
            | inr (locked, got) ↦
                let ran = claim_batch-run claim db locked here queued vacant got in
                inr (
                  row,
                  here,
                  ap (λ r. r.0) ran,
                  subst (Granted claim row db) (sym (ap (λ r. r.1) ran))
                      (granted claim db locked here queued vacant got),
                )
          ]
        ]
      ]
    ]

-- A queued batch without a lease, whose claim names distinct free locks, can be claimed.
pub claim_batch_total :
    (claim : ClaimRequest) (db : Db) {row : BatchRow}
    → db.batches claim.batch ≡ some row
    → batch_queued row.status ≡ true
    → db.owners claim.batch ≡ none
    → distinct_locks claim.holds ≡ true
    → Free claim.holds db
    → Free claim.waits db
    → (claim_batch claim db).0 ≡ ok tt
unfolding lock_is_held
claim_batch_total claim db here queued vacant distinct free idle =
    let (locked, got) =
      acquire_locks_total claim.holds claim.waits (some claim.exec_token) (some claim.batch)
        (leased claim db) distinct free idle in
    ap (λ r. r.0) (claim_batch-run claim db locked here queued vacant got)
