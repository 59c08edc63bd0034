-- ===== src/Task/Batch/Settling.antt =====
-- Claiming, settling and pausing a batch, and the batch that a settled one declared.
use edub_kushim.Base.{
  ℕ, zero, suc, Bool, true, false, not, Option, none, some, List, [], ◌∷◌, if◌then◌else◌,
}
use edub_kushim.Types.{BatchOrigin, BatchStatus, TaskStatus, LockName}
use edub_kushim.Types.Statuses.{batch_queued}
use edub_kushim.Task.Errors.{
  Result, ok, err, batch_not_found, batch_not_queued, batch_locked, claim_refused,
}
use edub_kushim.Task.Db.{Db, BatchRow, TaskRow, FollowUp, FollowUpTask, undecodable, declared}
use edub_kushim.Task.Db.Owners.{try_insert_batch_owner, release_batch_owner}
use edub_kushim.Task.Db.Batches.{
  mark_batch_claimed, settle_batch_row, set_batch_paused, create_batch, create_task, inserted,
  dedup_conflict, id_conflict,
}
use edub_kushim.Task.Locks.{acquire_locks, release_locks_for_batch}
use edub_kushim.Task.Catalog.{Catalog, TypeDefinition, derived_key}

pub record ClaimRequest : Type 0 where
  pub batch : ℕ
  pub exec_token : ℕ
  pub holds : List LockName
  pub waits : List LockName
  pub dispatcher : Option ℕ

-- The transaction after the status test.
abbrev claim_queued : ClaimRequest → Db → Result Db
claim_queued claim db =
    let (fresh, leased) = try_insert_batch_owner claim.batch claim.exec_token claim.dispatcher db in
    if not fresh
    then err batch_locked
    else elim (acquire_locks claim.holds claim.waits (some claim.exec_token) (some claim.batch)
        leased) [
          | err e ↦ err e
          | ok locked ↦
              let (claimed, marked) = mark_batch_claimed claim.batch locked in
              if claimed then ok marked else err claim_refused
        ]

abbrev pub commit_or_keep : Db → Result Db → Result (Unit {0}) × Db
commit_or_keep db (ok after) = (ok tt, after)
commit_or_keep db (err e) = (err e, db)

unfoldable pub claim_batch : ClaimRequest → Db → Result (Unit {0}) × Db
claim_batch claim db = elim (db.batches claim.batch) [
  | none ↦ (err batch_not_found, db)
  | some row ↦
      if batch_queued row.status
      then commit_or_keep db (claim_queued claim db)
      else (err batch_not_queued, db)
]

-- The lease that authorizes a run's writes; `owner` is none where the run is not leased.
pub record Execution : Type 0 where
  pub batch : ℕ
  pub owner : Option ℕ

abbrev pub follow_up_row : ℕ → ℕ → FollowUpTask → TypeDefinition → TaskRow
unfolding derived_key
follow_up_row b task_id t definition = record {
  id = 0;
  task_id = task_id;
  task_type = t.task_type;
  status = TaskStatus.pending;
  batch_id = some b;
  payload = some t.payload;
  result = none;
  dedup_key = derived_key definition t.payload;
  started_at = none;
  completed_at = none;
  error = none;
  attempts = 0;
  progress = none;
  parent_task_id = none;
}

abbrev pub keep_created : Db → Option (ℕ × Db) → Db
keep_created db none = db
keep_created db (some (zero, db')) = db
keep_created db (some (suc n, db')) = db'

abbrev pub declared_tasks : Option FollowUp → List FollowUpTask
declared_tasks none = []
declared_tasks (some undecodable) = []
declared_tasks (some (declared tasks)) = tasks

abbrev pub fires : BatchStatus → Bool
fires BatchStatus.completed = true
fires BatchStatus.failed = true
fires _ = false

abbrev pub trigger_batch : BatchRow
trigger_batch = record {
  origin = BatchOrigin.trigger;
  schedule = none;
  status = BatchStatus.queued;
  follow_up = none;
}

module _ (catalog : Catalog) where
  -- The loop over the declared tasks: `none` rolls the whole follow-up back. `uuids` are the ids
  -- that uuid.New draws from here on.
  unfoldable pub create_follow_up_tasks : (ℕ → ℕ) → ℕ → List FollowUpTask → ℕ → Db → Option (ℕ × Db)
  unfolding create_task derived_key
  create_follow_up_tasks uuids b [] created db = some (created, db)
  create_follow_up_tasks uuids b (t ∷ rest) created db =
      let next = λ (n : ℕ). uuids (suc n) in
      let again = λ (db' : Db) (n : ℕ). create_follow_up_tasks next b rest n db' in
      elim (catalog t.task_type) [
        | none ↦ none
        | some definition ↦ elim (create_task (follow_up_row b (uuids 0) t definition) db) [
          | inserted db' ↦ again db' (suc created)
          | dedup_conflict ↦ again db created
          | id_conflict ↦ none
        ]
      ]

  unfoldable pub declared_batch : (ℕ → ℕ) → List FollowUpTask → Db → Db
  unfolding create_follow_up_tasks create_batch
  declared_batch uuids [] db = db
  declared_batch uuids (t ∷ ts) db = keep_created db (
      create_follow_up_tasks (λ n. uuids (suc n)) (uuids 0) (t ∷ ts) 0
        (create_batch (uuids 0) trigger_batch db))

  -- createFollowUpBatch: the caller only logs its error, so the tables are all that it returns.
  unfoldable pub create_follow_up_batch : (ℕ → ℕ) → BatchRow → Db → Db
  unfolding create_follow_up_tasks create_batch
  create_follow_up_batch uuids settled db =
      if fires settled.status
      then declared_batch uuids (declared_tasks settled.follow_up) db
      else db

  -- SettleBatch: the status that it wrote or found.
  unfoldable pub settle_batch : (ℕ → ℕ) → Execution → Db → Result BatchStatus × Db
  unfolding settle_batch_row
  settle_batch uuids exec db = elim (settle_batch_row exec.batch exec.owner db) [
    | none ↦ elim (db.batches exec.batch) [
      | none ↦ (err batch_not_found, db)
      | some row ↦ (ok row.status, db)
    ]
    | some (settled, written) ↦ (
      ok settled.status,
      release_locks_for_batch exec.batch (create_follow_up_batch uuids settled written),
    )
  ]

abbrev pub release_lease : ℕ → Option ℕ → Db → Db
release_lease b none db = db
release_lease b (some token) db = (release_batch_owner b token db).1

-- PauseBatch reports nil also where the guard refused; the Boolean says which.
unfoldable pub pause_batch : Execution → Db → Bool × Db
unfolding set_batch_paused
pause_batch exec db =
    let (written, paused) = set_batch_paused exec.batch exec.owner db in
    if written
    then (true, release_lease exec.batch exec.owner (release_locks_for_batch exec.batch paused))
    else (false, db)
