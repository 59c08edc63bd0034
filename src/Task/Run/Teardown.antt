-- ===== src/Task/Run/Teardown.antt =====
-- RunBatch: what its teardown leaves.
use edub_kushim.Base.{
  ℕ, String, ◌≡◌, refl, ◌⊎◌, subst, inl, inr, Bool, true, false, ◌&&◌, not, Option, none, some,
  List, [], ◌∷◌, arith, if◌then◌else◌, Bool-cases, Option-cases, ==_refl,
}
use edub_kushim.Types.{TaskType, LockName, has_lock}
use edub_kushim.Types.Statuses.{batch_processing, BatchStatus-cases}
use edub_kushim.Task.Db.{Db}
use edub_kushim.Task.Db.Owners.{owned_by, adopt_batch_owner, release_batch_owner}
use edub_kushim.Task.Db.Batches.{requeue_processing_batch, set_batch_status}
use edub_kushim.Task.Locks.{held_by_token, release_locks_for_token}
use edub_kushim.Task.Catalog.{Catalog}
use edub_kushim.Task.Successors.{PlanError}
use edub_kushim.Task.Batch.Rest.{AtRest, requeue-AtRest}
use edub_kushim.Task.Run.{
  RunWorld, Report, aborted, teardown, run_adopted, run_claimed_batch, held_locks,
  list_batch_task_types, run_batch, torn_down, is_empty,
}

-- What a run that ended leaves: unless the database refused the write in question, the batch is not leased to
-- its token, none of the locks that the batch's types hold carries the token, and after an abort the batch
-- is not processing.
pub record TornDown (w : RunWorld) (b token : ℕ) (held : List LockName) (report : Report)
    (after : Db) : Type 0 where
  pub no_lease : (w.release_refused ≡ true) ⊎ (owned_by (after.owners b) token ≡ false)
  pub no_lock :
      (name : LockName)
      → has_lock held name ≡ true
      → (w.unlock_refused ≡ true) ⊎ (held_by_token (some token) (after.signals name) ≡ false)
  pub handed_back : (aborted report ≡ false) ⊎ (w.requeue_refused ≡ true) ⊎ AtRest b after

freed-requeue :
    (b : ℕ) (db : Db)
    → ((requeue_processing_batch b db).1.owners ≡ db.owners)
      × ((requeue_processing_batch b db).1.signals ≡ db.signals)
unfolding requeue_processing_batch set_batch_status
freed-requeue b db = (ground arith, ground arith)

released-unleased :
    (b token : ℕ) (db : Db) → owned_by ((release_batch_owner b token db).1.owners b) token ≡ false
unfolding release_batch_owner
released-unleased b token db = ground (arith, ==_refl b)

unlocked-free :
    (token : ℕ) (held : List LockName) (db : Db) (name : LockName)
    → has_lock held name ≡ true
    → held_by_token (some token) ((release_locks_for_token (some token) held db).signals name)
      ≡ false
unfolding release_locks_for_token
unlocked-free token held db name h = ground arith

owners-unlock :
    (token : Option ℕ) (held : List LockName) (db : Db)
    → (release_locks_for_token token held db).owners ≡ db.owners
unfolding release_locks_for_token
owners-unlock token held db = refl

module _ (w : RunWorld) (b token : ℕ)
    (leases : (n : ℕ) (db : Db)
      → owned_by (db.owners b) token ≡ false
      → owned_by ((w.others n db).owners b) token ≡ false)
    (locks : (n : ℕ) (db : Db) (name : LockName)
      → held_by_token (some token) (db.signals name) ≡ false
      → held_by_token (some token) ((w.others n db).signals name) ≡ false) where
  -- The tables after the release, after the locks, and at the end.
  abbrev freed : Db → Db
  freed db = if w.release_refused then db else (release_batch_owner b token db).1

  abbrev opened : List LockName → Db → Db
  opened held db = if w.unlock_refused then db else release_locks_for_token (some token) held db

  abbrev requeued : Bool → Db → Db
  requeued requeue db =
      if not requeue
      then db
      else if w.requeue_refused
      then w.others 6 db
      else (requeue_processing_batch b (w.others 6 db)).1

  requeued-keeps :
      (requeue : Bool) (db : Db)
      → (owned_by (db.owners b) token ≡ false
          → owned_by ((requeued requeue db).owners b) token ≡ false)
        × ((name : LockName)
            → held_by_token (some token) (db.signals name) ≡ false
            → held_by_token (some token) ((requeued requeue db).signals name) ≡ false)
  requeued-keeps false db = (λ h. h, λ name h. h)
  requeued-keeps true db =
      let (same_owners, same_signals) = freed-requeue b (w.others 6 db) in
      elim (Bool-cases w.requeue_refused) [
        | inl e ↦ rw e (leases 6 db, λ name h. locks 6 db name h)
        | inr e ↦ rw (e, same_owners, same_signals) (leases 6 db, λ name h. locks 6 db name h)
      ]

  opened-keeps :
      (held : List LockName) (db : Db)
      → owned_by (db.owners b) token ≡ false
      → owned_by ((opened held db).owners b) token ≡ false
  opened-keeps held db h = ground (arith, owners-unlock (some token) held db)

  teardown-lease :
      (held : List LockName) (requeue : Bool) (db : Db)
      → (w.release_refused ≡ true)
        ⊎ (owned_by ((teardown w b token held requeue db).owners b) token ≡ false)
  unfolding teardown
  teardown-lease held requeue db = elim (Bool-cases w.release_refused) [
    | inl e ↦ inl e
    | inr e ↦
        let out : owned_by ((freed db).owners b) token ≡ false =
          ground (arith, released-unleased b token db) in
        let kept = opened-keeps held (w.others 5 (freed db)) (leases 5 (freed db) out) in
        inr ((requeued-keeps requeue (opened held (w.others 5 (freed db)))).0 kept)
  ]

  teardown-lock :
      (held : List LockName) (requeue : Bool) (db : Db) (name : LockName)
      → has_lock held name ≡ true
      → (w.unlock_refused ≡ true)
        ⊎ (held_by_token (some token) ((teardown w b token held requeue db).signals name) ≡ false)
  unfolding teardown
  teardown-lock held requeue db name h = elim (Bool-cases w.unlock_refused) [
    | inl e ↦ inl e
    | inr e ↦
        let before = w.others 5 (freed db) in
        let free : held_by_token (some token) ((opened held before).signals name) ≡ false =
          ground (arith, unlocked-free token held before name h) in
        inr ((requeued-keeps requeue (opened held before)).1 name free)
  ]

  teardown-back :
      (held : List LockName) (requeue : Bool) (db : Db)
      → (requeue ≡ false)
        ⊎ (w.requeue_refused ≡ true)
        ⊎ AtRest b (teardown w b token held requeue db)
  unfolding teardown
  teardown-back held false db = inl refl
  teardown-back held true db = elim (Bool-cases w.requeue_refused) [
    | inl e ↦ inr (inl e)
    | inr e ↦
        let last = w.others 6 (opened held (w.others 5 (freed db))) in
        inr (inr (subst (AtRest b) (ground arith) (requeue-AtRest b last)))
  ]

  teardown-TornDown :
      (held : List LockName) (report : Report) (db : Db)
      → TornDown w b token held report (teardown w b token held (aborted report) db)
  teardown-TornDown held report db = record {
    no_lease = teardown-lease held (aborted report) db;
    no_lock = teardown-lock held (aborted report) db;
    handed_back = teardown-back held (aborted report) db;
  }

-- A run starts for a processing batch that has tasks and whose lease the token can adopt.
abbrev pub starts : ℕ → ℕ → ℕ → Db → Bool
starts b token pid db = elim (db.batches b) [
  | none ↦ false
  | some row ↦
      batch_processing row.status
      && (not (is_empty (list_batch_task_types b db)) && (adopt_batch_owner b token pid db).0)
]

module _ (w : RunWorld) (b token : ℕ)
    (leases : (n : ℕ) (db : Db)
      → owned_by (db.owners b) token ≡ false
      → owned_by ((w.others n db).owners b) token ≡ false)
    (locks : (n : ℕ) (db : Db) (name : LockName)
      → held_by_token (some token) (db.signals name) ≡ false
      → held_by_token (some token) ((w.others n db).signals name) ≡ false) where
  adopted-TornDown :
      (held : List LockName) (out : Option (Report × Db)) {report : Report} {after : Db}
      → torn_down w b token held out ≡ some (report, after)
      → TornDown w b token held report after
  unfolding torn_down
  adopted-TornDown held none h = cc
  adopted-TornDown held (some (found, db')) {report} h =
      let same : found ≡ report = ground arith in
      subst (TornDown w b token held report) (ground (arith, same))
        (teardown-TornDown w b token leases locks held report (w.others 4 db'))

  module _ (render : PlanError → String) (catalog : Catalog) (retries_text : ℕ → String)
      (max_retries : ℕ) where
    claimed-TornDown :
        (types : List TaskType) (db : Db) {report : Report} {after : Db}
        → run_claimed_batch render catalog retries_text max_retries w b token types db
          ≡ some (report, after)
        → ((not (is_empty types) && (adopt_batch_owner b token w.pid db).0 ≡ false) × (after ≡ db))
          ⊎ ((not (is_empty types) && (adopt_batch_owner b token w.pid db).0 ≡ true)
              × TornDown w b token (held_locks [] types) report after)
    unfolding run_claimed_batch
    claimed-TornDown [] db h = inl (refl, ground arith)
    claimed-TornDown (type ∷ types) db h =
        elim (Bool-cases (adopt_batch_owner b token w.pid db).0) [
          | inr refused ↦ inl (ground arith, ground arith)
          | inl fresh ↦ inr (
            ground arith,
            adopted-TornDown (held_locks [] (type ∷ types))
                (run_adopted render catalog retries_text max_retries w b token
                  (held_locks [] (type ∷ types)) (adopt_batch_owner b token w.pid db).1)
                (ground arith),
          )
        ]

    -- Where others never give the run's token a lease or a lock, a run that ends changed nothing unless it
    -- could start. Where it could, then however it ended and whatever others wrote meanwhile: the batch is
    -- not leased to its token unless the release was refused, no lock that the batch's types hold carries
    -- the token unless their release was refused, and after an abort the batch is not processing unless
    -- the requeue was refused too.
    pub run_batch-TornDown :
        (db : Db) {report : Report} {after : Db}
        → run_batch render catalog retries_text max_retries w b token db ≡ some (report, after)
        → ((starts b token w.pid db ≡ false) × (after ≡ db))
          ⊎ ((starts b token w.pid db ≡ true)
              × TornDown w b token (held_locks [] (list_batch_task_types b db)) report after)
    unfolding run_batch
    run_batch-TornDown db {report} {after} h = elim (Option-cases (db.batches b)) [
      | inl absent ↦ inl (ground arith, ground arith)
      | inr (row, here) ↦ elim (BatchStatus-cases row.status) [
        | inr idle ↦ inl (ground arith, ground arith)
        | inl busy ↦
            let run : run_claimed_batch render catalog retries_text max_retries w b token
                  (list_batch_task_types b db) db
                ≡ some (report, after) =
              ground arith in
            elim (claimed-TornDown (list_batch_task_types b db) db run) [
              | inl (shut, same) ↦ inl (ground arith, same)
              | inr (adopted, torn) ↦ inr (ground arith, torn)
            ]
      ]
    ]
