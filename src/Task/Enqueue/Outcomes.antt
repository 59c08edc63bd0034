-- ===== src/Task/Enqueue/Outcomes.antt =====
-- What an enqueue leaves in the tables.
use edub_kushim.Base.{
  ℕ, suc, ◌+◌, ◌≡◌, refl, sym, ap, subst, ◌∙◌, ◌⊎◌, inl, inr, arith, true, Option, none, some, List,
  [], ◌∷◌, ◌++◌, all, length, Option-cases, ==_refl,
}
use edub_kushim.Types.Statuses.{batch_queued}
use edub_kushim.Task.Db.{Db, BatchRow, TaskRow, FollowUp}
use edub_kushim.Task.Db.Batches.{create_batch}
use edub_kushim.Task.Catalog.{Catalog}
use edub_kushim.Task.Enqueue.{
  Checked-cases, TaskSpec, BatchSpec, Checked, pass, Resolved, validate, resolve_tasks,
  resolve_task,
}
use edub_kushim.Task.Enqueue.Inserting.{
  new_row, Progress, EnqueueResult, insert_tasks, prepare_enqueue, enqueue_prepared, enqueue_batch,
}
use edub_kushim.Task.Enqueue.Rows.{ids_of, belongs, insert_tasks-Inserted}

length-resolve_tasks :
    (catalog : Catalog) (tasks : List TaskSpec) {resolved : List Resolved}
    → resolve_tasks catalog tasks ≡ pass resolved
    → length resolved ≡ length tasks
unfolding resolve_tasks
length-resolve_tasks catalog [] h = ground arith
length-resolve_tasks catalog (t ∷ tasks) {resolved} h =
    elim (Checked-cases (resolve_task catalog t)) [
      | inl (e, refused) ↦ ground arith
      | inr (r, first) ↦ elim (Checked-cases (resolve_tasks catalog tasks)) [
        | inl (e, refused) ↦ ground arith
        | inr (rs, others) ↦
            let shape : r ∷ rs ≡ resolved = ground arith in
            ap (λ (xs : List Resolved). length xs) (sym shape)
            ∙ ap (λ n. suc n) (length-resolve_tasks catalog tasks others)
      ]
    ]

-- What a committed enqueue of `tasks` has done.
pub record Enqueued (b : ℕ) (tasks : List TaskSpec) (r : EnqueueResult) (db after : Db)
    : Type 0 where
  pub in_new_batch : r.batch_id ≡ some b
  pub batch_row : BatchRow
  pub batch_there : after.batches b ≡ some batch_row
  pub batch_is_queued : batch_queued batch_row.status ≡ true
  pub new_rows : List TaskRow
  pub rows_appended : after.tasks ≡ db.tasks ++ new_rows
  pub rows_named : ids_of new_rows ≡ r.task_ids
  pub rows_counted : length new_rows + r.skipped ≡ length tasks
  pub rows_belong : all (belongs b r.task_ids) new_rows ≡ true
  pub leases_kept : after.owners ≡ db.owners
  pub locks_kept : after.signals ≡ db.signals

pub List-cases : {A : Type 0} (xs : List A) → (xs ≡ []) ⊎ ((x : A) × (ys : List A) × (xs ≡ x ∷ ys))
List-cases [] = inl refl
List-cases (x ∷ xs) = inr (x, xs, refl)

abbrev report : ℕ → Progress → EnqueueResult
report b p = record { batch_id = some b; task_ids = p.created; skipped = p.skipped }

enqueue_prepared-cases :
    (uuids : ℕ → ℕ) (row : BatchRow) (tasks : List TaskSpec) (resolved : List Resolved) (db : Db)
    → batch_queued row.status ≡ true
    → length resolved ≡ length tasks
    → db.batches (uuids 0) ≡ none
    → ((enqueue_prepared uuids row resolved db).1 ≡ db)
      ⊎ ((r : EnqueueResult) × ((enqueue_prepared uuids row resolved db).0 ≡ pass r)
          × Enqueued (uuids 0) tasks r db (enqueue_prepared uuids row resolved db).1)
unfolding enqueue_prepared create_batch
enqueue_prepared-cases uuids row tasks resolved db queued same fresh =
    let b = uuids 0 in
    let start : Progress = record { created = []; skipped = 0; tables = create_batch b row db } in
    elim (Option-cases (insert_tasks (λ n. uuids (suc n)) b resolved start)) [
      | inl e ↦ inl (ground arith)
      | inr (p, e) ↦ elim (List-cases p.created) [
        | inl empty ↦ inl (ground arith)
        | inr (id, ids, some_id) ↦
            let done = insert_tasks-Inserted (λ n. uuids (suc n)) b resolved start e in
            let committed : enqueue_prepared uuids row resolved db ≡ (pass (report b p), p.tables) =
              ground arith in
            inr (
              report b p,
              ap (λ x. x.0) committed,
              subst (Enqueued b tasks (report b p) db) (sym (ap (λ x. x.1) committed)) (record {
                in_new_batch = refl;
                batch_row = row;
                batch_there = ground (arith, done.same_batches, ==_refl b);
                batch_is_queued = queued;
                new_rows = done.rows;
                rows_appended = ground (arith, done.appended);
                rows_named = sym done.named;
                rows_counted = omega (arith, done.counted, same);
                rows_belong = done.belonging;
                leases_kept = ground (arith, done.same_owners);
                locks_kept = ground (arith, done.same_signals);
              }),
            )
      ]
    ]

-- the two ways out
abbrev Outcome : (ℕ → ℕ) → List TaskSpec → Db → Checked EnqueueResult × Db → Type 0
Outcome uuids tasks db x =
    (x.1 ≡ db) ⊎ ((r : EnqueueResult) × (x.0 ≡ pass r) × Enqueued (uuids 0) tasks r db x.1)

prepare_enqueue-resolved :
    (catalog : Catalog) (spec : BatchSpec) (tasks : List TaskSpec) {resolved : List Resolved}
    {follow_up : Option FollowUp}
    → prepare_enqueue catalog spec tasks ≡ pass (resolved, follow_up)
    → resolve_tasks catalog tasks ≡ pass resolved
unfolding prepare_enqueue
prepare_enqueue-resolved catalog spec tasks h = ground arith

-- Where the drawn batch id is new, an enqueue either changes no table, or it commits a queued batch and
-- appends one row of that batch for every task that it does not skip, each with its parent, if it has
-- one, among the created tasks, and changes no lease and no lock.
pub enqueue_batch-outcome :
    (catalog : Catalog) (uuids : ℕ → ℕ) (spec : BatchSpec) (tasks : List TaskSpec) (db : Db)
    → db.batches (uuids 0) ≡ none
    → ((enqueue_batch catalog uuids spec tasks db).1 ≡ db)
      ⊎ ((r : EnqueueResult) × ((enqueue_batch catalog uuids spec tasks db).0 ≡ pass r)
          × Enqueued (uuids 0) tasks r db (enqueue_batch catalog uuids spec tasks db).1)
unfolding enqueue_batch
enqueue_batch-outcome catalog uuids spec [] db fresh = inl (ground arith)
enqueue_batch-outcome catalog uuids spec (t ∷ ts) db fresh = elim (Option-cases spec.origin) [
  | inl e ↦ inl (ground arith)
  | inr (origin, declared_origin) ↦ elim (Option-cases (validate spec)) [
    | inr (e, refused) ↦ inl (ground arith)
    | inl valid ↦ elim (Checked-cases (prepare_enqueue catalog spec (t ∷ ts))) [
      | inl (e, refused) ↦ inl (ground arith)
      | inr ((resolved, follow_up), ready) ↦
          let row = new_row spec origin follow_up in
          let same =
            length-resolve_tasks catalog (t ∷ ts)
              (prepare_enqueue-resolved catalog spec (t ∷ ts) ready) in
          let ran : enqueue_batch catalog uuids spec (t ∷ ts) db
              ≡ enqueue_prepared uuids row resolved db =
            ground arith in
          subst (Outcome uuids (t ∷ ts) db) (sym ran)
            (enqueue_prepared-cases uuids row (t ∷ ts) resolved db refl same fresh)
    ]
  ]
]
