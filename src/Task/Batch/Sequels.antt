-- ===== src/Task/Batch/Sequels.antt =====
-- createFollowUpBatch: the declared batch comes whole or not at all.
use edub_kushim.Base.{
  false, ◌==◌, ◌≢◌, ℕ, zero, suc, ◌+◌, ◌≡◌, refl, sym, ap, subst, ◌∙◌, ◌⊎◌, inl, inr, arith, Bool,
  true, ◌&&◌, Option, none, some, List, [], ◌∷◌, ◌++◌, length, all, Bool-cases, Option-cases,
  ==_refl,
}
use edub_kushim.Types.{BatchOrigin, BatchStatus}
use edub_kushim.Types.Statuses.{is_pending}
use edub_kushim.Task.Lifecycle.FollowUps.{batches-follow_up_tasks}
use edub_kushim.Task.Db.{Db, BatchRow, TaskRow, FollowUpTask}
use edub_kushim.Task.Db.Tasks.{in_batch}
use edub_kushim.Task.Db.Batches.{inserted, Insert-cases, create_task, create_batch}
use edub_kushim.Task.Catalog.{Catalog}
use edub_kushim.Task.Batch.Settling.{
  follow_up_row, create_follow_up_tasks, declared_tasks, declared_batch, keep_created, fires,
  trigger_batch, create_follow_up_batch,
}
use edub_kushim.Task.Enqueue.Rows.{create_task-inserted, append_nil, append_assoc}

owners-create_task :
    (row : TaskRow) (db : Db) {after : Db}
    → create_task row db ≡ inserted after
    → after.owners ≡ db.owners
unfolding create_task
owners-create_task row db e = ground arith

owners-create_batch :
    (b : ℕ) (row : BatchRow) (db : Db) → (create_batch b row db).owners ≡ db.owners
unfolding create_batch
owners-create_batch b row db = ground arith

abbrev pub fresh_in : ℕ → TaskRow → Bool
fresh_in b t = in_batch b t && is_pending t.status

-- Rows appended to the tasks, all pending in the batch.
pub record Appended (b n : ℕ) (db after : Db) : Type 0 where
  pub rows : List TaskRow
  pub tasks_then_rows : after.tasks ≡ db.tasks ++ rows
  pub rows_are : n ≡ length rows
  pub all_fresh : all (fresh_in b) rows ≡ true

-- The loop over the declared tasks gave up, or it inserted none.
abbrev pub NoTask : Option (ℕ × Db) → Type 0
NoTask result = (result ≡ none) ⊎ ((after : Db) × (result ≡ some (0, after)))

-- The new batch's row: queued, created by the trigger, with neither a schedule nor a declaration of its
-- own; a row that has the id already stays. No other batch changes.
pub record Created (b : ℕ) (db after : Db) : Type 0 where
  pub row_of :
      ((db.batches b ≡ none)
        × (after.batches b
            ≡ some (record {
              origin = BatchOrigin.trigger;
              schedule = none;
              status = BatchStatus.queued;
              follow_up = none;
            })))
      ⊎ ((row : BatchRow) × (db.batches b ≡ some row) × (after.batches b ≡ some row))
  pub other_batches : (j : ℕ) → (j == b) ≡ false → after.batches j ≡ db.batches j

create_batch-Created : (b : ℕ) (db : Db) → Created b db (create_batch b trigger_batch db)
unfolding create_batch
create_batch-Created b db = elim (Option-cases (db.batches b)) [
  | inl absent ↦ record {
    row_of = inl (absent, ground (arith, ==_refl b));
    other_batches = λ j h. ground arith;
  }
  | inr (row, here) ↦ record {
    row_of = inr (row, here, ground arith);
    other_batches = λ j h. ground arith;
  }
]

Created-of_eq :
    (b : ℕ) (db created after : Db)
    → after.batches ≡ created.batches
    → Created b db created
    → Created b db after
Created-of_eq b db created after same c = record {
  row_of = elim c.row_of [
    | inl (absent, new) ↦ inl (absent, ap (λ (f : ℕ → Option BatchRow). f b) same ∙ new)
    | inr (row, here, kept) ↦ inr (row, here, ap (λ (f : ℕ → Option BatchRow). f b) same ∙ kept)
  ];
  other_batches = λ j h. ap (λ (f : ℕ → Option BatchRow). f j) same ∙ c.other_batches j h;
}

module _ (catalog : Catalog) where
  tasks-Appended :
      (uuids : ℕ → ℕ) (b : ℕ) (tasks : List FollowUpTask) (created : ℕ) (db : Db) {n : ℕ}
      {after : Db}
      → create_follow_up_tasks catalog uuids b tasks created db ≡ some (n, after)
      → (m : ℕ) × (n ≡ created + m) × Appended b m db after
  unfolding create_follow_up_tasks
  tasks-Appended uuids b [] created db {n} {after} h =
      let same : db ≡ after = ground arith in
      (
        0,
        ground arith,
        subst (Appended b 0 db) same (record {
          rows = [];
          tasks_then_rows = sym (append_nil db.tasks);
          rows_are = refl;
          all_fresh = refl;
        }),
      )
  tasks-Appended uuids b (t ∷ rest) created db {n} {after} h =
      let next = λ (k : ℕ). uuids (suc k) in
      elim (Option-cases (catalog t.task_type)) [
        | inl unknown ↦ ground arith
        | inr (definition, known) ↦
            let row = follow_up_row b (uuids 0) t definition in
            elim (Insert-cases (create_task row db)) [
              | inl (db', e) ↦
                  let rest_of : create_follow_up_tasks catalog next b rest (suc created) db'
                      ≡ some (n, after) =
                    ground arith in
                  let (m, sum, tail) = tasks-Appended next b rest (suc created) db' rest_of in
                  let first = (create_task-inserted row db e).0 in
                  let stored : TaskRow = record row { id = db.next_id } in
                  (
                    suc m,
                    omega (arith, sum),
                    record {
                      rows = stored ∷ tail.rows;
                      tasks_then_rows =
                          tail.tasks_then_rows
                          ∙ ap (λ xs. xs ++ tail.rows) first
                          ∙ append_assoc db.tasks (stored ∷ []) tail.rows;
                      rows_are = ap (λ k. suc k) tail.rows_are;
                      all_fresh = ground (arith, ==_refl b, tail.all_fresh);
                    },
                  )
              | inr (inl e) ↦
                  let rest_of : create_follow_up_tasks catalog next b rest created db
                      ≡ some (n, after) =
                    ground arith in
                  tasks-Appended next b rest created db rest_of
              | inr (inr e) ↦ ground arith
            ]
      ]

  tasks-create_batch : (b : ℕ) (db : Db) → (create_batch b trigger_batch db).tasks ≡ db.tasks
  unfolding create_batch
  tasks-create_batch b db = ground arith

  kept-Appended :
      (b : ℕ) (db created : Db) (result : Option (ℕ × Db))
      → created.tasks ≡ db.tasks
      → ((n : ℕ) (after : Db)
          → result ≡ some (n, after)
          → (m : ℕ) × (n ≡ 0 + m) × Appended b m created after)
      → ((n : ℕ) (after : Db) → result ≡ some (n, after) → after.batches ≡ created.batches)
      → Created b db created
      → ((keep_created db result ≡ db) × NoTask result)
        ⊎ ((m : ℕ) × Created b db (keep_created db result)
            × Appended b (suc m) db (keep_created db result))
  kept-Appended b db created none same rows_of kept new = inl (refl, inl refl)
  kept-Appended b db created (some (zero, after)) same rows_of kept new =
      inl (refl, inr (after, refl))
  kept-Appended b db created (some (suc n, after)) same rows_of kept new =
      let (m, sum, tail) = rows_of (suc n) after refl in
      inr (
        n,
        Created-of_eq b db created after (kept (suc n) after refl) new,
        record {
          rows = tail.rows;
          tasks_then_rows = tail.tasks_then_rows ∙ ap (λ xs. xs ++ tail.rows) same;
          rows_are = omega (arith, sum, tail.rows_are);
          all_fresh = tail.all_fresh;
        },
      )

  declared-Appended :
      (uuids : ℕ → ℕ) (tasks : List FollowUpTask) (db : Db)
      → ((declared_batch catalog uuids tasks db ≡ db)
          × ((tasks ≡ [])
              ⊎ NoTask (
                  create_follow_up_tasks catalog
                    (λ n. uuids (suc n))
                    (uuids 0)
                    tasks
                    0
                    (create_batch (uuids 0) trigger_batch db))))
        ⊎ ((m : ℕ) × Created (uuids 0) db (declared_batch catalog uuids tasks db)
            × Appended (uuids 0) (suc m) db (declared_batch catalog uuids tasks db))
  unfolding declared_batch
  declared-Appended uuids [] db = inl (refl, inl refl)
  declared-Appended uuids (t ∷ ts) db =
      let b = uuids 0 in
      let next = λ (n : ℕ). uuids (suc n) in
      let created = create_batch b trigger_batch db in
      elim (kept-Appended b db created (create_follow_up_tasks catalog next b (t ∷ ts) 0 created)
        (tasks-create_batch b db) (λ n after e. tasks-Appended next b (t ∷ ts) 0 created e)
        (λ n after e. batches-follow_up_tasks catalog next b (t ∷ ts) 0 created e)
        (create_batch-Created b db)) [
          | inl (same, nothing) ↦ inl (same, inr nothing)
          | inr made ↦ inr made
        ]

  unfired :
      (status : BatchStatus)
      → fires status ≡ false
      → (status ≢ BatchStatus.completed) × (status ≢ BatchStatus.failed)
  unfired status h = (λ e. ground (arith, e, h), λ e. ground (arith, e, h))

  fired :
      (status : BatchStatus)
      → fires status ≡ true
      → (status ≡ BatchStatus.completed) ⊎ (status ≡ BatchStatus.failed)
  fired BatchStatus.completed h = inl refl
  fired BatchStatus.failed h = inr refl
  fired status h = cc

  -- A settled batch's declaration either changes no table, and then the batch neither completed nor failed,
  -- or it declares no task, or the insertion of the declared tasks gave up or inserted none; or the batch
  -- completed or failed and the new batch is there, queued and of the trigger unless its id was taken, at
  -- least one task is appended, all that are appended are pending in the new batch, and no other batch changes.
  pub create_follow_up_batch-outcome :
      (uuids : ℕ → ℕ) (settled : BatchRow) (db : Db)
      → ((create_follow_up_batch catalog uuids settled db ≡ db)
          × (((settled.status ≢ BatchStatus.completed) × (settled.status ≢ BatchStatus.failed))
              ⊎ (declared_tasks settled.follow_up ≡ [])
              ⊎ NoTask (
                  create_follow_up_tasks catalog
                    (λ n. uuids (suc n))
                    (uuids 0)
                    (declared_tasks settled.follow_up)
                    0
                    (create_batch (uuids 0) trigger_batch db))))
        ⊎ ((m : ℕ) × ((settled.status ≡ BatchStatus.completed)
              ⊎ (settled.status ≡ BatchStatus.failed))
            × Created (uuids 0) db (create_follow_up_batch catalog uuids settled db)
            × Appended (uuids 0) (suc m) db (create_follow_up_batch catalog uuids settled db))
  unfolding create_follow_up_batch
  create_follow_up_batch-outcome uuids settled db = elim (Bool-cases (fires settled.status)) [
    | inr e ↦ inl (ground arith, inl (unfired settled.status e))
    | inl e ↦ elim (declared-Appended uuids (declared_tasks settled.follow_up) db) [
      | inl (same, why) ↦ inl (ground arith, inr why)
      | inr (m, new, rows) ↦ inr (m, fired settled.status e, rw e new, rw e rows)
    ]
  ]

module _ (catalog : Catalog) where
  owners-create_tasks :
      (uuids : ℕ → ℕ) (b : ℕ) (tasks : List FollowUpTask) (created : ℕ) (db : Db) (n : ℕ)
      (after : Db)
      → create_follow_up_tasks catalog uuids b tasks created db ≡ some (n, after)
      → after.owners ≡ db.owners
  unfolding create_follow_up_tasks
  owners-create_tasks uuids b [] created db n after e = ground arith
  owners-create_tasks uuids b (t ∷ rest) created db n after e =
      let next = λ (n : ℕ). uuids (suc n) in
      elim (Option-cases (catalog t.task_type)) [
        | inl unknown ↦ ground arith
        | inr (definition, known) ↦
            let row = follow_up_row b (uuids 0) t definition in
            elim (Insert-cases (create_task row db)) [
              | inl (db', new) ↦
                  owners-create_tasks next b rest (suc created) db' n after (ground arith)
                  ∙ owners-create_task row db new
              | inr (inl old) ↦ owners-create_tasks next b rest created db n after (ground arith)
              | inr (inr bad) ↦ ground arith
            ]
      ]

  owners-keep_created :
      (db created : Db) (result : Option (ℕ × Db))
      → created.owners ≡ db.owners
      → ((n : ℕ) (after : Db) → result ≡ some (n, after) → after.owners ≡ created.owners)
      → (keep_created db result).owners ≡ db.owners
  owners-keep_created db created none same kept = refl
  owners-keep_created db created (some (zero, after)) same kept = refl
  owners-keep_created db created (some (suc n, after)) same kept = kept (suc n) after refl ∙ same

  owners-declared :
      (uuids : ℕ → ℕ) (tasks : List FollowUpTask) (db : Db)
      → (declared_batch catalog uuids tasks db).owners ≡ db.owners
  unfolding declared_batch
  owners-declared uuids [] db = refl
  owners-declared uuids (t ∷ ts) db =
      let created = create_batch (uuids 0) trigger_batch db in
      owners-keep_created db created _ (owners-create_batch (uuids 0) trigger_batch db)
        (owners-create_tasks (λ n. uuids (suc n)) (uuids 0) (t ∷ ts) 0 created)

  -- A follow-up batch gives no lease to anyone.
  pub owners-create_follow_up :
      (uuids : ℕ → ℕ) (settled : BatchRow) (db : Db)
      → (create_follow_up_batch catalog uuids settled db).owners ≡ db.owners
  unfolding create_follow_up_batch
  owners-create_follow_up uuids settled db = elim (Bool-cases (fires settled.status)) [
    | inl e ↦ ground (arith, owners-declared uuids (declared_tasks settled.follow_up) db)
    | inr e ↦ ground arith
  ]
