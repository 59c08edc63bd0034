-- ===== src/Task/Lifecycle/FollowUps.antt =====
-- The settle follows the diagram, and the batch that it creates is new and queued.
use edub_kushim.Base.{
  ℕ, zero, ap, ==_iff, suc, ◌≡◌, refl, sym, ◌∙◌, ◌⊎◌, inl, inr, false, Option, none, some, arith,
  ◌==◌, Bool-cases, Option-cases, List, [], ◌∷◌, subst,
}
use edub_kushim.Types.{BatchStatus}
use edub_kushim.Types.Statuses.{BatchStatus-cases}
use edub_kushim.Task.Db.{Db, BatchRow, TaskRow, FollowUpTask}
use edub_kushim.Task.Db.Batches.{
  Insert-cases, inserted, create_task, create_batch, settle_batch_row, has_failed_task,
}
use edub_kushim.Task.Locks.{release_locks_for_batch}
use edub_kushim.Task.Catalog.{Catalog}
use edub_kushim.Task.Batch.Settling.{
  Execution, create_follow_up_tasks, create_follow_up_batch, settle_batch, trigger_batch,
  follow_up_row, keep_created, declared_batch, declared_tasks, fires,
}
use edub_kushim.Task.Lifecycle.Graph.{Evolves, at_key, succeeded, broke}

batches-create_task :
    (row : TaskRow) (db : Db) {after : Db}
    → create_task row db ≡ inserted after
    → after.batches ≡ db.batches
unfolding create_task
batches-create_task row db h = ground arith

module _ (catalog : Catalog) where
  pub batches-follow_up_tasks :
      (uuids : ℕ → ℕ) (b : ℕ) (tasks : List FollowUpTask) (created : ℕ) (db : Db) {n : ℕ}
      {after : Db}
      → create_follow_up_tasks catalog uuids b tasks created db ≡ some (n, after)
      → after.batches ≡ db.batches
  unfolding create_follow_up_tasks
  batches-follow_up_tasks uuids b [] created db h = ground arith
  batches-follow_up_tasks uuids b (t ∷ rest) created db {n} {after} h =
      let next = λ (k : ℕ). uuids (suc k) in
      elim (Option-cases (catalog t.task_type)) [
        | inl unknown ↦ ground arith
        | inr (definition, known) ↦
            elim (Insert-cases (create_task (follow_up_row b (uuids 0) t definition) db)) [
              | inl (db', e) ↦
                  let rest_of : create_follow_up_tasks catalog next b rest (suc created) db'
                      ≡ some (n, after) =
                    ground arith in
                  batches-follow_up_tasks next b rest (suc created) db' rest_of
                  ∙ batches-create_task (follow_up_row b (uuids 0) t definition) db e
              | inr (inl e) ↦
                  let rest_of : create_follow_up_tasks catalog next b rest created db
                      ≡ some (n, after) =
                    ground arith in
                  batches-follow_up_tasks next b rest created db rest_of
              | inr (inr e) ↦ ground arith
            ]
      ]

  -- A batch that was not there may be, queued; the others stay.
  abbrev Grows : Db → Db → ℕ → Type 0
  Grows db after j =
      (after.batches j ≡ db.batches j)
      ⊎ ((db.batches j ≡ none) × (after.batches j ≡ some trigger_batch))

  create-Grows : (b : ℕ) (db : Db) (j : ℕ) → Grows db (create_batch b trigger_batch db) j
  unfolding create_batch
  create-Grows b db j = elim (Option-cases (db.batches b)) [
    | inr (row, here) ↦ inl (ground arith)
    | inl absent ↦ elim (Bool-cases (j == b)) [
      | inr other ↦ inl (ground arith)
      | inl same ↦
          inr (subst (λ k. db.batches k ≡ none) (sym ((==_iff j b).0 same)) absent, ground arith)
    ]
  ]

  kept-Grows :
      (created db : Db) (j : ℕ) (r : Option (ℕ × Db))
      → ((n : ℕ) (after : Db) → r ≡ some (n, after) → after.batches ≡ created.batches)
      → Grows db created j
      → Grows db (keep_created db r) j
  kept-Grows created db j none same g = inl refl
  kept-Grows created db j (some (zero, after)) same g = inl refl
  kept-Grows created db j (some (suc n, after)) same g =
      let eq : after.batches j ≡ created.batches j = ap (λ f. f j) (same (suc n) after refl) in
      elim g [ inl e ↦ inl (eq ∙ e) | inr (absent, e) ↦ inr (absent, eq ∙ e) ]

  declared-Grows :
      (uuids : ℕ → ℕ) (tasks : List FollowUpTask) (db : Db) (j : ℕ)
      → Grows db (declared_batch catalog uuids tasks db) j
  unfolding declared_batch
  declared-Grows uuids [] db j = inl refl
  declared-Grows uuids (t ∷ ts) db j =
      let next = λ (n : ℕ). uuids (suc n) in
      let created = create_batch (uuids 0) trigger_batch db in
      kept-Grows created db j (create_follow_up_tasks catalog next (uuids 0) (t ∷ ts) 0 created)
        (λ n after e. batches-follow_up_tasks next (uuids 0) (t ∷ ts) 0 created e)
        (create-Grows (uuids 0) db j)

  pub follow_up-Grows :
      (uuids : ℕ → ℕ) (settled : BatchRow) (db : Db) (j : ℕ)
      → Grows db (create_follow_up_batch catalog uuids settled db) j
  unfolding create_follow_up_batch
  follow_up-Grows uuids settled db j = elim (Bool-cases (fires settled.status)) [
    | inl e ↦ rw e (declared-Grows uuids (declared_tasks settled.follow_up) db j)
    | inr e ↦ rw e (inl refl)
  ]

  -- The row that SettleBatch writes, or the table as it was.
  written-Evolves :
      (b : ℕ) (owner : Option ℕ) (db : Db) (j : ℕ) {settled : BatchRow} {written : Db}
      → settle_batch_row b owner db ≡ some (settled, written)
      → Evolves false (db.batches j) (written.batches j)
  unfolding settle_batch_row
  written-Evolves b owner db j {settled} {written} h = elim (Option-cases (db.batches b)) [
    | inl absent ↦ ground arith
    | inr (row, here) ↦ elim (BatchStatus-cases row.status) [
      | inr other ↦ ground arith
      | inl processing ↦ elim (Bool-cases (j == b)) [
        | inr away ↦ inl (ground arith)
        | inl same ↦ elim (Bool-cases (has_failed_task b db)) [
          | inl failing ↦ inr (
              inl (
                row,
                BatchStatus.failed,
                at_key j b db here same,
                ground arith,
                rw processing broke,
              ))
          | inr clean ↦ inr (
              inl (
                row,
                BatchStatus.completed,
                at_key j b db here same,
                ground arith,
                rw processing succeeded,
              ))
        ]
      ]
    ]
  ]

  grown-Evolves :
      {before mid after : Option BatchRow}
      → Evolves false before mid
      → (after ≡ mid) ⊎ ((mid ≡ none) × (after ≡ some trigger_batch))
      → Evolves false before after
  grown-Evolves {before} e (inl same) = subst (Evolves false before) (sym same) e
  grown-Evolves (inl kept) (inr (absent, new)) =
      inr (inr (trigger_batch, sym kept ∙ absent, new, refl))
  grown-Evolves (inr (inl (row, status, here, wrote, edge))) (inr (absent, new)) = cc
  grown-Evolves (inr (inr (row, here, wrote, queued))) (inr (absent, new)) = cc

  pub settle-Evolves :
      (uuids : ℕ → ℕ) (execution : Execution) (db : Db) (j : ℕ)
      → Evolves false (db.batches j) ((settle_batch catalog uuids execution db).1.batches j)
  unfolding settle_batch release_locks_for_batch
  settle-Evolves uuids execution db j =
      elim (Option-cases (settle_batch_row execution.batch execution.owner db)) [
        | inl refused ↦ inl (ground arith)
        | inr ((settled, written), wrote) ↦
            grown-Evolves (written-Evolves execution.batch execution.owner db j wrote)
              (ground (arith, follow_up-Grows uuids settled written j))
      ]
