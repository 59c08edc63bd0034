-- ===== src/Task/Lifecycle/Enqueueing.antt =====
-- An enqueue adds a queued batch to the diagram, or nothing.
use edub_kushim.Base.{
  ℕ, ◌≡◌, refl, sym, subst, inl, inr, arith, false, none, List, [], ◌∷◌, ◌==◌, Bool-cases,
  Option-cases, suc, ==_iff,
}
use edub_kushim.Types.{BatchStatus}
use edub_kushim.Task.Db.{Db, BatchRow}
use edub_kushim.Task.Db.Batches.{create_batch}
use edub_kushim.Task.Catalog.{Catalog}
use edub_kushim.Task.Enqueue.{TaskSpec, BatchSpec, Resolved, Checked-cases, validate}
use edub_kushim.Task.Enqueue.Inserting.{
  Progress, new_row, insert_tasks, prepare_enqueue, enqueue_prepared, enqueue_batch,
}
use edub_kushim.Task.Enqueue.Rows.{insert_tasks-Inserted}
use edub_kushim.Task.Enqueue.Outcomes.{List-cases}
use edub_kushim.Task.Lifecycle.Graph.{Evolves}

create_batch-Evolves :
    (b : ℕ) (row : BatchRow) (db : Db) (j : ℕ)
    → row.status ≡ BatchStatus.queued
    → Evolves false (db.batches j) ((create_batch b row db).batches j)
unfolding create_batch
create_batch-Evolves b row db j queued = elim (Option-cases (db.batches b)) [
  | inr (old, here) ↦ inl (ground arith)
  | inl absent ↦ elim (Bool-cases (j == b)) [
    | inr other ↦ inl (ground arith)
    | inl same ↦
        let absent_here = subst (λ k. db.batches k ≡ none) (sym ((==_iff j b).0 same)) absent in
        inr (inr (row, absent_here, ground arith, queued))
  ]
]

enqueue_prepared-Evolves :
    (uuids : ℕ → ℕ) (row : BatchRow) (resolved : List Resolved) (db : Db) (j : ℕ)
    → row.status ≡ BatchStatus.queued
    → Evolves false (db.batches j) ((enqueue_prepared uuids row resolved db).1.batches j)
unfolding enqueue_prepared
enqueue_prepared-Evolves uuids row resolved db j queued =
    let b = uuids 0 in
    let start : Progress = record { created = []; skipped = 0; tables = create_batch b row db } in
    elim (Option-cases (insert_tasks (λ n. uuids (suc n)) b resolved start)) [
      | inl e ↦ inl (ground arith)
      | inr (p, e) ↦ elim (List-cases p.created) [
        | inl empty ↦ inl (ground arith)
        | inr (id, ids, some_id) ↦
            let done = insert_tasks-Inserted (λ n. uuids (suc n)) b resolved start e in
            let wrote : (enqueue_prepared uuids row resolved db).1.batches j
                ≡ (create_batch b row db).batches j =
              ground (arith, done.same_batches) in
            subst (Evolves false (db.batches j)) (sym wrote)
              (create_batch-Evolves b row db j queued)
      ]
    ]

pub enqueue_batch-Evolves :
    (catalog : Catalog) (uuids : ℕ → ℕ) (spec : BatchSpec) (tasks : List TaskSpec) (db : Db) (j : ℕ)
    → Evolves false (db.batches j) ((enqueue_batch catalog uuids spec tasks db).1.batches j)
unfolding enqueue_batch
enqueue_batch-Evolves catalog uuids spec [] db j = inl (ground arith)
enqueue_batch-Evolves catalog uuids spec (t ∷ ts) db j = elim (Option-cases spec.origin) [
  | inl e ↦ inl (ground arith)
  | inr (origin, known) ↦ elim (Option-cases (validate spec)) [
    | inr (e, refused) ↦ inl (ground arith)
    | inl valid ↦ elim (Checked-cases (prepare_enqueue catalog spec (t ∷ ts))) [
      | inl (e, refused) ↦ inl (ground arith)
      | inr ((resolved, follow_up), ready) ↦
          let row = new_row spec origin follow_up in
          let ran : (enqueue_batch catalog uuids spec (t ∷ ts) db).1.batches j
              ≡ (enqueue_prepared uuids row resolved db).1.batches j =
            ground arith in
          subst (Evolves false (db.batches j)) (sym ran)
            (enqueue_prepared-Evolves uuids row resolved db j refl)
    ]
  ]
]
