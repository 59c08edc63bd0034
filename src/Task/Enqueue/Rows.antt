-- ===== src/Task/Enqueue/Rows.antt =====
-- The loop of an enqueue: what it appends to the task table.
use edub_kushim.Base.{
  ℕ, suc, ◌+◌, ◌≡◌, refl, sym, ap, subst, ◌∙◌, ◌⊎◌, inl, inr, arith, Bool, true, ◌&&◌, Option, none,
  some, List, [], ◌∷◌, ◌++◌, map, any, all, length, ◌==◌, Bool-cases, Option-cases, ==_refl,
}
use edub_kushim.Task.Db.{Db, TaskRow}
use edub_kushim.Task.Db.Tasks.{in_batch}
use edub_kushim.Task.Db.Batches.{Insert-cases, inserted, create_task}
use edub_kushim.Task.Enqueue.{Resolved, contains_id}
use edub_kushim.Task.Enqueue.Inserting.{
  Progress, new_task_row, task_id_of, skip_task, insert_task, insert_tasks,
}

abbrev pub ids_of : List TaskRow → List ℕ
ids_of rows = map (λ (t : TaskRow). t.task_id) rows

-- a row of the batch whose parent, if it has one, is among the ids
abbrev pub belongs : ℕ → List ℕ → TaskRow → Bool
belongs b ids t = in_batch b t && contains_id ids t.parent_task_id

-- From one progress to another: some rows appended, each of the batch and with its parent, and every
-- spec either a row or skipped.
pub record Inserted (b n : ℕ) (before after : Progress) : Type 0 where
  pub rows : List TaskRow
  pub appended : after.tables.tasks ≡ before.tables.tasks ++ rows
  pub counted : length rows + after.skipped ≡ n + before.skipped
  pub named : after.created ≡ before.created ++ ids_of rows
  pub belonging : all (belongs b after.created) rows ≡ true
  pub same_owners : after.tables.owners ≡ before.tables.owners
  pub same_signals : after.tables.signals ≡ before.tables.signals
  pub same_batches : after.tables.batches ≡ before.tables.batches

pub append_nil : {A : Type 0} (xs : List A) → xs ++ [] ≡ xs
append_nil [] = refl
append_nil (x ∷ xs) = ap (λ r. x ∷ r) (append_nil xs)

pub append_assoc : {A : Type 0} (xs ys zs : List A) → (xs ++ ys) ++ zs ≡ xs ++ (ys ++ zs)
append_assoc [] ys zs = refl
append_assoc (x ∷ xs) ys zs = ap (λ r. x ∷ r) (append_assoc xs ys zs)

nothing-Inserted : (b : ℕ) (p : Progress) → Inserted b 0 p p
nothing-Inserted b p = record {
  rows = [];
  appended = sym (append_nil p.tables.tasks);
  counted = refl;
  named = sym (append_nil p.created);
  belonging = refl;
  same_owners = refl;
  same_signals = refl;
  same_batches = refl;
}

any-append : (f : ℕ → Bool) (xs ys : List ℕ) → any f xs ≡ true → any f (xs ++ ys) ≡ true
any-append f [] ys h = ground arith
any-append f (x ∷ xs) ys h = ground (arith, any-append f xs ys)

contains_append :
    (xs ys : List ℕ) (o : Option ℕ) → contains_id xs o ≡ true → contains_id (xs ++ ys) o ≡ true
contains_append xs ys none h = refl
contains_append xs ys (some id) h = any-append (λ k. k == id) xs ys h

pub create_task-inserted :
    (row : TaskRow) (db : Db) {after : Db}
    → create_task row db ≡ inserted after
    → (after.tasks ≡ db.tasks ++ record row { id = db.next_id } ∷ [])
      × (after.owners ≡ db.owners)
      × (after.signals ≡ db.signals)
      × (after.batches ≡ db.batches)
unfolding create_task
create_task-inserted row db h = (ground arith, ground arith, ground arith, ground arith)

-- one row more, and the rest of the loop
inserted_one :
    (b n id : ℕ) (r : Resolved) (p q after : Progress)
    → create_task (new_task_row b id r) p.tables ≡ inserted q.tables
    → q.created ≡ p.created ++ id ∷ []
    → q.skipped ≡ p.skipped
    → contains_id p.created r.spec.parent_task_id ≡ true
    → Inserted b n q after
    → Inserted b (suc n) p after
unfolding new_task_row
inserted_one b n id r p q after made names skips parent rest =
    let row : TaskRow = record (new_task_row b id r) { id = p.tables.next_id } in
    let (tasks_of, owners_of, signals_of, batches_of) =
      create_task-inserted (new_task_row b id r) p.tables made in
    let all_named : after.created ≡ p.created ++ ids_of (row ∷ rest.rows) =
      rest.named
      ∙ ap (λ xs. xs ++ ids_of rest.rows) names
      ∙ append_assoc p.created (id ∷ []) (ids_of rest.rows) in
    record {
      rows = row ∷ rest.rows;
      appended =
          rest.appended
          ∙ ap (λ xs. xs ++ rest.rows) tasks_of
          ∙ append_assoc p.tables.tasks (row ∷ []) rest.rows;
      counted = omega (arith, rest.counted, skips);
      named = all_named;
      belonging = ground (
        arith,
        ==_refl b,
        rest.belonging,
        subst (λ xs. contains_id xs r.spec.parent_task_id ≡ true) (sym all_named)
            (contains_append p.created (ids_of (row ∷ rest.rows)) r.spec.parent_task_id parent),
      );
      same_owners = rest.same_owners ∙ owners_of;
      same_signals = rest.same_signals ∙ signals_of;
      same_batches = rest.same_batches ∙ batches_of;
    }

skipped_one :
    (b n : ℕ) (p after : Progress) → Inserted b n (skip_task p) after → Inserted b (suc n) p after
skipped_one b n p after rest = record {
  rows = rest.rows;
  appended = rest.appended;
  counted = omega (arith, rest.counted);
  named = rest.named;
  belonging = rest.belonging;
  same_owners = rest.same_owners;
  same_signals = rest.same_signals;
  same_batches = rest.same_batches;
}

insert_task-cases :
    (b id : ℕ) (r : Resolved) (p : Progress) {q : Progress}
    → insert_task b id r p ≡ some q
    → (q ≡ skip_task p)
      ⊎ ((create_task (new_task_row b id r) p.tables ≡ inserted q.tables)
          × (q.created ≡ p.created ++ id ∷ [])
          × (q.skipped ≡ p.skipped)
          × (contains_id p.created r.spec.parent_task_id ≡ true))
unfolding insert_task
insert_task-cases b id r p {q} h = elim (Bool-cases (contains_id p.created r.spec.parent_task_id)) [
  | inr orphan ↦ inl (ground arith)
  | inl parent ↦ elim (Insert-cases (create_task (new_task_row b id r) p.tables)) [
    | inr (inl taken) ↦ inl (ground arith)
    | inr (inr clash) ↦ ground arith
    | inl (db, made) ↦ inr (ground arith, ground arith, ground arith, parent)
  ]
]

-- The loop appends one row of the batch for every spec that it does not skip, each with its parent.
pub insert_tasks-Inserted :
    (uuids : ℕ → ℕ) (b : ℕ) (rs : List Resolved) (p : Progress) {after : Progress}
    → insert_tasks uuids b rs p ≡ some after
    → Inserted b (length rs) p after
unfolding insert_tasks
insert_tasks-Inserted uuids b [] p {after} h =
    subst (Inserted b 0 p) (ground arith) (nothing-Inserted b p)
insert_tasks-Inserted uuids b (r ∷ rs) p {after} h =
    let (id, left) = task_id_of uuids r.spec.task_id in
    elim (Option-cases (insert_task b id r p)) [
      | inl e ↦ ground arith
      | inr (q, e) ↦
          let rest = insert_tasks-Inserted left b rs q {after = after} (ground arith) in
          elim (insert_task-cases b id r p e) [
            | inl skip ↦
                skipped_one b (length rs) p after
                  (subst (λ x. Inserted b (length rs) x after) skip rest)
            | inr (made, names, skips, parent) ↦
                inserted_one b (length rs) id r p q after made names skips parent rest
          ]
    ]
