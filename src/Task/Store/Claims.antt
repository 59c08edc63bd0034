-- ===== src/Task/Store/Claims.antt =====
-- ClaimNextPending of internal/task/store.go: what becomes of the task that a claim takes.
use edub_kushim.Base.{
  map, if◌then◌else◌, ap, sym, subst, ◌∙◌, ◌&&◌, ◌==◌, ==_iff, ==_refl, Bool, ◌∷◌, ℕ, ◌≡◌, refl,
  ◌⊎◌, inl, inr, arith, true, false, Option, none, some, List, [], Bool-cases, Option-cases,
}
use edub_kushim.Base.Tables.{find_where, update_where, count_where}
use mathlib.Core.List.{Memᴰ}
use edub_kushim.Types.{TaskStatus, TaskType, BatchStatus, lock_declaration_for}
use edub_kushim.Task.Errors.{Result, ok}
use edub_kushim.Task.Db.Batches.{mark_batch_claimed, set_batch_status}
use edub_kushim.Task.Db.{Db, TaskRow, BatchRow}
use edub_kushim.Types.Statuses.{is_pending}
use edub_kushim.Task.Db.Tasks.{claim_task, get_task}
use edub_kushim.Task.Store.Claiming.{
  flip_batch, next_pending_task, claim_selected, claim_next_pending,
}
use edub_kushim.Task.Store.Eligibility.{
  Eligible, next_pending_task-fits, claimable-Eligible, nothing-Eligible,
}

-- The row of a claimed task.
abbrev started : ℕ → TaskRow → TaskRow
started now t = record t { status = TaskStatus.processing; started_at = some now; progress = none }

abbrev claims : TaskRow → TaskRow → Bool
claims selected t = t.id == selected.id && is_pending t.status

differ : (a b : ℕ) → (a == b) ≡ false → a ≡ b → ⊥
differ a b apart same = ground (arith, apart, same)

found_again :
    (now : ℕ) (selected : TaskRow) (rows : List TaskRow)
    → selected.status ≡ TaskStatus.pending
    → Memᴰ selected rows
    → ((t : TaskRow) → Memᴰ t rows → t.id ≡ selected.id → t ≡ selected)
    → find_where (λ t. t.id == selected.id) (update_where (claims selected) (started now) rows)
      ≡ some (started now selected)
unfolding find_where update_where
found_again now selected [] p m alone = elim m [ ]
found_again now selected (t ∷ rows) p m alone = elim (Bool-cases (t.id == selected.id)) [
  | inl same ↦
      let it : t ≡ selected = alone t (Memᴰ.head refl) ((==_iff t.id selected.id).0 same) in
      let status : t.status ≡ TaskStatus.pending = ap (λ (x : TaskRow). x.status) it ∙ p in
      let first : find_where (λ x. x.id == selected.id)
            (update_where (claims selected) (started now) (t ∷ rows))
          ≡ some (started now t) =
        ground arith in
      first ∙ ap (λ x. some (started now x)) it
  | inr apart ↦ elim m [
    | Memᴰ.head e ↦ elim (differ t.id selected.id apart (sym (ap (λ (x : TaskRow). x.id) e))) [ ]
    | Memᴰ.tail k ↦
        let rest = found_again now selected rows p k (λ x l. alone x (Memᴰ.tail l)) in
        ground (arith, rest)
  ]
]

update_where-map :
    {A : Type 0} (hit : A → Bool) (f : A → A) (xs : List A)
    → update_where hit f xs ≡ map (λ x. if hit x then f x else x) xs
unfolding update_where
update_where-map hit f [] = refl
update_where-map hit f (x ∷ xs) = λ i. (if hit x then f x else x) ∷ update_where-map hit f xs i

counted-member :
    {A : Type 0} (hit : A → Bool) (xs : List A) {x : A}
    → Memᴰ x xs
    → hit x ≡ true
    → (count_where hit xs == 0) ≡ false
unfolding count_where
counted-member hit [] m h = elim m [ ]
counted-member hit (y ∷ xs) (Memᴰ.head same) h =
    let first : hit y ≡ true = ap hit (sym same) ∙ h in ground (arith, first)
counted-member hit (y ∷ xs) (Memᴰ.tail m) h =
    let rest = counted-member hit xs m h in ground (arith, rest)

-- The task is handed out as processing since now, its row alone is written, and its batch is processing.
pub record Claimed (selected : TaskRow) (b : ℕ) (row : BatchRow) (db : Db)
    (out : Result TaskRow × Db) : Type 0 where
  pub handed : out.0 ≡ ok (started db.now selected)
  pub rows_are : out.1.tasks ≡ map (λ t. if claims selected t then started db.now t else t) db.tasks
  pub batch_runs : out.1.batches b ≡ some (record row { status = BatchStatus.processing })
  pub other_batches : (j : ℕ) → (j == b) ≡ false → out.1.batches j ≡ db.batches j
  pub same_leases : out.1.owners ≡ db.owners
  pub same_locks : out.1.signals ≡ db.signals

abbrev written : TaskRow → Db → Db
written selected db = record db { tasks = update_where (claims selected) (started db.now) db.tasks }

flip-Claimed :
    (selected : TaskRow) (b : ℕ) (row : BatchRow) (db : Db)
    → db.batches b ≡ some row
    → (row.status ≡ BatchStatus.queued) ⊎ (row.status ≡ BatchStatus.processing)
    → Claimed selected b row db
        (flip_batch db (started db.now selected) (some b) (written selected db))
unfolding flip_batch mark_batch_claimed set_batch_status
flip-Claimed selected b row db here (inl queued) = record {
  handed = ground (arith, here, queued);
  rows_are =
      let kept : (flip_batch db (started db.now selected) (some b) (written selected db)).1.tasks
          ≡ (written selected db).tasks =
        ground (arith, here, queued) in
      kept ∙ update_where-map (claims selected) (started db.now) db.tasks;
  batch_runs = ground (arith, here, queued, ==_refl b);
  other_batches = λ j h. ground (arith, here, queued, h);
  same_leases = ground (arith, here, queued);
  same_locks = ground (arith, here, queued);
}
flip-Claimed selected b row db here (inr busy) = record {
  handed = ground (arith, here, busy);
  rows_are =
      let kept : (flip_batch db (started db.now selected) (some b) (written selected db)).1.tasks
          ≡ (written selected db).tasks =
        ground (arith, here, busy) in
      kept ∙ update_where-map (claims selected) (started db.now) db.tasks;
  batch_runs = ground (arith, here, busy);
  other_batches = λ j h. ground (arith, here, busy);
  same_leases = ground (arith, here, busy);
  same_locks = ground (arith, here, busy);
}

selected-runs :
    (selected : TaskRow) (db : Db)
    → selected.status ≡ TaskStatus.pending
    → Memᴰ selected db.tasks
    → ((t : TaskRow) → Memᴰ t db.tasks → t.id ≡ selected.id → t ≡ selected)
    → claim_selected db selected
      ≡ flip_batch db (started db.now selected) selected.batch_id (written selected db)
unfolding claim_selected claim_task get_task
selected-runs selected db pending member alone =
    let hit : claims selected selected ≡ true =
      ground (arith, ==_refl selected.id, ap is_pending pending) in
    let some_row = counted-member (claims selected) db.tasks member hit in
    let again = found_again db.now selected db.tasks pending member alone in
    ground (arith, some_row, again)

-- Where task ids are unique, a claim either changes nothing, and then the store has no execution owner or no
-- task is eligible for it; or it claims an eligible task: pending, of the type, in a queued or processing batch
-- leased to the owner, with no lock held that the type waits for. The task is handed out as processing since
-- now, its row alone is written, its batch is processing, and leases, locks and other batches are as before.
pub claim_next_pending-outcome :
    (owner : Option ℕ) (type : TaskType) (db : Db)
    (unique : (s t : TaskRow) → Memᴰ s db.tasks → Memᴰ t db.tasks → t.id ≡ s.id → t ≡ s)
    → (((claim_next_pending owner type db).1 ≡ db)
        × ((token : ℕ) (t : TaskRow) → owner ≡ some token → ¬ Eligible type token db t))
      ⊎ ((token : ℕ) × (selected : TaskRow) × (owner ≡ some token)
          × (e : Eligible type token db selected) × Claimed selected e.batch e.row db
              (claim_next_pending owner type db))
unfolding claim_next_pending next_pending_task
claim_next_pending-outcome none type db unique = inl (refl, λ token t h. ground (arith, h))
claim_next_pending-outcome (some owner) type db unique =
    let waits = (lock_declaration_for type).waits_for in
    elim (Option-cases (next_pending_task type owner db)) [
      | inl e ↦ inl (
        ground arith,
        λ token t same eligible.
            let it : owner ≡ token = ground (arith, same) in
            nothing-Eligible type owner db t e
              (subst (λ k. Eligible type k db t) (sym it) eligible),
      )
      | inr (selected, e) ↦
          let (free, member, fits) = next_pending_task-fits type owner db e in
          let eligible = claimable-Eligible type owner db selected free member fits in
          let run : claim_next_pending (some owner) type db ≡ claim_selected db selected =
            ground arith in
          let flip =
            selected-runs selected db eligible.is_pending_task member
              (λ t m. unique selected t member m) in
          let at : flip_batch db (started db.now selected) selected.batch_id (written selected db)
              ≡ flip_batch db (started db.now selected) (some eligible.batch)
                  (written selected db) =
            ap (λ k. flip_batch db (started db.now selected) k (written selected db))
              eligible.in_it in
          inr (
            owner,
            selected,
            refl,
            eligible,
            subst (Claimed selected eligible.batch eligible.row db) (sym (run ∙ flip ∙ at)) (
                flip-Claimed selected eligible.batch eligible.row db eligible.here
                  eligible.is_open),
          )
    ]
