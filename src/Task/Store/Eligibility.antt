-- ===== src/Task/Store/Eligibility.antt =====
-- ClaimNextPending of internal/task/store.go: which tasks its query may select.
use edub_kushim.Base.{
  ap, sym, ◌∙◌, ◌&&◌, Bool, ◌∷◌, ℕ, ◌≡◌, refl, ◌⊎◌, inl, inr, arith, true, false, Option, none,
  some, List, [], ltb, Bool-cases, Option-cases,
}
use edub_kushim.Base.Tables.{find_where, count_where}
use edub_kushim.Base.Updates.{find_where-some}
use mathlib.Core.List.{Memᴰ}
use edub_kushim.Types.{TaskStatus, TaskType, BatchStatus, LockName, same_type, lock_declaration_for}
use edub_kushim.Types.Waiting.{same_type_iff}
use edub_kushim.Task.Db.{Db, TaskRow, BatchRow}
use edub_kushim.Types.Statuses.{is_pending}
use edub_kushim.Task.Db.Owners.{owned_by, batch_leased_by}
use edub_kushim.Task.Locks.{count_held_locks}
use edub_kushim.Task.Locks.Exclusion.{Free, count-Free}
use edub_kushim.Task.Store.Claiming.{batch_open, claimable, next_pending_task}

pub next_pending_task-fits :
    (type : TaskType) (token : ℕ) (db : Db) {selected : TaskRow}
    → next_pending_task type token db ≡ some selected
    → Free (lock_declaration_for type).waits_for db
      × Memᴰ selected db.tasks
      × (claimable db type token selected ≡ true)
unfolding next_pending_task
next_pending_task-fits type token db {selected} h =
    let waits = (lock_declaration_for type).waits_for in
    elim (Bool-cases (ltb 0 (count_held_locks waits db))) [
      | inl busy ↦ ground arith
      | inr idle ↦
          let found : find_where (claimable db type token) db.tasks ≡ some selected =
            ground arith in
          let (member, fits) = find_where-some (claimable db type token) db.tasks found in
          (count-Free waits db idle, member, fits)
    ]

-- What a task must be for a claim of its type with the token: pending, of the type, and in a batch that is
-- queued or processing and leased to the token, while no lock that the type waits for is held.
pub record Eligible (type : TaskType) (token : ℕ) (db : Db) (selected : TaskRow) : Type 0 where
  pub waits_free : Free (lock_declaration_for type).waits_for db
  pub member : Memᴰ selected db.tasks
  pub is_pending_task : selected.status ≡ TaskStatus.pending
  pub of_type : selected.task_type ≡ type
  pub batch : ℕ
  pub row : BatchRow
  pub in_it : selected.batch_id ≡ some batch
  pub leased : owned_by (db.owners batch) token ≡ true
  pub here : db.batches batch ≡ some row
  pub is_open : (row.status ≡ BatchStatus.queued) ⊎ (row.status ≡ BatchStatus.processing)

Free-count :
    (waits : List LockName) (db : Db) → Free waits db → ltb 0 (count_held_locks waits db) ≡ false
unfolding count_held_locks count_where
Free-count waits db free = ground (arith, free LockName.maintenance, free LockName.storage)

batch_facts :
    (db : Db) (token : ℕ) (b : Option ℕ)
    → batch_leased_by db b token && batch_open db b ≡ true
    → (k : ℕ) × (row : BatchRow) × (b ≡ some k)
      × (owned_by (db.owners k) token ≡ true)
      × (db.batches k ≡ some row)
      × ((row.status ≡ BatchStatus.queued) ⊎ (row.status ≡ BatchStatus.processing))
unfolding batch_leased_by
batch_facts db token none h = cc
batch_facts db token (some k) h = elim (Option-cases (db.batches k)) [
  | inl e ↦ ground arith
  | inr (row, e) ↦ (k, row, refl, ground arith, e, ground arith)
]

all_three : (p q r : Bool) → p && (q && r) ≡ true → (p ≡ true) × (q ≡ true) × (r ≡ true)
all_three true true r h = (refl, refl, h)
all_three true false r h = cc
all_three false q r h = cc

pending_is : (s : TaskStatus) → is_pending s ≡ true → s ≡ TaskStatus.pending
pending_is TaskStatus.pending h = refl
pending_is s h = cc

pub claimable-Eligible :
    (type : TaskType) (token : ℕ) (db : Db) (t : TaskRow)
    → Free (lock_declaration_for type).waits_for db
    → Memᴰ t db.tasks
    → claimable db type token t ≡ true
    → Eligible type token db t
unfolding claimable
claimable-Eligible type token db t free member h =
    let (waiting, kind, inside) =
      all_three (is_pending t.status) (same_type t.task_type type)
        (batch_leased_by db t.batch_id token && batch_open db t.batch_id) h in
    let (k, row, in_it, leased, here, is_open) = batch_facts db token t.batch_id inside in
    record {
      waits_free = free;
      member = member;
      is_pending_task = pending_is t.status waiting;
      of_type = (same_type_iff t.task_type type).0 kind;
      batch = k;
      row = row;
      in_it = in_it;
      leased = leased;
      here = here;
      is_open = is_open;
    }

both_ways :
    {p q r s : Bool} → p ≡ true → q ≡ true → r ≡ true → s ≡ true → p && (q && (r && s)) ≡ true
both_ways a b c d = rw (a, b, c, d) refl

Eligible-claimable :
    (type : TaskType) (token : ℕ) (db : Db) (t : TaskRow)
    → Eligible type token db t
    → claimable db type token t ≡ true
unfolding claimable batch_leased_by
Eligible-claimable type token db t e =
    let kind : same_type t.task_type type ≡ true = (same_type_iff t.task_type type).1 e.of_type in
    let leased : batch_leased_by db t.batch_id token ≡ true =
      ap (λ b. batch_leased_by db b token) e.in_it ∙ e.leased in
    let shown : batch_open db t.batch_id ≡ batch_open db (some e.batch) =
      ap (batch_open db) e.in_it in
    let found : batch_open db (some e.batch) ≡ true = ground (arith, e.here, e.is_open) in
    let waiting : is_pending t.status ≡ true = ap is_pending e.is_pending_task in
    both_ways waiting kind leased (shown ∙ found)

find_where-member :
    {A : Type 0} (p : A → Bool) (xs : List A) {x : A}
    → Memᴰ x xs
    → p x ≡ true
    → find_where p xs ≡ none
    → ⊥
unfolding find_where
find_where-member p [] m h e = elim m [ ]
find_where-member p (y ∷ xs) (Memᴰ.head same) h e =
    let first : p y ≡ true = ap p (sym same) ∙ h in ground arith
find_where-member p (y ∷ xs) (Memᴰ.tail m) h e = elim (Bool-cases (p y)) [
  | inl k ↦ ground arith
  | inr k ↦ find_where-member p xs m h (ground arith)
]

pub nothing-Eligible :
    (type : TaskType) (token : ℕ) (db : Db) (t : TaskRow)
    → next_pending_task type token db ≡ none
    → ¬ Eligible type token db t
unfolding next_pending_task
nothing-Eligible type token db t e h =
    let idle = Free-count (lock_declaration_for type).waits_for db h.waits_free in
    let missed : find_where (claimable db type token) db.tasks ≡ none = ground (arith, idle, e) in
    find_where-member (claimable db type token) db.tasks h.member
      (Eligible-claimable type token db t h) missed
