-- ===== src/Task/Locks/Exclusion.antt =====
-- acquireLocks takes all of its locks or none, and only free ones.
use edub_kushim.Base.{
  ℕ, ◌≡◌, ◌⊎◌, inl, inr, arith, Bool, true, false, ◌&&◌, not, Option, some, List, [], ◌∷◌, length,
  ltb, ◌==◌, Bool-cases, subst,
}
use edub_kushim.Base.Tables.{count_where}
use edub_kushim.Types.{LockName, has_lock}
use edub_kushim.Task.Errors.{ok}
use edub_kushim.Task.Db.{Db}
use edub_kushim.Task.Locks.{
  acquire_locks, acquire_locks_query, count_held_locks, lock_is_held, held_data,
}

-- Every lock of the list is free.
abbrev pub Free : List LockName → Db → Type 0
Free names db = (name : LockName) → has_lock names name ≡ true → lock_is_held db name ≡ false

-- The locks of the list carry the caller's data and the others are as they were.
abbrev pub Taken : List LockName → Option ℕ → Option ℕ → Db → Db → Type 0
Taken holds token batch db after =
    (name : LockName)
    → ((has_lock holds name ≡ true) × (after.signals name ≡ some (held_data token batch db.now)))
      ⊎ ((has_lock holds name ≡ false) × (after.signals name ≡ db.signals name))

-- No name of the list comes twice.
abbrev pub distinct_locks : List LockName → Bool
distinct_locks [] = true
distinct_locks (name ∷ names) = not (has_lock names name) && distinct_locks names

pub count-Free :
    (waits : List LockName) (db : Db) → ltb 0 (count_held_locks waits db) ≡ false → Free waits db
unfolding count_held_locks count_where
count-Free waits db h LockName.maintenance in_list = ground arith
count-Free waits db h LockName.storage in_list = ground arith

taken-Free :
    (holds : List LockName) (token batch : Option ℕ) (db : Db)
    → ((acquire_locks_query token batch holds db).0 == length holds) ≡ true
    → Free holds db
unfolding acquire_locks_query count_where
taken-Free [] token batch db h name in_list = ground arith
taken-Free (a ∷ []) token batch db h LockName.maintenance in_list = ground arith
taken-Free (a ∷ []) token batch db h LockName.storage in_list = ground arith
taken-Free (a ∷ b ∷ []) token batch db h LockName.maintenance in_list = ground arith
taken-Free (a ∷ b ∷ []) token batch db h LockName.storage in_list = ground arith
taken-Free (a ∷ b ∷ c ∷ rest) token batch db h name in_list = ground arith

query-Taken :
    (holds : List LockName) (token batch : Option ℕ) (db : Db)
    → Free holds db
    → Taken holds token batch db (acquire_locks_query token batch holds db).1
unfolding acquire_locks_query lock_is_held
query-Taken holds token batch db free name = ground (arith, free name)

-- Where the locks are acquired, every hold and every wait was free, the holds now carry the caller's
-- data and no other lock changed.
pub acquire_locks-Taken :
    (holds waits : List LockName) (token batch : Option ℕ) (db : Db) {after : Db}
    → acquire_locks holds waits token batch db ≡ ok after
    → Free holds db × Free waits db × Taken holds token batch db after
unfolding acquire_locks
acquire_locks-Taken holds waits token batch db {after} h =
    let (taken, locked) = acquire_locks_query token batch holds db in
    elim (Bool-cases (ltb 0 (count_held_locks waits db))) [
      | inl busy ↦ ground arith
      | inr idle ↦ elim (Bool-cases (taken == length holds)) [
        | inr short ↦ ground arith
        | inl full ↦
            let free = taken-Free holds token batch db full in
            let same : locked ≡ after = ground arith in
            (
              free,
              count-Free waits db idle,
              subst (Taken holds token batch db) same (query-Taken holds token batch db free),
            )
      ]
    ]

Free-count :
    (waits : List LockName) (db : Db) → Free waits db → ltb 0 (count_held_locks waits db) ≡ false
unfolding count_held_locks count_where
Free-count waits db free = ground (arith, free LockName.maintenance, free LockName.storage)

Free-taken :
    (holds : List LockName) (token batch : Option ℕ) (db : Db)
    → distinct_locks holds ≡ true
    → Free holds db
    → ((acquire_locks_query token batch holds db).0 == length holds) ≡ true
unfolding acquire_locks_query count_where
Free-taken [] token batch db distinct free = ground arith
Free-taken (a ∷ []) token batch db distinct free =
    ground (arith, free LockName.maintenance, free LockName.storage)
Free-taken (a ∷ b ∷ []) token batch db distinct free =
    ground (arith, free LockName.maintenance, free LockName.storage)
Free-taken (a ∷ b ∷ c ∷ rest) token batch db distinct free = ground arith

-- Where the holds are distinct and every hold and every wait is free, the locks are acquired.
pub acquire_locks_total :
    (holds waits : List LockName) (token batch : Option ℕ) (db : Db)
    → distinct_locks holds ≡ true
    → Free holds db
    → Free waits db
    → (after : Db) × (acquire_locks holds waits token batch db ≡ ok after)
unfolding acquire_locks
acquire_locks_total holds waits token batch db distinct free idle = (
  (acquire_locks_query token batch holds db).1,
  ground (arith, Free-count waits db idle, Free-taken holds token batch db distinct free),
)
