-- ===== src/Task/Locks.antt =====
-- internal/task/locks.go and lock.sql.go: named resource locks. A lock is held while it carries data
-- that is younger than 30 minutes. pg_notify and the row locks have no effect on the tables.
pub mod Exclusion
use edub_kushim.Base.{
  ℕ, suc, ◌+◌, Bool, true, false, ◌&&◌, ◌||◌, not, Option, none, some, List, [], ◌∷◌, ◌++◌, length,
  any, ltb, leb, ◌==◌, if◌then◌else◌,
}
use edub_kushim.Base.Tables.{count_where, is_id}
use edub_kushim.Types.{LockName, all_lock_names, has_lock, same_lock}
use edub_kushim.Task.Errors.{Result, ok, err, lock_busy}
use edub_kushim.Task.Db.{Db, LockRow, LockData}

abbrev pub stale_lock_seconds : ℕ
stale_lock_seconds = 1800

-- started_at > now - 30 minutes
abbrev pub fresh_data : ℕ → LockRow → Bool
fresh_data now none = false
fresh_data now (some d) = ltb now (d.started_at + stale_lock_seconds)

-- lock_is_held
unfoldable pub lock_is_held : Db → LockName → Bool
lock_is_held db name = fresh_data db.now (db.signals name)

-- CountHeldLocks
unfoldable pub count_held_locks : List LockName → Db → ℕ
unfolding count_where lock_is_held
count_held_locks names db =
    count_where (λ name. has_lock names name && lock_is_held db name) all_lock_names

abbrev pub acquirable : List LockName → Db → LockName → Bool
unfolding lock_is_held
acquirable names db name = has_lock names name && not (lock_is_held db name)

abbrev pub held_data : Option ℕ → Option ℕ → ℕ → LockData
held_data token batch now = record { started_at = now; owner_token = token; batch_id = batch }

-- The query AcquireLocks: every named lock that is free or stale is taken; the number taken.
unfoldable pub acquire_locks_query : Option ℕ → Option ℕ → List LockName → Db → ℕ × Db
unfolding count_where lock_is_held
acquire_locks_query token batch names db = (
  count_where (acquirable names db) all_lock_names,
  record db {
    signals = λ name.
        if acquirable names db name then some (held_data token batch db.now) else db.signals name;
  },
)

-- UnionLockNames: the waits that are not there yet are appended, in order.
unfoldable pub union_lock_names : List LockName → List LockName → List LockName
union_lock_names names [] = names
union_lock_names names (wait ∷ waits) =
    union_lock_names (if has_lock names wait then names else names ++ wait ∷ []) waits

-- acquireLocks: the caller's transaction is rolled back on an error.
unfoldable pub acquire_locks : List LockName → List LockName → Option ℕ → Option ℕ → Db → Result Db
unfolding count_held_locks acquire_locks_query
acquire_locks holds waits token batch db =
    let (taken, locked) = acquire_locks_query token batch holds db in
    if ltb 0 (count_held_locks waits db)
    then err lock_busy
    else if taken == length holds
    then ok locked
    else err lock_busy

abbrev pub held_by_token : Option ℕ → LockRow → Bool
held_by_token token none = false
held_by_token none (some d) = elim d.owner_token [ none ↦ true | some t ↦ false ]
held_by_token (some k) (some d) = is_id d.owner_token k

-- releaseLocksForToken
unfoldable pub release_locks_for_token : Option ℕ → List LockName → Db → Db
release_locks_for_token token names db = record db {
  signals = λ name.
      if has_lock names name && held_by_token token (db.signals name)
      then none
      else db.signals name;
}

abbrev pub held_by_batch : ℕ → LockRow → Bool
held_by_batch b none = false
held_by_batch b (some d) = is_id d.batch_id b

-- ReleaseLocksForBatch
unfoldable pub release_locks_for_batch : ℕ → Db → Db
release_locks_for_batch b db = record db {
  signals = λ name. if held_by_batch b (db.signals name) then none else db.signals name;
}

abbrev touched : ℕ → LockData → LockData
touched now d = record d { started_at = now }

abbrev touched_row : ℕ → LockRow → LockRow
touched_row now none = none
touched_row now (some d) = some (touched now d)

-- TouchLocksForToken
unfoldable pub touch_locks_for_token : Option ℕ → List LockName → Db → Db
touch_locks_for_token token names db = record db {
  signals = λ name.
      if has_lock names name && held_by_token token (db.signals name)
      then touched_row db.now (db.signals name)
      else db.signals name;
}
