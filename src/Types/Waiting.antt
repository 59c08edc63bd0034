-- ===== src/Types/Waiting.antt =====
-- Which task types an execution that holds locks has to drain.
use mathlib.Core.List.{Memᴰ}
use mathlib.Core.Bool.{decide_iff}
use mathlib.Core.Path.{subst}
use edub_kushim.Base.{◌≡◌, refl, sym, ◌↔◌, true, List, any, arith}
use edub_kushim.Base.Members.{any_of_mem, mem_of_any, mem-select_where_iff}
use edub_kushim.Types.{
  TaskType, TaskType-discrete, LockName, maintenance, consume, lock_declaration_for, all_task_types,
  same_type, same_lock, has_lock, waits_on, task_types_waiting_on,
}

pub same_type_iff : (a b : TaskType) → (same_type a b ≡ true) ↔ (a ≡ b)
unfolding same_type
same_type_iff a b = decide_iff (TaskType-discrete a b)

pub same_lock_iff : (a b : LockName) → (same_lock a b ≡ true) ↔ (a ≡ b)
same_lock_iff maintenance maintenance = (λ _. refl, λ _. refl)
same_lock_iff _ _ = (ground arith, ground arith)

listed : (t : TaskType) → any (same_type t) all_task_types ≡ true
unfolding same_type
listed consume = refl
listed _ = refl

-- every type is in the list
all_task_types-complete : (t : TaskType) → Memᴰ t all_task_types
all_task_types-complete t =
    let (u, m, e) = mem_of_any (same_type t) all_task_types (listed t) in
    subst (λ v. Memᴰ v all_task_types) (sym ((same_type_iff t u).0 e)) m

waits_on_iff :
    (locks : List LockName) (t : TaskType)
    → (waits_on locks t ≡ true)
      ↔ (l : LockName) × Memᴰ l (lock_declaration_for t).waits_for × Memᴰ l locks
unfolding waits_on
waits_on_iff locks t = (
  λ h.
      let (l, m, e) = mem_of_any (has_lock locks) (lock_declaration_for t).waits_for h in
      let (k, n, q) = mem_of_any (same_lock l) locks e in
      (l, m, subst (λ v. Memᴰ v locks) (sym ((same_lock_iff l k).0 q)) n),
  λ (l, m, n).
      any_of_mem (has_lock locks) _ m
        (any_of_mem (same_lock l) locks n ((same_lock_iff l l).1 refl)),
)

-- A type is drained exactly when its claims wait for one of the held locks.
pub waiting_on_iff :
    (locks : List LockName) (t : TaskType)
    → Memᴰ t (task_types_waiting_on locks)
      ↔ (l : LockName) × Memᴰ l (lock_declaration_for t).waits_for × Memᴰ l locks
unfolding task_types_waiting_on
waiting_on_iff locks t = (
  λ m. (waits_on_iff locks t).0 ((mem-select_where_iff (waits_on locks) all_task_types).0 m).1,
  λ h.
      (mem-select_where_iff (waits_on locks) all_task_types).1
        (all_task_types-complete t, (waits_on_iff locks t).1 h),
)
