-- ===== src/Ops/Launch.antt =====
-- internal/ops/dispatch/launcher.go and dispatcher.go: who executes a batch of given task types, in this
-- process or by a forked command, and the lock sets of its claim.
use text.Mathlib.Text.{◌==◌ as str_eq}
pub mod Fitness
use edub_kushim.Base.{
  ℕ, String, Bool, true, false, not, ◌&&◌, ◌||◌, List, [], ◌∷◌, Option, none, some, any, ltb,
  length, if◌then◌else◌,
}
use edub_kushim.Types.{TaskType, LockName, Host, same_type, same_host, lock_declaration_for}
use edub_kushim.Task.Catalog.{Catalog, TypeDefinition}
use edub_kushim.Task.Locks.{union_lock_names}

pub record LaunchTarget : Type 0 where
  pub batch : ℕ
  pub cli : String
  pub selector : String

-- The errors of resolveLaunchTarget, by what their texts tell.
pub data LaunchError : Type 0 where
  no_task_types unknown_type no_batch_cli not_on_host executors_disagree : LaunchError

pub data Resolution : Type 0 where
  refused : LaunchError → Resolution
  launch : LaunchTarget → Resolution

-- `slices.Contains` over task types and hosts
abbrev pub has_type : List TaskType → TaskType → Bool
unfolding same_type
has_type types t = any (same_type t) types

abbrev pub has_host : List Host → Host → Bool
has_host hosts h = any (same_host h) hosts

abbrev pub batch_executor_precedence : List TaskType
batch_executor_precedence =
    TaskType.consume ∷ TaskType.enrich ∷ TaskType.thumbnail ∷ TaskType.thumb_backfill ∷ []

abbrev pub tag_group_types : List TaskType
tag_group_types =
    TaskType.tag_split_reask ∷ TaskType.tag_reconcile ∷ TaskType.tag_identity ∷ TaskType.tag_audit
    ∷ TaskType.tag_measure ∷ []

-- The set of the types read so far, counted at the end; `none` for a type outside the tag group.
unfoldable pub distinct_from : List TaskType → List TaskType → Option ℕ
unfolding has_type
distinct_from seen [] = some (length seen)
distinct_from seen (t ∷ types) =
    let rest = distinct_from (if has_type seen t then seen else t ∷ seen) types in
    if not (has_type tag_group_types t) then none else rest

unfoldable pub tag_group_distinct : List TaskType → Option ℕ
unfolding distinct_from
tag_group_distinct types = distinct_from [] types

-- The loop that resolves the types: the first failure, or the definitions by type.
pub data Resolved : Type 0 where
  failed : LaunchError → Resolved
  definitions : List (TaskType × TypeDefinition) → Resolved

abbrev pub also : TaskType → TypeDefinition → Resolved → Resolved
also t d (failed e) = failed e
also t d (definitions ds) = definitions ((t, d) ∷ ds)

unfoldable pub resolve_types : Catalog → Host → List TaskType → Resolved
resolve_types catalog host [] = definitions []
resolve_types catalog host (t ∷ types) =
    let rest = resolve_types catalog host types in
    elim (catalog t) [
      | none ↦ failed unknown_type
      | some d ↦
          if str_eq d.cli "" || str_eq d.batch_selector ""
          then failed no_batch_cli
          else if not (has_host d.hosts host)
          then failed not_on_host
          else also t d rest
    ]

-- `resolved[taskType]`
unfoldable pub definition_in : List (TaskType × TypeDefinition) → TaskType → Option TypeDefinition
unfolding same_type
definition_in [] t = none
definition_in ((u, d) ∷ ds) t = if same_type t u then some d else definition_in ds t

unfoldable pub preferred : List TaskType → List (TaskType × TypeDefinition) → Option TypeDefinition
unfolding definition_in
preferred [] ds = none
preferred (t ∷ order) ds = elim (definition_in ds t) [ none ↦ preferred order ds | some d ↦ some d ]

unfoldable pub agree_with : TypeDefinition → List (TaskType × TypeDefinition) → Bool
agree_with first [] = true
agree_with first ((t, d) ∷ ds) =
    if not (str_eq d.cli first.cli) || not (str_eq d.batch_selector first.batch_selector)
    then false
    else agree_with first ds

abbrev pub target_of : ℕ → TypeDefinition → LaunchTarget
target_of b d = record { batch = b; cli = d.cli; selector = d.batch_selector }

-- tagGroupExecutor, for the batch
abbrev pub tag_group_target : ℕ → LaunchTarget
tag_group_target b = record { batch = b; cli = "tagmaintenance"; selector = "--from-batch" }

abbrev pub is_routine : Option ℕ → Bool
is_routine none = false
is_routine (some n) = ltb 1 n

-- After the types are resolved, `ds` in the order of the types.
unfoldable pub choose_target : ℕ → List TaskType → List (TaskType × TypeDefinition) → Resolution
unfolding tag_group_distinct preferred agree_with
choose_target b types [] = refused no_task_types
choose_target b types ((t, first) ∷ ds) =
    if is_routine (tag_group_distinct types)
    then launch (tag_group_target b)
    else elim (preferred batch_executor_precedence ((t, first) ∷ ds)) [
      | some d ↦ launch (target_of b d)
      | none ↦
          if agree_with first ds then launch (target_of b first) else refused executors_disagree
    ]

unfoldable pub resolve_launch_target : Catalog → ℕ → List TaskType → Host → Resolution
unfolding resolve_types choose_target
resolve_launch_target catalog b types host = elim (resolve_types catalog host types) [
  | failed e ↦ refused e
  | definitions ds ↦ choose_target b types ds
]

-- The types that this process executes itself; `none` is a fork-only dispatcher.
unfoldable pub covered : Catalog → Host → List TaskType → List TaskType → Bool
unfolding has_type
covered catalog host registered [] = true
covered catalog host registered (t ∷ types) =
    let rest = covered catalog host registered types in
    if not (has_type registered t)
    then false
    else elim (catalog t) [ none ↦ false | some d ↦ has_host d.hosts host && rest ]

abbrev pub none_left : List TaskType → Bool
none_left [] = true
none_left (t ∷ types) = false

unfoldable pub in_process_eligible : Catalog → Host → Option (List TaskType) → List TaskType → Bool
unfolding covered
in_process_eligible catalog host registration types = elim registration [
  | none ↦ false
  | some registered ↦ not (none_left types) && covered catalog host registered types
]

abbrev pub no_locks : List LockName → Bool
no_locks [] = true
no_locks (l ∷ ls) = false

-- batchLockSets: the accumulated holds and waits.
unfoldable pub lock_sets_from :
    List LockName × List LockName → List TaskType → List LockName × List LockName
unfolding union_lock_names lock_declaration_for
lock_sets_from sets [] = sets
lock_sets_from (holds, waits) (t ∷ types) =
    let declaration = lock_declaration_for t in
    lock_sets_from
      (
        union_lock_names holds declaration.holds,
        if no_locks declaration.holds then waits else union_lock_names waits declaration.waits_for,
      )
      types

abbrev pub batch_lock_sets : List TaskType → List LockName × List LockName
batch_lock_sets types = lock_sets_from ([], []) types
