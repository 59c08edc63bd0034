-- ===== src/Task/Enqueue.antt =====
-- internal/task/enqueue.go: what an enqueue checks before any row is written. An id or a status that
-- is the empty string is none; a payload without bytes is blank. The payload of a task that is inserted
-- is taken to be JSON, which the column asks for.
pub mod Inserting
pub mod Rows
pub mod Outcomes
pub mod Fitness
use text.Mathlib.Text.{◌==◌ as str_eq}
use edub_kushim.Base.{
  ◌≡◌, refl, ◌⊎◌, inl, inr, ℕ, String, Bool, true, false, not, ◌&&◌, ◌||◌, Option, none, some, List,
  [], ◌∷◌, ◌++◌, any, all, ◌==◌, if◌then◌else◌,
}
use edub_kushim.Base.Tables.{select_where}
use edub_kushim.Types.{
  BatchOrigin, TaskStatus, TaskType, LockName, maintenance, storage, same_type, same_lock,
}
use edub_kushim.Types.Statuses.{is_waiting}
use edub_kushim.Task.Json.{Raw, blank}
use edub_kushim.Task.Catalog.{Catalog, TypeDefinition}

pub record TaskSpec : Type 0 where
  pub task_type : TaskType
  pub task_id : Option ℕ
  pub parent_task_id : Option ℕ
  pub payload : Raw
  pub status : Option TaskStatus

-- `none` is an origin that is not declared.
pub record BatchSpec : Type 0 where
  pub origin : Option BatchOrigin
  pub schedule : String
  pub follow_up : List TaskSpec

pub data EnqueueError : Type 0 where
  origin_undeclared schedule_missing schedule_unexpected : EnqueueError
  follow_up_empty follow_up_named follow_up_linked follow_up_status : EnqueueError
  follow_up_blank type_unknown status_unfit hook_missing link_outside_waiting : EnqueueError
  parent_missing parent_not_earlier holds_differ marshal_failed insert_failed : EnqueueError
  precondition_failed : TaskType → EnqueueError

pub data Checked (A : Type 0) : Type 0 where
  pass : A → Checked A
  fail : EnqueueError → Checked A

pub Checked-cases :
    {A : Type 0} (c : Checked A) → ((e : EnqueueError) × (c ≡ fail e)) ⊎ ((a : A) × (c ≡ pass a))
Checked-cases (fail e) = inl (e, refl)
Checked-cases (pass a) = inr (a, refl)

abbrev is_schedule : BatchOrigin → Bool
is_schedule BatchOrigin.schedule = true
is_schedule _ = false

abbrev pub has_id : Option ℕ → Bool
has_id none = false
has_id (some id) = true

-- BatchSpec.validate: the first error, or none
unfoldable pub validate : BatchSpec → Option EnqueueError
validate spec = elim spec.origin [
  | none ↦ some origin_undeclared
  | some origin ↦
      if is_schedule origin && str_eq spec.schedule ""
      then some schedule_missing
      else if not (is_schedule origin) && not (str_eq spec.schedule "")
      then some schedule_unexpected
      else none
]

-- NewBatchSpec
unfoldable pub new_batch_spec : Option BatchOrigin → String → Checked BatchSpec
unfolding validate
new_batch_spec origin schedule =
    let spec : BatchSpec = record { origin = origin; schedule = schedule; follow_up = [] } in
    elim (validate spec) [ none ↦ pass spec | some e ↦ fail e ]

abbrev pending_or_unset : Option TaskStatus → Bool
pending_or_unset none = true
pending_or_unset (some TaskStatus.pending) = true
pending_or_unset (some _) = false

abbrev is_blank : Raw → Bool
is_blank blank = true
is_blank _ = false

abbrev check_follow_up : List TaskSpec → Option EnqueueError
check_follow_up [] = none
check_follow_up (t ∷ tasks) =
    let rest = check_follow_up tasks in
    if has_id t.task_id
    then some follow_up_named
    else if has_id t.parent_task_id
    then some follow_up_linked
    else if not (pending_or_unset t.status)
    then some follow_up_status
    else if is_blank t.payload
    then some follow_up_blank
    else rest

-- validateFollowUpSpecs
unfoldable pub validate_follow_up_specs : List TaskSpec → Option EnqueueError
validate_follow_up_specs [] = some follow_up_empty
validate_follow_up_specs (t ∷ tasks) = check_follow_up (t ∷ tasks)

-- WithFollowUp
unfoldable pub with_follow_up : BatchSpec → List TaskSpec → Checked BatchSpec
unfolding validate_follow_up_specs
with_follow_up spec tasks = elim (validate_follow_up_specs tasks) [
  | none ↦ pass (record spec { follow_up = tasks })
  | some e ↦ fail e
]

-- taskCreationStatus
unfoldable pub task_creation_status : TaskSpec → Checked TaskStatus
task_creation_status t = elim t.status [
  | none ↦ pass TaskStatus.pending
  | some TaskStatus.pending ↦ pass TaskStatus.pending
  | some TaskStatus.waiting ↦
      if has_id t.parent_task_id then pass TaskStatus.waiting else fail parent_missing
  | some _ ↦ fail status_unfit
]

abbrev pub has_hook : TypeDefinition → Bool
has_hook definition = elim definition.dedup_key [ none ↦ false | some f ↦ true ]

-- A spec with its definition and its status, the entries of the two slices.
pub record Resolved : Type 0 where
  pub spec : TaskSpec
  pub definition : TypeDefinition
  pub created_status : TaskStatus

abbrev resolve_with : TaskSpec → TypeDefinition → Checked TaskStatus → Checked Resolved
resolve_with t definition (fail e) = fail e
resolve_with t definition (pass status) =
    if not (is_waiting status) && not (has_hook definition)
    then fail hook_missing
    else if has_id t.parent_task_id && not (is_waiting status)
    then fail link_outside_waiting
    else pass (record { spec = t; definition = definition; created_status = status })

-- The body of the first loop.
unfoldable pub resolve_task : Catalog → TaskSpec → Checked Resolved
unfolding task_creation_status
resolve_task catalog t = elim (catalog t.task_type) [
  | none ↦ fail type_unknown
  | some definition ↦ resolve_with t definition (task_creation_status t)
]

abbrev add_resolved : Checked Resolved → Checked (List Resolved) → Checked (List Resolved)
add_resolved (fail e) rest = fail e
add_resolved (pass r) (fail e) = fail e
add_resolved (pass r) (pass rs) = pass (r ∷ rs)

unfoldable pub resolve_tasks : Catalog → List TaskSpec → Checked (List Resolved)
unfolding resolve_task
resolve_tasks catalog [] = pass []
resolve_tasks catalog (t ∷ tasks) =
    add_resolved (resolve_task catalog t) (resolve_tasks catalog tasks)

abbrev pub contains_id : List ℕ → Option ℕ → Bool
contains_id ids none = true
contains_id ids (some id) = any (λ k. k == id) ids

abbrev add_id : Option ℕ → List ℕ → List ℕ
add_id none seen = seen
add_id (some id) seen = id ∷ seen

-- validateParentLinks, with the ids seen so far; a spec without a parent passes.
unfoldable pub validate_parent_links : List ℕ → List TaskSpec → Option EnqueueError
validate_parent_links seen [] = none
validate_parent_links seen (t ∷ tasks) =
    let rest = validate_parent_links (add_id t.task_id seen) tasks in
    if contains_id seen t.parent_task_id then rest else some parent_not_earlier

-- holdsKey: the sorted names
unfoldable pub holds_key : List LockName → List LockName
unfolding select_where
holds_key holds =
    select_where (same_lock maintenance) holds ++ select_where (same_lock storage) holds

abbrev same_locks : List LockName → List LockName → Bool
same_locks [] [] = true
same_locks (l ∷ ls) (m ∷ ms) = same_lock l m && same_locks ls ms
same_locks _ _ = false

-- validateCommonHolds
unfoldable pub validate_common_holds : List TypeDefinition → Option EnqueueError
unfolding holds_key
validate_common_holds [] = none
validate_common_holds (first ∷ rest) =
    if all
      (λ (d : TypeDefinition). same_locks (holds_key d.locks.holds) (holds_key first.locks.holds))
      rest
    then none
    else some holds_differ

-- checkPreconditions, with the types checked so far
unfoldable pub check_preconditions : List TaskType → List TypeDefinition → Option EnqueueError
unfolding same_type
check_preconditions checked [] = none
check_preconditions checked (d ∷ definitions) =
    let skipped = check_preconditions checked definitions in
    let rest = check_preconditions (d.type ∷ checked) definitions in
    if any (λ t. same_type t d.type) checked
    then skipped
    else if all (λ met. met) d.preconditions
    then rest
    else some (precondition_failed d.type)
