-- ===== src/Task/Successors.antt =====
-- internal/task/successors.go: the plan for each waiting successor of a completed task.
pub mod Plans
use edub_kushim.Base.{
  ℕ, String, Bool, true, false, Option, none, some, List, [], ◌∷◌, if◌then◌else◌, any,
}
use text.Mathlib.Text.{◌==◌ as str_eq}
use edub_kushim.Task.Json.{
  Raw, Fields, blank, malformed, object, Decoded, failed, nothing, found, as_object, as_text_list,
  get_field, set_field, end,
}
use edub_kushim.Task.Db.{TaskRow}
use edub_kushim.Task.Catalog.{Catalog, TypeDefinition}
use edub_kushim.Task.Store.{SuccessorPlan}

-- The error of a plan by its kind; the texts that fmt.Errorf renders are a parameter.
pub data PlanError : Type 0 where
  result_malformed no_payload payload_unparsed payload_not_object : PlanError
  inherit_unparsed : PlanError
  no_result_field : String → PlanError
  no_definition no_dedup_hook empty_key : PlanError

-- The fields of the parent's result, or that it is malformed. A valid result that is no object has
-- no fields.
unfoldable pub result_fields : Raw → Option Fields
result_fields malformed = none
result_fields (object fs) = some fs
result_fields _ = some end

pub data Merged : Type 0 where
  merged : Raw → Merged
  defect : PlanError → Merged

-- The loop over the inherited keys.
unfoldable pub inherit_fields : Fields → List String → Fields → Merged
unfolding get_field set_field
inherit_fields result [] payload = merged (object payload)
inherit_fields result (key ∷ keys) payload =
    let rest = λ (value : Raw). inherit_fields result keys (set_field payload key value) in
    elim (get_field result key) [ none ↦ defect (no_result_field key) | some value ↦ rest value ]

abbrev inherit_keys : Option Fields → List String → Fields → Merged
inherit_keys result [] payload = merged (object payload)
inherit_keys none (key ∷ keys) payload = defect result_malformed
inherit_keys (some fs) (key ∷ keys) payload = inherit_fields fs (key ∷ keys) payload

abbrev merge_object : Raw → Option Fields → Fields → Merged
unfolding inherit_fields
merge_object stored result payload = elim (get_field payload "inherit") [
  | none ↦ merged stored
  | some raw_keys ↦ elim (as_text_list raw_keys) [
    | none ↦ defect inherit_unparsed
    | some keys ↦ inherit_keys result keys payload
  ]
]

-- mergeInheritedFields
unfoldable pub merge_inherited_fields : Option Raw → Option Fields → Merged
unfolding as_object as_text_list get_field inherit_fields
merge_inherited_fields none result = defect no_payload
merge_inherited_fields (some stored) result = elim (as_object stored) [
  | failed ↦ defect payload_unparsed
  | nothing ↦ defect payload_not_object
  | found payload ↦ merge_object stored result payload
]

abbrev keyed : Raw → TypeDefinition → Raw × String × Option PlanError
keyed payload definition = elim definition.dedup_key [
  | none ↦ (payload, "", some no_dedup_hook)
  | some f ↦
      if str_eq (f payload) "" then (payload, "", some empty_key) else (payload, f payload, none)
]

-- The payload, the key and the first defect of a plan.
unfoldable pub plan_parts : Catalog → TaskRow → Option Fields → Raw × String × Option PlanError
unfolding merge_inherited_fields
plan_parts catalog child result = elim (merge_inherited_fields child.payload result) [
  | defect e ↦ (blank, "", some e)
  | merged payload ↦ elim (catalog child.task_type) [
    | none ↦ (payload, "", some no_definition)
    | some definition ↦ keyed payload definition
  ]
]

module _ (render : PlanError → String) (catalog : Catalog) where
  abbrev rendered : Option PlanError → Option String
  rendered none = none
  rendered (some e) = some (render e)

  unfoldable pub plan_successor : TaskRow → Option Fields → SuccessorPlan
  unfolding plan_parts
  plan_successor child result =
      let (payload, key, why) = plan_parts catalog child result in
      record {
        id = child.id;
        task_id = child.task_id;
        payload = payload;
        dedup_key = key;
        error = rendered why;
      }

  unfoldable pub plan_each : List TaskRow → Option Fields → List SuccessorPlan
  unfolding plan_successor
  plan_each [] result = []
  plan_each (child ∷ children) result = plan_successor child result ∷ plan_each children result

  -- planSuccessors
  unfoldable pub plan_successors : List TaskRow → Raw → List SuccessorPlan
  unfolding plan_each result_fields
  plan_successors children parent_result = plan_each children (result_fields parent_result)
