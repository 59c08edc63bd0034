-- ===== src/Task/Successors/Plans.antt =====
-- mergeInheritedFields: what a completed payload is made of.
use text.Mathlib.Text.{◌==◌ as str_eq}
use edub_kushim.Base.{
  not, ◌≡◌, refl, sym, ◌∙◌, ◌⊎◌, inl, inr, arith, String, Bool, true, false, Option, none, some,
  List, [], ◌∷◌, any, all, Bool-cases, Option-cases, subst,
}
use edub_kushim.Base.Texts.{str_eq_iff}
use edub_kushim.Task.Json.{Raw, Fields, object, get_field, set_field, as_text_list, as_object}
use edub_kushim.Task.Json.Updates.{get-set_same, get-set_other}
use edub_kushim.Task.Successors.{
  PlanError, result_malformed, merged, defect, inherit_fields, merge_inherited_fields,
  no_result_field,
}

abbrev pub listed : List String → String → Bool
listed keys name = any (λ key. str_eq key name) keys

abbrev pub has_field : Fields → String → Bool
has_field fs key = elim (get_field fs key) [ none ↦ false | some v ↦ true ]

-- The listed fields are the result's and the others are the payload's.
abbrev pub Inherits : List String → Fields → Fields → Fields → Type 0
Inherits keys result payload merged_fields =
    (name : String)
    → ((listed keys name ≡ true) × (get_field merged_fields name ≡ get_field result name))
      ⊎ ((listed keys name ≡ false) × (get_field merged_fields name ≡ get_field payload name))

Inherits-cons :
    (key : String) (keys : List String) (result payload fs : Fields) {value : Raw}
    → get_field result key ≡ some value
    → Inherits keys result (set_field payload key value) fs
    → Inherits (key ∷ keys) result payload fs
Inherits-cons key keys result payload fs {value} here rest name = elim (rest name) [
  | inl (in_keys, e) ↦ inl (ground arith, e)
  | inr (not_in, e) ↦ elim (Bool-cases (str_eq key name)) [
    | inr apart ↦ inr (ground arith, e ∙ get-set_other payload key value name apart)
    | inl same ↦
        let k = (str_eq_iff key name).0 same in
        inl (
          ground arith,
          e
              ∙ subst (λ n. get_field (set_field payload key value) n ≡ get_field result n) k
                  (get-set_same payload key value ∙ sym here),
        )
  ]
]

pub inherit_fields-Inherits :
    (result : Fields) (keys : List String) (payload : Fields)
    → all (has_field result) keys ≡ true
    → (fs : Fields) × (inherit_fields result keys payload ≡ merged (object fs))
      × Inherits keys result payload fs
unfolding inherit_fields
inherit_fields-Inherits result [] payload h = (payload, refl, λ name. inr (refl, refl))
inherit_fields-Inherits result (key ∷ keys) payload h = elim (Option-cases (get_field result key)) [
  | inl absent ↦ ground arith
  | inr (value, here) ↦
      let (fs, e, holds) =
        inherit_fields-Inherits result keys (set_field payload key value) (ground arith) in
      (fs, ground arith, Inherits-cons key keys result payload fs here holds)
]

-- Where the payload is an object that names result fields to inherit, and the result has them all,
-- the completed payload has the listed fields from the result and the others unchanged.
pub merge_inherited_fields-Inherits :
    (result payload : Fields) (keys : List String) {declaration : Raw}
    → get_field payload "inherit" ≡ some declaration
    → as_text_list declaration ≡ some keys
    → all (has_field result) keys ≡ true
    → (fs : Fields) × (merge_inherited_fields (some (object payload)) (some result)
        ≡ merged (object fs))
      × Inherits keys result payload fs
unfolding merge_inherited_fields as_object inherit_fields
merge_inherited_fields-Inherits result payload [] here listed_keys h =
    (payload, ground arith, λ name. inr (refl, refl))
merge_inherited_fields-Inherits result payload (key ∷ keys) here listed_keys h =
    let (fs, e, holds) = inherit_fields-Inherits result (key ∷ keys) payload h in
    (fs, ground arith, holds)

-- the field is not to be had: the result is malformed or lacks it
abbrev pub lacks : Option Fields → String → Bool
lacks none key = true
lacks (some fs) key = not (has_field fs key)

inherit_fields-defect :
    (result : Fields) (keys : List String) (payload : Fields) (key : String)
    → listed keys key ≡ true
    → has_field result key ≡ false
    → (e : PlanError) × (inherit_fields result keys payload ≡ defect e)
unfolding inherit_fields
inherit_fields-defect result [] payload key h missing = ground arith
inherit_fields-defect result (k ∷ keys) payload key h missing =
    elim (Option-cases (get_field result k)) [
      | inl absent ↦ (no_result_field k, ground arith)
      | inr (value, here) ↦ elim (Bool-cases (str_eq k key)) [
        | inl same ↦
            let there : get_field result key ≡ some value =
              subst (λ n. get_field result n ≡ some value) ((str_eq_iff k key).0 same) here in
            ground arith
        | inr apart ↦
            let (e, refused) =
              inherit_fields-defect result keys (set_field payload k value) key (ground arith)
                missing in
            (e, ground arith)
      ]
    ]

-- Where the payload is an object that names a result field to inherit, and the result is malformed or
-- lacks that field, the payload is refused.
pub merge_inherited_fields-defect :
    (result : Option Fields) (payload : Fields) (keys : List String) (key : String)
    {declaration : Raw}
    → get_field payload "inherit" ≡ some declaration
    → as_text_list declaration ≡ some keys
    → listed keys key ≡ true
    → lacks result key ≡ true
    → (e : PlanError) × (merge_inherited_fields (some (object payload)) result ≡ defect e)
unfolding merge_inherited_fields as_object
merge_inherited_fields-defect result payload [] key here names h missing = ground arith
merge_inherited_fields-defect none payload (k ∷ keys) key here names h missing =
    (result_malformed, ground arith)
merge_inherited_fields-defect (some fs) payload (k ∷ keys) key here names h missing =
    let (e, refused) = inherit_fields-defect fs (k ∷ keys) payload key h (ground arith) in
    (e, ground arith)
