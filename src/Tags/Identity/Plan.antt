-- ===== src/Tags/Identity/Plan.antt =====
-- internal/tags/identity.go: the deterministic identity plan of a batch of candidate names, and what is
-- read from it or dropped from it. A Go slice that a loop appends to is the list of what it appends.
use edub_kushim.Base.{
  Bool, true, false, not, ◌||◌, List, [], ◌∷◌, ◌++◌, Option, none, some, if◌then◌else◌,
}
use edub_kushim.Tags.Names.{Text, same_text, is_empty, find_key, mem_text}
use edub_kushim.Tags.Identity.Forms.{
  Language, house_form, key, stored_name, shape_related, proposed_fold,
}
use edub_kushim.Tags.Identity.Anchors.{
  store_names_from, store_names_of, proposed_derivational_fold, proposed_morphological_fold,
}

pub data Disposition : Type 0 where
  apply register conflict alias deferred invalid : Disposition

pub data IdentityKind : Type 0 where
  base_form fold_gate conventional_form same_intent : IdentityKind

pub record Registration : Type 0 where
  pub input : Text
  pub name : Text
  pub resolved : Text
  pub disposition : Disposition
  pub provisional : Bool
  pub fold : Text

-- A pending row: no verdict yet.
pub record EvidenceRow : Type 0 where
  pub kind : IdentityKind
  pub candidate : Text
  pub partner : Text

pub record AliasAction : Type 0 where
  pub alias_name : Text
  pub canonical : Text
  pub remove_existing_tag : Bool

pub record Plan : Type 0 where
  pub registrations : List Registration
  pub aliases : List AliasAction
  pub evidence : List EvidenceRow

pub record StoreView : Type 0 where
  pub names : List Text
  pub aliases : List (Text × Text)
  pub blocked : List Text

unfoldable pub removed_from : List AliasAction → List Text
removed_from [] = []
removed_from (action ∷ actions) =
    let rest = removed_from actions in
    if action.remove_existing_tag then action.alias_name ∷ rest else rest

abbrev pub removed_store_names : Plan → List Text
removed_store_names plan = removed_from plan.aliases

unfoldable pub keep_registrations : List Text → List Registration → List Registration
unfolding mem_text
keep_registrations rejected [] = []
keep_registrations rejected (reg ∷ regs) =
    let rest = keep_registrations rejected regs in
    if mem_text reg.name rejected || mem_text reg.input rejected then rest else reg ∷ rest

unfoldable pub keep_evidence : List Text → List EvidenceRow → List EvidenceRow
unfolding mem_text
keep_evidence rejected [] = []
keep_evidence rejected (row ∷ rows) =
    let rest = keep_evidence rejected rows in
    if mem_text row.candidate rejected || mem_text row.partner rejected then rest else row ∷ rest

unfoldable pub drop_tag_names : Plan → List Text → Plan
unfolding keep_registrations keep_evidence
drop_tag_names plan [] = plan
drop_tag_names plan (r ∷ rejected) = record {
  registrations = keep_registrations (r ∷ rejected) plan.registrations;
  aliases = plan.aliases;
  evidence = keep_evidence (r ∷ rejected) plan.evidence;
}

abbrev pub registration : Text → Text → Text → Disposition → Registration
registration raw stored canonical what = record {
  input = raw;
  name = stored;
  resolved = canonical;
  disposition = what;
  provisional = false;
  fold = [];
}

-- The evidence that a confirmed fold waits for.
abbrev pub fold_evidence : Text → List EvidenceRow
fold_evidence stored =
    record { kind = base_form; candidate = stored; partner = [] }
    ∷ record { kind = fold_gate; candidate = stored; partner = [] }
    ∷ record { kind = conventional_form; candidate = stored; partner = [] }
    ∷ []

abbrev pub has_row : List EvidenceRow → Bool
has_row [] = false
has_row (row ∷ rows) = true

module _ (lang : Language) where
  -- The rows that the early exits of the loop answer, before any shape is compared.
  unfoldable pub settled_registration :
      StoreView → List (Text × Text) → Text → Text → Option Registration
  unfolding is_empty mem_text find_key house_form same_text
  settled_registration view by_key raw stored =
      if is_empty stored
      then some (registration raw stored [] invalid)
      else if mem_text stored view.blocked
      then some (registration raw stored [] invalid)
      else elim (find_key stored view.aliases) [
        | some canonical ↦ some (registration raw stored canonical apply)
        | none ↦ elim (find_key (key lang stored) by_key) [
          | none ↦ none
          | some existing ↦ some (
              registration raw stored existing
                (if same_text existing stored then conflict else apply))
        ]
      ]

  unfoldable pub shape_evidence : Text → List Text → List EvidenceRow
  unfolding shape_related
  shape_evidence stored [] = []
  shape_evidence stored (existing ∷ names) =
      let rest = shape_evidence stored names in
      if shape_related lang stored existing
      then record { kind = same_intent; candidate = stored; partner = existing } ∷ rest
      else rest

  -- The three proposals in turn; the empty text is no fold.
  unfoldable pub planned_fold : List (Text × Text) → Text → Text
  unfolding proposed_fold proposed_derivational_fold proposed_morphological_fold is_empty same_text
  planned_fold by_key stored =
      let lemma_fold = proposed_fold lang stored in
      let fold =
        if is_empty lemma_fold || same_text lemma_fold stored
        then proposed_derivational_fold lang stored by_key
        else lemma_fold in
      if is_empty fold then proposed_morphological_fold stored by_key else fold

  unfoldable pub new_registration :
      StoreView → List (Text × Text) → Text → Text → Registration × List EvidenceRow
  unfolding shape_evidence planned_fold is_empty
  new_registration view by_key raw stored =
      let shapes = shape_evidence stored view.names in
      let fold = planned_fold by_key stored in
      let flagged = has_row shapes || not (is_empty fold) in
      (
        record {
          input = raw;
          name = stored;
          resolved = [];
          disposition = register;
          provisional = flagged;
          fold = fold;
        },
        shapes ++ (if is_empty fold then [] else fold_evidence stored),
      )

  unfoldable pub plan_name : StoreView → List (Text × Text) → Text → Registration × List EvidenceRow
  unfolding settled_registration new_registration house_form
  plan_name view by_key raw =
      let stored = stored_name lang raw in
      elim (settled_registration view by_key raw stored) [
        | some reg ↦ (reg, [])
        | none ↦ new_registration view by_key raw stored
      ]

  unfoldable pub plan_names : StoreView → List (Text × Text) → List Text → Plan
  unfolding plan_name
  plan_names view by_key [] = record { registrations = []; aliases = []; evidence = [] }
  plan_names view by_key (raw ∷ names) =
      let (reg, rows) = plan_name view by_key raw in
      let rest = plan_names view by_key names in
      record {
        registrations = reg ∷ rest.registrations;
        aliases = rest.aliases;
        evidence = rows ++ rest.evidence;
      }

  -- PlanDeterministic
  unfoldable pub plan_deterministic : List Text → StoreView → Plan
  unfolding plan_names store_names_from
  plan_deterministic names view = plan_names view (store_names_of lang view.names) names
