-- ===== src/Tags/Composition.antt =====
-- internal/tags/decision.go and identity.go: the split gate over compound candidates and the
-- operator's action on its recorded decisions. A reason is one of the named constants; `unset` is the
-- empty string that a split carries.
pub mod Laws
use edub_kushim.Base.{Bool, true, false, not, ◌&&◌, ◌||◌, List, [], ◌∷◌, any, if◌then◌else◌}
use mathlib.Core.Bool.{decide}

pub data CompositionDisposition : Type 0 where
  split keep drop : CompositionDisposition

pub data CompositionReason : Type 0 where
  unset judge cached conjunction invalid_components judge_unavailable : CompositionReason
  part_rejected named_unit named_unit_reconstructible relational_keep : CompositionReason
  no_dimension split_defer conflicting_evidence sample_disagreement : CompositionReason
  partial_parts operator operator_keep conflict_arbitrated : CompositionReason

pub CompositionReason-discrete : Discrete CompositionReason
CompositionReason-discrete = hlevel

pub record CompositionFeatures : Type 0 where
  pub parts_dimensional : Bool
  pub parts_not_dimensional : Bool
  pub parts_deferred : Bool
  pub compound_named_unit : Bool
  pub compound_composition : Bool
  pub compound_no_dimension : Bool
  pub compound_deferred : Bool
  pub judge_down : Bool
  pub reconstructible : Bool
  pub far_from_intersection : Bool
  pub sample_disagrees : Bool

pub record CompositionDecision : Type 0 where
  pub disposition : CompositionDisposition
  pub reason : CompositionReason
  pub hold : Bool

abbrev pub composition_hold_reasons : List CompositionReason
composition_hold_reasons =
    split_defer ∷ conflicting_evidence ∷ sample_disagreement ∷ named_unit_reconstructible
    ∷ relational_keep ∷ judge_unavailable ∷ no_dimension ∷ part_rejected ∷ []

-- The equality of two reason strings.
unfoldable pub is_reason : CompositionReason → CompositionReason → Bool
unfolding CompositionReason-discrete decide
is_reason r s = decide (CompositionReason-discrete r s)

unfoldable pub composition_holds : CompositionReason → Bool
unfolding is_reason
composition_holds reason = any (λ r. is_reason r reason) composition_hold_reasons

-- The switch: the disposition and the reason, before the hold is derived.
unfoldable pub composition_rule : CompositionFeatures → CompositionDisposition × CompositionReason
composition_rule f =
    if f.sample_disagrees
    then (keep, sample_disagreement)
    else if f.judge_down
    then (keep, judge_unavailable)
    else if f.compound_deferred || f.parts_deferred
    then (keep, split_defer)
    else if f.parts_dimensional && f.compound_composition && f.far_from_intersection
    then (keep, relational_keep)
    else if f.parts_dimensional && f.compound_composition
    then (split, unset)
    else if f.parts_dimensional && f.compound_no_dimension
    then (keep, conflicting_evidence)
    else if f.parts_dimensional && f.compound_named_unit && f.reconstructible
    then (keep, named_unit_reconstructible)
    else if f.parts_dimensional && f.compound_named_unit
    then (keep, relational_keep)
    else if f.parts_not_dimensional && f.compound_named_unit
    then (keep, named_unit)
    else if f.parts_not_dimensional && f.compound_composition
    then (keep, conflicting_evidence)
    else if f.parts_not_dimensional && f.compound_no_dimension
    then (drop, no_dimension)
    else (keep, split_defer)

unfoldable pub decide_composition : CompositionFeatures → CompositionDecision
decide_composition f =
    let (disposition, reason) = composition_rule f in
    record { disposition = disposition; reason = reason; hold = composition_holds reason }

pub data CompositionAction : Type 0 where
  final undecided_action keep_action degraded_action drop_action : CompositionAction

abbrev is_drop : CompositionDisposition → Bool
is_drop drop = true
is_drop _ = false

unfoldable pub composition_action_for :
    CompositionDisposition → CompositionReason → CompositionAction
unfolding is_reason
composition_action_for disposition reason =
    if is_drop disposition
    then drop_action
    else if is_reason reason judge_unavailable
    then degraded_action
    else if not (composition_holds reason)
    then final
    else if is_reason reason named_unit_reconstructible || is_reason reason relational_keep
    then keep_action
    else undecided_action
