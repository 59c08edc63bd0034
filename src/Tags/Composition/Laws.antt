-- ===== src/Tags/Composition/Laws.antt =====
-- What the split gate decides, and how the review queue reads it back.
use edub_kushim.Base.{◌≡◌, ◌↔◌, ◌⊎◌, Bool, true, false, not, refl, arith}
use edub_kushim.Tags.Composition.{
  CompositionDisposition, CompositionFeatures, CompositionReason, split, keep, drop, unset, judge,
  cached, conjunction, invalid_components, named_unit, partial_parts, operator, operator_keep,
  conflict_arbitrated, final, is_drop, composition_rule, composition_holds, decide_composition,
  composition_action_for,
}

-- A compound is split exactly when nothing withholds the decision, its parts are dimensional, it
-- reads as a composition, and it is not far from the intersection of its parts.
pub split_iff :
    (f : CompositionFeatures)
    → ((decide_composition f).disposition ≡ split)
      ↔ (f.sample_disagrees ≡ false)
        × (f.judge_down ≡ false)
        × (f.compound_deferred ≡ false)
        × (f.parts_deferred ≡ false)
        × (f.parts_dimensional ≡ true)
        × (f.compound_composition ≡ true)
        × (f.far_from_intersection ≡ false)
unfolding decide_composition composition_rule
split_iff f = (ground arith, ground arith)

abbrev is_free : CompositionReason → Bool
is_free unset = true
is_free judge = true
is_free cached = true
is_free conjunction = true
is_free invalid_components = true
is_free named_unit = true
is_free partial_parts = true
is_free operator = true
is_free operator_keep = true
is_free conflict_arbitrated = true
is_free _ = false

holds-eq-not_free : (r : CompositionReason) → composition_holds r ≡ not (is_free r)
unfolding composition_holds
holds-eq-not_free unset = refl
holds-eq-not_free _ = refl

-- The outcome leaves the compound free for promotion exactly when it is a split or a whole keep of a
-- named unit.
pub hold_iff :
    (f : CompositionFeatures)
    → ((decide_composition f).hold ≡ false)
      ↔ ((decide_composition f).disposition ≡ split) ⊎ ((decide_composition f).reason ≡ named_unit)
unfolding decide_composition composition_rule
hold_iff f = (
  ground (arith, holds-eq-not_free (decide_composition f).reason),
  ground (arith, holds-eq-not_free (decide_composition f).reason),
)

action-eq-final :
    (d : CompositionDisposition) (r : CompositionReason)
    → (composition_action_for d r ≡ final) ↔ (is_drop d ≡ false) × (is_free r ≡ true)
unfolding composition_action_for composition_holds
action-eq-final drop r = (ground arith, ground arith)
action-eq-final split unset = (ground arith, ground arith)
action-eq-final split _ = (ground arith, ground arith)
action-eq-final keep unset = (ground arith, ground arith)
action-eq-final keep _ = (ground arith, ground arith)

-- The review queue asks the operator for nothing exactly when the decision does not hold.
pub action-final_iff :
    (f : CompositionFeatures)
    → (composition_action_for (decide_composition f).disposition (decide_composition f).reason
        ≡ final)
      ↔ ((decide_composition f).hold ≡ false)
unfolding decide_composition composition_rule
action-final_iff f = (
  ground (
    arith,
    holds-eq-not_free (decide_composition f).reason,
    action-eq-final (decide_composition f).disposition (decide_composition f).reason,
  ),
  ground (
    arith,
    holds-eq-not_free (decide_composition f).reason,
    action-eq-final (decide_composition f).disposition (decide_composition f).reason,
  ),
)
