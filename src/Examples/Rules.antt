-- ===== src/Examples/Rules.antt =====
-- The rules of the vocabulary and of the tags, at concrete features.
use edub_kushim.Base.{◌≡◌, ◌↔◌, refl, true, false}
use edub_kushim.Tags.Admission.{
  AdmissionFeatures, reject, defer, decide_admission, judge_failures, det_failures,
}
use edub_kushim.Tags.Admission.Signals.{IsRejectable, reject_iff}
use edub_kushim.Tags.Composition.{CompositionFeatures, split, decide_composition}
use edub_kushim.Tags.Composition.Laws.{split_iff}

-- one failing signal, the anchor's
abbrev one_failure : AdmissionFeatures
one_failure = record {
  subject_matter = true;
  dimension = true;
  not_person = true;
  atomic = true;
  not_form_genre = true;
  judge_deferred = false;
  category_other = false;
  no_anchor = true;
}

defers : (decide_admission one_failure).outcome ≡ defer
unfolding decide_admission judge_failures det_failures
defers = refl

reject_iff_example : ((decide_admission one_failure).outcome ≡ reject) ↔ IsRejectable one_failure
reject_iff_example = reject_iff one_failure

-- a composition that its parts reconstruct
abbrev compound : CompositionFeatures
compound = record {
  parts_dimensional = true;
  parts_not_dimensional = false;
  parts_deferred = false;
  compound_named_unit = false;
  compound_composition = true;
  compound_no_dimension = false;
  compound_deferred = false;
  judge_down = false;
  reconstructible = true;
  far_from_intersection = false;
  sample_disagrees = false;
}

split_iff_example :
    ((decide_composition compound).disposition ≡ split)
    ↔ (compound.sample_disagrees ≡ false)
      × (compound.judge_down ≡ false)
      × (compound.compound_deferred ≡ false)
      × (compound.parts_deferred ≡ false)
      × (compound.parts_dimensional ≡ true)
      × (compound.compound_composition ≡ true)
      × (compound.far_from_intersection ≡ false)
split_iff_example = split_iff compound
