-- ===== src/Tags/Admission/Signals.antt =====
-- What the failing signals of a candidate decide.
use edub_kushim.Base.{ℕ, Bool, if◌then◌else◌, ◌+◌, ◌≤◌, ◌≡◌, ◌≢◌, ◌↔◌, ◌⊎◌, false, arith}
use edub_kushim.Tags.Admission.{
  AdmissionFeatures, count_true, reject, admit, judge_failures, det_failures, decide_admission,
}

-- A signal counts where it is missing.
abbrev missing : Bool → ℕ
missing signal = if signal then 0 else 1

abbrev present : Bool → ℕ
present signal = if signal then 1 else 0

-- The drop leg of the definition, or corroborated failures: the five signals of the judge, and the two
-- deterministic ones.
abbrev pub IsRejectable : AdmissionFeatures → Type 0
IsRejectable f =
    let judge =
      missing f.subject_matter
      + missing f.dimension
      + missing f.not_person
      + missing f.atomic
      + missing f.not_form_genre in
    (f.judge_deferred ≡ false)
    × ((f.subject_matter ≡ false) × (f.dimension ≡ false)
        ⊎ (1 ≤ judge) × (2 ≤ judge + present f.category_other + present f.no_anchor))

-- A candidate is rejected exactly when the judge did not abstain and it either is neither subject
-- matter nor a dimension, or fails two signals of which at least one is the judge's. The judge's signals are
-- that it is subject matter, is a dimension, is no person, is atomic, and is no form or genre; the others are
-- that its category is other, and that it has no anchor.
pub reject_iff : (f : AdmissionFeatures) → ((decide_admission f).outcome ≡ reject) ↔ IsRejectable f
unfolding decide_admission judge_failures det_failures count_true
reject_iff f = (ground arith, ground arith)

-- A candidate is admitted exactly when the judge did not abstain and no signal fails.
pub admit_iff :
    (f : AdmissionFeatures)
    → ((decide_admission f).outcome ≡ admit)
      ↔ (f.judge_deferred ≡ false) × (judge_failures f + det_failures f ≡ 0)
unfolding decide_admission judge_failures det_failures
admit_iff f = (ground arith, ground arith)

-- A candidate that fails at most one signal is never rejected.
pub single_signal-ne-reject :
    (f : AdmissionFeatures)
    → judge_failures f + det_failures f ≤ 1
    → (decide_admission f).outcome ≢ reject
unfolding decide_admission judge_failures det_failures
single_signal-ne-reject f h = ground arith
