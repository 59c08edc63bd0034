-- ===== src/Tags/Admission.antt =====
-- internal/tags/decision.go: the pinned admission, promotion, demotion and retention rules.
-- A time is a number of nanoseconds since Go's zero time, so `IsZero` is a test against 0.
pub mod Signals
pub mod Standing
use edub_kushim.Base.{
  ℕ, suc, ◌+◌, Bool, true, false, not, ◌&&◌, ◌||◌, List, [], ◌∷◌, ltb, leb, ◌==◌, if◌then◌else◌,
}

pub data AdmissionOutcome : Type 0 where
  reject defer admit : AdmissionOutcome

pub data AdmissionReason : Type 0 where
  judge_defer no_dimension corroborated deterministic_only : AdmissionReason
  single_signal admitted operator_accept : AdmissionReason

pub record AdmissionFeatures : Type 0 where
  pub subject_matter : Bool
  pub dimension : Bool
  pub not_person : Bool
  pub atomic : Bool
  pub not_form_genre : Bool
  pub judge_deferred : Bool
  pub category_other : Bool
  pub no_anchor : Bool

pub record AdmissionDecision : Type 0 where
  pub outcome : AdmissionOutcome
  pub reason : AdmissionReason

abbrev decided : AdmissionOutcome → AdmissionReason → AdmissionDecision
decided o r = record { outcome = o; reason = r }

-- The loops that count the failing signals.
unfoldable pub count_true : List Bool → ℕ
count_true [] = 0
count_true (failed ∷ rest) = (if failed then 1 else 0) + count_true rest

unfoldable pub judge_failures : AdmissionFeatures → ℕ
unfolding count_true
judge_failures f = count_true (
    not f.subject_matter
    ∷ not f.dimension
    ∷ not f.not_person
    ∷ not f.atomic
    ∷ not f.not_form_genre
    ∷ [])

unfoldable pub det_failures : AdmissionFeatures → ℕ
unfolding count_true
det_failures f = count_true (f.category_other ∷ f.no_anchor ∷ [])

unfoldable pub decide_admission : AdmissionFeatures → AdmissionDecision
decide_admission f =
    let judge = judge_failures f in
    let det = det_failures f in
    let total = judge + det in
    if f.judge_deferred
    then decided defer judge_defer
    else if not f.subject_matter && not f.dimension
    then decided reject no_dimension
    else if leb 2 total && leb 1 judge
    then decided reject corroborated
    else if leb 2 det
    then decided defer deterministic_only
    else if total == 1
    then decided defer single_signal
    else decided admit admitted

abbrev pub recurrence_floor : ℕ
recurrence_floor = 10

abbrev is_admit : AdmissionOutcome → Bool
is_admit admit = true
is_admit _ = false

abbrev is_defer : AdmissionOutcome → Bool
is_defer defer = true
is_defer _ = false

unfoldable pub decide_promotion : AdmissionOutcome → ℕ → Bool
decide_promotion outcome live_mass = is_admit outcome && leb recurrence_floor live_mass

unfoldable pub with_acceptance : AdmissionDecision → ℕ → ℕ → AdmissionDecision
with_acceptance derived accepted_at fresh_verdict_at =
    if accepted_at == 0 || not (ltb fresh_verdict_at accepted_at) || not (is_defer derived.outcome)
    then derived
    else decided admit operator_accept

unfoldable pub decide_mass_demotion : ℕ → Bool
decide_mass_demotion live_mass = ltb live_mass recurrence_floor

pub record RetentionFeatures : Type 0 where
  pub decided_drop : Bool
  pub reject_stamped : Bool
  pub identity_held : Bool
  pub live_mass_zero : Bool
  pub decision_old : Bool

unfoldable pub decide_retention : RetentionFeatures → Bool
decide_retention f =
    (f.decided_drop || f.reject_stamped)
    && not f.identity_held
    && not f.live_mass_zero
    && f.decision_old
