-- ===== src/Tags/Admission/Standing.antt =====
-- How a derived decision, an acceptance and the live mass decide a value's standing.
use edub_kushim.Base.{ℕ, ◌≤◌, ◌<◌, ◌≡◌, ◌↔◌, ◌⊎◌, true, false, arith}
use edub_kushim.Tags.Admission.{
  AdmissionDecision, reject, defer, admit, decide_promotion, with_acceptance, decide_mass_demotion,
}

-- The outcome that a value is promoted on: the features' decision, resolved against an acceptance,
-- promotes a value exactly when its live mass keeps it from mass demotion and its features admit it,
-- or they defer it and an acceptance newer than the fresh verdict waives the deferral.
pub promotion_iff :
    (d : AdmissionDecision) (accepted_at fresh_verdict_at live_mass : ℕ)
    → (decide_promotion (with_acceptance d accepted_at fresh_verdict_at).outcome live_mass ≡ true)
      ↔ (decide_mass_demotion live_mass ≡ false)
        × ((d.outcome ≡ admit) ⊎ (d.outcome ≡ defer) × (fresh_verdict_at < accepted_at))
unfolding decide_promotion with_acceptance decide_mass_demotion
promotion_iff d accepted_at fresh_verdict_at live_mass = (ground arith, ground arith)

-- An acceptance never rescues a rejected value, and an acceptance that is not newer than the fresh
-- verdict changes nothing.
pub with_acceptance_keeps :
    (d : AdmissionDecision) (accepted_at fresh_verdict_at : ℕ)
    → (d.outcome ≡ reject) ⊎ (accepted_at ≤ fresh_verdict_at)
    → with_acceptance d accepted_at fresh_verdict_at ≡ d
unfolding with_acceptance
with_acceptance_keeps d accepted_at fresh_verdict_at h = ground arith
