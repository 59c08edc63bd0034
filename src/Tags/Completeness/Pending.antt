-- ===== src/Tags/Completeness/Pending.antt =====
-- internal/tags/completeness.go: which segments of a compound are pending coverage.
use mathlib.Core.List.{Memᴰ}
use edub_kushim.Base.{
  ◌≡◌, ◌↔◌, refl, sym, subst, ◌⊎◌, inl, inr, Bool, true, false, ◌||◌, List, [], ◌∷◌, arith,
  Bool-cases,
}
use edub_kushim.Base.Members.{mem-cons_inv}
use edub_kushim.Tags.Names.{Text, same_text, same_text_iff, mem_text}
use edub_kushim.Tags.Identity.Forms.{Language, key}
use edub_kushim.Tags.Completeness.{pending_from, pending_coverage_segments, resolved_segments}
use edub_kushim.Tags.Completeness.Segments.{Segment, resolved_segments_iff}

mem_text-cons :
    (t u : Text) (us : List Text)
    → (mem_text t (u ∷ us) ≡ false) ↔ (same_text u t ≡ false) × (mem_text t us ≡ false)
unfolding mem_text
mem_text-cons t u us = ground arith

-- No text stands twice in the list.
abbrev pub Unique : List Text → Type 0
Unique [] = Unit {0}
Unique (x ∷ xs) = ¬ Memᴰ x xs × Unique xs

mem_text-none : (t : Text) → mem_text t [] ≡ false
unfolding mem_text
mem_text-none t = refl

module _ (lang : Language) (promoted_names : List (Text × Text)) (live_names : List Text)
    (cached : List Text) where
  -- Neither a live store value, nor cached, nor listed before.
  abbrev passes : List Text → Text → Bool
  passes seen segment =
      mem_text (key lang segment) live_names || mem_text segment cached || mem_text segment seen

  abbrev pending : List Text → List Text → List Text
  pending seen segments = pending_from lang promoted_names live_names cached seen segments

  pending_skip :
      (seen segments : List Text) (x : Text)
      → passes seen x ≡ true
      → pending seen (x ∷ segments) ≡ pending seen segments
  unfolding pending_from
  pending_skip seen segments x e = rw (e, pending_from) refl

  pending_keep :
      (seen segments : List Text) (x : Text)
      → passes seen x ≡ false
      → pending seen (x ∷ segments) ≡ x ∷ pending (x ∷ seen) segments
  unfolding pending_from
  pending_keep seen segments x e = rw (e, pending_from) refl

  passes-seen :
      (x y : Text) (seen : List Text) → passes (x ∷ seen) y ≡ false → passes seen y ≡ false
  passes-seen x y seen h = ground (arith, h, mem_text-cons y x seen)

  passes-other :
      (x y : Text) (seen : List Text)
      → passes seen y ≡ false
      → (x ≡ y) ⊎ (passes (x ∷ seen) y ≡ false)
  passes-other x y seen h = ground (arith, h, mem_text-cons y x seen, same_text_iff x y)

  pending_sound :
      (segments seen : List Text) (y : Text)
      → Memᴰ y (pending seen segments)
      → Memᴰ y segments × (passes seen y ≡ false)
  unfolding pending_from
  pending_sound [] seen y m = elim m [ ]
  pending_sound (x ∷ segments) seen y m = elim (Bool-cases (passes seen x)) [
    | inl e ↦
        let (k, p) =
          pending_sound segments seen y
            (subst (λ l. Memᴰ y l) (pending_skip seen segments x e) m) in
        (Memᴰ.tail k, p)
    | inr e ↦ elim (mem-cons_inv (subst (λ l. Memᴰ y l) (pending_keep seen segments x e) m)) [
      | inr same ↦ (Memᴰ.head same, subst (λ t. passes seen t ≡ false) (sym same) e)
      | inl k ↦
          let (listed, p) = pending_sound segments (x ∷ seen) y k in
          (Memᴰ.tail listed, passes-seen x y seen p)
    ]
  ]

  pending_complete :
      (segments seen : List Text) (y : Text)
      → Memᴰ y segments
      → passes seen y ≡ false
      → Memᴰ y (pending seen segments)
  pending_complete [] seen y m p = elim m [ ]
  pending_complete (x ∷ segments) seen y m p = elim (Bool-cases (passes seen x)) [
    | inl e ↦
        subst (λ l. Memᴰ y l) (sym (pending_skip seen segments x e))
          (elim (mem-cons_inv m) [
            | inl k ↦ pending_complete segments seen y k p
            | inr same ↦ clash e (subst (λ t. passes seen t ≡ false) same p)
          ])
    | inr e ↦
        subst (λ l. Memᴰ y l) (sym (pending_keep seen segments x e))
          (elim (mem-cons_inv m) [
            | inr same ↦ Memᴰ.head same
            | inl k ↦ elim (passes-other x y seen p) [
              | inl same ↦ Memᴰ.head (sym same)
              | inr q ↦ Memᴰ.tail (pending_complete segments (x ∷ seen) y k q)
            ]
          ])
  ]
    where
      clash : {P : Type 0} → passes seen x ≡ true → passes seen x ≡ false → P
      clash h k = ground (arith, h, k)

  passes_seen : (x : Text) (seen : List Text) → passes (x ∷ seen) x ≡ false → ⊥
  passes_seen x seen h = ground (arith, h, mem_text-cons x x seen, (same_text_iff x x).1 refl)

  pending-Unique : (segments seen : List Text) → Unique (pending seen segments)
  unfolding pending_from
  pending-Unique [] seen = tt
  pending-Unique (x ∷ segments) seen = elim (Bool-cases (passes seen x)) [
    | inl e ↦ subst Unique (sym (pending_skip seen segments x e)) (pending-Unique segments seen)
    | inr e ↦ subst Unique (sym (pending_keep seen segments x e)) (
      λ m. passes_seen x seen (pending_sound segments (x ∷ seen) x m).1,
      pending-Unique segments (x ∷ seen),
    )
  ]

  -- The segments that are pending coverage are listed once each, and they are exactly the segments of the
  -- compound whose key is no live store name and for which no verdict is cached. A compound has segments
  -- where it is no period: the forms of its content words, a word's form being its anchor in the attested
  -- folds, or itself without one, and the pairs of neighbouring content words that both have a form; neither
  -- such a word nor such a pair is a time designation that the store lacks.
  pub pending_coverage_segments_iff :
      (name : Text)
      → ((segment : Text)
          → Memᴰ segment (pending_coverage_segments lang promoted_names live_names name cached)
            ↔ Segment lang promoted_names live_names name segment
              × (mem_text (key lang segment) live_names ≡ false)
              × (mem_text segment cached ≡ false))
        × Unique (pending_coverage_segments lang promoted_names live_names name cached)
  unfolding pending_coverage_segments
  pending_coverage_segments_iff name =
      let segments = resolved_segments lang promoted_names live_names name in
      (
        λ segment. (
          λ m.
              let (listed, p) = pending_sound segments [] segment m in
              (
                (resolved_segments_iff lang promoted_names live_names name segment).0 listed,
                ground (arith, p),
                ground (arith, p),
              ),
          λ (is_one, live, old).
              pending_complete segments [] segment
                ((resolved_segments_iff lang promoted_names live_names name segment).1 is_one)
                (ground (arith, live, old, mem_text-none segment)),
        ),
        pending-Unique segments [],
      )
