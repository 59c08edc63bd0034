-- ===== src/Tags/Worklist/Splits.antt =====
-- worklist.go: the compound split that a record makes.
use edub_kushim.Base.{
  ◌≡◌, refl, ◌⊎◌, inl, inr, String, Bool, true, false, ◌||◌, not, Option, some, List, [], ◌∷◌,
  if◌then◌else◌, arith, subst, Bool-cases, Option-cases,
}
use edub_kushim.Base.Members.{mem-cons_inv}
use mathlib.Core.List.{Memᴰ}
use edub_kushim.Tags.Algebra.{EvidenceState, sufficient, insufficient, gray}
use edub_kushim.Tags.Worklist.{
  ReconstructibilityBand, band_insufficient, band_far, band_gray, band_firm, Cuts, Measured,
  CompoundSplit, classify_reconstructibility, splits_of, measured_splits,
}
use edub_kushim.Tags.Worklist.Entries.{SplitFrom}

module _ {F : Type 0} (at_most : F → F → Bool) (zero_ratio : F) (cuts : Cuts F) where
  classified :
      (state : EvidenceState) (excess deficit : F)
      → (classify_reconstructibility at_most zero_ratio cuts state excess deficit
          ≡ band_insufficient)
        ⊎ (classify_reconstructibility at_most zero_ratio cuts state excess deficit ≡ band_far)
        ⊎ ((state ≡ sufficient)
            × (at_most excess cuts.compound_gray ≡ true)
            × (at_most deficit cuts.compound_gray ≡ true)
            × (classify_reconstructibility at_most zero_ratio cuts state excess deficit ≡ (
                if not (at_most excess cuts.compound_split)
                  || not (at_most deficit cuts.compound_split)
                then band_gray
                else band_firm)))
  unfolding classify_reconstructibility
  classified insufficient excess deficit = inl refl
  classified gray excess deficit = inl refl
  classified sufficient excess deficit = elim (Bool-cases (at_most excess cuts.compound_gray)) [
    | inr e ↦ inr (inl (ground arith))
    | inl e ↦ elim (Bool-cases (at_most deficit cuts.compound_gray)) [
      | inr d ↦ inr (inl (ground arith))
      | inl d ↦ inr (inr (refl, e, d, ground arith))
    ]
  ]

  abbrev Entry : List String → F → F → ReconstructibilityBand → CompoundSplit F → Type 0
  Entry operands excess deficit band c =
      (operands ≡ c.compound ∷ c.parts)
      × (c.excess_ratio ≡ excess)
      × (c.deficit_ratio ≡ deficit)
      × (((band ≡ band_gray) × (c.in_review ≡ true)) ⊎ ((band ≡ band_firm) × (c.in_review ≡ false)))

  only_entry :
      (x c : CompoundSplit F) (more : List (CompoundSplit F))
      → ◌≡◌ {A = Option (List (CompoundSplit F))} (some (x ∷ [])) (some more)
      → Memᴰ c more
      → c ≡ x
  only_entry x c more h m =
      let e : more ≡ x ∷ [] = cc in
      elim (mem-cons_inv (subst (Memᴰ c) e m)) [
        | inl none_left ↦ elim none_left [ ]
        | inr same ↦ same
      ]

  splits_entry :
      (operands : List String) (excess deficit : F) (band : ReconstructibilityBand)
      (more : List (CompoundSplit F)) (c : CompoundSplit F)
      → splits_of at_most zero_ratio cuts operands excess deficit band ≡ some more
      → Memᴰ c more
      → Entry operands excess deficit band c
  splits_entry operands excess deficit band_insufficient [] c h m = elim m [ ]
  splits_entry operands excess deficit band_insufficient (x ∷ more) c h m = cc
  splits_entry operands excess deficit band_far [] c h m = elim m [ ]
  splits_entry operands excess deficit band_far (x ∷ more) c h m = cc
  splits_entry [] excess deficit band_gray more c h m = cc
  splits_entry [] excess deficit band_firm more c h m = cc
  splits_entry (compound ∷ parts) excess deficit band_gray more c h m =
      let same = only_entry _ c more h m in
      (ground arith, ground arith, ground arith, inl (refl, ground arith))
  splits_entry (compound ∷ parts) excess deficit band_firm more c h m =
      let same = only_entry _ c more h m in
      (ground arith, ground arith, ground arith, inr (refl, ground arith))

  no_entry :
      (r : Measured F) (c : CompoundSplit F) (more : List (CompoundSplit F))
      → ◌≡◌ {A = Option (List (CompoundSplit F))} (some []) (some more)
      → Memᴰ c more
      → SplitFrom at_most zero_ratio cuts c r
  no_entry r c [] h m = elim m [ ]
  no_entry r c (x ∷ more) h m = cc

  split_of_entry :
      (r : Measured F) (excess deficit : F) (c : CompoundSplit F)
      → r.excess_ratio ≡ some excess
      → r.deficit_ratio ≡ some deficit
      → Entry r.operands excess deficit
          (classify_reconstructibility at_most zero_ratio cuts r.state excess deficit)
          c
      → SplitFrom at_most zero_ratio cuts c r
  split_of_entry r excess deficit c has_excess has_deficit
        (names, same_excess, same_deficit, band) =
      elim (classified r.state excess deficit) [
        | inl e ↦ ground arith
        | inr (inl e) ↦ ground arith
        | inr (inr (state, near_excess, near_deficit, e)) ↦ record {
          names = names;
          is_sufficient = state;
          reads = (ground arith, ground arith);
          within_gray = (ground arith, ground arith);
          reviewed = ground arith;
        }
      ]

  pub split_mem :
      (r : Measured F) (more : List (CompoundSplit F)) (c : CompoundSplit F)
      → measured_splits at_most zero_ratio cuts r r.excess_ratio r.deficit_ratio ≡ some more
      → Memᴰ c more
      → SplitFrom at_most zero_ratio cuts c r
  split_mem r more c h m = elim (Option-cases r.excess_ratio) [
    | inl e ↦ no_entry r c more (ground arith) m
    | inr (excess, e) ↦ elim (Option-cases r.deficit_ratio) [
      | inl d ↦ no_entry r c more (ground arith) m
      | inr (deficit, d) ↦ split_of_entry r excess deficit c e d (
          splits_entry r.operands excess deficit
            (classify_reconstructibility at_most zero_ratio cuts r.state excess deficit) more c
            (ground arith) m)
    ]
  ]
