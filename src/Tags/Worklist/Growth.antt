-- ===== src/Tags/Worklist/Growth.antt =====
-- worklist.go: nothing leaves a worklist in a sweep.
use edub_kushim.Base.{
  ◌≡◌, refl, inl, inr, String, Bool, some, List, [], ◌∷◌, ◌++◌, arith, subst, Option-cases,
}
use edub_kushim.Base.Members.{mem-append_left}
use mathlib.Core.List.{Memᴰ}
use edub_kushim.Tags.Worklist.{
  Operator, overlap, reconstructibility, other, Cuts, Measured, TwinPair, CompoundSplit, Sibling,
  Worklists, add_overlap, measured_splits, add_reconstructibility, add_record, derive_from,
}

-- Nothing leaves a worklist.
pub record Extends {F : Type 0} (w out : Worklists F) : Type 0 where
  pub twins_stay : (t : TwinPair F) → Memᴰ t w.twins → Memᴰ t out.twins
  pub splits_stay : (c : CompoundSplit F) → Memᴰ c w.compound_splits → Memᴰ c out.compound_splits
  pub siblings_stay : (s : Sibling F) → Memᴰ s w.siblings → Memᴰ s out.siblings

Extends-refl : {F : Type 0} (w : Worklists F) → Extends w w
Extends-refl w = record { twins_stay = λ t m. m; splits_stay = λ c m. m; siblings_stay = λ s m. m }

Extends-trans :
    {F : Type 0} {w mid out : Worklists F} → Extends w mid → Extends mid out → Extends w out
Extends-trans now later = record {
  twins_stay = λ t m. later.twins_stay t (now.twins_stay t m);
  splits_stay = λ c m. later.splits_stay c (now.splits_stay c m);
  siblings_stay = λ s m. later.siblings_stay s (now.siblings_stay s m);
}

module _ {F : Type 0} (at_most : F → F → Bool) (zero_ratio : F) (cuts : Cuts F) where
  overlap-Extends :
      (r : Measured F) (w : Worklists F) (operands : List String)
      → r.operands ≡ operands
      → Extends w (add_overlap at_most zero_ratio cuts r w)
  unfolding add_overlap
  overlap-Extends r w [] names = subst (Extends w) {x = w} (ground arith) (Extends-refl w)
  overlap-Extends r w (a ∷ []) names = subst (Extends w) {x = w} (ground arith) (Extends-refl w)
  overlap-Extends r w (a ∷ b ∷ rest) names = elim (Option-cases r.jaccard) [
    | inl e ↦ subst (Extends w) {x = w} (ground arith) (Extends-refl w)
    | inr (jaccard, e) ↦
        rw (names, e)
          (record {
            twins_stay = λ t m. mem-append_left w.twins _ m;
            splits_stay = λ c m. m;
            siblings_stay = λ s m. mem-append_left w.siblings _ m;
          })
  ]

  pub record-Extends :
      (r : Measured F) (operator : Operator) (w out : Worklists F)
      → add_record at_most zero_ratio cuts r operator w ≡ some out
      → Extends w out
  unfolding add_reconstructibility
  record-Extends r overlap w out h =
      let same : add_overlap at_most zero_ratio cuts r w ≡ out = cc in
      subst (Extends w) same (overlap-Extends r w r.operands refl)
  record-Extends r reconstructibility w out h =
      elim (Option-cases
        (measured_splits at_most zero_ratio cuts r r.excess_ratio r.deficit_ratio)) [
          | inl e ↦ ground arith
          | inr (more, e) ↦
              let added : Worklists F = record w { compound_splits = w.compound_splits ++ more } in
              let same : added ≡ out = ground arith in
              subst (Extends w) same (record {
                twins_stay = λ t m. m;
                splits_stay = λ c m. mem-append_left w.compound_splits more m;
                siblings_stay = λ s m. m;
              })
        ]
  record-Extends r other w out h =
      let same : w ≡ out = cc in subst (Extends w) same (Extends-refl w)

  pub derive-Extends :
      (w : Worklists F) (records : List (Measured F)) (out : Worklists F)
      → derive_from at_most zero_ratio cuts w records ≡ some out
      → Extends w out
  unfolding derive_from
  derive-Extends w [] out h = let same : w ≡ out = cc in subst (Extends w) same (Extends-refl w)
  derive-Extends w (r ∷ records) out h =
      elim (Option-cases (add_record at_most zero_ratio cuts r r.operator w)) [
        | inl e ↦ ground arith
        | inr (mid, e) ↦
            Extends-trans (record-Extends r r.operator w mid e)
              (derive-Extends mid records out (ground arith))
      ]
