-- ===== src/Tags/Worklist/Stems.antt =====
-- worklist.go: where the entries of the worklists come from.
use edub_kushim.Base.{
  ◌≡◌, refl, ◌⊎◌, inl, inr, String, Bool, true, ◌||◌, Option, none, some, List, [], ◌∷◌, ◌++◌,
  arith, subst, Option-cases,
}
use edub_kushim.Base.Members.{mem-append, mem-append_left}
use mathlib.Core.List.{Memᴰ}
use edub_kushim.Tags.Worklist.{
  Operator, overlap, reconstructibility, other, Cuts, Measured, TwinPair, CompoundSplit, Sibling,
  Worklists, or_default, twin_of, sibling_of, add_overlap, measured_splits, add_reconstructibility,
  add_record, derive_from, derive_worklists,
}
use edub_kushim.Tags.Worklist.Splits.{split_mem}
use edub_kushim.Tags.Worklist.Entries.{
  TwinFrom, SplitFrom, SiblingFrom, ratio_a, ratio_b, twin_mem, sibling_mem,
}

later_or :
    {R : Type 0} {Old Mid : Type 0} {Kind P : R → Type 0} (r : R) (records : List R)
    → (Mid → Old ⊎ ((x : R) × Memᴰ x (r ∷ []) × Kind x × P x))
    → Mid ⊎ ((x : R) × Memᴰ x records × Kind x × P x)
    → Old ⊎ ((x : R) × Memᴰ x (r ∷ records) × Kind x × P x)
later_or r records now (inr (x, m, k, p)) = inr (x, Memᴰ.tail m, k, p)
later_or r records now (inl mid) = elim (now mid) [
  | inl old ↦ inl old
  | inr (x, m, k, p) ↦ inr (x, mem-append_left (r ∷ []) records m, k, p)
]

module _ {F : Type 0} (at_most : F → F → Bool) (zero_ratio : F) (cuts : Cuts F) where
  -- Every entry was there before or comes from one of the records.
  pub record Stems (w : Worklists F) (records : List (Measured F)) (out : Worklists F)
      : Type 0 where
    pub twin_stems :
        (t : TwinPair F)
        → Memᴰ t out.twins
        → Memᴰ t w.twins
          ⊎ ((r : Measured F) × Memᴰ r records
              × (r.operator ≡ overlap)
              × TwinFrom at_most zero_ratio cuts t r)
    pub split_stems :
        (c : CompoundSplit F)
        → Memᴰ c out.compound_splits
        → Memᴰ c w.compound_splits
          ⊎ ((r : Measured F) × Memᴰ r records
              × (r.operator ≡ reconstructibility)
              × SplitFrom at_most zero_ratio cuts c r)
    pub sibling_stems :
        (s : Sibling F)
        → Memᴰ s out.siblings
        → Memᴰ s w.siblings
          ⊎ ((r : Measured F) × Memᴰ r records
              × (r.operator ≡ overlap)
              × SiblingFrom at_most zero_ratio cuts s r)

  Stems-refl : (w : Worklists F) (records : List (Measured F)) → Stems w records w
  Stems-refl w records = record {
    twin_stems = λ t m. inl m;
    split_stems = λ c m. inl m;
    sibling_stems = λ s m. inl m;
  }

  -- What a record added, and what the records after it did.
  Stems-cons :
      (w mid out : Worklists F) (r : Measured F) (records : List (Measured F))
      → Stems w (r ∷ []) mid
      → Stems mid records out
      → Stems w (r ∷ records) out
  Stems-cons w mid out r records now later = record {
    twin_stems = λ t m. later_or r records (now.twin_stems t) (later.twin_stems t m);
    split_stems = λ c m. later_or r records (now.split_stems c) (later.split_stems c m);
    sibling_stems = λ s m. later_or r records (now.sibling_stems s) (later.sibling_stems s m);
  }

  module _ (total : (x y : F) → at_most x y || at_most y x ≡ true) where
    pair-Stems :
        (r : Measured F) (w : Worklists F) (a b : String) (rest : List String) (jaccard : F)
        → r.operator ≡ overlap
        → r.operands ≡ a ∷ b ∷ rest
        → r.jaccard ≡ some jaccard
        → Stems w (r ∷ []) (add_overlap at_most zero_ratio cuts r w)
    unfolding add_overlap
    pair-Stems r w a b rest jaccard o names reads =
        let twins =
          twin_of at_most zero_ratio cuts a b jaccard (or_default 0 r.mass_a)
            (or_default 0 r.mass_b) in
        let siblings =
          sibling_of at_most zero_ratio cuts a b (ratio_a at_most zero_ratio cuts r)
            (ratio_b at_most zero_ratio cuts r) (or_default 0 r.mass_a) (or_default 0 r.mass_b) in
        let added : Worklists F = record w {
          twins = w.twins ++ twins;
          siblings = w.siblings ++ siblings;
        } in
        subst (Stems w (r ∷ [])) {x = added} (ground arith) (record {
          twin_stems = λ t m. elim (mem-append w.twins twins m) [
            | inl old ↦ inl old
            | inr new ↦ inr (
              r,
              Memᴰ.head refl,
              o,
              twin_mem at_most zero_ratio cuts r a b rest jaccard t names reads new,
            )
          ];
          split_stems = λ c m. inl m;
          sibling_stems = λ s m. elim (mem-append w.siblings siblings m) [
            | inl old ↦ inl old
            | inr new ↦ inr (
              r,
              Memᴰ.head refl,
              o,
              sibling_mem at_most zero_ratio cuts total r a b rest jaccard s names reads new,
            )
          ];
        })

    overlap-Stems :
        (r : Measured F) (w : Worklists F) (operands : List String)
        → r.operator ≡ overlap
        → r.operands ≡ operands
        → Stems w (r ∷ []) (add_overlap at_most zero_ratio cuts r w)
    unfolding add_overlap
    overlap-Stems r w [] o names =
        subst (Stems w (r ∷ [])) {x = w} (ground arith) (Stems-refl w (r ∷ []))
    overlap-Stems r w (a ∷ []) o names =
        subst (Stems w (r ∷ [])) {x = w} (ground arith) (Stems-refl w (r ∷ []))
    overlap-Stems r w (a ∷ b ∷ rest) o names = elim (Option-cases r.jaccard) [
      | inl e ↦ subst (Stems w (r ∷ [])) {x = w} (ground arith) (Stems-refl w (r ∷ []))
      | inr (jaccard, e) ↦ pair-Stems r w a b rest jaccard o names e
    ]

    reconstructibility-Stems :
        (r : Measured F) (w : Worklists F) (more : Option (List (CompoundSplit F)))
        (out : Worklists F)
        → r.operator ≡ reconstructibility
        → measured_splits at_most zero_ratio cuts r r.excess_ratio r.deficit_ratio ≡ more
        → add_reconstructibility at_most zero_ratio cuts r w ≡ some out
        → Stems w (r ∷ []) out
    unfolding add_reconstructibility
    reconstructibility-Stems r w none out o e h = ground arith
    reconstructibility-Stems r w (some more) out o e h =
        let added : Worklists F = record w { compound_splits = w.compound_splits ++ more } in
        let same : added ≡ out = ground arith in
        subst (Stems w (r ∷ [])) {x = added} same (record {
          twin_stems = λ t m. inl m;
          split_stems = λ c m. elim (mem-append w.compound_splits more m) [
            | inl old ↦ inl old
            | inr new ↦ inr (r, Memᴰ.head refl, o, split_mem at_most zero_ratio cuts r more c e new)
          ];
          sibling_stems = λ s m. inl m;
        })

    record-Stems :
        (r : Measured F) (operator : Operator) (w out : Worklists F)
        → r.operator ≡ operator
        → add_record at_most zero_ratio cuts r operator w ≡ some out
        → Stems w (r ∷ []) out
    record-Stems r overlap w out o h =
        let same : add_overlap at_most zero_ratio cuts r w ≡ out = cc in
        subst (Stems w (r ∷ [])) same (overlap-Stems r w r.operands o refl)
    record-Stems r reconstructibility w out o h = reconstructibility-Stems r w _ out o refl h
    record-Stems r other w out o h =
        let same : w ≡ out = cc in subst (Stems w (r ∷ [])) same (Stems-refl w (r ∷ []))

    derive-Stems :
        (w : Worklists F) (records : List (Measured F)) (out : Worklists F)
        → derive_from at_most zero_ratio cuts w records ≡ some out
        → Stems w records out
    unfolding derive_from
    derive-Stems w [] out h = let same : w ≡ out = cc in subst (Stems w []) same (Stems-refl w [])
    derive-Stems w (r ∷ records) out h =
        elim (Option-cases (add_record at_most zero_ratio cuts r r.operator w)) [
          | inl e ↦ ground arith
          | inr (mid, e) ↦
              Stems-cons w mid out r records (record-Stems r r.operator w mid refl e)
                (derive-Stems mid records out (ground arith))
        ]

    pub derive_worklists-Stems :
        (records : List (Measured F)) {out : Worklists F}
        → derive_worklists at_most zero_ratio cuts records ≡ some out
        → Stems (record { twins = []; compound_splits = []; siblings = [] }) records out
    unfolding derive_worklists
    derive_worklists-Stems records {out} h = derive-Stems _ records out h
