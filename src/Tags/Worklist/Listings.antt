-- ===== src/Tags/Worklist/Listings.antt =====
-- worklist.go: every record that is due for a worklist is on it.
use edub_kushim.Base.{
  ◌≡◌, refl, inl, inr, String, Bool, true, false, some, List, [], ◌∷◌, ◌++◌, if◌then◌else◌, arith,
  subst, sym, Bool-cases, Option-cases,
}
use edub_kushim.Base.Members.{mem-append_right}
use mathlib.Core.List.{Memᴰ}
use edub_kushim.Tags.Worklist.{
  Operator, overlap, reconstructibility, other, band_gray, band_firm, Cuts, Measured, TwinPair,
  CompoundSplit, Sibling, Worklists, or_default, classify_reconstructibility, twin_of, sibling_from,
  sibling_of, add_overlap, splits_of, measured_splits, add_reconstructibility, add_record,
  derive_from, derive_worklists,
}
use edub_kushim.Tags.Worklist.Growth.{Extends, derive-Extends}
use edub_kushim.Tags.Worklist.Entries.{TwinFrom, SplitFrom, SiblingFrom, ratio_a, ratio_b}

mem-head_of_eq : {A : Type 0} {x : A} {xs : List A} → xs ≡ x ∷ [] → Memᴰ x xs
mem-head_of_eq {x} e = subst (Memᴰ x) (sym e) (Memᴰ.head refl)

only_if :
    {A : Type 0} (test : Bool) {x y : A}
    → test ≡ true
    → x ≡ y
    → (if test then x ∷ [] else []) ≡ y ∷ []
only_if true h same = cc
only_if false h same = ground arith

module _ {F : Type 0} (at_most : F → F → Bool) (zero_ratio : F) (cuts : Cuts F) where
  twins_due :
      (r : Measured F) (t : TwinPair F)
      → TwinFrom at_most zero_ratio cuts t r
      → twin_of at_most zero_ratio cuts t.a t.b t.jaccard
          (or_default 0 r.mass_a)
          (or_default 0 r.mass_b)
        ≡ t ∷ []
  unfolding twin_of
  twins_due r t from = only_if _ (ground arith) cc

  siblings_due :
      (r : Measured F) (s : Sibling F) (from : SiblingFrom at_most zero_ratio cuts s r)
      → sibling_of at_most zero_ratio cuts from.a from.b
          (ratio_a at_most zero_ratio cuts r)
          (ratio_b at_most zero_ratio cuts r)
          (or_default 0 r.mass_a)
          (or_default 0 r.mass_b)
        ≡ s ∷ []
  unfolding sibling_of sibling_from
  siblings_due r s from = elim from.oriented [
    | inl (below, container, contained, ratio, container_mass, contained_mass) ↦
        only_if _ (ground arith) (ground arith)
    | inr (above, container, contained, ratio, container_mass, contained_mass) ↦
        only_if _ (ground arith) (ground arith)
  ]

  firm_due :
      (operands : List String) (c : CompoundSplit F)
      → operands ≡ c.compound ∷ c.parts
      → c.in_review ≡ false
      → splits_of at_most zero_ratio cuts operands c.excess_ratio c.deficit_ratio band_firm
        ≡ some (c ∷ [])
  firm_due [] c names unmarked = ground arith
  firm_due (compound ∷ parts) c names unmarked = ground arith

  gray_due :
      (operands : List String) (c : CompoundSplit F)
      → operands ≡ c.compound ∷ c.parts
      → c.in_review ≡ true
      → splits_of at_most zero_ratio cuts operands c.excess_ratio c.deficit_ratio band_gray
        ≡ some (c ∷ [])
  gray_due [] c names marked = ground arith
  gray_due (compound ∷ parts) c names marked = ground arith

  splits_due :
      (r : Measured F) (c : CompoundSplit F)
      → SplitFrom at_most zero_ratio cuts c r
      → measured_splits at_most zero_ratio cuts r r.excess_ratio r.deficit_ratio ≡ some (c ∷ [])
  unfolding classify_reconstructibility
  splits_due r c from = elim (Bool-cases c.in_review) [
    | inl marked ↦
        let band : classify_reconstructibility at_most zero_ratio cuts r.state c.excess_ratio
              c.deficit_ratio
            ≡ band_gray =
          ground arith in
        let due = gray_due r.operands c from.names marked in
        rw (from.reads.0, from.reads.1, band) due
    | inr unmarked ↦
        let band : classify_reconstructibility at_most zero_ratio cuts r.state c.excess_ratio
              c.deficit_ratio
            ≡ band_firm =
          ground arith in
        let due = firm_due r.operands c from.names unmarked in
        rw (from.reads.0, from.reads.1, band) due
  ]

  -- What the record is due for is listed.
  pub record Listed (r : Measured F) (out : Worklists F) : Type 0 where
    pub twin_listed :
        (t : TwinPair F)
        → r.operator ≡ overlap
        → TwinFrom at_most zero_ratio cuts t r
        → Memᴰ t out.twins
    pub split_listed :
        (c : CompoundSplit F)
        → r.operator ≡ reconstructibility
        → SplitFrom at_most zero_ratio cuts c r
        → Memᴰ c out.compound_splits
    pub sibling_listed :
        (s : Sibling F)
        → r.operator ≡ overlap
        → SiblingFrom at_most zero_ratio cuts s r
        → Memᴰ s out.siblings

  Listed-Extends :
      {r : Measured F} {mid out : Worklists F} → Extends mid out → Listed r mid → Listed r out
  Listed-Extends more now = record {
    twin_listed = λ t o from. more.twins_stay t (now.twin_listed t o from);
    split_listed = λ c o from. more.splits_stay c (now.split_listed c o from);
    sibling_listed = λ s o from. more.siblings_stay s (now.sibling_listed s o from);
  }

  added_twin :
      (r : Measured F) (w : Worklists F) (t : TwinPair F)
      → TwinFrom at_most zero_ratio cuts t r
      → Memᴰ t (add_overlap at_most zero_ratio cuts r w).twins
  unfolding add_overlap
  added_twin r w t from =
      rw (from.names, from.reads) (mem-append_right w.twins _ (mem-head_of_eq (twins_due r t from)))

  added_sibling :
      (r : Measured F) (w : Worklists F) (s : Sibling F)
      → SiblingFrom at_most zero_ratio cuts s r
      → Memᴰ s (add_overlap at_most zero_ratio cuts r w).siblings
  unfolding add_overlap
  added_sibling r w s from =
      rw (from.names, from.reads)
        (mem-append_right w.siblings _ (mem-head_of_eq (siblings_due r s from)))

  added_split :
      (r : Measured F) (w out : Worklists F) (c : CompoundSplit F)
      → add_reconstructibility at_most zero_ratio cuts r w ≡ some out
      → SplitFrom at_most zero_ratio cuts c r
      → Memᴰ c out.compound_splits
  unfolding add_reconstructibility
  added_split r w out c h from =
      let due = splits_due r c from in
      let all : w.compound_splits ++ (c ∷ []) ≡ out.compound_splits = ground arith in
      subst (Memᴰ c) all (mem-append_right w.compound_splits (c ∷ []) (Memᴰ.head refl))

  record-Listed :
      (r : Measured F) (operator : Operator) (w out : Worklists F)
      → r.operator ≡ operator
      → add_record at_most zero_ratio cuts r operator w ≡ some out
      → Listed r out
  record-Listed r overlap w out o h =
      let same : add_overlap at_most zero_ratio cuts r w ≡ out = cc in
      subst (Listed r) same (record {
        twin_listed = λ t _ from. added_twin r w t from;
        split_listed = λ c k from. ground arith;
        sibling_listed = λ s _ from. added_sibling r w s from;
      })
  record-Listed r reconstructibility w out o h = record {
    twin_listed = λ t k from. ground arith;
    split_listed = λ c _ from. added_split r w out c h from;
    sibling_listed = λ s k from. ground arith;
  }
  record-Listed r other w out o h = record {
    twin_listed = λ t k from. ground arith;
    split_listed = λ c k from. ground arith;
    sibling_listed = λ s k from. ground arith;
  }

  derive-Listed :
      (w : Worklists F) (records : List (Measured F)) (out : Worklists F) {r : Measured F}
      → derive_from at_most zero_ratio cuts w records ≡ some out
      → Memᴰ r records
      → Listed r out
  unfolding derive_from
  derive-Listed w [] out h m = elim m [ ]
  derive-Listed w (x ∷ records) out {r} h m =
      elim (Option-cases (add_record at_most zero_ratio cuts x x.operator w)) [
        | inl e ↦ ground arith
        | inr (mid, e) ↦
            let rest : derive_from at_most zero_ratio cuts mid records ≡ some out = ground arith in
            elim m [
              | Memᴰ.head same ↦
                  subst (λ y. Listed y out) (sym same)
                    (Listed-Extends (derive-Extends at_most zero_ratio cuts mid records out rest)
                      (record-Listed x x.operator w mid refl e))
              | Memᴰ.tail later ↦ derive-Listed mid records out rest later
            ]
      ]

  pub derive_worklists-Listed :
      (records : List (Measured F)) {out : Worklists F} {r : Measured F}
      → derive_worklists at_most zero_ratio cuts records ≡ some out
      → Memᴰ r records
      → Listed r out
  unfolding derive_worklists
  derive_worklists-Listed records {out} h m = derive-Listed _ records out h m
