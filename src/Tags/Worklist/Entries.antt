-- ===== src/Tags/Worklist/Entries.antt =====
-- worklist.go: what one record adds to the worklists.
use edub_kushim.Base.{
  ◌≤◌, ◌≡◌, refl, ◌⊎◌, inl, inr, String, Bool, true, false, ◌||◌, not, some, List, [], ◌∷◌,
  if◌then◌else◌, arith, subst, sym, Bool-cases,
}
use mathlib.Core.List.{Memᴰ}
use edub_kushim.Tags.Algebra.{sufficient}
use edub_kushim.Tags.Worklist.{
  Cuts, Measured, TwinPair, CompoundSplit, Sibling, or_default, larger, twin_of, sibling_from,
  sibling_of,
}

mem_if :
    {A : Type 0} (test : Bool) (x : A) {y : A}
    → Memᴰ y (if test then x ∷ [] else [])
    → (test ≡ true) × (y ≡ x)
mem_if true x (Memᴰ.head e) = (refl, e)
mem_if true x (Memᴰ.tail m) = elim m [ ]
mem_if false x m = elim m [ ]

module _ {F : Type 0} (at_most : F → F → Bool) (zero_ratio : F) (cuts : Cuts F) where
  abbrev pub ratio_a : Measured F → F
  ratio_a r = or_default zero_ratio r.containment_a

  abbrev pub ratio_b : Measured F → F
  ratio_b r = or_default zero_ratio r.containment_b

  -- The container and its mass, the contained tag, its mass and the fraction of it that the container holds.
  abbrev pub Oriented : String → String → Measured F → Sibling F → Type 0
  Oriented a b r s =
      ((at_most (ratio_a r) (ratio_b r) ≡ true)
        × (s.container ≡ a)
        × (s.contained ≡ b)
        × (s.containment ≡ ratio_b r)
        × (s.container_mass ≡ or_default 0 r.mass_a)
        × (s.contained_mass ≡ or_default 0 r.mass_b))
      ⊎ ((at_most (ratio_a r) (ratio_b r) ≡ false)
          × (s.container ≡ b)
          × (s.contained ≡ a)
          × (s.containment ≡ ratio_a r)
          × (s.container_mass ≡ or_default 0 r.mass_b)
          × (s.contained_mass ≡ or_default 0 r.mass_a))

  -- A sibling from a record: it names the record's first two operands, the larger of their containments,
  -- and each mass with its own tag.
  pub record SiblingFrom (s : Sibling F) (r : Measured F) : Type 0 where
    pub a : String
    pub b : String
    pub rest : List String
    pub jaccard : F
    pub names : r.operands ≡ a ∷ b ∷ rest
    pub reads : r.jaccard ≡ some jaccard
    pub oriented : Oriented a b r s
    pub largest :
        (at_most (ratio_a r) s.containment ≡ true) × (at_most (ratio_b r) s.containment ≡ true)
    pub above_floor : at_most cuts.sibling_gray_floor s.containment ≡ true
    pub massive : (3 ≤ s.container_mass) × (3 ≤ s.contained_mass)
    pub reviewed : s.in_review ≡ not (at_most cuts.sibling_containment s.containment)

  pub record TwinFrom (t : TwinPair F) (r : Measured F) : Type 0 where
    pub rest : List String
    pub names : r.operands ≡ t.a ∷ t.b ∷ rest
    pub reads : r.jaccard ≡ some t.jaccard
    pub masses : (t.mass_a ≡ or_default 0 r.mass_a) × (t.mass_b ≡ or_default 0 r.mass_b)
    pub above_floor : at_most cuts.twin_gray_floor t.jaccard ≡ true
    pub massive : (3 ≤ t.mass_a) × (3 ≤ t.mass_b)
    pub reviewed : t.in_review ≡ not (at_most cuts.twin_jaccard t.jaccard)

  pub record SplitFrom (c : CompoundSplit F) (r : Measured F) : Type 0 where
    pub names : r.operands ≡ c.compound ∷ c.parts
    pub is_sufficient : r.state ≡ sufficient
    pub reads : (r.excess_ratio ≡ some c.excess_ratio) × (r.deficit_ratio ≡ some c.deficit_ratio)
    pub within_gray :
        (at_most c.excess_ratio cuts.compound_gray ≡ true)
        × (at_most c.deficit_ratio cuts.compound_gray ≡ true)
    pub reviewed : c.in_review ≡ (
        not (at_most c.excess_ratio cuts.compound_split)
        || not (at_most c.deficit_ratio cuts.compound_split))

  module _ (total : (x y : F) → at_most x y || at_most y x ≡ true) where
    sibling_facts :
        (r : Measured F) (a b : String) (rest : List String) (jaccard : F)
        → r.operands ≡ a ∷ b ∷ rest
        → r.jaccard ≡ some jaccard
        → at_most cuts.sibling_gray_floor (larger at_most zero_ratio cuts (ratio_a r) (ratio_b r))
          ≡ true
        → 3 ≤ or_default 0 r.mass_a
        → 3 ≤ or_default 0 r.mass_b
        → SiblingFrom
            (sibling_from at_most zero_ratio cuts a b
              (ratio_a r)
              (ratio_b r)
              (or_default 0 r.mass_a)
              (or_default 0 r.mass_b))
            r
    unfolding sibling_from
    sibling_facts r a b rest jaccard names reads floor at_a at_b =
        elim (Bool-cases (at_most (ratio_a r) (ratio_b r))) [
          | inl below ↦ record {
            a = a;
            b = b;
            rest = rest;
            jaccard = jaccard;
            names = names;
            reads = reads;
            oriented =
                inl (below, ground arith, ground arith, ground arith, ground arith, ground arith);
            largest = (ground arith, ground (arith, total (ratio_b r) (ratio_b r)));
            above_floor = ground arith;
            massive = (ground arith, ground arith);
            reviewed = ground arith;
          }
          | inr above ↦ record {
            a = a;
            b = b;
            rest = rest;
            jaccard = jaccard;
            names = names;
            reads = reads;
            oriented =
                inr (above, ground arith, ground arith, ground arith, ground arith, ground arith);
            largest = (
              ground (arith, total (ratio_a r) (ratio_a r)),
              ground (arith, total (ratio_a r) (ratio_b r)),
            );
            above_floor = ground arith;
            massive = (ground arith, ground arith);
            reviewed = ground arith;
          }
        ]

    pub sibling_mem :
        (r : Measured F) (a b : String) (rest : List String) (jaccard : F) (s : Sibling F)
        → r.operands ≡ a ∷ b ∷ rest
        → r.jaccard ≡ some jaccard
        → Memᴰ s (
            sibling_of at_most zero_ratio cuts a b
              (ratio_a r)
              (ratio_b r)
              (or_default 0 r.mass_a)
              (or_default 0 r.mass_b))
        → SiblingFrom s r
    unfolding sibling_of
    sibling_mem r a b rest jaccard s names reads m =
        let (fits, same) = mem_if _ _ m in
        subst (λ x. SiblingFrom x r) (sym same)
          (sibling_facts r a b rest jaccard names reads (ground arith) (ground arith)
            (ground arith))

  pub twin_mem :
      (r : Measured F) (a b : String) (rest : List String) (jaccard : F) (t : TwinPair F)
      → r.operands ≡ a ∷ b ∷ rest
      → r.jaccard ≡ some jaccard
      → Memᴰ t (
          twin_of at_most zero_ratio cuts a b jaccard
            (or_default 0 r.mass_a)
            (or_default 0 r.mass_b))
      → TwinFrom t r
  unfolding twin_of
  twin_mem r a b rest jaccard t names reads m =
      let (fits, same) = mem_if _ _ m in
      subst (λ x. TwinFrom x r) (sym same)
        (record {
          rest = rest;
          names = names;
          reads = reads;
          masses = (refl, refl);
          above_floor = ground arith;
          massive = (ground arith, ground arith);
          reviewed = refl;
        })
