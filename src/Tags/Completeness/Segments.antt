-- ===== src/Tags/Completeness/Segments.antt =====
-- internal/tags/completeness.go: which segments a compound resolves to.
use mathlib.Core.List.{Memᴰ}
use edub_kushim.Base.{
  ◌≡◌, ◌↔◌, refl, sym, subst, ap, ◌∙◌, ◌⊎◌, inl, inr, Bool, true, false, ◌||◌, List, [], ◌∷◌, ◌++◌,
  arith, Bool-cases, if◌then◌else◌,
}
use edub_kushim.Base.Members.{mem-cons_inv, mem-append, mem-append_left, mem-append_right}
use edub_kushim.Tags.Names.{Text, is_empty}
use edub_kushim.Tags.Identity.Forms.{Language, house_form}
use edub_kushim.Tags.Atomicity.{with_space, derive_parts, is_period_class, is_time_designation_drop}
use edub_kushim.Tags.Completeness.{
  resolved_singles, resolved_bigrams, resolved_content, resolved_segments,
}
use edub_kushim.Tags.Completeness.Words.{
  Resolves, single, singles, full, dropped, single-Resolves, Resolves-single, single_mem,
  mem_single,
}

-- The two words stand next to each other, in this order.
pub data Adjacent (a b : Text) : List Text → Type 0 where
  in_front : {words : List Text} → Adjacent a b (a ∷ b ∷ words)
  further : {word : Text} {words : List Text} → Adjacent a b words → Adjacent a b (word ∷ words)

neither : (p q : Bool) → p || q ≡ false → (p ≡ false) × (q ≡ false)
neither false q h = (refl, h)
neither true q h = cc

module _ (lang : Language) (promoted_names : List (Text × Text)) (live_names : List Text) where
  -- A segment of the compound: it is no period, and the segment is the form of a content word, or two
  -- neighbours of them that both have a form and that are together no time designation that the store lacks.
  abbrev pub Segment : Text → Text → Type 0
  Segment name segment =
      (is_period_class lang (house_form lang name) ≡ false)
      × (((word : Text) × Memᴰ word (derive_parts lang name)
            × Resolves lang promoted_names live_names word segment)
          ⊎ ((a : Text) × (b : Text) × (x : Text) × (y : Text) × Adjacent a b
                (derive_parts lang name)
              × Resolves lang promoted_names live_names a x
              × Resolves lang promoted_names live_names b y
              × (is_time_designation_drop lang (with_space a b) live_names ≡ false)
              × (segment ≡ with_space a b)))

  abbrev bigrams : List Text → List Text
  bigrams words =
      resolved_bigrams lang promoted_names live_names words
        (singles lang promoted_names live_names words)

  -- A neighbour pair with a form.
  abbrev Neighbours : List Text → Text → Type 0
  Neighbours words segment =
      (a : Text) × (b : Text) × (x : Text) × (y : Text) × Adjacent a b words
      × Resolves lang promoted_names live_names a x
      × Resolves lang promoted_names live_names b y
      × (is_time_designation_drop lang (with_space a b) live_names ≡ false)
      × (segment ≡ with_space a b)

  Neighbours-further :
      (word : Text) (words : List Text) (segment : Text)
      → Neighbours words segment
      → Neighbours (word ∷ words) segment
  Neighbours-further word words segment (a, b, x, y, next, ra, rb, d, same) =
      (a, b, x, y, further next, ra, rb, d, same)

  -- What the first pair adds.
  abbrev first_pair : Text → Text → List Text → List Text
  first_pair a b rest =
      if is_empty (single lang promoted_names live_names a)
        || is_empty (single lang promoted_names live_names b)
      then rest
      else if (dropped lang promoted_names live_names) (with_space a b)
      then rest
      else with_space a b ∷ rest

  bigrams_cons :
      (a b : Text) (words : List Text)
      → bigrams (a ∷ b ∷ words) ≡ first_pair a b (bigrams (b ∷ words))
  unfolding resolved_bigrams resolved_singles
  bigrams_cons a b words = refl

  pair_mem :
      (words : List Text) (segment : Text) → Memᴰ segment (bigrams words) → Neighbours words segment
  unfolding resolved_bigrams resolved_singles
  pair_mem [] segment m = elim m [ ]
  pair_mem (a ∷ []) segment m = elim m [ ]
  pair_mem (a ∷ b ∷ words) segment m =
      let n = subst (Memᴰ segment) (bigrams_cons a b words) m in
      let later = λ (k : Memᴰ segment (bigrams (b ∷ words))).
        Neighbours-further a (b ∷ words) segment (pair_mem (b ∷ words) segment k) in
      elim (Bool-cases (
        is_empty (single lang promoted_names live_names a)
        || is_empty (single lang promoted_names live_names b))) [
          | inl e ↦ later (subst (Memᴰ segment) (ground (arith, e)) n)
          | inr e ↦ elim (Bool-cases (dropped lang promoted_names live_names (with_space a b))) [
            | inl d ↦ later (subst (Memᴰ segment) (ground (arith, e, d)) n)
            | inr d ↦
                let here : first_pair a b (bigrams (b ∷ words))
                    ≡ with_space a b ∷ bigrams (b ∷ words) =
                  ground (arith, e, d) in
                elim (mem-cons_inv (subst (Memᴰ segment) here n)) [
                  | inl k ↦ later k
                  | inr same ↦ (
                    a,
                    b,
                    single lang promoted_names live_names a,
                    single lang promoted_names live_names b,
                    in_front,
                    single-Resolves lang promoted_names live_names a
                        (neither (is_empty (single lang promoted_names live_names a))
                          (is_empty (single lang promoted_names live_names b)) e).0,
                    single-Resolves lang promoted_names live_names b
                        (neither (is_empty (single lang promoted_names live_names a))
                          (is_empty (single lang promoted_names live_names b)) e).1,
                    d,
                    same,
                  )
                ]
          ]
        ]

  later_pair :
      (a b : Text) (words : List Text) (segment : Text)
      → Memᴰ segment (bigrams (b ∷ words))
      → Memᴰ segment (bigrams (a ∷ b ∷ words))
  later_pair a b words segment k =
      subst (Memᴰ segment) (sym (bigrams_cons a b words))
        (elim (Bool-cases (
          is_empty (single lang promoted_names live_names a)
          || is_empty (single lang promoted_names live_names b))) [
            | inl e ↦ subst (Memᴰ segment) (ground (arith, e)) k
            | inr e ↦ elim (Bool-cases (dropped lang promoted_names live_names (with_space a b))) [
              | inl d ↦ subst (Memᴰ segment) (ground (arith, e, d)) k
              | inr d ↦
                  let here : with_space a b ∷ bigrams (b ∷ words)
                      ≡ first_pair a b (bigrams (b ∷ words)) =
                    ground (arith, e, d) in
                  subst (Memᴰ segment) here (Memᴰ.tail k)
            ]
          ])

  mem_pair :
      (words : List Text) (a b x y : Text)
      → Adjacent a b words
      → Resolves lang promoted_names live_names a x
      → Resolves lang promoted_names live_names b y
      → dropped lang promoted_names live_names (with_space a b) ≡ false
      → Memᴰ (with_space a b) (bigrams words)
  mem_pair [] a b x y next ra rb d = elim next [ ]
  mem_pair (a ∷ b ∷ words) _ _ x y in_front ra rb d =
      let (form_a, full_a) = Resolves-single lang promoted_names live_names a x ra in
      let (form_b, full_b) = Resolves-single lang promoted_names live_names b y rb in
      let ea : is_empty (single lang promoted_names live_names a) ≡ false =
        ap is_empty form_a ∙ full_a in
      let eb : is_empty (single lang promoted_names live_names b) ≡ false =
        ap is_empty form_b ∙ full_b in
      let here : with_space a b ∷ bigrams (b ∷ words) ≡ first_pair a b (bigrams (b ∷ words)) =
        ground (arith, ea, eb, d) in
      subst (Memᴰ (with_space a b)) (sym (bigrams_cons a b words))
        (subst (Memᴰ (with_space a b)) here (Memᴰ.head refl))
  mem_pair (w ∷ []) a b x y (further next) ra rb d = elim next [ ]
  mem_pair (w ∷ v ∷ words) a b x y (further next) ra rb d =
      later_pair w v words (with_space a b) (mem_pair (v ∷ words) a b x y next ra rb d)

  -- A compound resolves exactly to its segments.
  pub resolved_segments_iff :
      (name segment : Text)
      → Memᴰ segment (resolved_segments lang promoted_names live_names name) ↔ Segment name segment
  unfolding resolved_segments resolved_content
  resolved_segments_iff name segment =
      let words = derive_parts lang name in
      elim (Bool-cases (is_period_class lang (house_form lang name))) [
        | inl period ↦ (
          λ m. elim (subst (Memᴰ segment) {y = []} (ground (arith, period)) m) [ ],
          λ (divides, rest). ground (arith, period, divides),
        )
        | inr divides ↦
            let all : resolved_segments lang promoted_names live_names name
                ≡ (full lang promoted_names live_names)
                    (singles lang promoted_names live_names words)
                  ++ bigrams words =
              ground (arith, divides) in
            (
              λ m.
                  elim (mem-append
                    (full lang promoted_names live_names
                      (singles lang promoted_names live_names words))
                    (bigrams words) (subst (Memᴰ segment) all m)) [
                      | inl k ↦
                          (divides, inl (single_mem lang promoted_names live_names words segment k))
                      | inr k ↦ (divides, inr (pair_mem words segment k))
                    ],
              λ (_, how). subst (Memᴰ segment) (sym all) (elim how [
                | inl (word, member, r) ↦
                    mem-append_left
                      (full lang promoted_names live_names
                        (singles lang promoted_names live_names words))
                      (bigrams words)
                      (mem_single lang promoted_names live_names words word segment member r)
                | inr (a, b, x, y, next, ra, rb, d, same) ↦
                    mem-append_right
                      (full lang promoted_names live_names
                        (singles lang promoted_names live_names words))
                      (bigrams words)
                      (subst (λ t. Memᴰ t (bigrams words)) (sym same)
                        (mem_pair words a b x y next ra rb d))
              ]),
            )
      ]
