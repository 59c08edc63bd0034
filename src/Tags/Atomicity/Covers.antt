-- ===== src/Tags/Atomicity/Covers.antt =====
-- internal/tags/atomicity.go: what a greedy cover consists of.
use edub_kushim.Base.{
  ◌≡◌, refl, sym, ap, ◌∙◌, subst, inl, inr, Bool, true, false, ◌&&◌, List, [], ◌∷◌, Option, none,
  some, arith, Bool-cases, Option-cases,
}
use edub_kushim.Tags.Names.{Text}
use edub_kushim.Tags.Atomicity.{with_space, is_nil, prepend, after_word, cover_from, greedy_cover}

-- `cover` has the applied names of consecutive usable spans of one or two words that tile the content.
pub data Tiles (resolve : Text → Option Text) : List Text → List Text → Type 0 where
  tiled : Tiles resolve [] []
  word :
      {a applied : Text} {content cover : List Text}
      → resolve a ≡ some applied
      → Tiles resolve content cover
      → Tiles resolve (a ∷ content) (applied ∷ cover)
  bigram :
      {a b applied : Text} {content cover : List Text}
      → resolve (with_space a b) ≡ some applied
      → Tiles resolve content cover
      → Tiles resolve (a ∷ b ∷ content) (applied ∷ cover)

module _ (resolve : Text → Option Text) where
  -- A strict cover tiles, and the partial cover is the same.
  Strict : Bool → List Text → List Text → Type 0
  Strict first content cover =
      Tiles resolve content cover × (cover_from resolve true first content ≡ some cover)

  prepend-inv :
      (applied : Text) (rest : Option (List Text)) (cover : List Text)
      → prepend applied rest ≡ some cover
      → (tail : List Text) × (rest ≡ some tail) × (cover ≡ applied ∷ tail)
  prepend-inv applied none cover h = ground (arith, h)
  prepend-inv applied (some tail) cover h = (tail, refl, ground (arith, h))

  -- The case of a word alone.
  Strict-word :
      (a : Text) (content : List Text) (rest : Option (List Text)) (partial : Option (List Text))
      (cover : List Text)
      → ((tail : List Text) → rest ≡ some tail → Tiles resolve content tail × (partial ≡ some tail))
      → after_word false (resolve a) rest ≡ some cover
      → Tiles resolve (a ∷ content) cover × (after_word true (resolve a) partial ≡ some cover)
  Strict-word a content rest partial cover again h = elim (Option-cases (resolve a)) [
    | inl e ↦ ground (arith, e, h)
    | inr (applied, e) ↦
        let (tail, q, same) = prepend-inv applied rest cover (rw e at h) in
        let (tiles, k) = again tail q in
        (
          subst (λ c. Tiles resolve (a ∷ content) c) (sym same) (Tiles.word e tiles),
          ap (λ r. after_word true r partial) e ∙ ap (prepend applied) k ∙ ap some (sym same),
        )
  ]

  cover_from-Strict :
      (first : Bool) (content cover : List Text)
      → cover_from resolve false first content ≡ some cover
      → Strict first content cover
  unfolding cover_from Strict
  cover_from-Strict first [] cover h =
      (subst (λ c. Tiles resolve [] c) (ground (arith, h)) Tiles.tiled, h)
  cover_from-Strict first (a ∷ []) cover h =
      Strict-word a [] (some []) (some []) cover
        (λ tail e. (subst (λ c. Tiles resolve [] c) (ground (arith, e)) Tiles.tiled, e)) h
  cover_from-Strict first (a ∷ b ∷ words) cover h =
      let single =
        Strict-word a (b ∷ words) (cover_from resolve false false (b ∷ words))
          (cover_from resolve true false (b ∷ words)) cover (cover_from-Strict false (b ∷ words)) in
      elim (Bool-cases (first && is_nil words)) [
        | inl e ↦ rw (e, cover_from) (single (rw (e, cover_from) at h))
        | inr e ↦ elim (Option-cases (resolve (with_space a b))) [
          | inl q ↦ rw (e, q, cover_from) (single (rw (e, q, cover_from) at h))
          | inr (applied, q) ↦
              let (tail, k, same) =
                prepend-inv applied (cover_from resolve false false words) cover
                  (rw (e, q, cover_from) at h) in
              let (tiles, whole) = cover_from-Strict false words tail k in
              (
                subst (λ c. Tiles resolve (a ∷ b ∷ words) c) (sym same) (Tiles.bigram q tiles),
                rw (e, q, cover_from) (ap (prepend applied) whole ∙ ap some (sym same)),
              )
        ]
      ]

  -- The list is there.
  Got : Option (List Text) → Type 0
  Got o = (cover : List Text) × (o ≡ some cover)

  Got-nil : Got (some [])
  unfolding Got
  Got-nil = ([], refl)

  prepend-Got : (applied : Text) (rest : Option (List Text)) → Got rest → Got (prepend applied rest)
  unfolding Got
  prepend-Got applied rest (tail, e) = (applied ∷ tail, ap (prepend applied) e)

  after_word-Got :
      (o : Option Text) (rest : Option (List Text)) → Got rest → Got (after_word true o rest)
  after_word-Got none rest h = h
  after_word-Got (some applied) rest h = prepend-Got applied rest h

  cover_from-Got :
      (first : Bool) (content : List Text) → Got (cover_from resolve true first content)
  unfolding cover_from
  cover_from-Got first [] = Got-nil
  cover_from-Got first (a ∷ []) = after_word-Got (resolve a) (some []) Got-nil
  cover_from-Got first (a ∷ b ∷ words) =
      let single =
        after_word-Got (resolve a) (cover_from resolve true false (b ∷ words))
          (cover_from-Got false (b ∷ words)) in
      elim (Bool-cases (first && is_nil words)) [
        | inl e ↦ rw (e, cover_from) single
        | inr e ↦ elim (Option-cases (resolve (with_space a b))) [
          | inl q ↦ rw (e, q, cover_from) single
          | inr (applied, q) ↦
              rw (e, q, cover_from)
                (prepend-Got applied (cover_from resolve true false words)
                  (cover_from-Got false words))
        ]
      ]

  -- A cover that GreedyCover finds where every word has to be covered tiles the content with usable spans
  -- of one or two words, and is also the cover where words may be skipped; that one always exists.
  pub greedy_cover-Tiles :
      (content : List Text)
      → ((cover : List Text)
          → greedy_cover resolve false content ≡ some cover
          → Tiles resolve content cover × (greedy_cover resolve true content ≡ some cover))
        × ((cover : List Text) × (greedy_cover resolve true content ≡ some cover))
  unfolding greedy_cover Strict Got
  greedy_cover-Tiles content = (cover_from-Strict true content, cover_from-Got true content)
