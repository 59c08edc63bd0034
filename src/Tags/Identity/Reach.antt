-- ===== src/Tags/Identity/Reach.antt =====
-- internal/tags/identity.go: the anchoring rule. A name folds onto the one store name in reach.
use mathlib.Core.List.{Memᴰ}
use edub_kushim.Base.{
  ◌≡◌, ◌↔◌, refl, sym, ap, ◌∙◌, subst, ◌⊎◌, inl, inr, Bool, true, false, not, ◌&&◌, List, [], ◌∷◌,
  Option, none, some, if◌then◌else◌, arith, Bool-cases, Option-cases,
}
use edub_kushim.Tags.Names.{Text, same_text, same_text_iff, is_empty}
use edub_kushim.Tags.Identity.Anchors.{anchor_from}

-- `name` is hit by an item of the list.
pub record Hit {ℓ} {A : Type ℓ} (probe : A → Option Text) (xs : List A) (name : Text) : Type ℓ where
  pub item : A
  pub listed : Memᴰ item xs
  pub hits : probe item ≡ some name

module _ {ℓ} {A : Type ℓ} (probe : A → Option Text) where
  -- Every item that hits at all hits `name`.
  abbrev pub OnlyHit : List A → Text → Type ℓ
  OnlyHit xs name = (x : A) → Memᴰ x xs → (n : Text) → probe x ≡ some n → n ≡ name

  -- No store name is the empty text.
  abbrev pub FullHits : List A → Type ℓ
  FullHits xs = (x : A) → Memᴰ x xs → (n : Text) → probe x ≡ some n → is_empty n ≡ false

  later : {x : A} {xs : List A} {name : Text} → Hit probe xs name → Hit probe (x ∷ xs) name
  later h = record { item = h.item; listed = Memᴰ.tail h.listed; hits = h.hits }

  only-cons :
      {x : A} {xs : List A} {name : Text}
      → ((n : Text) → probe x ≡ some n → n ≡ name)
      → OnlyHit xs name
      → OnlyHit (x ∷ xs) name
  only-cons head only y (Memᴰ.head e) n h = head n (subst (λ z. probe z ≡ some n) e h)
  only-cons head only y (Memᴰ.tail m) n h = only y m n h

  -- What is known of the name that the loop has kept so far.
  Kept : Text → Text → Type 0
  Kept hit name = (is_empty hit ≡ true) ⊎ (hit ≡ name)

  abbrev clash : Text → Text → Bool
  clash hit n = not (is_empty hit) && not (same_text n hit)

  Kept-same : {hit name : Text} → hit ≡ name → Kept hit name
  unfolding Kept
  Kept-same e = inr e

  is_empty-none : is_empty [] ≡ true
  unfolding is_empty
  is_empty-none = refl

  Kept-none : (name : Text) → Kept [] name
  unfolding Kept is_empty
  Kept-none name = inl refl

  clash-Kept : (hit n : Text) → (clash hit n ≡ false) ↔ Kept hit n
  unfolding Kept
  clash-Kept hit n = ground (arith, same_text_iff n hit)

  anchor_from-none : (hit : Text) → anchor_from probe hit [] ≡ hit
  unfolding anchor_from
  anchor_from-none hit = refl

  sooner :
      (x : A) (xs : List A) (name : Text) (h : Hit probe (x ∷ xs) name)
      → Hit probe xs name ⊎ (probe x ≡ some name)
  sooner x xs name h = go h.item h.listed h.hits
    where
      go :
          (y : A)
          → Memᴰ y (x ∷ xs)
          → probe y ≡ some name
          → Hit probe xs name ⊎ (probe x ≡ some name)
      go y (Memᴰ.head e) k = inr (subst (λ z. probe z ≡ some name) e k)
      go y (Memᴰ.tail m) k = inl (record { item = y; listed = m; hits = k })

  found_later :
      (x : A) (xs : List A) (hit name : Text)
      → probe x ≡ none
      → (hit ≡ name) ⊎ Hit probe (x ∷ xs) name
      → (hit ≡ name) ⊎ Hit probe xs name
  found_later x xs hit name miss (inl e) = inl e
  found_later x xs hit name miss (inr h) = elim (sooner x xs name h) [
    | inl k ↦ inr k
    | inr e ↦ ground (arith, e, miss)
  ]

  step-miss :
      (x : A) (xs : List A) (hit : Text)
      → probe x ≡ none
      → anchor_from probe hit (x ∷ xs) ≡ anchor_from probe hit xs
  unfolding anchor_from
  step-miss x xs hit e = rw (e, anchor_from) refl

  step-hit :
      (x : A) (xs : List A) (hit n : Text)
      → probe x ≡ some n
      → anchor_from probe hit (x ∷ xs) ≡ (if clash hit n then [] else anchor_from probe n xs)
  unfolding anchor_from
  step-hit x xs hit n e = rw (e, anchor_from) refl

  anchor_from-inv :
      (xs : List A) (hit name : Text)
      → is_empty name ≡ false
      → FullHits xs
      → anchor_from probe hit xs ≡ name
      → ((hit ≡ name) ⊎ Hit probe xs name) × OnlyHit xs name × Kept hit name
  unfolding Kept
  anchor_from-inv [] hit name full names e =
      let same : hit ≡ name = sym (anchor_from-none hit) ∙ e in
      (inl same, λ x m. elim m [ ], inr same)
  anchor_from-inv (x ∷ xs) hit name full names e = elim (Option-cases (probe x)) [
    | inl miss ↦
        let (found, only, kept) =
          anchor_from-inv xs hit name full (λ y m. names y (Memᴰ.tail m))
            (sym (step-miss x xs hit miss) ∙ e) in
        (
          elim found [ inl h ↦ inl h | inr h ↦ inr (later h) ],
          only-cons (λ n h. ground (arith, miss, h)) only,
          kept,
        )
    | inr (n, got) ↦ elim (Bool-cases (clash hit n)) [
      | inl c ↦
          let none_left : [] ≡ name = rw c at (sym (step-hit x xs hit n got) ∙ e) in
          ground (arith, full, is_empty-none, ap is_empty none_left)
      | inr c ↦
          let (found, only, kept) =
            anchor_from-inv xs n name full (λ y m. names y (Memᴰ.tail m))
              (rw c at (sym (step-hit x xs hit n got) ∙ e)) in
          let same : n ≡ name = ground (arith, kept, names x (Memᴰ.head refl) n got) in
          (
            inr record { item = x; listed = Memᴰ.head refl; hits = rw same at got },
            only-cons (λ m h. ground (arith, got, h, same)) only,
            subst (λ z. Kept hit z) same ((clash-Kept hit n).0 c),
          )
    ]
  ]

  anchor_from-intro :
      (xs : List A) (hit name : Text)
      → (hit ≡ name) ⊎ Hit probe xs name
      → OnlyHit xs name
      → Kept hit name
      → anchor_from probe hit xs ≡ name
  anchor_from-intro [] hit name (inl e) only kept = anchor_from-none hit ∙ e
  anchor_from-intro [] hit name (inr h) only kept = elim h.listed [ ]
  anchor_from-intro (x ∷ xs) hit name found only kept = elim (Option-cases (probe x)) [
    | inl miss ↦
        step-miss x xs hit miss
        ∙ anchor_from-intro xs hit name (found_later x xs hit name miss found)
            (λ y m. only y (Memᴰ.tail m)) kept
    | inr (n, got) ↦
        let same : n ≡ name = only x (Memᴰ.head refl) n got in
        let free : clash hit n ≡ false =
          (clash-Kept hit n).1 (subst (λ z. Kept hit z) (sym same) kept) in
        step-hit x xs hit n got
        ∙ rw free
            (anchor_from-intro xs n name (inl same) (λ y m. only y (Memᴰ.tail m)) (Kept-same same))
  ]

  -- A nonempty name is what the loop takes exactly when some item hits it and every hit is it.
  pub anchor_from_iff :
      (xs : List A) (name : Text)
      → is_empty name ≡ false
      → FullHits xs
      → (anchor_from probe [] xs ≡ name) ↔ Hit probe xs name × OnlyHit xs name
  anchor_from_iff xs name full names = (
    λ e. forth (anchor_from-inv xs [] name full names e),
    λ (h, only). anchor_from-intro xs [] name (inr h) only (Kept-none name),
  )
    where
      forth :
          (([] ≡ name) ⊎ Hit probe xs name) × OnlyHit xs name × Kept [] name
          → Hit probe xs name × OnlyHit xs name
      forth (inl e, only, kept) = ground (arith, full, is_empty-none, ap is_empty e)
      forth (inr h, only, kept) = (h, only)
