-- ===== src/Base/Updates.antt =====
-- What an UPDATE does to searches and selections of the table.
use edub_kushim.Base.Tests.{if◌then◌else◌, Bool-cases}
use edub_kushim.Base.Lists.{any}
use edub_kushim.Base.Tables.{update_where, select_where, count_where, find_where}
use mathlib.Core.Path.{◌≡◌, refl, sym}
use mathlib.Core.Logic.{inl, inr}
use mathlib.Core.Bool.{Bool, true, false}
use mathlib.Core.List.{Memᴰ, List, [], ◌∷◌, ◌++◌}
use mathlib.Core.Option.{some}
use native.Mathlib.Omega.{arith}

module _ {ℓ} {A : Type ℓ} where
  pub any-none : (p : A → Bool) (xs : List A) → ((x : A) → p x ≡ false) → any p xs ≡ false
  any-none p [] h = refl
  any-none p (x ∷ xs) h = ground (arith, h x, any-none p xs h)

  pub any-update_where :
      (p hit : A → Bool) (f : A → A) (xs : List A)
      → any p (update_where hit f xs) ≡ any (λ x. p (if hit x then f x else x)) xs
  unfolding update_where
  any-update_where p hit f [] = refl
  any-update_where p hit f (x ∷ xs) = ground (arith, any-update_where p hit f xs)

  -- A selection that the updated rows are outside of, before and after, stays.
  pub select_where-update_where :
      (q hit : A → Bool) (f : A → A) (xs : List A)
      → ((x : A) → hit x ≡ true → (q x ≡ false) × (q (f x) ≡ false))
      → select_where q (update_where hit f xs) ≡ select_where q xs
  unfolding select_where update_where
  select_where-update_where q hit f [] h = refl
  select_where-update_where q hit f (x ∷ xs) h = elim (Bool-cases (hit x)) [
    | inl e ↦ ground (arith, h x e, select_where-update_where q hit f xs h)
    | inr e ↦ ground (arith, select_where-update_where q hit f xs h)
  ]

  -- An UPDATE of no row.
  pub update_where-none :
      (hit : A → Bool) (f : A → A) (xs : List A)
      → ((x : A) → hit x ≡ false)
      → update_where hit f xs ≡ xs
  unfolding update_where
  update_where-none hit f [] h = refl
  update_where-none hit f (x ∷ xs) h = ground (arith, h x, update_where-none hit f xs h)

  pub count_where-none :
      (hit : A → Bool) (xs : List A) → ((x : A) → hit x ≡ false) → count_where hit xs ≡ 0
  unfolding count_where
  count_where-none hit [] h = refl
  count_where-none hit (x ∷ xs) h = ground (arith, h x, count_where-none hit xs h)

  pub count_where-any : (hit : A → Bool) (xs : List A) → any hit xs ≡ false → count_where hit xs ≡ 0
  unfolding count_where
  count_where-any hit [] h = refl
  count_where-any hit (x ∷ xs) h = ground (arith, count_where-any hit xs)

  pub update_where-any :
      (hit : A → Bool) (f : A → A) (xs : List A) → any hit xs ≡ false → update_where hit f xs ≡ xs
  unfolding update_where
  update_where-any hit f [] h = refl
  update_where-any hit f (x ∷ xs) h = ground (arith, update_where-any hit f xs)

  pub find_where-some :
      (p : A → Bool) (xs : List A) {x : A} → find_where p xs ≡ some x → Memᴰ x xs × (p x ≡ true)
  unfolding find_where
  find_where-some p [] h = cc
  find_where-some p (y ∷ xs) {x} h = elim (Bool-cases (p y)) [
    | inl e ↦ let same : y ≡ x = ground arith in (Memᴰ.head (sym same), ground arith)
    | inr e ↦ let (m, q) = find_where-some p xs (ground arith) in (Memᴰ.tail m, q)
  ]

  -- A search that finds nothing finds nothing among rows that an UPDATE does not bring into it,
  pub any-update_where_kept :
      (p hit : A → Bool) (f : A → A) (xs : List A)
      → ((x : A) → p x ≡ false → p (f x) ≡ false)
      → any p xs ≡ false
      → any p (update_where hit f xs) ≡ false
  unfolding update_where
  any-update_where_kept p hit f [] h none_before = refl
  any-update_where_kept p hit f (x ∷ xs) h none_before = elim (Bool-cases (hit x)) [
    | inl e ↦ ground (arith, h x (ground arith), any-update_where_kept p hit f xs h (ground arith))
    | inr e ↦ ground (arith, any-update_where_kept p hit f xs h (ground arith))
  ]

  -- nor among rows that it takes out of it.
  pub any-update_where_cleared :
      (p : A → Bool) (f : A → A) (xs : List A)
      → ((x : A) → p (f x) ≡ false)
      → any p (update_where p f xs) ≡ false
  unfolding update_where
  any-update_where_cleared p f [] h = refl
  any-update_where_cleared p f (x ∷ xs) h = elim (Bool-cases (p x)) [
    | inl e ↦ ground (arith, h x, any-update_where_cleared p f xs h)
    | inr e ↦ ground (arith, any-update_where_cleared p f xs h)
  ]

  pub any-append_kept :
      (p : A → Bool) (xs ys : List A)
      → any p xs ≡ false
      → any p ys ≡ false
      → any p (xs ++ ys) ≡ false
  any-append_kept p [] ys h k = k
  any-append_kept p (x ∷ xs) ys h k = ground (arith, any-append_kept p xs ys (ground arith) k)

  pub any_of_count : (p : A → Bool) (xs : List A) → count_where p xs ≡ 0 → any p xs ≡ false
  unfolding count_where
  any_of_count p [] h = refl
  any_of_count p (x ∷ xs) h = ground (arith, any_of_count p xs)
