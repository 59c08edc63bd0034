-- ===== src/Base/Members.antt =====
-- Membership of lists that are searched and filtered by a Boolean test.
use mathlib.Core.List.{Memᴰ}
use edub_kushim.Base.Tests.{Bool-cases}
use edub_kushim.Base.Lists.{any}
use edub_kushim.Base.Tables.{select_where}
use mathlib.Core.Path.{◌≡◌, refl}
use mathlib.Core.Logic.{◌↔◌, ◌⊎◌, inl, inr}
use mathlib.Core.Bool.{Bool, true}
use mathlib.Core.List.{List, [], ◌∷◌, ◌++◌}
use native.Mathlib.Omega.{arith}

module _ {ℓ} {A : Type ℓ} where
  pub mem-cons_inv : {x y : A} {xs : List A} → Memᴰ x (y ∷ xs) → Memᴰ x xs ⊎ (x ≡ y)
  mem-cons_inv (Memᴰ.head e) = inr e
  mem-cons_inv (Memᴰ.tail m) = inl m

  pub mem-append : {x : A} (xs ys : List A) → Memᴰ x (xs ++ ys) → Memᴰ x xs ⊎ Memᴰ x ys
  mem-append [] ys m = inr m
  mem-append (x ∷ xs) ys (Memᴰ.head e) = inl (Memᴰ.head e)
  mem-append (x ∷ xs) ys (Memᴰ.tail m) = elim (mem-append xs ys m) [
    | inl h ↦ inl (Memᴰ.tail h)
    | inr h ↦ inr h
  ]

  pub mem-append_left : {x : A} (xs ys : List A) → Memᴰ x xs → Memᴰ x (xs ++ ys)
  mem-append_left [] ys m = elim m [ ]
  mem-append_left (x ∷ xs) ys (Memᴰ.head e) = Memᴰ.head e
  mem-append_left (x ∷ xs) ys (Memᴰ.tail m) = Memᴰ.tail (mem-append_left xs ys m)

  pub mem-append_right : {x : A} (xs ys : List A) → Memᴰ x ys → Memᴰ x (xs ++ ys)
  mem-append_right [] ys m = m
  mem-append_right (x ∷ xs) ys m = Memᴰ.tail (mem-append_right xs ys m)

module _ {ℓ} {A : Type ℓ} (p : A → Bool) where
  pub mem_of_any : (xs : List A) → any p xs ≡ true → (x : A) × Memᴰ x xs × (p x ≡ true)
  mem_of_any [] h = cc
  mem_of_any (x ∷ xs) h = elim (Bool-cases (p x)) [
    | inl e ↦ (x, Memᴰ.head refl, e)
    | inr e ↦ let (y, m, q) = mem_of_any xs (ground arith) in (y, Memᴰ.tail m, q)
  ]

  pub any_of_mem : {x : A} (xs : List A) → Memᴰ x xs → p x ≡ true → any p xs ≡ true
  any_of_mem [] m h = elim m [ ]
  any_of_mem (y ∷ xs) (Memᴰ.head e) h = ground arith
  any_of_mem (y ∷ xs) (Memᴰ.tail m) h = ground (arith, any_of_mem xs m h)

  mem-cons_both :
      {x y : A} {xs : List A}
      → p y ≡ true
      → (Memᴰ x xs × (p x ≡ true)) ⊎ (x ≡ y)
      → Memᴰ x (y ∷ xs) × (p x ≡ true)
  mem-cons_both h (inl (m, q)) = (Memᴰ.tail m, q)
  mem-cons_both h (inr e) = (Memᴰ.head e, rw e h)

  mem_of_mem-select : {x : A} (xs : List A) → Memᴰ x (select_where p xs) → Memᴰ x xs × (p x ≡ true)
  unfolding select_where
  mem_of_mem-select [] m = elim m [ ]
  mem_of_mem-select (y ∷ xs) m = elim (Bool-cases (p y)) [
    | inl e ↦ elim (mem-cons_inv (rw e at m)) [
      | inl r ↦ mem-cons_both e (inl (mem_of_mem-select xs r))
      | inr q ↦ mem-cons_both e (inr q)
    ]
    | inr e ↦ let (r, q) = mem_of_mem-select xs (rw e at m) in (Memᴰ.tail r, q)
  ]

  mem-select_of_mem : {x : A} (xs : List A) → Memᴰ x xs → p x ≡ true → Memᴰ x (select_where p xs)
  unfolding select_where
  mem-select_of_mem [] m h = elim m [ ]
  mem-select_of_mem (y ∷ xs) (Memᴰ.head e) h = let k : p y ≡ true = rw e at h in rw k (Memᴰ.head e)
  mem-select_of_mem (y ∷ xs) (Memᴰ.tail m) h = elim (Bool-cases (p y)) [
    | inl e ↦ rw e (Memᴰ.tail (mem-select_of_mem xs m h))
    | inr e ↦ rw e (mem-select_of_mem xs m h)
  ]

  pub mem-select_where_iff :
      {x : A} (xs : List A) → Memᴰ x (select_where p xs) ↔ Memᴰ x xs × (p x ≡ true)
  mem-select_where_iff xs = (mem_of_mem-select xs, λ h. mem-select_of_mem xs h.0 h.1)
