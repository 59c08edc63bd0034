-- ===== src/Tags/Algebra/Counting.antt =====
-- The counts of sets: inclusion and exclusion, and what the readings' differences are sizes of.
use edub_kushim.Base.{
  ℕ, ◌+◌, ◌≡◌, refl, sym, subst, inl, inr, arith, Bool, true, false, not, ◌&&◌, List, [], ◌∷◌,
  length, length-append, ◌==◌, if◌then◌else◌, Bool-cases, ==_iff,
}
use edub_kushim.Base.Tables.{select_where}
use edub_kushim.Tags.Algebra.{Set, contains, size, new_set, union, intersect, difference}

-- no id twice
abbrev pub distinct : Set → Bool
distinct [] = true
distinct (id ∷ ids) = not (contains ids id) && distinct ids

pub distinct-new_set : (ids : List ℕ) → distinct (new_set ids) ≡ true
unfolding new_set
distinct-new_set [] = refl
distinct-new_set (id ∷ ids) = ground (arith, distinct-new_set ids)

-- how many ids of a list pass a test
abbrev kept : (ℕ → Bool) → Set → ℕ
kept p s = length (select_where p s)

kept_both : (p : ℕ → Bool) (s : Set) → kept p s + kept (λ id. not (p id)) s ≡ length s
unfolding select_where
kept_both p [] = refl
kept_both p (id ∷ s) = ground (arith, kept_both p s)

-- an id that is not in the list is counted nowhere
kept_absent : (x : ℕ) (s : Set) → contains s x ≡ false → kept (λ id. x == id) s ≡ 0
unfolding select_where
kept_absent x [] h = refl
kept_absent x (id ∷ s) h = ground (arith, kept_absent x s, ==_iff x id, ==_iff id x)

kept_once :
    (x : ℕ) (s : Set) → distinct s ≡ true → kept (λ id. x == id) s ≡ (if contains s x then 1 else 0)
unfolding select_where
kept_once x [] h = refl
kept_once x (id ∷ s) h = elim (Bool-cases (x == id)) [
  | inl same ↦ let eq = (==_iff x id).0 same in ground (arith, kept_absent x s, ==_iff id x)
  | inr apart ↦ ground (arith, kept_once x s, ==_iff id x, ==_iff x id)
]

-- a test that is one of two that never hold together
kept_cons :
    (x : ℕ) (s t : Set)
    → contains s x ≡ false
    → kept (contains (x ∷ s)) t ≡ kept (λ id. x == id) t + kept (contains s) t
unfolding select_where
kept_cons x s [] h = refl
kept_cons x s (id ∷ t) h = elim (Bool-cases (x == id)) [
  | inl same ↦
      let absent : contains s id ≡ false =
        subst (λ k. contains s k ≡ false) ((==_iff x id).0 same) h in
      ground (arith, kept_cons x s t h)
  | inr apart ↦ ground (arith, kept_cons x s t h)
]

kept_empty : (t : Set) → kept (contains []) t ≡ 0
unfolding select_where
kept_empty [] = refl
kept_empty (id ∷ t) = ground (arith, kept_empty t)

kept_comm :
    (s t : Set) → distinct s ≡ true → distinct t ≡ true → kept (contains t) s ≡ kept (contains s) t
unfolding select_where
kept_comm [] t hs ht = sym (kept_empty t)
kept_comm (x ∷ s) t hs ht = ground (arith, kept_comm s t, kept_cons x s t, kept_once x t ht)

size-intersect :
    (s t : Set) → distinct s ≡ true → distinct t ≡ true → size (intersect s t) ≡ kept (contains t) s
unfolding intersect
size-intersect s t hs ht = ground (arith, kept_comm s t hs ht)

-- The sizes of two sets are those of their union and their intersection together.
pub size-union :
    (s t : Set)
    → distinct s ≡ true
    → distinct t ≡ true
    → size (union s t) + size (intersect s t) ≡ size s + size t
unfolding union
size-union s t hs ht = omega (
  arith,
  length-append s (select_where (λ id. not (contains s id)) t),
  kept_both (contains s) t,
  kept_comm s t hs ht,
  size-intersect s t hs ht,
)

-- A set is what it shares with another and what it does not.
pub size-difference :
    (s t : Set)
    → distinct s ≡ true
    → distinct t ≡ true
    → size (difference s t) + size (intersect s t) ≡ size s
unfolding difference
size-difference s t hs ht = omega (arith, kept_both (contains t) s, size-intersect s t hs ht)

pub size-intersect_comm :
    (s t : Set)
    → distinct s ≡ true
    → distinct t ≡ true
    → size (intersect s t) ≡ size (intersect t s)
size-intersect_comm s t hs ht =
    omega (arith, size-intersect s t hs ht, size-intersect t s ht hs, kept_comm s t hs ht)
