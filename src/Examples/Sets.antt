-- ===== src/Examples/Sets.antt =====
-- Two overlapping sets of documents, and a compound of two parts.
use edub_kushim.Base.{ℕ, ◌≡◌, ◌↔◌, ◌⊎◌, refl, true, ◌&&◌, not, all, ltb, length, List, [], ◌∷◌}
use edub_kushim.Base.Tables.{select_where}
use edub_kushim.Base.Integers.{ℤ, pos}
use edub_kushim.Tags.Algebra.{Set, contains, insufficient}
use edub_kushim.Tags.Algebra.Counting.{distinct}
use edub_kushim.Tags.Algebra.Readings.{reconstructibility_of}
use edub_kushim.Tags.Algebra.Laws.{reconstructibility_of-sizes}

abbrev first : Set
first = 1 ∷ 2 ∷ 3 ∷ []

abbrev second : Set
second = 3 ∷ 4 ∷ []

-- a quotient of whole numbers in place of a float
abbrev numerator : ℤ → ℤ → ℤ
numerator x y = x

abbrev parts : List Set
parts = first ∷ second ∷ []

reconstructibility_of-sizes_example :
    (shared : Set) × (distinct shared ≡ true)
    × ((id : ℕ) → contains shared id ≡ (ltb 0 (length parts) && all (λ s. contains s id) parts))
    × ((reconstructibility_of (pos 0) numerator "a b" ("a" ∷ "b" ∷ []) second parts).excess
        ≡ pos (length (select_where (λ id. not (contains shared id)) second)))
    × ((reconstructibility_of (pos 0) numerator "a b" ("a" ∷ "b" ∷ []) second parts).deficit
        ≡ pos (length (select_where (λ id. not (contains second id)) shared)))
    × (((reconstructibility_of (pos 0) numerator "a b" ("a" ∷ "b" ∷ []) second parts).state
          ≡ insufficient)
        ↔ (second ≡ []) ⊎ (shared ≡ []))
reconstructibility_of-sizes_example =
    reconstructibility_of-sizes (pos 0) numerator "a b" ("a" ∷ "b" ∷ []) second parts refl refl
