-- ===== src/Tags/Algebra/Laws.antt =====
-- What the differences in a reading count, and which documents an intersection has.
use edub_kushim.Base.{
  ℕ, ◌+◌, ◌-◌, ◌≡◌, refl, ap, ◌⊎◌, inl, inr, ◌↔◌, arith, String, Bool, true, ◌&&◌, List, [], ◌∷◌,
  length, all, ltb, not, ◌==◌, Bool-cases, ==_iff,
}
use edub_kushim.Base.Integers.{ℤ, pos, minus}
use edub_kushim.Base.Tables.{select_where}
use edub_kushim.Tags.Algebra.{
  Set, contains, size, union, intersect, difference, intersect_all, intersect_rest, insufficient,
}
use edub_kushim.Tags.Algebra.Readings.{
  similarity, overlap_of, new_overlap_reading, complement_of, new_complement_reading,
  reconstructibility_of, new_reconstructibility_reading,
}
use edub_kushim.Tags.Algebra.Counting.{distinct, size-union, size-difference, size-intersect_comm}

contains-select :
    (p : ℕ → Bool) (s : Set) (id : ℕ) → contains (select_where p s) id ≡ (contains s id && p id)
unfolding select_where
contains-select p [] id = refl
contains-select p (k ∷ s) id = elim (Bool-cases (k == id)) [
  | inl same ↦
      let eq : p k ≡ p id = ap p ((==_iff k id).0 same) in ground (arith, contains-select p s id)
  | inr apart ↦ ground (arith, contains-select p s id)
]

distinct-select : (p : ℕ → Bool) (s : Set) → distinct s ≡ true → distinct (select_where p s) ≡ true
unfolding select_where
distinct-select p [] h = refl
distinct-select p (k ∷ s) h = ground (arith, distinct-select p s, contains-select p s k)

pub contains-intersect :
    (s t : Set) (id : ℕ) → contains (intersect s t) id ≡ (contains s id && contains t id)
unfolding intersect
contains-intersect s t id =
    ground (arith, contains-select (contains t) s id, contains-select (contains s) t id)

distinct-intersect :
    (s t : Set) → distinct s ≡ true → distinct t ≡ true → distinct (intersect s t) ≡ true
unfolding intersect
distinct-intersect s t hs ht =
    ground (arith, distinct-select (contains t) s hs, distinct-select (contains s) t ht)

-- the loop over the parts
contains-intersect_rest :
    (acc : Set) (part_sets : List Set) (id : ℕ)
    → contains (intersect_rest acc part_sets) id
      ≡ (contains acc id && all (λ s. contains s id) part_sets)
unfolding intersect_rest
contains-intersect_rest acc [] id = ground arith
contains-intersect_rest acc (p ∷ ps) id =
    ground (arith, contains-intersect_rest (intersect acc p) ps id, contains-intersect acc p id)

distinct-intersect_rest :
    (acc : Set) (part_sets : List Set)
    → distinct acc ≡ true
    → all distinct part_sets ≡ true
    → distinct (intersect_rest acc part_sets) ≡ true
unfolding intersect_rest
distinct-intersect_rest acc [] ha hp = ha
distinct-intersect_rest acc (p ∷ ps) ha hp =
    distinct-intersect_rest (intersect acc p) ps (distinct-intersect acc p ha (ground arith))
      (ground arith)

select-none : (s : Set) → union s [] ≡ s
unfolding union select_where
select-none [] = refl
select-none (id ∷ s) = ap (λ r. id ∷ r) (select-none s)

distinct-intersect_all :
    (part_sets : List Set)
    → all distinct part_sets ≡ true
    → distinct (intersect_all part_sets) ≡ true
unfolding intersect_all
distinct-intersect_all [] h = refl
distinct-intersect_all (p ∷ ps) h =
    distinct-intersect_rest (union p []) ps (rw (select-none p) (ground arith)) (ground arith)

-- A document is in the intersection of the parts' sets exactly where there is a part and every part's
-- set has it.
pub contains-intersect_all :
    (part_sets : List Set) (id : ℕ)
    → contains (intersect_all part_sets) id
      ≡ (ltb 0 (length part_sets) && all (λ s. contains s id) part_sets)
unfolding intersect_all
contains-intersect_all [] id = refl
contains-intersect_all (p ∷ ps) id =
    ground
      (arith, contains-intersect_rest (union p []) ps id, ap (λ s. contains s id) (select-none p))

size-none : (s : Set) → size s ≡ 0 → s ≡ []
size-none [] h = refl
size-none (x ∷ s) h = ground arith

minus_of_sum : (a b n : ℕ) → n + b ≡ a → minus a b ≡ pos n
minus_of_sum a b n h =
    let difference_is : a - b ≡ n = omega arith in ground (arith, ap pos difference_is)

module _ {F : Type 0} (zero_float : F) (ratio : ℤ → ℤ → F) where
  -- For duplicate-free sets, the overlap reading's union is the size of their union, and reading the
  -- pair the other way round gives the same intersection, union and state.
  pub overlap_of-sizes :
      (a b : String) (sa sb : Set)
      → distinct sa ≡ true
      → distinct sb ≡ true
      → ((overlap_of zero_float ratio a b sa sb).union_size ≡ pos (size (union sa sb)))
        × ((overlap_of zero_float ratio a b sa sb).intersection
            ≡ (overlap_of zero_float ratio b a sb sa).intersection)
        × ((overlap_of zero_float ratio a b sa sb).jaccard
            ≡ (overlap_of zero_float ratio b a sb sa).jaccard)
        × ((overlap_of zero_float ratio a b sa sb).state
            ≡ (overlap_of zero_float ratio b a sb sa).state)
  unfolding overlap_of new_overlap_reading
  overlap_of-sizes a b sa sb ha hb =
      let same = size-intersect_comm sa sb ha hb in
      let swapped : size sa + size sb ≡ size sb + size sa = omega arith in
      (
        minus_of_sum (size sa + size sb) (size (intersect sa sb)) (size (union sa sb))
            (size-union sa sb ha hb),
        same,
        λ i. similarity zero_float ratio (same i) (minus (swapped i) (same i)),
        ground arith,
      )

  -- For duplicate-free sets of a compound and its parts there is a duplicate-free set of the documents that
  -- every part has, none where there is no part. The excess of the compound is the number of its documents
  -- outside of that set, the deficit the number of the set's documents that the compound lacks, and the
  -- reading is insufficient exactly where the compound or that set is empty.
  pub reconstructibility_of-sizes :
      (compound : String) (parts : List String) (compound_set : Set) (part_sets : List Set)
      → distinct compound_set ≡ true
      → all distinct part_sets ≡ true
      → (shared : Set) × (distinct shared ≡ true)
        × ((id : ℕ)
            → contains shared id ≡ (ltb 0 (length part_sets) && all (λ s. contains s id) part_sets))
        × ((reconstructibility_of zero_float ratio compound parts compound_set part_sets).excess
            ≡ pos (length (select_where (λ id. not (contains shared id)) compound_set)))
        × ((reconstructibility_of zero_float ratio compound parts compound_set part_sets).deficit
            ≡ pos (length (select_where (λ id. not (contains compound_set id)) shared)))
        × (((reconstructibility_of zero_float ratio compound parts compound_set part_sets).state
              ≡ insufficient)
            ↔ (compound_set ≡ []) ⊎ (shared ≡ []))
  unfolding reconstructibility_of new_reconstructibility_reading difference
  reconstructibility_of-sizes compound parts compound_set part_sets hc hp =
      let shared = intersect_all part_sets in
      let hs = distinct-intersect_all part_sets hp in
      (
        shared,
        hs,
        contains-intersect_all part_sets,
        minus_of_sum (size compound_set) (size (intersect compound_set shared))
            (size (difference compound_set shared)) (size-difference compound_set shared hc hs),
        minus_of_sum (size shared) (size (intersect compound_set shared))
            (size (difference shared compound_set))
            (omega (
              arith,
              size-difference shared compound_set hs hc,
              size-intersect_comm compound_set shared hc hs,
            )),
        (ground (arith, size-none compound_set, size-none shared), ground arith),
      )

-- The complement reading of duplicate-free sets is the size of their difference.
pub complement_of-size :
    (a b : String) (sa sb : Set)
    → distinct sa ≡ true
    → distinct sb ≡ true
    → (complement_of a b sa sb).complement_size ≡ pos (size (difference sa sb))
unfolding complement_of new_complement_reading
complement_of-size a b sa sb ha hb =
    minus_of_sum (size sa) (size (intersect sa sb)) (size (difference sa sb))
      (size-difference sa sb ha hb)
