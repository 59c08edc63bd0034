-- ===== src/Tags/Algebra/Readings.antt =====
-- The readings of internal/tags/algebra.go. A mass is a count, and a difference of counts is an
-- integer, as int64 is. Division of floats is a parameter.
use edub_kushim.Base.{ℕ, ◌+◌, String, ◌||◌, List, ltb, ◌==◌, if◌then◌else◌}
use edub_kushim.Base.Integers.{ℤ, pos, minus, is_positive}
use edub_kushim.Tags.Algebra.{
  Set, size, intersect, intersect_all, EvidenceState, sufficient, insufficient,
}

pub record MassReading : Type 0 where
  pub tag : String
  pub mass : ℕ
  pub state : EvidenceState

abbrev state_for_mass : ℕ → EvidenceState
state_for_mass mass = if mass == 0 then insufficient else sufficient

unfoldable pub mass_of : String → Set → MassReading
mass_of tag s = record { tag = tag; mass = size s; state = state_for_mass (size s) }

-- insufficient where a mass is zero
abbrev state_for_masses : ℕ → ℕ → EvidenceState
state_for_masses mass_a mass_b = if mass_a == 0 || mass_b == 0 then insufficient else sufficient

pub record ComplementReading : Type 0 where
  pub a : String
  pub b : String
  pub complement_size : ℤ
  pub state : EvidenceState

unfoldable pub new_complement_reading : String → String → ℕ → ℕ → ComplementReading
new_complement_reading a b mass_a intersection = record {
  a = a;
  b = b;
  complement_size = minus mass_a intersection;
  state = state_for_mass mass_a;
}

unfoldable pub complement_of : String → String → Set → Set → ComplementReading
unfolding new_complement_reading intersect
complement_of a b sa sb = new_complement_reading a b (size sa) (size (intersect sa sb))

pub record OverlapReading (F : Type 0) : Type 0 where
  pub a : String
  pub b : String
  pub intersection : ℕ
  pub union_size : ℤ
  pub jaccard : F
  pub overlap_coefficient : F
  pub containment_a : F
  pub containment_b : F
  pub mass_a : ℕ
  pub mass_b : ℕ
  pub state : EvidenceState

pub record EqualityReading (F : Type 0) : Type 0 where
  pub a : String
  pub b : String
  pub set_similarity : F
  pub state : EvidenceState

pub record ContainmentReading (F : Type 0) : Type 0 where
  pub container : String
  pub contained : String
  pub intersection : ℕ
  pub mass : ℕ
  pub containment_ratio : F
  pub state : EvidenceState

pub record ReconstructibilityReading (F : Type 0) : Type 0 where
  pub compound : String
  pub parts : List String
  pub compound_mass : ℕ
  pub parts_intersection : ℕ
  pub both : ℕ
  pub excess : ℤ
  pub deficit : ℤ
  pub excess_ratio : F
  pub deficit_ratio : F
  pub state : EvidenceState

pub record PartCoverageReading (F : Type 0) : Type 0 where
  pub compound : String
  pub part : String
  pub compound_mass : ℕ
  pub part_mass : ℕ
  pub in_compound : ℕ
  pub coverage : F
  pub productivity : ℕ
  pub state : EvidenceState

-- `zero_float` is 0.0 and `ratio x y` is float64(x) / float64(y).
module _ {F : Type 0} (zero_float : F) (ratio : ℤ → ℤ → F) where
  abbrev share : ℤ → ℕ → F
  share x mass = if mass == 0 then zero_float else ratio x (pos mass)

  abbrev pub similarity : ℕ → ℤ → F
  similarity intersection union_size =
      if is_positive union_size then ratio (pos intersection) union_size else zero_float

  abbrev smaller : ℕ → ℕ → ℕ
  smaller m n = if ltb n m then n else m

  unfoldable pub new_overlap_reading : String → String → ℕ → ℕ → ℕ → OverlapReading F
  new_overlap_reading a b mass_a mass_b intersection = record {
    a = a;
    b = b;
    intersection = intersection;
    union_size = minus (mass_a + mass_b) intersection;
    jaccard = similarity intersection (minus (mass_a + mass_b) intersection);
    overlap_coefficient = share (pos intersection) (smaller mass_a mass_b);
    containment_a = share (pos intersection) mass_a;
    containment_b = share (pos intersection) mass_b;
    mass_a = mass_a;
    mass_b = mass_b;
    state = state_for_masses mass_a mass_b;
  }

  unfoldable pub overlap_of : String → String → Set → Set → OverlapReading F
  unfolding new_overlap_reading intersect
  overlap_of a b sa sb = new_overlap_reading a b (size sa) (size sb) (size (intersect sa sb))

  unfoldable pub new_equality_reading : String → String → ℕ → ℕ → ℕ → EqualityReading F
  new_equality_reading a b mass_a mass_b intersection = record {
    a = a;
    b = b;
    set_similarity = similarity intersection (minus (mass_a + mass_b) intersection);
    state = state_for_masses mass_a mass_b;
  }

  unfoldable pub equality_of : String → String → Set → Set → EqualityReading F
  unfolding new_equality_reading intersect
  equality_of a b sa sb = new_equality_reading a b (size sa) (size sb) (size (intersect sa sb))

  unfoldable pub new_containment_reading : String → String → ℕ → ℕ → ℕ → ContainmentReading F
  new_containment_reading container contained container_mass contained_mass intersection = record {
    container = container;
    contained = contained;
    intersection = intersection;
    mass = contained_mass;
    containment_ratio = share (pos intersection) contained_mass;
    state = state_for_masses container_mass contained_mass;
  }

  unfoldable pub containment_of : String → String → Set → Set → ContainmentReading F
  unfolding new_containment_reading intersect
  containment_of container contained container_set contained_set =
      new_containment_reading container contained (size container_set) (size contained_set)
        (size (intersect container_set contained_set))

  unfoldable pub new_reconstructibility_reading :
      String → List String → ℕ → ℕ → ℕ → ReconstructibilityReading F
  new_reconstructibility_reading compound parts compound_mass parts_intersection both = record {
    compound = compound;
    parts = parts;
    compound_mass = compound_mass;
    parts_intersection = parts_intersection;
    both = both;
    excess = minus compound_mass both;
    deficit = minus parts_intersection both;
    excess_ratio = share (minus compound_mass both) compound_mass;
    deficit_ratio = share (minus parts_intersection both) parts_intersection;
    state = state_for_masses compound_mass parts_intersection;
  }

  unfoldable pub reconstructibility_of :
      String → List String → Set → List Set → ReconstructibilityReading F
  unfolding new_reconstructibility_reading intersect_all intersect
  reconstructibility_of compound parts compound_set part_sets =
      let shared = intersect_all part_sets in
      new_reconstructibility_reading compound parts (size compound_set) (size shared)
        (size (intersect compound_set shared))

  unfoldable pub new_part_coverage_reading : String → String → ℕ → ℕ → ℕ → ℕ → PartCoverageReading F
  new_part_coverage_reading compound part compound_mass part_mass in_compound productivity =
      record {
        compound = compound;
        part = part;
        compound_mass = compound_mass;
        part_mass = part_mass;
        in_compound = in_compound;
        coverage = share (pos in_compound) compound_mass;
        productivity = productivity;
        state = state_for_masses compound_mass part_mass;
      }

  unfoldable pub part_coverage_of : String → String → Set → Set → ℕ → PartCoverageReading F
  unfolding new_part_coverage_reading intersect
  part_coverage_of compound part compound_set part_set productivity =
      new_part_coverage_reading compound part (size compound_set) (size part_set)
        (size (intersect compound_set part_set)) productivity
