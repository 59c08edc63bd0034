-- ===== src/Tags/Worklist.antt =====
-- internal/tags/worklist.go: the review worklists that a measurement sweep derives. The ratios are floats that
-- are no NaN: their type, their order, 0 and the cuts are parameters. The numbers of a record are what
-- numberFloat64 and numberInt64 read of them, and a mass is not negative.
pub mod Entries
pub mod Splits
pub mod Stems
pub mod Growth
pub mod Listings
pub mod Exact
use edub_kushim.Base.{
  ℕ, String, Bool, true, false, ◌&&◌, ◌||◌, not, Option, none, some, List, [], ◌∷◌, ◌++◌, leb,
  if◌then◌else◌,
}
use edub_kushim.Tags.Algebra.{EvidenceState, sufficient, insufficient, gray}

pub data Operator : Type 0 where
  overlap reconstructibility other : Operator

pub data ReconstructibilityBand : Type 0 where
  band_insufficient band_far band_gray band_firm : ReconstructibilityBand

-- The cuts of the const block; the masses are TwinMinMass and SiblingMinMass.
pub record Cuts (F : Type 0) : Type 0 where
  pub twin_jaccard : F
  pub twin_gray_floor : F
  pub compound_split : F
  pub compound_gray : F
  pub sibling_containment : F
  pub sibling_gray_floor : F

abbrev pub twin_min_mass : ℕ
twin_min_mass = 3

abbrev pub sibling_min_mass : ℕ
sibling_min_mass = 3

-- An evidence record, with the numbers that the worklists read.
pub record Measured (F : Type 0) : Type 0 where
  pub operator : Operator
  pub operands : List String
  pub state : EvidenceState
  pub jaccard : Option F
  pub containment_a : Option F
  pub containment_b : Option F
  pub excess_ratio : Option F
  pub deficit_ratio : Option F
  pub mass_a : Option ℕ
  pub mass_b : Option ℕ

pub record TwinPair (F : Type 0) : Type 0 where
  pub a : String
  pub b : String
  pub jaccard : F
  pub mass_a : ℕ
  pub mass_b : ℕ
  pub in_review : Bool

pub record CompoundSplit (F : Type 0) : Type 0 where
  pub compound : String
  pub parts : List String
  pub excess_ratio : F
  pub deficit_ratio : F
  pub in_review : Bool

-- `container` and `contained` are the fields A and B.
pub record Sibling (F : Type 0) : Type 0 where
  pub container : String
  pub contained : String
  pub containment : F
  pub container_mass : ℕ
  pub contained_mass : ℕ
  pub in_review : Bool

pub record Worklists (F : Type 0) : Type 0 where
  pub twins : List (TwinPair F)
  pub compound_splits : List (CompoundSplit F)
  pub siblings : List (Sibling F)

abbrev pub or_default : {A : Type 0} → A → Option A → A
or_default d none = d
or_default d (some x) = x

module _ {F : Type 0} (at_most : F → F → Bool) (zero_ratio : F) (cuts : Cuts F) where
  -- ClassifyReconstructibility
  unfoldable pub classify_reconstructibility : EvidenceState → F → F → ReconstructibilityBand
  classify_reconstructibility sufficient excess deficit =
      if not (at_most excess cuts.compound_gray) || not (at_most deficit cuts.compound_gray)
      then band_far
      else if not (at_most excess cuts.compound_split) || not (at_most deficit cuts.compound_split)
      then band_gray
      else band_firm
  classify_reconstructibility insufficient excess deficit = band_insufficient
  classify_reconstructibility gray excess deficit = band_insufficient

  -- The twin of an overlap record, if the record makes one.
  unfoldable pub twin_of : String → String → F → ℕ → ℕ → List (TwinPair F)
  twin_of a b jaccard mass_a mass_b =
      if at_most cuts.twin_gray_floor jaccard
        && (leb twin_min_mass mass_a && leb twin_min_mass mass_b)
      then record {
        a = a;
        b = b;
        jaccard = jaccard;
        mass_a = mass_a;
        mass_b = mass_b;
        in_review = not (at_most cuts.twin_jaccard jaccard);
      }
        ∷ []
      else []

  -- The pair with the container first: the larger containment belongs to the contained tag.
  unfoldable pub sibling_from : String → String → F → F → ℕ → ℕ → Sibling F
  sibling_from a b ratio_a ratio_b mass_a mass_b =
      if not (at_most ratio_a ratio_b)
      then record {
        container = b;
        contained = a;
        containment = ratio_a;
        container_mass = mass_b;
        contained_mass = mass_a;
        in_review = not (at_most cuts.sibling_containment ratio_a);
      }
      else record {
        container = a;
        contained = b;
        containment = ratio_b;
        container_mass = mass_a;
        contained_mass = mass_b;
        in_review = not (at_most cuts.sibling_containment ratio_b);
      }

  abbrev pub larger : F → F → F
  larger x y = if at_most x y then y else x

  unfoldable pub sibling_of : String → String → F → F → ℕ → ℕ → List (Sibling F)
  sibling_of a b ratio_a ratio_b mass_a mass_b =
      if at_most cuts.sibling_gray_floor (larger ratio_a ratio_b)
        && (leb sibling_min_mass mass_a && leb sibling_min_mass mass_b)
      then sibling_from a b ratio_a ratio_b mass_a mass_b ∷ []
      else []

  -- addOverlap
  unfoldable pub add_overlap : Measured F → Worklists F → Worklists F
  add_overlap r w = elim r.operands [
    | [] ↦ w
    | a ∷ others ↦ elim others [
      | [] ↦ w
      | b ∷ rest ↦ elim r.jaccard [
        | none ↦ w
        | some jaccard ↦
            let mass_a = or_default 0 r.mass_a in
            let mass_b = or_default 0 r.mass_b in
            let ratio_a = or_default zero_ratio r.containment_a in
            let ratio_b = or_default zero_ratio r.containment_b in
            record w {
              twins = w.twins ++ twin_of a b jaccard mass_a mass_b;
              siblings = w.siblings ++ sibling_of a b ratio_a ratio_b mass_a mass_b;
            }
      ]
    ]
  ]

  abbrev pub splits_of :
      List String → F → F → ReconstructibilityBand → Option (List (CompoundSplit F))
  splits_of operands excess deficit band_insufficient = some []
  splits_of operands excess deficit band_far = some []
  splits_of [] excess deficit _ = none
  splits_of (compound ∷ parts) excess deficit band_gray = some (
      record {
        compound = compound;
        parts = parts;
        excess_ratio = excess;
        deficit_ratio = deficit;
        in_review = true;
      }
      ∷ [])
  splits_of (compound ∷ parts) excess deficit band_firm = some (
      record {
        compound = compound;
        parts = parts;
        excess_ratio = excess;
        deficit_ratio = deficit;
        in_review = false;
      }
      ∷ [])

  abbrev pub measured_splits : Measured F → Option F → Option F → Option (List (CompoundSplit F))
  measured_splits r (some excess) (some deficit) =
      splits_of r.operands excess deficit (classify_reconstructibility r.state excess deficit)
  measured_splits r _ _ = some []

  -- addReconstructibility: `none` is the panic on a record without operands. A record that is not
  -- sufficient has the band of none.
  unfoldable pub add_reconstructibility : Measured F → Worklists F → Option (Worklists F)
  add_reconstructibility r w = elim (measured_splits r r.excess_ratio r.deficit_ratio) [
    | none ↦ none
    | some more ↦ some (record w { compound_splits = w.compound_splits ++ more })
  ]

  abbrev pub add_record : Measured F → Operator → Worklists F → Option (Worklists F)
  add_record r overlap w = some (add_overlap r w)
  add_record r reconstructibility w = add_reconstructibility r w
  add_record r other w = some w

  unfoldable pub derive_from : Worklists F → List (Measured F) → Option (Worklists F)
  derive_from w [] = some w
  derive_from w (r ∷ records) = elim (add_record r r.operator w) [
    | none ↦ none
    | some next ↦ derive_from next records
  ]

  -- DeriveWorklists
  unfoldable pub derive_worklists : List (Measured F) → Option (Worklists F)
  unfolding derive_from
  derive_worklists records =
      derive_from (record { twins = []; compound_splits = []; siblings = [] }) records
