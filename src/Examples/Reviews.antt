-- ===== src/Examples/Reviews.antt =====
-- A small measurement sweep: an overlap of two tags and the reading of a compound, in whole per cent.
use edub_kushim.Base.{ℕ, ◌≡◌, refl, true, false, ◌||◌, none, some, [], ◌∷◌, leb, arith}
use edub_kushim.Tags.Algebra.{sufficient}
use edub_kushim.Tags.Worklist.{
  overlap, reconstructibility, Cuts, Measured, Worklists, classify_reconstructibility, twin_of,
  sibling_from, sibling_of, add_overlap, add_reconstructibility, derive_from, derive_worklists,
}
use edub_kushim.Tags.Worklist.Exact.{Exact, derive_worklists-Exact}

abbrev percents : Cuts ℕ
percents = record {
  twin_jaccard = 90;
  twin_gray_floor = 70;
  compound_split = 10;
  compound_gray = 25;
  sibling_containment = 80;
  sibling_gray_floor = 60;
}

abbrev pair : Measured ℕ
pair = record {
  operator = overlap;
  operands = "letters" ∷ "reports" ∷ [];
  state = sufficient;
  jaccard = some 75;
  containment_a = some 95;
  containment_b = some 78;
  excess_ratio = none;
  deficit_ratio = none;
  mass_a = some 6;
  mass_b = some 8;
}

abbrev compound : Measured ℕ
compound = record {
  operator = reconstructibility;
  operands = "tax-letters" ∷ "tax" ∷ "letters" ∷ [];
  state = sufficient;
  jaccard = none;
  containment_a = none;
  containment_b = none;
  excess_ratio = some 4;
  deficit_ratio = some 12;
  mass_a = none;
  mass_b = none;
}

abbrev reviews : Worklists ℕ
reviews = record {
  twins =
      record {
        a = "letters";
        b = "reports";
        jaccard = 75;
        mass_a = 6;
        mass_b = 8;
        in_review = true;
      }
      ∷ [];
  compound_splits =
      record {
        compound = "tax-letters";
        parts = "tax" ∷ "letters" ∷ [];
        excess_ratio = 4;
        deficit_ratio = 12;
        in_review = true;
      }
      ∷ [];
  siblings =
      record {
        container = "reports";
        contained = "letters";
        containment = 95;
        container_mass = 8;
        contained_mass = 6;
        in_review = false;
      }
      ∷ [];
}

leb-total : (x y : ℕ) → leb x y || leb y x ≡ true
leb-total x y = ground arith

derives : derive_worklists leb 0 percents (pair ∷ compound ∷ []) ≡ some reviews
unfolding derive_worklists derive_from add_overlap add_reconstructibility
    classify_reconstructibility twin_of sibling_of sibling_from
derives = refl

derive_worklists-Exact_example : Exact leb 0 percents (pair ∷ compound ∷ []) reviews
derive_worklists-Exact_example =
    derive_worklists-Exact leb 0 percents leb-total (pair ∷ compound ∷ []) derives
