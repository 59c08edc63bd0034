-- ===== src/Examples/Identity.antt =====
-- A dictionary of two words, a store of three names, and the identity theorems applied to them.
use mathlib.Core.List.{Memᴰ}
use edub_kushim.Base.{
  if◌then◌else◌, Option, true, ◌≤◌, ◌<◌, ◌≡◌, ◌↔◌, ◌⊎◌, inl, inr, refl, ap, false, List, [], ◌∷◌,
  none, some, length,
}
use edub_kushim.Base.Members.{mem-cons_inv}
use edub_kushim.Tags.Names.{Text, codes, mem_text, is_empty}
use edub_kushim.Tags.Identity.Roman.{parse_roman, render_roman}
use edub_kushim.Tags.Identity.Parsing.{parse_roman-render_roman}
use edub_kushim.Tags.Identity.Distance.{bounded_edit_distance}
use edub_kushim.Tags.Identity.Levenshtein.{levenshtein, bounded_edit_distance-levenshtein}
use edub_kushim.Tags.Identity.Forms.{
  Language, Lemmatizer, house_form, key, prefer_canonical, plural_strip, variant_class,
  VariantClass,
}
use edub_kushim.Tags.Identity.Anchors.{proposed_morphological_fold, unfit_for_fold}
use edub_kushim.Tags.Identity.Folding.{Reached, proposed_morphological_fold_iff}
use edub_kushim.Tags.Identity.Canonical.{prefer_canonical_comm}
use edub_kushim.Tags.Identity.Plan.{StoreView, plan_deterministic}
use edub_kushim.Tags.Completeness.{pending_coverage_segments}
use edub_kushim.Tags.Completeness.Segments.{Segment}
use edub_kushim.Tags.Completeness.Pending.{Unique, pending_coverage_segments_iff}
use edub_kushim.Tags.Atomicity.{greedy_cover, is_period_class}
use edub_kushim.Tags.Atomicity.Covers.{Tiles, greedy_cover-Tiles}
use edub_kushim.Tags.Identity.Evidence.{Planned, plan_deterministic-Planned}

abbrev two_words : Lemmatizer
two_words = record {
  lemma = λ token. token;
  in_dict = λ token. mem_text token (codes "labor" ∷ codes "history" ∷ []);
}

abbrev english : Language
english = record {
  lemmatizer = some two_words;
  stem = λ token. token;
  normalize_tag = λ name. name;
  to_lower = λ name. name;
  attested_folds = λ name. [];
}

abbrev store : List (Text × Text)
store = (codes "mexico", codes "mexico") ∷ (codes "labor", codes "labor") ∷ []

abbrev view : StoreView
view = record {
  names = codes "mexico" ∷ codes "labor" ∷ [];
  aliases = (codes "work", codes "labor") ∷ [];
  blocked = codes "misc" ∷ [];
}

roman_14 : parse_roman (codes "xiv") ≡ some 14
unfolding parse_roman
roman_14 = refl

below_zero : parse_roman (codes "iiiiiiiiiiiix") ≡ none
unfolding parse_roman
below_zero = refl

house_form_run : house_form english (codes "first labor xiv") ≡ codes "1st labor 14"
unfolding house_form mem_text
house_form_run = refl

strip_run : plural_strip (codes "parties") ≡ codes "party"
unfolding plural_strip is_empty
strip_run = refl

labour : variant_class (codes "labour history") (codes "labor history") ≡ VariantClass.orthographic
unfolding variant_class
labour = refl

-- Two removed and two added: the last row is in reach before its last entry.
beyond_cap : bounded_edit_distance (codes "12345678") (codes "345678xx") ≡ 4
unfolding bounded_edit_distance
beyond_cap = refl

mexican : proposed_morphological_fold (codes "mexican") store ≡ codes "mexico"
unfolding proposed_morphological_fold
mexican = refl

parse_roman-render_roman_example :
    (parse_roman (codes "xiv") ≡ some 14)
    ↔ (1 ≤ 14) × (14 ≤ 3999) × (2 ≤ length (codes "xiv")) × (codes "xiv" ≡ render_roman 14)
parse_roman-render_roman_example = parse_roman-render_roman (codes "xiv") 14

bounded_edit_distance-levenshtein_example :
    (bounded_edit_distance (codes "mexican") (codes "mexico")
      ≡ levenshtein (codes "mexican") (codes "mexico"))
    ⊎ ((2 < bounded_edit_distance (codes "mexican") (codes "mexico"))
        × (2 < levenshtein (codes "mexican") (codes "mexico")))
bounded_edit_distance-levenshtein_example =
    bounded_edit_distance-levenshtein (codes "mexican") (codes "mexico")

mexican_fits : unfit_for_fold (codes "mexican") ≡ false
unfolding unfit_for_fold
mexican_fits = refl

mexico_full : is_empty (codes "mexico") ≡ false
unfolding is_empty
mexico_full = refl

store_full : (k n : Text) → Memᴰ (k, n) store → is_empty n ≡ false
unfolding is_empty
store_full k n m = elim (mem-cons_inv m) [
  | inr e ↦ rw (ap (λ (row : Text × Text). row.1) e) refl
  | inl rest ↦ elim (mem-cons_inv rest) [
    | inr e ↦ rw (ap (λ (row : Text × Text). row.1) e) refl
    | inl none_left ↦ elim none_left [ ]
  ]
]

proposed_morphological_fold_iff_example :
    (proposed_morphological_fold (codes "mexican") store ≡ codes "mexico")
    ↔ ((k : Text) × Memᴰ (k, codes "mexico") store × Reached (codes "mexican") k)
      × ((k n : Text) → Memᴰ (k, n) store → Reached (codes "mexican") k → n ≡ codes "mexico")
proposed_morphological_fold_iff_example =
    proposed_morphological_fold_iff (codes "mexican") (codes "mexico") store mexican_fits
      mexico_full store_full

prefer_canonical_comm_example :
    prefer_canonical english (codes "labor") (codes "trabajo")
    ≡ prefer_canonical english (codes "trabajo") (codes "labor")
prefer_canonical_comm_example = prefer_canonical_comm english (codes "labor") (codes "trabajo")

plan_deterministic-Planned_example :
    Planned
      (codes "mexican" ∷ codes "work" ∷ codes "misc" ∷ [])
      (plan_deterministic english (codes "mexican" ∷ codes "work" ∷ codes "misc" ∷ []) view)
plan_deterministic-Planned_example =
    plan_deterministic-Planned english (codes "mexican" ∷ codes "work" ∷ codes "misc" ∷ []) view

-- A word and a pair of words are usable.
abbrev usable : Text → Option Text
usable span = if mem_text span (codes "labor" ∷ codes "world war" ∷ []) then some span else none

world_war :
    greedy_cover usable false (codes "world" ∷ codes "war" ∷ codes "labor" ∷ [])
    ≡ some (codes "world war" ∷ codes "labor" ∷ [])
unfolding greedy_cover mem_text
world_war = refl

-- The longest span comes first, and the word after it is then left over.
abbrev overlapping : Text → Option Text
overlapping span =
    if mem_text span (codes "a" ∷ codes "a b" ∷ codes "b c" ∷ []) then some span else none

left_over : greedy_cover overlapping false (codes "a" ∷ codes "b" ∷ codes "c" ∷ []) ≡ none
unfolding greedy_cover mem_text
left_over = refl

century : is_period_class english (codes "19th century") ≡ true
unfolding is_period_class
century = refl

greedy_cover-Tiles_example :
    ((cover : List Text)
      → greedy_cover usable false (codes "world" ∷ codes "war" ∷ codes "labor" ∷ []) ≡ some cover
      → Tiles usable (codes "world" ∷ codes "war" ∷ codes "labor" ∷ []) cover
        × (greedy_cover usable true (codes "world" ∷ codes "war" ∷ codes "labor" ∷ [])
            ≡ some cover))
    × ((cover : List Text) × (greedy_cover usable true
            (codes "world" ∷ codes "war" ∷ codes "labor" ∷ [])
          ≡ some cover))
greedy_cover-Tiles_example =
    greedy_cover-Tiles usable (codes "world" ∷ codes "war" ∷ codes "labor" ∷ [])

pending_coverage_segments_iff_example :
    ((segment : Text)
      → Memᴰ segment (
          pending_coverage_segments english store
            (codes "labor" ∷ [])
            (codes "war labor")
            (codes "world" ∷ []))
        ↔ Segment english store (codes "labor" ∷ []) (codes "war labor") segment
          × (mem_text (key english segment) (codes "labor" ∷ []) ≡ false)
          × (mem_text segment (codes "world" ∷ []) ≡ false))
    × Unique (
        pending_coverage_segments english store
          (codes "labor" ∷ [])
          (codes "war labor")
          (codes "world" ∷ []))
pending_coverage_segments_iff_example =
    pending_coverage_segments_iff english store (codes "labor" ∷ []) (codes "world" ∷ [])
      (codes "war labor")

war_pending :
    pending_coverage_segments english store
      (codes "labor" ∷ [])
      (codes "war labor")
      (codes "world" ∷ [])
    ≡ codes "war" ∷ codes "war labor" ∷ []
unfolding pending_coverage_segments
war_pending = refl
