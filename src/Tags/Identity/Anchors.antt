-- ===== src/Tags/Identity/Anchors.antt =====
-- internal/tags/identity.go: names resolved onto the store's names. A map from keys to names is a list of
-- its entries, and a loop over one visits them in the order of the list.
use edub_kushim.Base.{
  ℕ, ◌+◌, Bool, true, false, not, ◌&&◌, ◌||◌, List, [], ◌∷◌, ◌++◌, Option, none, some, ltb, ◌==◌,
  length, if◌then◌else◌,
}
use edub_kushim.Tags.Names.{
  Text, codes, same_text, is_empty, fields_from, fields, cut_suffix, find_key, mem_text,
}
use edub_kushim.Tags.Identity.Forms.{Language, house_form, key, is_lower_ascii, is_variant}
use edub_kushim.Tags.Identity.Distance.{bounded_edit_distance, morphographic_max_distance}

-- A loop that takes the one name in reach: `probe` tells the name an item hits, a second name ends the
-- loop with the empty text, which stands for no anchor.
unfoldable pub anchor_from {ℓ} : {A : Type ℓ} → (A → Option Text) → Text → List A → Text
unfolding is_empty same_text
anchor_from probe hit [] = hit
anchor_from probe hit (x ∷ xs) = elim (probe x) [
  | none ↦ anchor_from probe hit xs
  | some name ↦
      let rest = anchor_from probe name xs in
      if not (is_empty hit) && not (same_text name hit) then [] else rest
]

abbrev pub derivational_suffixes : List (Text × Text)
derivational_suffixes =
    (codes "an", []) ∷ (codes "n", []) ∷ (codes "al", []) ∷ (codes "al", codes "s") ∷ []

unfoldable pub bases_by : List (Text × Text) → Text → List Text
unfolding cut_suffix
bases_by [] name = []
bases_by ((suffix, replacement) ∷ rows) name = elim (cut_suffix suffix name) [
  | none ↦ bases_by rows name
  | some before ↦ (before ++ replacement) ∷ bases_by rows name
]

abbrev pub derivational_bases : Text → List Text
derivational_bases name = bases_by derivational_suffixes name

-- Not one token of at least six small letters.
unfoldable pub unfit_for_fold : Text → Bool
unfolding is_lower_ascii fields_from
unfit_for_fold name =
    not (length (fields name) == 1) || ltb (length name) 6 || not (is_lower_ascii name)

unfoldable pub count_spaces : Text → ℕ
count_spaces [] = 0
count_spaces (c ∷ s) = (if c == 32 then 1 else 0) + count_spaces s

unfoldable pub token_count : Text → ℕ
unfolding is_empty count_spaces
token_count s = if is_empty s then 0 else 1 + count_spaces s

-- The store name of an entry, if its key is one token within the distance.
unfoldable pub within_distance : Text → Text × Text → Option Text
unfolding fields_from bounded_edit_distance
within_distance name (k, store_name) =
    if not (length (fields k) == 1) || ltb morphographic_max_distance (bounded_edit_distance name k)
    then none
    else some store_name

unfoldable pub proposed_morphological_fold : Text → List (Text × Text) → Text
unfolding unfit_for_fold anchor_from within_distance
proposed_morphological_fold name store_names =
    if unfit_for_fold name then [] else anchor_from (within_distance name) [] store_names

unfoldable pub variant_hit : Text → Text × Text → Option Text
unfolding same_text token_count is_variant
variant_hit name (k, store_name) =
    if same_text store_name name || not (token_count store_name == token_count name)
    then none
    else if is_variant name store_name
    then some store_name
    else none

unfoldable pub variant_anchor : Text → List (Text × Text) → Text
unfolding anchor_from variant_hit
variant_anchor name promoted_names = anchor_from (variant_hit name) [] promoted_names

module _ (lang : Language) where
  unfoldable pub store_names_from : List (Text × Text) → List Text → List (Text × Text)
  unfolding find_key house_form
  store_names_from by_key [] = by_key
  store_names_from by_key (name ∷ names) = elim (find_key (key lang name) by_key) [
    | some other ↦ store_names_from by_key names
    | none ↦ store_names_from (by_key ++ ((key lang name, name) ∷ [])) names
  ]

  -- StoreNames
  abbrev pub store_names_of : List Text → List (Text × Text)
  store_names_of names = store_names_from [] names

  unfoldable pub store_anchor : List Text → List (Text × Text) → Text
  unfolding anchor_from find_key house_form
  store_anchor bases store_names =
      anchor_from (λ base. find_key (key lang base) store_names) [] bases

  unfoldable pub proposed_derivational_fold : Text → List (Text × Text) → Text
  unfolding unfit_for_fold bases_by store_anchor
  proposed_derivational_fold name store_names =
      if unfit_for_fold name then [] else store_anchor (derivational_bases name) store_names

  -- attestedBases over the table, which is keyed by lower-case adjectives.
  unfoldable pub attested_bases : Text → List Text
  unfolding fields_from
  attested_bases name =
      if not (length (fields name) == 1) then [] else lang.attested_folds (lang.to_lower name)

  unfoldable pub anchor_or_variant : Text → Text → List (Text × Text) → Text
  unfolding store_anchor variant_anchor is_empty
  anchor_or_variant name base promoted_names =
      let anchor = store_anchor (base ∷ []) promoted_names in
      if not (is_empty anchor) then anchor else variant_anchor name promoted_names

  unfoldable pub anchored_fold : Text → List (Text × Text) → List Text → Text
  unfolding attested_bases anchor_or_variant mem_text house_form
  anchored_fold name promoted_names live_names = elim (attested_bases name) [
    | [] ↦ variant_anchor name promoted_names
    | base ∷ others ↦ elim others [
      | [] ↦ anchor_or_variant name base promoted_names
      | other ∷ more ↦
          if not (mem_text (key lang base) live_names)
          then []
          else anchor_or_variant name base promoted_names
    ]
  ]

  unfoldable pub live_bases : List Text → List Text → List Text
  unfolding mem_text house_form
  live_bases live_names [] = []
  live_bases live_names (base ∷ bases) =
      let rest = live_bases live_names bases in
      if mem_text (key lang base) live_names then base ∷ rest else rest

  unfoldable pub residual_fold_anchors : Text → List Text → List Text
  unfolding attested_bases live_bases
  residual_fold_anchors name live_names = elim (attested_bases name) [
    | [] ↦ []
    | base ∷ others ↦ elim others [
      | [] ↦ []
      | other ∷ more ↦
          if mem_text (key lang base) live_names then [] else live_bases live_names (other ∷ more)
    ]
  ]

  unfoldable pub all_parts_promoted : List Text → List (Text × Text) → Bool
  unfolding find_key house_form
  all_parts_promoted [] promoted_names = true
  all_parts_promoted (part ∷ parts) promoted_names =
      elim (find_key (key lang part) promoted_names) [
        | none ↦ false
        | some name ↦ all_parts_promoted parts promoted_names
      ]
