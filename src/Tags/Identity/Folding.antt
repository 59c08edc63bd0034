-- ===== src/Tags/Identity/Folding.antt =====
-- internal/tags/identity.go: which store name ProposedMorphologicalFold and AnchoredFold fold a name onto.
use mathlib.Core.List.{Memᴰ}
use edub_kushim.Base.{◌≤◌, ◌≡◌, ◌↔◌, refl, sym, ◌∙◌, subst, false, List, [], some, length, arith}
use edub_kushim.Tags.Names.{Text, is_empty, fields}
use edub_kushim.Tags.Identity.Levenshtein.{levenshtein, bounded_edit_distance-levenshtein}
use edub_kushim.Tags.Identity.Anchors.{
  anchor_from, within_distance, unfit_for_fold, proposed_morphological_fold,
}
use edub_kushim.Tags.Identity.Reach.{Hit, OnlyHit, FullHits, anchor_from_iff}

-- The key is one token at an edit distance of at most two.
pub Reached : Text → Text → Type 0
Reached name k = (length (fields k) ≡ 1) × (levenshtein name k ≤ 2)

within_distance_iff :
    (name k n m : Text) → (within_distance name (k, n) ≡ some m) ↔ (n ≡ m) × Reached name k
unfolding within_distance Reached
within_distance_iff name k n m = ground (arith, bounded_edit_distance-levenshtein name k)

full_hits :
    (name : Text) (store_names : List (Text × Text))
    → ((k n : Text) → Memᴰ (k, n) store_names → is_empty n ≡ false)
    → FullHits (within_distance name) store_names
full_hits name store_names full (k, m) listed n hits =
    subst (λ t. is_empty t ≡ false) ((within_distance_iff name k m n).0 hits).0 (full k m listed)

module _ (name r : Text) (store_names : List (Text × Text)) where
  -- The entries with the name, and those that hold the only name in reach.
  abbrev Near : Type 0
  Near = (k : Text) × Memᴰ (k, r) store_names × Reached name k

  abbrev OnlyNear : Type 0
  OnlyNear = (k n : Text) → Memᴰ (k, n) store_names → Reached name k → n ≡ r

  near_of_hit : Hit (within_distance name) store_names r → Near
  near_of_hit h =
      let (same, reached) = (within_distance_iff name h.item.0 h.item.1 r).0 h.hits in
      (h.item.0, subst (λ n. Memᴰ (h.item.0, n) store_names) same h.listed, reached)

  Hit-near : Near → Hit (within_distance name) store_names r
  Hit-near (k, listed, reached) = record {
    item = (k, r);
    listed = listed;
    hits = (within_distance_iff name k r r).1 (refl, reached);
  }

  only_near_of_hits : OnlyHit (within_distance name) store_names r → OnlyNear
  only_near_of_hits only k n listed reached =
      only (k, n) listed n ((within_distance_iff name k n n).1 (refl, reached))

  only_hits_of_near : OnlyNear → OnlyHit (within_distance name) store_names r
  only_hits_of_near only (k, m) listed n hits =
      let (same, reached) = (within_distance_iff name k m n).0 hits in
      sym same ∙ only k m listed reached

fold_when_fit :
    (name : Text) (store_names : List (Text × Text))
    → unfit_for_fold name ≡ false
    → proposed_morphological_fold name store_names
      ≡ anchor_from (within_distance name) [] store_names
unfolding proposed_morphological_fold
fold_when_fit name store_names fit = rw fit refl

-- A name of one token of at least six small letters folds onto a store name exactly when the store has
-- that name under a key of one token at an edit distance of at most two, and no other name under such a
-- key. No store name is empty.
pub proposed_morphological_fold_iff :
    (name r : Text) (store_names : List (Text × Text))
    → unfit_for_fold name ≡ false
    → is_empty r ≡ false
    → ((k n : Text) → Memᴰ (k, n) store_names → is_empty n ≡ false)
    → (proposed_morphological_fold name store_names ≡ r)
      ↔ ((k : Text) × Memᴰ (k, r) store_names × Reached name k)
        × ((k n : Text) → Memᴰ (k, n) store_names → Reached name k → n ≡ r)
proposed_morphological_fold_iff name r store_names fit full_r full =
    let (forth, back) =
      anchor_from_iff (within_distance name) store_names r full_r
        (full_hits name store_names full) in
    let opened = fold_when_fit name store_names fit in
    (
      λ e.
          let (h, only) = forth (sym opened ∙ e) in
          (near_of_hit name r store_names h, only_near_of_hits name r store_names only),
      λ (near, only).
          opened
          ∙ back (Hit-near name r store_names near, only_hits_of_near name r store_names only),
    )
