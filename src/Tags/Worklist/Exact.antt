-- ===== src/Tags/Worklist/Exact.antt =====
-- worklist.go: exactly which entries the derived worklists have.
use edub_kushim.Base.{◌≡◌, ◌⊎◌, inl, inr, ◌↔◌, Bool, true, ◌||◌, some, List, []}
use mathlib.Core.List.{Memᴰ}
use edub_kushim.Tags.Worklist.{
  overlap, reconstructibility, Cuts, Measured, TwinPair, CompoundSplit, Sibling, Worklists,
  derive_worklists,
}
use edub_kushim.Tags.Worklist.Entries.{TwinFrom, SplitFrom, SiblingFrom}
use edub_kushim.Tags.Worklist.Stems.{derive_worklists-Stems}
use edub_kushim.Tags.Worklist.Listings.{derive_worklists-Listed}

module _ {F : Type 0} (at_most : F → F → Bool) (zero_ratio : F) (cuts : Cuts F) where
  -- The entries are those that some record of the sweep makes.
  pub record Exact (records : List (Measured F)) (out : Worklists F) : Type 0 where
    pub twins_iff :
        (t : TwinPair F)
        → Memᴰ t out.twins ↔ (
            (r : Measured F) × Memᴰ r records
            × (r.operator ≡ overlap)
            × TwinFrom at_most zero_ratio cuts t r)
    pub splits_iff :
        (c : CompoundSplit F)
        → Memᴰ c out.compound_splits ↔ (
            (r : Measured F) × Memᴰ r records
            × (r.operator ≡ reconstructibility)
            × SplitFrom at_most zero_ratio cuts c r)
    pub siblings_iff :
        (s : Sibling F)
        → Memᴰ s out.siblings ↔ (
            (r : Measured F) × Memᴰ r records
            × (r.operator ≡ overlap)
            × SiblingFrom at_most zero_ratio cuts s r)

  new_only : {A B : Type 0} {x : A} → Memᴰ x [] ⊎ B → B
  new_only (inl m) = elim m [ ]
  new_only (inr new) = new

  -- Where the order of the ratios is total and the derivation does not panic, the worklists have exactly these
  -- entries. A twin comes from an overlap record whose first two operands it names, with the record's
  -- Jaccard ratio at the gray floor or above and its masses at the minimum or above. A sibling comes from an
  -- overlap record with a Jaccard ratio; it has the larger of the two containments, at the gray floor or above,
  -- with the tag that it is a fraction of as the contained one, and each mass, at the minimum or above, with
  -- its tag. A compound split comes from a sufficient reconstructibility record whose excess and deficit are
  -- within the gray cut. An entry is marked for review exactly where it is outside the firm cut.
  pub derive_worklists-Exact :
      (total : (x y : F) → at_most x y || at_most y x ≡ true) (records : List (Measured F))
      {out : Worklists F}
      → derive_worklists at_most zero_ratio cuts records ≡ some out
      → Exact records out
  derive_worklists-Exact total records h =
      let stems = derive_worklists-Stems at_most zero_ratio cuts total records h in
      record {
        twins_iff = λ t. (
          λ m. new_only (stems.twin_stems t m),
          λ (r, m, o, from).
              (derive_worklists-Listed at_most zero_ratio cuts records h m).twin_listed t o from,
        );
        splits_iff = λ c. (
          λ m. new_only (stems.split_stems c m),
          λ (r, m, o, from).
              (derive_worklists-Listed at_most zero_ratio cuts records h m).split_listed c o from,
        );
        siblings_iff = λ s. (
          λ m. new_only (stems.sibling_stems s m),
          λ (r, m, o, from).
              (derive_worklists-Listed at_most zero_ratio cuts records h m).sibling_listed s o from,
        );
      }
