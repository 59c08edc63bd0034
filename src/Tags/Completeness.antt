-- ===== src/Tags/Completeness.antt =====
-- internal/tags/completeness.go: the segments that a compound resolves to, and the dimensions they cover.
pub mod Words
pub mod Segments
pub mod Pending
use edub_kushim.Base.{
  ℕ, Bool, true, false, not, ◌&&◌, ◌||◌, List, [], ◌∷◌, ◌++◌, any, if◌then◌else◌,
}
use edub_kushim.Tags.Names.{Text, same_text, is_empty, mem_text}
use edub_kushim.Tags.Identity.Forms.{Language, house_form, key}
use edub_kushim.Tags.Identity.Anchors.{anchored_fold}
use edub_kushim.Tags.Atomicity.{with_space, derive_parts, is_period_class, is_time_designation_drop}

pub record Twin : Type 0 where
  pub left : Text
  pub right : Text

unfoldable pub twin_partner : List Twin → Text → Text → Bool
unfolding same_text
twin_partner twins a b =
    any
      (λ (t : Twin).
        (same_text t.left a && same_text t.right b) || (same_text t.left b && same_text t.right a))
      twins

module _ (lang : Language) (promoted_names : List (Text × Text)) (live_names : List Text) where
  -- The resolved form of a content word; the empty text for a time designation outside the store.
  unfoldable pub resolved_single : Text → Text
  unfolding anchored_fold is_time_designation_drop is_empty same_text
  resolved_single word =
      let anchor = anchored_fold lang word promoted_names live_names in
      if is_time_designation_drop lang word live_names
      then []
      else if not (is_empty anchor) && not (same_text anchor word)
      then anchor
      else word

  unfoldable pub resolved_singles : List Text → List Text
  unfolding resolved_single
  resolved_singles [] = []
  resolved_singles (word ∷ words) = resolved_single word ∷ resolved_singles words

  -- ResolvedContent: the content words and, at the same places, their resolved forms.
  unfoldable pub resolved_content : Text → List Text × List Text
  unfolding derive_parts resolved_singles
  resolved_content name = (derive_parts lang name, resolved_singles (derive_parts lang name))

  unfoldable pub resolved_bigrams : List Text → List Text → List Text
  unfolding is_empty is_time_designation_drop
  resolved_bigrams (a ∷ b ∷ content) (x ∷ y ∷ singles) =
      let rest = resolved_bigrams (b ∷ content) (y ∷ singles) in
      let bigram = with_space a b in
      if is_empty x || is_empty y
      then rest
      else if is_time_designation_drop lang bigram live_names
      then rest
      else bigram ∷ rest
  resolved_bigrams content singles = []

  unfoldable pub full_singles : List Text → List Text
  unfolding is_empty
  full_singles [] = []
  full_singles (x ∷ xs) = let rest = full_singles xs in if is_empty x then rest else x ∷ rest

  unfoldable pub resolved_segments : Text → List Text
  unfolding is_period_class resolved_content resolved_bigrams full_singles house_form
  resolved_segments name =
      let (content, singles) = resolved_content name in
      if is_period_class lang (house_form lang name)
      then []
      else full_singles singles ++ resolved_bigrams content singles

  unfoldable pub covers_dimension : Text → Text → Bool
  unfolding resolved_segments same_text
  covers_dimension name dimension =
      any (λ segment. same_text (key lang segment) (key lang dimension)) (resolved_segments name)

  -- The loop over the segments, with those it has listed.
  unfoldable pub pending_from : List Text → List Text → List Text → List Text
  unfolding mem_text house_form
  pending_from cached seen [] = []
  pending_from cached seen (segment ∷ segments) =
      elim (mem_text (key lang segment) live_names
        || mem_text segment cached
        || mem_text segment seen) [
          | true ↦ pending_from cached seen segments
          | false ↦ segment ∷ pending_from cached (segment ∷ seen) segments
        ]

  unfoldable pub pending_coverage_segments : Text → List Text → List Text
  unfolding resolved_segments pending_from
  pending_coverage_segments name cached = pending_from cached [] (resolved_segments name)
