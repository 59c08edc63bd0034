-- ===== src/Tags/Identity/Forms.antt =====
-- internal/tags/identity.go: the house form, the pinned variant classes, the folds proposed from one
-- name alone, and the canonical direction. The lemmatizer, the stemmer and textnorm.NormalizeTag, which
-- rest on dictionaries and Unicode tables, are fields of `Language`, and so is strings.ToLower.
mod Tokens
unfoldable pub use Tokens.*
use edub_kushim.Base.{
  ℕ, zero, suc, ◌+◌, ◌/◌, ◌%◌, Bool, true, false, not, ◌&&◌, ◌||◌, List, [], ◌∷◌, ◌++◌, map, Option,
  none, some, ltb, leb, ◌==◌, length, all, any, if◌then◌else◌,
}
use edub_kushim.Tags.Names.{
  Text, codes, same_text, text_leb, is_empty, fields_from, fields, join, cut_suffix, find_key,
  sort_texts, same_texts,
}
use edub_kushim.Tags.Identity.Roman.{parse_roman}

pub record Lemmatizer : Type 0 where
  pub lemma : Text → Text
  pub in_dict : Text → Bool

pub record Language : Type 0 where
  pub lemmatizer : Option Lemmatizer
  pub stem : Text → Text
  pub normalize_tag : Text → Text
  pub to_lower : Text → Text
  pub attested_folds : Text → List Text

module _ (lang : Language) where
  unfoldable pub lemma_of : Text → Text
  lemma_of token = elim lang.lemmatizer [ none ↦ token | some l ↦ l.lemma token ]

  unfoldable pub is_english_word : Text → Bool
  is_english_word token = elim lang.lemmatizer [ none ↦ false | some l ↦ l.in_dict token ]

  unfoldable pub house_form_token : Text → Text
  unfolding is_english_word parse_roman digits find_key
  house_form_token token = elim (find_key token ordinal_word_digits) [
    | some digit ↦ digit
    | none ↦
        if is_english_word token
        then token
        else elim (parse_roman token) [ none ↦ token | some n ↦ itoa n ]
  ]

  -- The tokens converted one by one; an unchanged name keeps its spacing.
  unfoldable pub house_form : Text → Text
  unfolding house_form_token same_texts fields_from join
  house_form name =
      let tokens = fields name in
      let converted = map house_form_token tokens in
      if same_texts converted tokens then name else join converted

  abbrev pub key : Text → Text
  key name = house_form name

  abbrev pub stored_name : Text → Text
  stored_name raw = house_form (lang.normalize_tag raw)

  unfoldable pub fold_token : Text → Text
  unfolding lemma_of is_english_word plural_strip same_text
  fold_token token =
      let lemma = lemma_of token in
      if same_text lemma token && not (is_english_word token) then plural_strip token else lemma

  -- ProposedFold; the empty text proposes nothing.
  unfoldable pub proposed_fold : Text → Text
  unfolding fold_token same_texts fields_from join
  proposed_fold name =
      let tokens = fields name in
      let folded = map fold_token tokens in if same_texts folded tokens then [] else join folded

  unfoldable pub lemma_signature : Text → Text
  unfolding lemma_of fields_from join
  lemma_signature name = join (map lemma_of (fields name))

  unfoldable pub stem_signature : Text → Text
  unfolding fields_from join
  stem_signature name = join (map lang.stem (fields name))

  -- NameIndex.ShapeRelated, whose index only keeps what this computes.
  unfoldable pub shape_related : Text → Text → Bool
  unfolding house_form lemma_signature stem_signature same_text is_empty
  shape_related a b =
      if is_empty a || is_empty b || same_text a b
      then false
      else if same_text (key a) (key b)
      then false
      else same_text (lemma_signature a) (lemma_signature b)
        || same_text (stem_signature a) (stem_signature b)

  unfoldable pub token_english : Text → Bool
  unfolding is_numeric_token has_non_ascii is_english_word
  token_english token =
      if is_numeric_token token
      then true
      else if has_non_ascii token
      then false
      else is_english_word token

  unfoldable pub english_tokens : List Text → Bool
  english_tokens [] = true
  english_tokens (token ∷ tokens) =
      if not (token_english token) then false else english_tokens tokens

  unfoldable pub foreign_token : List Text → Bool
  foreign_token [] = false
  foreign_token (token ∷ tokens) = if not (token_english token) then true else foreign_token tokens

  unfoldable pub is_english_name : Text → Bool
  unfolding fields_from english_tokens
  is_english_name name = elim (fields name) [
    | [] ↦ false
    | token ∷ tokens ↦ english_tokens (token ∷ tokens)
  ]

  unfoldable pub detect_non_english : Text → Bool
  unfolding fields_from foreign_token
  detect_non_english name = elim (fields name) [
    | [] ↦ false
    | token ∷ tokens ↦ foreign_token (token ∷ tokens)
  ]

  unfoldable pub prefer_canonical : Text → Text → Text
  unfolding same_text is_variant is_english_name tie_break
  prefer_canonical a b =
      if same_text a b
      then a
      else if is_variant a b
      then tie_break a b
      else if is_english_name a
      then (if is_english_name b then tie_break a b else a)
      else if is_english_name b
      then b
      else tie_break a b

  -- The winner and the loser.
  unfoldable pub canonical_loser : TagDirection → Text → Text → Text × Text
  unfolding prefer_canonical same_text
  canonical_loser target q t = (t, q)
  canonical_loser query q t = (q, t)
  canonical_loser other_direction q t =
      if same_text (prefer_canonical q t) q then (q, t) else (t, q)
