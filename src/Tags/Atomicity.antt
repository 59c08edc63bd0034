-- ===== src/Tags/Atomicity.antt =====
-- internal/tags/atomicity.go: the parts of a compound name, its cover by usable spans, and the shapes of
-- time designations. `latin` is isLatinScript, which reads Unicode tables.
pub mod Covers
use edub_kushim.Base.{
  ℕ, suc, ◌+◌, Bool, true, false, not, ◌&&◌, ◌||◌, List, [], ◌∷◌, ◌++◌, Option, none, some, ltb,
  leb, ◌==◌, length, all, if◌then◌else◌,
}
use edub_kushim.Tags.Names.{
  Text, codes, same_text, is_empty, fields_from, fields, cut_suffix, mem_text,
}
use edub_kushim.Tags.Identity.Forms.{
  Language, house_form, key, split_numeric_token, is_ordinal_suffix,
}

abbrev pub max_compound_words : ℕ
max_compound_words = 3

abbrev pub function_words : List Text
function_words =
    codes "a"
    ∷ codes "an"
    ∷ codes "the"
    ∷ codes "and"
    ∷ codes "or"
    ∷ codes "but"
    ∷ codes "nor"
    ∷ codes "vs"
    ∷ codes "vs."
    ∷ codes "versus"
    ∷ codes "about"
    ∷ codes "above"
    ∷ codes "across"
    ∷ codes "after"
    ∷ codes "against"
    ∷ codes "along"
    ∷ codes "among"
    ∷ codes "around"
    ∷ codes "at"
    ∷ codes "before"
    ∷ codes "behind"
    ∷ codes "below"
    ∷ codes "beneath"
    ∷ codes "beside"
    ∷ codes "between"
    ∷ codes "beyond"
    ∷ codes "by"
    ∷ codes "despite"
    ∷ codes "down"
    ∷ codes "during"
    ∷ codes "except"
    ∷ codes "for"
    ∷ codes "from"
    ∷ codes "in"
    ∷ codes "inside"
    ∷ codes "into"
    ∷ codes "near"
    ∷ codes "of"
    ∷ codes "off"
    ∷ codes "on"
    ∷ codes "onto"
    ∷ codes "out"
    ∷ codes "outside"
    ∷ codes "over"
    ∷ codes "past"
    ∷ codes "per"
    ∷ codes "since"
    ∷ codes "through"
    ∷ codes "throughout"
    ∷ codes "till"
    ∷ codes "to"
    ∷ codes "toward"
    ∷ codes "towards"
    ∷ codes "under"
    ∷ codes "underneath"
    ∷ codes "until"
    ∷ codes "up"
    ∷ codes "upon"
    ∷ codes "via"
    ∷ codes "with"
    ∷ codes "within"
    ∷ codes "without"
    ∷ []

abbrev pub period_units : List Text
period_units = codes "century" ∷ codes "decade" ∷ codes "millennium" ∷ []

abbrev pub month_names : List Text
month_names =
    codes "january"
    ∷ codes "february"
    ∷ codes "march"
    ∷ codes "april"
    ∷ codes "may"
    ∷ codes "june"
    ∷ codes "july"
    ∷ codes "august"
    ∷ codes "september"
    ∷ codes "october"
    ∷ codes "november"
    ∷ codes "december"
    ∷ []

abbrev pub spelled_decades : List Text
spelled_decades =
    codes "twenties"
    ∷ codes "thirties"
    ∷ codes "forties"
    ∷ codes "fifties"
    ∷ codes "sixties"
    ∷ codes "seventies"
    ∷ codes "eighties"
    ∷ codes "nineties"
    ∷ []

-- `a + " " + b`
abbrev pub with_space : Text → Text → Text
with_space a b = a ++ (b' ' ∷ b)

-- The contiguous pairs of words.
unfoldable pub bigrams : List Text → List Text
bigrams [] = []
bigrams (a ∷ []) = []
bigrams (a ∷ b ∷ words) = with_space a b ∷ bigrams (b ∷ words)

abbrev pub is_nil : List Text → Bool
is_nil [] = true
is_nil (w ∷ ws) = false

abbrev pub prepend : Text → Option (List Text) → Option (List Text)
prepend applied none = none
prepend applied (some cover) = some (applied ∷ cover)

-- A word alone: its applied name with the rest, or the rest where the cover may be partial.
abbrev pub after_word : Bool → Option Text → Option (List Text) → Option (List Text)
after_word alongside (some applied) rest = prepend applied rest
after_word alongside none rest = if alongside then rest else none

module _ (resolve : Text → Option Text) (alongside : Bool) where
  -- The loop of GreedyCover; `first` is whether no word was read yet. `none` is the nil cover.
  unfoldable pub cover_from : Bool → List Text → Option (List Text)
  cover_from first [] = some []
  cover_from first (a ∷ []) = after_word alongside (resolve a) (some [])
  cover_from first (a ∷ b ∷ words) = elim (first && is_nil words) [
    | true ↦ after_word alongside (resolve a) (cover_from false (b ∷ words))
    | false ↦ elim (resolve (with_space a b)) [
      | some applied ↦ prepend applied (cover_from false words)
      | none ↦ after_word alongside (resolve a) (cover_from false (b ∷ words))
    ]
  ]

  unfoldable pub greedy_cover : List Text → Option (List Text)
  unfolding cover_from
  greedy_cover content = cover_from true content

pub data Shape : Type 0 where
  single_word compound too_long non_english no_parts : Shape

unfoldable pub all_digits : Text → Bool
unfolding is_empty
all_digits s = all (λ c. leb b'0' c && leb c b'9') s && not (is_empty s)

unfoldable pub is_year_token : Text → Bool
unfolding all_digits
is_year_token token =
    if ltb (length token) 3 || ltb 4 (length token) then false else all_digits token

unfoldable pub is_decade_token : Text → Bool
unfolding all_digits cut_suffix
is_decade_token token =
    if ltb (length token) 3 || ltb 5 (length token)
    then false
    else elim (cut_suffix (codes "s") token) [ none ↦ false | some before ↦ all_digits before ]

unfoldable pub is_ordinal_token : Text → Bool
unfolding split_numeric_token is_ordinal_suffix
is_ordinal_token token =
    let (count, suffix) = split_numeric_token token in ltb 0 count && is_ordinal_suffix suffix

unfoldable pub is_period : List Text → Bool
unfolding is_ordinal_token mem_text
is_period (a ∷ b ∷ []) = mem_text b period_units && is_ordinal_token a
is_period tokens = false

unfoldable pub is_time : List Text → Bool
unfolding is_ordinal_token is_year_token is_decade_token mem_text
is_time (a ∷ []) =
    mem_text a month_names || mem_text a spelled_decades || is_year_token a || is_decade_token a
is_time (a ∷ b ∷ []) =
    if mem_text a month_names && is_year_token b
    then true
    else is_ordinal_token a && mem_text b period_units
is_time tokens = false

module _ (lang : Language) where
  unfoldable pub content_of : List Text → List Text
  unfolding mem_text
  content_of [] = []
  content_of (token ∷ tokens) =
      let rest = content_of tokens in
      if mem_text (lang.to_lower token) function_words then rest else token ∷ rest

  unfoldable pub derive_parts : Text → List Text
  unfolding fields_from content_of
  derive_parts name = content_of (fields name)

  unfoldable pub derive_segments : Text → List Text
  unfolding derive_parts bigrams
  derive_segments name = derive_parts name ++ bigrams (derive_parts name)

  unfoldable pub classify_shape : (Text → Bool) → Text → Shape
  unfolding derive_parts fields_from
  classify_shape latin name =
      let words = length (fields name) in
      if not (latin name)
      then non_english
      else if words == 0
      then no_parts
      else if words == 1
      then single_word
      else if ltb max_compound_words words
      then too_long
      else if is_nil (derive_parts name)
      then no_parts
      else compound

  unfoldable pub is_period_class : Text → Bool
  unfolding is_period fields_from
  is_period_class name = is_period (fields (lang.to_lower name))

  unfoldable pub is_time_designation : Text → Bool
  unfolding is_time fields_from
  is_time_designation name = is_time (fields (lang.to_lower name))

  unfoldable pub is_time_designation_drop : Text → List Text → Bool
  unfolding is_time_designation mem_text house_form
  is_time_designation_drop name store_keys =
      if not (is_time_designation name) then false else not (mem_text (key lang name) store_keys)
