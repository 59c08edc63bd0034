-- ===== src/Tags/Identity/Forms/Tokens.antt =====
-- internal/tags/identity.go: what is read off a name or a token alone: its pinned variants, its numerals,
-- its plural.
use edub_kushim.Base.{
  ℕ, zero, suc, ◌+◌, ◌/◌, ◌%◌, Bool, true, false, not, ◌&&◌, ◌||◌, List, [], ◌∷◌, ◌++◌, map, none,
  some, ltb, leb, ◌==◌, length, all, any, if◌then◌else◌,
}
use edub_kushim.Tags.Names.{
  Text, codes, same_text, text_leb, is_empty, fields_from, fields, join, cut_suffix, sort_texts,
  same_texts,
}

abbrev pub ordinal_word_digits : List (Text × Text)
ordinal_word_digits =
    (codes "first", codes "1st")
    ∷ (codes "second", codes "2nd")
    ∷ (codes "third", codes "3rd")
    ∷ (codes "fourth", codes "4th")
    ∷ (codes "fifth", codes "5th")
    ∷ (codes "sixth", codes "6th")
    ∷ (codes "seventh", codes "7th")
    ∷ (codes "eighth", codes "8th")
    ∷ (codes "ninth", codes "9th")
    ∷ (codes "tenth", codes "10th")
    ∷ (codes "eleventh", codes "11th")
    ∷ (codes "twelfth", codes "12th")
    ∷ (codes "thirteenth", codes "13th")
    ∷ (codes "fourteenth", codes "14th")
    ∷ (codes "fifteenth", codes "15th")
    ∷ (codes "sixteenth", codes "16th")
    ∷ (codes "seventeenth", codes "17th")
    ∷ (codes "eighteenth", codes "18th")
    ∷ (codes "nineteenth", codes "19th")
    ∷ (codes "twentieth", codes "20th")
    ∷ (codes "thirtieth", codes "30th")
    ∷ (codes "fortieth", codes "40th")
    ∷ (codes "fiftieth", codes "50th")
    ∷ (codes "sixtieth", codes "60th")
    ∷ (codes "seventieth", codes "70th")
    ∷ (codes "eightieth", codes "80th")
    ∷ (codes "ninetieth", codes "90th")
    ∷ (codes "hundredth", codes "100th")
    ∷ []

-- `strconv.Itoa`; a number has at most as many digits as its value plus one.
unfoldable pub digits : ℕ → ℕ → Text
digits zero n = []
digits (suc fuel) n = elim (ltb n 10) [
  | true ↦ (48 + n) ∷ []
  | false ↦ digits fuel (n / 10) ++ ((48 + n % 10) ∷ [])
]

abbrev pub itoa : ℕ → Text
itoa n = digits (suc n) n

-- The pairs of orthographicSuffixes.
abbrev pub orthographic_suffixes : List (Text × Text)
orthographic_suffixes =
    (codes "isation", codes "ization")
    ∷ (codes "yse", codes "yze")
    ∷ (codes "ogue", codes "og")
    ∷ (codes "our", codes "or")
    ∷ []

unfoldable pub orthographic_token : List (Text × Text) → Text → Text
orthographic_token [] token = token
orthographic_token ((suffix, canonical) ∷ rows) token = elim (cut_suffix suffix token) [
  | none ↦ orthographic_token rows token
  | some before ↦ before ++ canonical
]

unfoldable pub orthographic_form : Text → Text
unfolding orthographic_token cut_suffix fields_from join
orthographic_form name = join (map (orthographic_token orthographic_suffixes) (fields name))

unfoldable pub same_token_multiset : List Text → List Text → Bool
unfolding sort_texts same_texts
same_token_multiset a b = same_texts (sort_texts a) (sort_texts b)

pub data VariantClass : Type 0 where
  unrelated orthographic inverted : VariantClass

unfoldable pub variant_class : Text → Text → VariantClass
unfolding same_text same_token_multiset orthographic_form
variant_class a b =
    if same_text a b
    then unrelated
    else if same_token_multiset (fields a) (fields b)
    then inverted
    else if same_text (orthographic_form a) (orthographic_form b)
    then orthographic
    else unrelated

-- `VariantClass(a, b) != ""`
unfoldable pub is_variant : Text → Text → Bool
unfolding variant_class
is_variant a b = elim (variant_class a b) [
  | unrelated ↦ false
  | orthographic ↦ true
  | inverted ↦ true
]

-- TieBreak
unfoldable pub tie_break : Text → Text → Text
unfolding text_leb
tie_break a b = if text_leb a b then a else b

unfoldable pub has_non_ascii : Text → Bool
has_non_ascii token = any (λ c. ltb 127 c) token

unfoldable pub is_lower_ascii : Text → Bool
is_lower_ascii token = all (λ c. leb b'a' c && leb c b'z') token

-- The digits at the head of the token, counted, and the rest.
unfoldable pub split_numeric_token : Text → ℕ × Text
split_numeric_token [] = (0, [])
split_numeric_token (c ∷ s) =
    let (count, suffix) = split_numeric_token s in
    if leb b'0' c && leb c b'9' then (suc count, suffix) else (0, c ∷ s)

unfoldable pub is_ordinal_suffix : Text → Bool
unfolding same_text
is_ordinal_suffix suffix =
    same_text suffix (codes "st")
    || same_text suffix (codes "nd")
    || same_text suffix (codes "rd")
    || same_text suffix (codes "th")

unfoldable pub is_numeric_token : Text → Bool
unfolding split_numeric_token is_ordinal_suffix is_empty
is_numeric_token token =
    let (count, suffix) = split_numeric_token token in
    if count == 0 then false else is_empty suffix || is_ordinal_suffix suffix

-- The token without a final "s", under the guards of pluralStrip.
unfoldable pub plural_strip : Text → Text
unfolding cut_suffix is_lower_ascii
plural_strip token =
    if ltb (length token) 5 || not (is_lower_ascii token)
    then token
    else elim (cut_suffix (codes "ies") token) [
      | some before ↦ before ++ codes "y"
      | none ↦ elim (cut_suffix (codes "s") token) [
        | none ↦ token
        | some before ↦
            if ends_with (codes "ss") token
              || ends_with (codes "us") token
              || ends_with (codes "is") token
            then token
            else before
      ]
    ]
  where
    ends_with : Text → Text → Bool
    ends_with suffix s = elim (cut_suffix suffix s) [ none ↦ false | some before ↦ true ]

-- What tells which label the judge wants: internal/llm/analyzer.
pub data TagDirection : Type 0 where
  query target other_direction : TagDirection
