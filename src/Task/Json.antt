-- ===== src/Task/Json.antt =====
-- A json.RawMessage by what encoding/json reads in it. A number stands for any scalar.
pub mod Updates
use edub_kushim.Base.{ℕ, String, Option, none, some, List, [], ◌∷◌, if◌then◌else◌}
use text.Mathlib.Text.{◌==◌ as str_eq}

mutual
  pub data Raw : Type 0 where
    blank : Raw  -- no bytes
    malformed : Raw
    null : Raw
    scalar : ℕ → Raw
    quoted : String → Raw
    array : Items → Raw
    object : Fields → Raw

  pub data Items : Type 0 where
    nil : Items
    item : Raw → Items → Items

  pub data Fields : Type 0 where
    end : Fields
    field : String → Raw → Fields → Fields

-- What unmarshalling into `map[string]json.RawMessage` gives: an error, a nil map, or a map.
pub data Decoded (A : Type 0) : Type 0 where
  failed : Decoded A
  nothing : Decoded A
  found : A → Decoded A

unfoldable pub as_object : Raw → Decoded Fields
as_object (object fs) = found fs
as_object null = nothing
as_object _ = failed

-- Unmarshalling into `[]string`: every item is a text; null decodes as a nil slice, and a null item
-- as the empty string.
unfoldable pub as_texts : Items → Option (List String)
as_texts nil = some []
as_texts (item (quoted s) rest) = elim (as_texts rest) [ none ↦ none | some ss ↦ some (s ∷ ss) ]
as_texts (item null rest) = elim (as_texts rest) [ none ↦ none | some ss ↦ some ("" ∷ ss) ]
as_texts (item _ rest) = none

unfoldable pub as_text_list : Raw → Option (List String)
unfolding as_texts
as_text_list null = some []
as_text_list (array xs) = as_texts xs
as_text_list _ = none

-- `value, ok := fields[key]`
unfoldable pub get_field : Fields → String → Option Raw
get_field end key = none
get_field (field k v rest) key = if str_eq k key then some v else get_field rest key

-- `fields[key] = value`
unfoldable pub set_field : Fields → String → Raw → Fields
set_field end key value = field key value end
set_field (field k v rest) key value =
    if str_eq k key then field k value rest else field k v (set_field rest key value)
