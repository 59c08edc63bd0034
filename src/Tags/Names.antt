-- ===== src/Tags/Names.antt =====
-- Tag names as the bytes of their text, where internal/tags and internal/textnorm walk them:
-- comparison, the split at white space of strings.Fields, strings.Join and strings.CutSuffix.
use Prim.Native.Char.{code}
use Prim.Native.String.{String}
use edub_kushim.Base.{
  ℕ, zero, suc, ◌≡◌, ◌↔◌, refl, Bool, true, false, ◌&&◌, ◌||◌, List, [], ◌∷◌, ◌++◌, Option, none,
  some, arith, ltb, leb, ◌==◌, if◌then◌else◌,
}

abbrev pub Text : Type 0
Text = List ℕ

-- The bytes of an ASCII literal.
abbrev pub codes : String → Text
codes String.[] = []
codes (String.◌∷◌ c s) = code c ∷ codes s

unfoldable pub same_text : Text → Text → Bool
same_text [] [] = true
same_text [] (d ∷ t) = false
same_text (c ∷ s) [] = false
same_text (c ∷ s) (d ∷ t) = (c == d) && same_text s t

pub same_text_iff : (s t : Text) → (same_text s t ≡ true) ↔ (s ≡ t)
unfolding same_text
same_text_iff [] [] = ground arith
same_text_iff [] (d ∷ t) = ground arith
same_text_iff (c ∷ s) [] = ground arith
same_text_iff (c ∷ s) (d ∷ t) = ground (arith, same_text_iff s t)

-- `s <= t` on strings: byte by byte.
unfoldable pub text_leb : Text → Text → Bool
text_leb [] t = true
text_leb (c ∷ s) [] = false
text_leb (c ∷ s) (d ∷ t) = if ltb c d then true else (c == d) && text_leb s t

unfoldable pub is_empty : Text → Bool
is_empty [] = true
is_empty (c ∷ s) = false

-- The bytes of the white space character that a text starts with; 0 without one.
unfoldable pub space_width : Text → ℕ
space_width (c ∷ d ∷ e ∷ s) =
    if (leb 9 c && leb c 13)
    then 1
    else if c == 32
    then 1
    else if c == 194
    then (if d == 133 then 2 else if d == 160 then 2 else 0)
    else if c == 225
    then (if (d == 154) && (e == 128) then 3 else 0)
    else if c == 226
    then (if d == 128
        then (if (leb 128 e && leb e 138)
            then 3
            else if (leb 168 e && leb e 169)
            then 3
            else if e == 175
            then 3
            else 0)
        else if (d == 129) && (e == 159)
        then 3
        else 0)
    else if c == 227
    then (if (d == 128) && (e == 128) then 3 else 0)
    else 0
space_width (c ∷ d ∷ []) =
    if (leb 9 c && leb c 13)
    then 1
    else if c == 32
    then 1
    else if c == 194
    then (if d == 133 then 2 else if d == 160 then 2 else 0)
    else 0
space_width (c ∷ []) = if (leb 9 c && leb c 13) then 1 else if c == 32 then 1 else 0
space_width [] = 0

unfoldable pub emit : Text → List Text → List Text
emit [] tokens = tokens
emit (c ∷ s) tokens = (c ∷ s) ∷ tokens

-- `skip` bytes of a white space character are left, and `token` is the word begun.
unfoldable pub fields_from : ℕ → Text → Text → List Text
unfolding space_width emit
fields_from skip token [] = emit token []
fields_from (suc skip) token (c ∷ s) = fields_from skip token s
fields_from zero token (c ∷ s) = elim (space_width (c ∷ s)) [
  | zero ↦ fields_from zero (token ++ (c ∷ [])) s
  | suc rest ↦ emit token (fields_from rest [] s)
]

-- `strings.Fields`
abbrev pub fields : Text → List Text
fields s = fields_from 0 [] s

-- `strings.Join(tokens, " ")`
unfoldable pub join : List Text → Text
join [] = []
join (t ∷ []) = t
join (t ∷ u ∷ ts) = t ++ (b' ' ∷ join (u ∷ ts))

-- `strings.CutSuffix(s, suffix)`
unfoldable pub cut_suffix : Text → Text → Option Text
unfolding same_text is_empty
cut_suffix suffix [] = if is_empty suffix then some [] else none
cut_suffix suffix (c ∷ s) = elim (same_text (c ∷ s) suffix) [
  | true ↦ some []
  | false ↦ elim (cut_suffix suffix s) [ none ↦ none | some before ↦ some (c ∷ before) ]
]

fields_run : fields (codes " first world  war") ≡ codes "first" ∷ codes "world" ∷ codes "war" ∷ []
unfolding fields_from
fields_run = refl

cut_suffix_run : cut_suffix (codes "our") (codes "labour") ≡ some (codes "lab")
unfolding cut_suffix
cut_suffix_run = refl

-- A map from texts: the first entry of the key.
unfoldable pub find_key {ℓ} : {A : Type ℓ} → Text → List (Text × A) → Option A
unfolding same_text
find_key key [] = none
find_key key ((k, a) ∷ rows) = if same_text k key then some a else find_key key rows

unfoldable pub mem_text : Text → List Text → Bool
unfolding same_text
mem_text t [] = false
mem_text t (u ∷ us) = same_text u t || mem_text t us

-- `slices.Sort`
unfoldable pub insert_text : Text → List Text → List Text
unfolding text_leb
insert_text t [] = t ∷ []
insert_text t (u ∷ us) =
    let rest = insert_text t us in if text_leb t u then t ∷ u ∷ us else u ∷ rest

unfoldable pub sort_texts : List Text → List Text
unfolding insert_text
sort_texts [] = []
sort_texts (t ∷ ts) = insert_text t (sort_texts ts)

unfoldable pub same_texts : List Text → List Text → Bool
unfolding same_text
same_texts [] [] = true
same_texts [] (u ∷ us) = false
same_texts (t ∷ ts) [] = false
same_texts (t ∷ ts) (u ∷ us) = same_text t u && same_texts ts us
