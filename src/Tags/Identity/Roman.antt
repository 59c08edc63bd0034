-- ===== src/Tags/Identity/Roman.antt =====
-- internal/tags/identity.go: Roman numerals, parseRoman and renderRoman. A numeral is a list of bytes.
-- The running total is an integer, since a numeral such as "iiiiiix" takes it below zero.
use edub_kushim.Base.{
  ℕ, zero, suc, ◌+◌, ◌-◌, true, false, List, [], ◌∷◌, ◌++◌, Option, none, some, ltb, leb, ◌==◌,
  length, if◌then◌else◌,
}
use edub_kushim.Base.Integers.{ℤ, pos, negsuc, minus}
use edub_kushim.Tags.Names.{Text, codes, same_text}

unfoldable pub roman_digits : ℕ → Option ℕ
roman_digits c =
    if c == b'i'
    then some 1
    else if c == b'v'
    then some 5
    else if c == b'x'
    then some 10
    else if c == b'l'
    then some 50
    else if c == b'c'
    then some 100
    else if c == b'd'
    then some 500
    else if c == b'm'
    then some 1000
    else none

abbrev pub roman_renders : List (ℕ × Text)
roman_renders =
    (1000, codes "m")
    ∷ (900, codes "cm")
    ∷ (500, codes "d")
    ∷ (400, codes "cd")
    ∷ (100, codes "c")
    ∷ (90, codes "xc")
    ∷ (50, codes "l")
    ∷ (40, codes "xl")
    ∷ (10, codes "x")
    ∷ (9, codes "ix")
    ∷ (5, codes "v")
    ∷ (4, codes "iv")
    ∷ (1, codes "i")
    ∷ []

-- `for n >= value`: what is written, and what is left of `n`. Each round takes at least one off,
-- so `n` rounds of fuel are enough.
unfoldable pub render_while : ℕ → ℕ → Text → ℕ → Text × ℕ
render_while zero value text n = ([], n)
render_while (suc fuel) value text n = elim (leb value n) [
  | true ↦ let (written, left) = render_while fuel value text (n - value) in (text ++ written, left)
  | false ↦ ([], n)
]

unfoldable pub render_rows : List (ℕ × Text) → ℕ → Text
render_rows [] n = []
render_rows ((value, text) ∷ rows) n =
    let (written, left) = render_while n value text n in written ++ render_rows rows left

unfoldable pub render_roman : ℕ → Text
unfolding render_rows render_while
render_roman n = render_rows roman_renders n

abbrev pub total_plus : ℤ → ℕ → ℤ
total_plus (pos n) value = pos (n + value)
total_plus (negsuc n) value = minus value (n + 1)

abbrev pub total_minus : ℤ → ℕ → ℤ
total_minus (pos n) value = minus n value
total_minus (negsuc n) value = negsuc (n + value)

-- The loop from the last byte to the first: the total and the largest digit met so far.
unfoldable pub scan_roman : Text → Option (ℤ × ℕ)
unfolding roman_digits
scan_roman [] = some (pos 0, 0)
scan_roman (c ∷ s) = elim (scan_roman s) [
  | none ↦ none
  | some (total, prev) ↦ elim (roman_digits c) [
    | none ↦ none
    | some value ↦
        if ltb value prev
        then some (total_minus total value, prev)
        else some (total_plus total value, value)
  ]
]

unfoldable pub accept_roman : Text → ℤ → Option ℕ
unfolding render_roman same_text
accept_roman s (negsuc n) = none
accept_roman s (pos n) =
    if ltb n 1
    then none
    else if ltb 3999 n
    then none
    else if same_text (render_roman n) s
    then some n
    else none

unfoldable pub parse_roman : Text → Option ℕ
unfolding scan_roman accept_roman
parse_roman s =
    if ltb (length s) 2
    then none
    else elim (scan_roman s) [ none ↦ none | some (total, prev) ↦ accept_roman s total ]
