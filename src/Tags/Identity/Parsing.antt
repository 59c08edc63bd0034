-- ===== src/Tags/Identity/Parsing.antt =====
-- internal/tags/identity.go: parseRoman reads exactly the numerals that renderRoman writes.
use edub_kushim.Base.{
  ℕ, ◌+◌, ◌*◌, ◌/◌, ◌%◌, ◌≤◌, ◌<◌, ◌≡◌, ◌↔◌, refl, sym, ap, ◌⊎◌, inl, inr, Bool-cases, Option-cases,
  none, false, ltb, ◌∙◌, subst, List, [], ◌∷◌, ◌++◌, some, length, arith,
}
use edub_kushim.Base.Integers.{ℤ, pos, negsuc}
use edub_kushim.Tags.Names.{Text, same_text_iff}
use edub_kushim.Tags.Identity.Roman.{
  roman_digits, roman_renders, render_rows, render_roman, scan_roman, accept_roman, parse_roman,
}
use edub_kushim.Tags.Identity.Numerals.{
  Scans, Digit-every, Scans-repeat, row-times, place_rows, repeat,
}

is_i : roman_digits b'i' ≡ some 1
unfolding roman_digits
is_i = refl

is_v : roman_digits b'v' ≡ some 5
unfolding roman_digits
is_v = refl

is_x : roman_digits b'x' ≡ some 10
unfolding roman_digits
is_x = refl

is_l : roman_digits b'l' ≡ some 50
unfolding roman_digits
is_l = refl

is_c : roman_digits b'c' ≡ some 100
unfolding roman_digits
is_c = refl

is_d : roman_digits b'd' ≡ some 500
unfolding roman_digits
is_d = refl

is_m : roman_digits b'm' ≡ some 1000
unfolding roman_digits
is_m = refl

Scans-empty : Scans [] 0 1
unfolding scan_roman
Scans-empty = record { prev = 0; small = omega arith; scan = refl }

render_rows-none : (n : ℕ) → render_rows [] n ≡ []
unfolding render_rows
render_rows-none n = refl

abbrev unit_rows : List (ℕ × Text)
unit_rows = place_rows 1 b'i' b'v' b'x' []

abbrev ten_rows : List (ℕ × Text)
ten_rows = place_rows 10 b'x' b'l' b'c' unit_rows

abbrev hundred_rows : List (ℕ × Text)
hundred_rows = place_rows 100 b'c' b'd' b'm' ten_rows

render_roman-digits :
    (a b c d : ℕ)
    → a < 4
    → b < 10
    → c < 10
    → d < 10
    → Scans
        (render_roman (a * 1000 + (b * 100 + (c * 10 + d))))
        (a * 1000 + (b * 100 + (c * 10 + d)))
        1000
unfolding render_roman
render_roman-digits a b c d ha hb hc hd =
    let ones =
      Digit-every 1 b'i' b'v' b'x' is_i is_v is_x [] d d 0 hd (omega arith) (omega arith) in
    let tens =
      Digit-every 10 b'x' b'l' b'c' is_x is_l is_c unit_rows c (c * 10 + d) d hc (omega arith)
        (omega arith) in
    let hundreds =
      Digit-every 100 b'c' b'd' b'm' is_c is_d is_m ten_rows b (b * 100 + (c * 10 + d)) (c * 10 + d)
        hb (omega arith) (omega arith) in
    let thousands =
      row-times hundred_rows 1000 (b'm' ∷ []) a (b * 100 + (c * 10 + d))
        (a * 1000 + (b * 100 + (c * 10 + d))) (omega arith) (omega arith) in
    let written =
      thousands
      ∙ ap (λ u. repeat a (b'm' ∷ []) ++ u)
          (hundreds.renders
            ∙ ap (λ u. hundreds.text ++ u)
                (tens.renders
                  ∙ ap (λ u. tens.text ++ u)
                      (ones.renders ∙ ap (λ u. ones.text ++ u) (render_rows-none 0)))) in
    let read =
      Scans-repeat b'm' is_m a
        (hundreds.scans _ _ (tens.scans _ _ (ones.scans [] 0 Scans-empty))) in
    subst (λ n. Scans (render_rows roman_renders (a * 1000 + (b * 100 + (c * 10 + d)))) n 1000)
      (omega arith)
      (subst (λ s. Scans s (0 + d * 1 + c * 10 + b * 100 + a * 1000) 1000) (sym written) read)

render_roman-scan : (n : ℕ) → n ≤ 3999 → Scans (render_roman n) n 1000
render_roman-scan n h =
    let digits : n / 1000 * 1000 + (n / 100 % 10 * 100 + (n / 10 % 10 * 10 + n % 10)) ≡ n =
      omega arith in
    subst (λ m. Scans (render_roman m) m 1000) digits
      (render_roman-digits (n / 1000) (n / 100 % 10) (n / 10 % 10) (n % 10) (omega arith)
        (omega arith) (omega arith) (omega arith))

accept_roman-inv :
    (s : Text) (total : ℤ) (n : ℕ)
    → accept_roman s total ≡ some n
    → (1 ≤ n) × (n ≤ 3999) × (s ≡ render_roman n)
unfolding accept_roman
accept_roman-inv s (pos m) n h = ground (arith, h, same_text_iff (render_roman m) s)
accept_roman-inv s (negsuc m) n h = ground (arith, h)

parse_roman-scan :
    (s : Text) (out : ℤ × ℕ)
    → 2 ≤ length s
    → scan_roman s ≡ some out
    → parse_roman s ≡ accept_roman s out.0
unfolding parse_roman
parse_roman-scan s out long e = let no : ltb (length s) 2 ≡ false = ground arith in rw (no, e) refl

-- What parseRoman answers, by the length of the text and its scan.
parse_cases :
    (s : Text)
    → (parse_roman s ≡ none)
      ⊎ ((out : ℤ × ℕ) × (2 ≤ length s)
          × (scan_roman s ≡ some out)
          × (parse_roman s ≡ accept_roman s out.0))
unfolding parse_roman
parse_cases s = elim (Bool-cases (ltb (length s) 2)) [
  | inl short ↦ inl (rw short refl)
  | inr long ↦ elim (Option-cases (scan_roman s)) [
    | inl e ↦ inl (rw (long, e) refl)
    | inr (out, e) ↦
        inr (out, ground (arith, long), e, parse_roman-scan s out (ground (arith, long)) e)
  ]
]

parse_roman-inv :
    (s : Text) (n : ℕ)
    → parse_roman s ≡ some n
    → (1 ≤ n) × (n ≤ 3999) × (2 ≤ length s) × (s ≡ render_roman n)
parse_roman-inv s n h = elim (parse_cases s) [
  | inl e ↦ ground (arith, h, e)
  | inr (out, long, e, f) ↦
      let (a, b, c) = accept_roman-inv s out.0 n (sym f ∙ h) in (a, b, long, c)
]

accept_roman-render : (n : ℕ) → 1 ≤ n → n ≤ 3999 → accept_roman (render_roman n) (pos n) ≡ some n
unfolding accept_roman
accept_roman-render n h k = ground (arith, same_text_iff (render_roman n) (render_roman n))

parse_roman-intro :
    (n : ℕ) → 1 ≤ n → n ≤ 3999 → 2 ≤ length (render_roman n) → parse_roman (render_roman n) ≡ some n
parse_roman-intro n h k long =
    let scans = render_roman-scan n k in
    parse_roman-scan (render_roman n) (pos n, scans.prev) long scans.scan
    ∙ accept_roman-render n h k

-- parseRoman reads a text as n exactly when n is between 1 and 3999, the text has at least two
-- characters, and it is what renderRoman writes for n.
pub parse_roman-render_roman :
    (s : Text) (n : ℕ)
    → (parse_roman s ≡ some n) ↔ (1 ≤ n) × (n ≤ 3999) × (2 ≤ length s) × (s ≡ render_roman n)
parse_roman-render_roman s n = (
  parse_roman-inv s n,
  λ (a, b, c, e).
      subst (λ t. parse_roman t ≡ some n) (sym e)
        (parse_roman-intro n a b (subst (λ t. 2 ≤ length t) e c)),
)
