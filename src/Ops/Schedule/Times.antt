-- ===== src/Ops/Schedule/Times.antt =====
-- internal/config/config.go: the HH:MM times of the polling windows, as the bytes of their text.
use edub_kushim.Base.{
  ℕ, ◌+◌, ◌*◌, ◌-◌, ◌/◌, ◌%◌, ◌<◌, ◌≡◌, ◌⊎◌, ◌↔◌, refl, sym, ap, ◌∙◌, inl, inr, Bool, true, false,
  ◌&&◌, ◌||◌, Option, none, some, [], ◌∷◌, leb, ◌==◌, if◌then◌else◌, arith, Bool-cases, ==_iff,
}
use edub_kushim.Tags.Names.{Text, codes, same_text, same_text_iff}

-- [0-5], [0-9]
abbrev digit_to : ℕ → ℕ → Bool
digit_to top c = leb b'0' c && leb c top

-- [01][0-9]|2[0-3]
abbrev is_hour : ℕ → ℕ → Bool
is_hour a b = (digit_to b'1' a && digit_to b'9' b) || (a == b'2' && digit_to b'3' b)

-- The regular expression reHHMM; reEndHHMM is met only by texts that it meets, since 24:00 is read before.
unfoldable pub is_hhmm : Text → Bool
is_hhmm (a ∷ b ∷ colon ∷ c ∷ d ∷ []) =
    is_hour a b && (colon == b':' && (digit_to b'5' c && digit_to b'9' d))
is_hhmm _ = false

abbrev two_digits : ℕ → ℕ → ℕ
two_digits a b = (a - b'0') * 10 + (b - b'0')

abbrev minutes_of : Text → ℕ
minutes_of (a ∷ b ∷ colon ∷ c ∷ d ∷ []) = two_digits a b * 60 + two_digits c d
minutes_of _ = 0

abbrev pub end_of_day : Text
end_of_day = codes "24:00"

-- parseHHMM, with `none` for its error
unfoldable pub parse_hhmm : Text → Bool → Option ℕ
parse_hhmm s allow_2400 =
    if same_text s end_of_day && allow_2400
    then some 1440
    else if is_hhmm s
    then some (minutes_of s)
    else none

and_first : (p q : Bool) → p && q ≡ true → p ≡ true
and_first true q h = refl
and_first false q h = cc

and_middle : (p q r : Bool) → p && (q && r) ≡ true → q ≡ true
and_middle true true r h = refl
and_middle true false r h = cc
and_middle false q r h = cc

and_last : (p q r : Bool) → p && (q && r) ≡ true → r ≡ true
and_last true true r h = h
and_last true false r h = cc
and_last false q r h = cc

-- A time as it is written: two digits, a colon, two digits.
unfoldable pub render_hhmm : ℕ → Text
render_hhmm m =
    (b'0' + m / 60 / 10)
    ∷ (b'0' + m / 60 % 10)
    ∷ b':'
    ∷ (b'0' + m % 60 / 10)
    ∷ (b'0' + m % 60 % 10)
    ∷ []

hour_digits :
    (a b : ℕ)
    → is_hour a b ≡ true
    → (two_digits a b < 24) × (a ≡ b'0' + two_digits a b / 10) × (b ≡ b'0' + two_digits a b % 10)
hour_digits a b h = (ground arith, ground arith, ground arith)

minute_digits :
    (c d : ℕ)
    → digit_to b'5' c && digit_to b'9' d ≡ true
    → (two_digits c d < 60) × (c ≡ b'0' + two_digits c d / 10) × (d ≡ b'0' + two_digits c d % 10)
minute_digits c d h = (ground arith, ground arith, ground arith)

split_minutes :
    (hours minutes m : ℕ)
    → hours < 24
    → minutes < 60
    → hours * 60 + minutes ≡ m
    → (m < 1440) × (m / 60 ≡ hours) × (m % 60 ≡ minutes)
split_minutes hours minutes m h k e = (omega arith, omega arith, omega arith)

same_bytes :
    {a b c d a' b' c' d' : ℕ}
    → a ≡ a'
    → b ≡ b'
    → c ≡ c'
    → d ≡ d'
    → ◌≡◌ {A = Text} (a ∷ b ∷ b':' ∷ c ∷ d ∷ []) (a' ∷ b' ∷ b':' ∷ c' ∷ d' ∷ [])
same_bytes p q r s = cc

render-digits :
    (a b c d m : ℕ)
    → is_hour a b ≡ true
    → digit_to b'5' c && digit_to b'9' d ≡ true
    → two_digits a b * 60 + two_digits c d ≡ m
    → (m < 1440) × (◌≡◌ {A = Text} (a ∷ b ∷ b':' ∷ c ∷ d ∷ []) (render_hhmm m))
unfolding render_hhmm
render-digits a b c d m hour minutes e =
    let (hour_bound, at_a, at_b) = hour_digits a b hour in
    let (minute_bound, at_c, at_d) = minute_digits c d minutes in
    let (bound, hours, rest) =
      split_minutes (two_digits a b) (two_digits c d) m hour_bound minute_bound e in
    (
      bound,
      same_bytes (at_a ∙ ap (λ (k : ℕ). b'0' + k / 10) (sym hours))
          (at_b ∙ ap (λ (k : ℕ). b'0' + k % 10) (sym hours))
          (at_c ∙ ap (λ (k : ℕ). b'0' + k / 10) (sym rest))
          (at_d ∙ ap (λ (k : ℕ). b'0' + k % 10) (sym rest)),
    )

hhmm_parts :
    (s : Text)
    → is_hhmm s ≡ true
    → (a : ℕ) × (b : ℕ) × (c : ℕ) × (d : ℕ) × (s ≡ a ∷ b ∷ b':' ∷ c ∷ d ∷ [])
      × (is_hour a b ≡ true)
      × (digit_to b'5' c && digit_to b'9' d ≡ true)
unfolding is_hhmm
hhmm_parts [] h = cc
hhmm_parts (a ∷ []) h = cc
hhmm_parts (a ∷ b ∷ []) h = cc
hhmm_parts (a ∷ b ∷ colon ∷ []) h = cc
hhmm_parts (a ∷ b ∷ colon ∷ c ∷ []) h = cc
hhmm_parts (a ∷ b ∷ colon ∷ c ∷ d ∷ x ∷ s) h = cc
hhmm_parts (a ∷ b ∷ colon ∷ c ∷ d ∷ []) h =
    let colon_is : colon ≡ b':' = (==_iff colon b':').0 (and_middle (is_hour a b) _ _ h) in
    (
      a,
      b,
      c,
      d,
      ap (λ (k : ℕ). a ∷ b ∷ k ∷ c ∷ d ∷ []) colon_is,
      and_first (is_hour a b) _ h,
      and_last (is_hour a b) _ _ h,
    )

parse_plain :
    (s : Text) (m : ℕ)
    → (if is_hhmm s then some (minutes_of s) else none) ≡ some m
    → (m < 1440) × (s ≡ render_hhmm m)
parse_plain s m h = elim (Bool-cases (is_hhmm s)) [
  | inr e ↦ ground arith
  | inl e ↦
      let (a, b, c, d, same, hour, minutes) = hhmm_parts s e in
      let value : minutes_of s ≡ m = ground arith in
      let total : two_digits a b * 60 + two_digits c d ≡ m = ap minutes_of (sym same) ∙ value in
      let (bound, text) = render-digits a b c d m hour minutes total in (bound, same ∙ text)
]

late_hour : (m : ℕ) → m < 1440 → same_text (render_hhmm m) end_of_day ≡ false
unfolding render_hhmm same_text
late_hour m h = ground arith

is_hhmm-render : (m : ℕ) → m < 1440 → is_hhmm (render_hhmm m) ≡ true
unfolding is_hhmm render_hhmm
is_hhmm-render m h = ground arith

minutes_of-render : (m : ℕ) → m < 1440 → minutes_of (render_hhmm m) ≡ m
unfolding render_hhmm
minutes_of-render m h = omega arith

pub parse_hhmm-render :
    (m : ℕ) (allow : Bool) → m < 1440 → parse_hhmm (render_hhmm m) allow ≡ some m
unfolding parse_hhmm
parse_hhmm-render m allow h =
    ground (arith, late_hour m h, is_hhmm-render m h, minutes_of-render m h)

parse_end : parse_hhmm end_of_day true ≡ some 1440
unfolding parse_hhmm same_text
parse_end = refl

parse_without : (s : Text) → parse_hhmm s false ≡ (if is_hhmm s then some (minutes_of s) else none)
unfolding parse_hhmm
parse_without s = ground arith

pub parse_with :
    (s : Text) (m : ℕ)
    → parse_hhmm s true ≡ some m
    → ((m < 1440) × (s ≡ render_hhmm m)) ⊎ ((s ≡ end_of_day) × (m ≡ 1440))
unfolding parse_hhmm
parse_with s m h = elim (Bool-cases (same_text s end_of_day)) [
  | inl e ↦ inr ((same_text_iff s end_of_day).0 e, ground arith)
  | inr e ↦ inl (parse_plain s m (ground arith))
]

-- Without 24:00 a text is read as m exactly when m is a minute of a day and the text is m in the form HH:MM;
-- with it, the text 24:00 is read as 1440 besides, and nothing else.
pub parse_hhmm_iff :
    (s : Text) (m : ℕ)
    → ((parse_hhmm s false ≡ some m) ↔ (m < 1440) × (s ≡ render_hhmm m))
      × ((parse_hhmm s true ≡ some m)
          ↔ ((m < 1440) × (s ≡ render_hhmm m)) ⊎ ((s ≡ end_of_day) × (m ≡ 1440)))
parse_hhmm_iff s m = (
  (
    λ h. parse_plain s m (sym (parse_without s) ∙ h),
    λ h. ap (λ t. parse_hhmm t false) h.1 ∙ parse_hhmm-render m false h.0,
  ),
  (
    parse_with s m,
    λ h. elim h [
      | inl r ↦ ap (λ t. parse_hhmm t true) r.1 ∙ parse_hhmm-render m true r.0
      | inr r ↦ ap (λ t. parse_hhmm t true) r.0 ∙ parse_end ∙ ap (λ k. some k) (sym r.1)
    ],
  ),
)
