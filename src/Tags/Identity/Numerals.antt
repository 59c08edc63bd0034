-- ===== src/Tags/Identity/Numerals.antt =====
-- internal/tags/identity.go: parseRoman undoes renderRoman.
use edub_kushim.Base.{
  ℕ, zero, suc, ◌+◌, ◌-◌, ◌*◌, ◌≤◌, ◌<◌, ◌≡◌, sym, ap, ◌∙◌, subst, List, [], ◌∷◌, ◌++◌, some, arith,
}
use edub_kushim.Base.Integers.{pos}
use edub_kushim.Tags.Names.{Text}
use edub_kushim.Tags.Identity.Roman.{roman_digits, render_while, render_rows, scan_roman}

abbrev pub repeat : ℕ → Text → Text
repeat zero t = []
repeat (suc q) t = t ++ repeat q t

render_while-times :
    (q fuel value r : ℕ) (t : Text)
    → r < value
    → q ≤ fuel
    → render_while fuel value t (q * value + r) ≡ (repeat q t, r)
unfolding render_while
render_while-times zero zero value r t h k = ground arith
render_while-times zero (suc fuel) value r t h k = ground arith
render_while-times (suc q) zero value r t h k = ground arith
render_while-times (suc q) (suc fuel) value r t h k =
    let left : suc q * value + r - value ≡ q * value + r = omega arith in
    ground (arith, left, render_while-times q fuel value r t h (ground arith))

few : (q value r : ℕ) → r < value → q ≤ q * value + r
few zero value r h = ground arith
few (suc q) value r h = omega (arith, few q value r h)

module _ (rows : List (ℕ × Text)) (value : ℕ) (t : Text) where
  pub row-times :
      (q r n : ℕ)
      → r < value
      → n ≡ q * value + r
      → render_rows ((value, t) ∷ rows) n ≡ repeat q t ++ render_rows rows r
  unfolding render_rows
  row-times q r n h e =
      let loop : render_while n value t n ≡ (repeat q t, r) =
        subst (λ m. render_while m value t m ≡ (repeat q t, r)) (sym e)
          (render_while-times q (q * value + r) value r t h (few q value r h)) in
      ap (λ out. out.0 ++ render_rows rows out.1) loop

-- The text scans, from the right, to the total `t` and a largest digit of at most `bound`.
pub record Scans (s : Text) (t bound : ℕ) : Type 0 where
  pub prev : ℕ
  pub small : prev ≤ bound
  pub scan : scan_roman s ≡ some (pos t, prev)

module _ (c : ℕ) {v : ℕ} (digit : roman_digits c ≡ some v) where
  Scans-plus : {s : Text} {t : ℕ} → Scans s t v → Scans (c ∷ s) (t + v) v
  unfolding scan_roman
  Scans-plus h = record {
    prev = v;
    small = ground arith;
    scan = ground (arith, digit, h.small, h.scan);
  }

  pub Scans-repeat :
      (q : ℕ) {s : Text} {t : ℕ} → Scans s t v → Scans (repeat q (c ∷ []) ++ s) (t + q * v) v
  Scans-repeat zero {s} {t} h = subst (λ n. Scans s n v) (omega arith) h
  Scans-repeat (suc q) {s} {t} h =
      subst (λ n. Scans (c ∷ repeat q (c ∷ []) ++ s) n v) (omega arith)
        (Scans-plus (Scans-repeat q h))

  Scans-before :
      {b w : ℕ} {s : Text} {t : ℕ}
      → roman_digits b ≡ some w
      → v < w
      → Scans s t w
      → Scans (c ∷ b ∷ s) (t + (w - v)) w
  unfolding scan_roman
  Scans-before {b} {w} {s} {t} other h k =
      let e : scan_roman (b ∷ s) ≡ some (pos (t + w), w) = ground (arith, other, k.small, k.scan) in
      let m : t + w - v ≡ t + (w - v) = omega arith in
      record { prev = w; small = ground arith; scan = ground (arith, digit, e, m) }

Scans-weaken : {s : Text} {t a b : ℕ} → a ≤ b → Scans s t a → Scans s t b
Scans-weaken le h = record { prev = h.prev; small = ground (arith, h.small); scan = h.scan }

-- The rows of one decimal place, with the symbols for one, five and ten of it.
module _ (p one five ten : ℕ) where
  abbrev pub place_rows : List (ℕ × Text) → List (ℕ × Text)
  place_rows rows =
      (9 * p, one ∷ ten ∷ []) ∷ (5 * p, five ∷ []) ∷ (4 * p, one ∷ five ∷ []) ∷ (p, one ∷ []) ∷ rows

  -- The digit `d` of a place is written as `text`, which adds `d * p` to a scan.
  pub record Digit (rows : List (ℕ × Text)) (n r d : ℕ) : Type 0 where
    pub text : Text
    pub renders : render_rows (place_rows rows) n ≡ text ++ render_rows rows r
    pub scans : (s : Text) (t : ℕ) → Scans s t p → Scans (text ++ s) (t + d * p) (10 * p)

  place-rows :
      (q9 q5 q4 q1 r9 r5 r4 r n : ℕ) (rows : List (ℕ × Text))
      → (n ≡ q9 * (9 * p) + r9) × (r9 < 9 * p)
      → (r9 ≡ q5 * (5 * p) + r5) × (r5 < 5 * p)
      → (r5 ≡ q4 * (4 * p) + r4) × (r4 < 4 * p)
      → (r4 ≡ q1 * p + r) × (r < p)
      → render_rows (place_rows rows) n
        ≡ repeat q9 (one ∷ ten ∷ [])
          ++ (repeat q5 (five ∷ [])
              ++ (repeat q4 (one ∷ five ∷ []) ++ (repeat q1 (one ∷ []) ++ render_rows rows r)))
  place-rows q9 q5 q4 q1 r9 r5 r4 r n rows (e9, h9) (e5, h5) (e4, h4) (e1, h1) =
      row-times _ (9 * p) (one ∷ ten ∷ []) q9 r9 n h9 e9
      ∙ ap (λ u. repeat q9 (one ∷ ten ∷ []) ++ u)
          (row-times _ (5 * p) (five ∷ []) q5 r5 r9 h5 e5
            ∙ ap (λ u. repeat q5 (five ∷ []) ++ u)
                (row-times _ (4 * p) (one ∷ five ∷ []) q4 r4 r5 h4 e4
                  ∙ ap (λ u. repeat q4 (one ∷ five ∷ []) ++ u)
                      (row-times rows p (one ∷ []) q1 r r4 h1 e1)))

  module _ (is_one : roman_digits one ≡ some p) (is_five : roman_digits five ≡ some (5 * p))
      (is_ten : roman_digits ten ≡ some (10 * p)) (rows : List (ℕ × Text)) where
    Digit-nine : (n r : ℕ) → r < p → n ≡ 9 * p + r → Digit rows n r 9
    Digit-nine n r h e = record {
      text = one ∷ ten ∷ [];
      renders =
          place-rows 1 0 0 0 r r r r n rows (omega arith, omega arith) (omega arith, omega arith)
            (omega arith, omega arith) (omega arith, h);
      scans = λ s t k.
          subst (λ m. Scans (one ∷ ten ∷ s) m (10 * p)) (omega arith)
            (Scans-before one is_one is_ten (omega arith) (Scans-weaken (omega arith) k));
    }

    Digit-four : (n r : ℕ) → r < p → n ≡ 4 * p + r → Digit rows n r 4
    Digit-four n r h e = record {
      text = one ∷ five ∷ [];
      renders =
          place-rows 0 0 1 0 n n r r n rows (omega arith, omega arith) (omega arith, omega arith)
            (omega arith, omega arith) (omega arith, h);
      scans = λ s t k. Scans-weaken (omega arith) (
          subst (λ m. Scans (one ∷ five ∷ s) m (5 * p)) (omega arith)
            (Scans-before one is_one is_five (omega arith) (Scans-weaken (omega arith) k)));
    }

    Digit-few : (q n r : ℕ) → r < p → n < 4 * p → n ≡ q * p + r → Digit rows n r q
    Digit-few q n r h below e = record {
      text = repeat q (one ∷ []);
      renders =
          place-rows 0 0 0 q n n n r n rows (omega arith, omega arith) (omega arith, omega arith)
            (omega arith, omega arith) (e, h);
      scans = λ s t k. Scans-weaken (omega arith) (Scans-repeat one is_one q k);
    }

    Digit-more :
        (q m n r : ℕ) → r < p → m < 4 * p → m ≡ q * p + r → n ≡ 5 * p + m → Digit rows n r (5 + q)
    Digit-more q m n r h below e f = record {
      text = five ∷ repeat q (one ∷ []);
      renders =
          place-rows 0 1 0 q n m m r n rows (omega arith, omega arith) (omega arith, omega arith)
            (omega arith, omega arith) (e, h);
      scans = λ s t k. Scans-weaken (omega arith) (
          subst (λ u. Scans (five ∷ repeat q (one ∷ []) ++ s) u (5 * p)) (omega arith)
            (Scans-plus five is_five (Scans-weaken (omega arith) (Scans-repeat one is_one q k))));
    }

    pub Digit-every : (d n r : ℕ) → d < 10 → r < p → n ≡ d * p + r → Digit rows n r d
    Digit-every zero n r h k e = Digit-few 0 n r k (omega arith) e
    Digit-every (suc zero) n r h k e = Digit-few 1 n r k (omega arith) e
    Digit-every (suc (suc zero)) n r h k e = Digit-few 2 n r k (omega arith) e
    Digit-every (suc (suc (suc zero))) n r h k e = Digit-few 3 n r k (omega arith) e
    Digit-every (suc (suc (suc (suc zero)))) n r h k e = Digit-four n r k e
    Digit-every (suc (suc (suc (suc (suc zero))))) n r h k e =
        Digit-more 0 r n r k (omega arith) (omega arith) (omega arith)
    Digit-every (suc (suc (suc (suc (suc (suc zero)))))) n r h k e =
        Digit-more 1 (p + r) n r k (omega arith) (omega arith) (omega arith)
    Digit-every (suc (suc (suc (suc (suc (suc (suc zero))))))) n r h k e =
        Digit-more 2 (2 * p + r) n r k (omega arith) (omega arith) (omega arith)
    Digit-every (suc (suc (suc (suc (suc (suc (suc (suc zero)))))))) n r h k e =
        Digit-more 3 (3 * p + r) n r k (omega arith) (omega arith) (omega arith)
    Digit-every (suc (suc (suc (suc (suc (suc (suc (suc (suc zero))))))))) n r h k e =
        Digit-nine n r k e
    Digit-every (suc (suc (suc (suc (suc (suc (suc (suc (suc (suc d)))))))))) n r h k e =
        ground arith
