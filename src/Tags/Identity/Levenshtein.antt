-- ===== src/Tags/Identity/Levenshtein.antt =====
-- internal/tags/identity.go: boundedEditDistance against the recursive edit distance, on texts read from
-- their last byte, as the rows of the program stand for prefixes.
use edub_kushim.Base.{
  ℕ, suc, ◌+◌, ◌-◌, ◌≤◌, ◌<◌, ◌≡◌, refl, ap, ◌∙◌, ◌⊎◌, inl, inr, Bool, true, ◌&&◌, List, [], ◌∷◌,
  ltb, length, all, arith, Bool-cases, ltb→lt,
}
use edub_kushim.Tags.Names.{Text}
use edub_kushim.Tags.Identity.Distance.{
  cost, lesser, first_row, row_step, next_row, best_of, row_best, last_entry, edit_rows,
  edit_distance_from, bounded_edit_distance,
}

-- The distance of two reversed texts.
unfoldable pub lev : Text → Text → ℕ
unfolding lesser
lev [] rb = length rb
lev (c ∷ ra) [] = suc (length ra)
lev (c ∷ ra) (d ∷ rb) =
    lesser (lesser (lev ra (d ∷ rb) + 1) (lev (c ∷ ra) rb + 1)) (lev ra rb + cost c d)

abbrev pub reverse_onto : Text → Text → Text
reverse_onto [] r = r
reverse_onto (c ∷ s) r = reverse_onto s (c ∷ r)

abbrev pub levenshtein : Text → Text → ℕ
levenshtein a b = lev (reverse_onto a []) (reverse_onto b [])

row_after : Text → Text → Text → List ℕ
row_after ra rb [] = []
row_after ra rb (d ∷ b) = lev ra (d ∷ rb) ∷ row_after ra (d ∷ rb) b

-- The row of the prefix `ra` has its distance from every prefix of the other text.
abbrev row_of : Text → Text → Text → List ℕ
row_of ra rb b = lev ra rb ∷ row_after ra rb b

first_row-lev : (rb b : Text) → first_row (length rb) b ≡ row_of [] rb b
unfolding first_row row_after lev
first_row-lev rb [] = refl
first_row-lev rb (d ∷ b) = ap (λ r. length rb ∷ r) (first_row-lev (d ∷ rb) b)

row_step-lev :
    (c : ℕ) (ra rb b : Text)
    → row_step c (lev (c ∷ ra) rb) (lev ra rb) b (row_after ra rb b) ≡ row_after (c ∷ ra) rb b
unfolding row_step row_after lev
row_step-lev c ra rb [] = refl
row_step-lev c ra rb (d ∷ b) = ap (λ r. lev (c ∷ ra) (d ∷ rb) ∷ r) (row_step-lev c ra (d ∷ rb) b)

next_row-lev :
    (c : ℕ) (ra b : Text) → next_row (suc (length ra)) c b (row_of ra [] b) ≡ row_of (c ∷ ra) [] b
unfolding next_row lev
next_row-lev c ra b = ap (λ r. suc (length ra) ∷ r) (row_step-lev c ra [] b)

last_entry-row : (ra rb b : Text) → last_entry (row_of ra rb b) ≡ lev ra (reverse_onto b rb)
unfolding last_entry row_after
last_entry-row ra rb [] = refl
last_entry-row ra rb (d ∷ b) = last_entry-row ra (d ∷ rb) b

abbrev far : List ℕ → Bool
far row = all (λ x. ltb 2 x) row

best_of-far : (best : ℕ) (row : List ℕ) → ltb 2 (best_of best row) ≡ (ltb 2 best && far row)
unfolding best_of
best_of-far best [] = ground arith
best_of-far best (x ∷ row) = ground (arith, best_of-far best row, best_of-far x row)

row_best-far : (x : ℕ) (row : List ℕ) → ltb 2 (row_best (x ∷ row)) ≡ far (x ∷ row)
unfolding row_best
row_best-far x row = best_of-far x row

lesser-far :
    (x y z k : ℕ)
    → ltb 2 x ≡ true
    → ltb 2 y ≡ true
    → ltb 2 z ≡ true
    → ltb 2 (lesser (lesser (x + 1) (y + 1)) (z + k)) ≡ true
unfolding lesser
lesser-far x y z k hx hy hz = ground arith

far-after :
    (c : ℕ) (ra rb b : Text)
    → ltb 2 (lev (c ∷ ra) rb) ≡ true
    → far (row_of ra rb b) ≡ true
    → far (row_after (c ∷ ra) rb b) ≡ true
unfolding row_after lev
far-after c ra rb [] h k = refl
far-after c ra rb (d ∷ b) h k =
    let here : ltb 2 (lev (c ∷ ra) (d ∷ rb)) ≡ true =
      lesser-far (lev ra (d ∷ rb)) (lev (c ∷ ra) rb) (lev ra rb) (cost c d) (ground arith) h
        (ground arith) in
    ground (arith, here, far-after c ra (d ∷ rb) b here (ground arith))

edge_far : (e : ℕ) (rs : Text) → ltb 2 (lev rs []) ≡ true → ltb 2 (lev (e ∷ rs) []) ≡ true
unfolding lev
edge_far e [] h = ground arith
edge_far e (g ∷ rs) h = ground arith

far-next : (c : ℕ) (ra b : Text) → far (row_of ra [] b) ≡ true → far (row_of (c ∷ ra) [] b) ≡ true
far-next c ra b h =
    let edge : ltb 2 (lev (c ∷ ra) []) ≡ true = edge_far c ra (ground arith) in
    ground (arith, edge, far-after c ra [] b edge h)

far-last : (ra rb b : Text) → far (row_of ra rb b) ≡ true → 2 < lev ra (reverse_onto b rb)
unfolding row_after
far-last ra rb [] h = ground arith
far-last ra rb (d ∷ b) h = far-last ra (d ∷ rb) b (ground arith)

-- A row out of reach keeps the whole text out of reach.
far-rest :
    (a ra b : Text) → far (row_of ra [] b) ≡ true → 2 < lev (reverse_onto a ra) (reverse_onto b [])
far-rest [] ra b h = far-last ra [] b h
far-rest (c ∷ a) ra b h = far-rest a (c ∷ ra) b (far-next c ra b h)

-- The same number, or both beyond the bound.
Agrees : ℕ → ℕ → Type 0
Agrees x y = (x ≡ y) ⊎ ((2 < x) × (2 < y))

edit_rows-Agrees :
    (a ra b : Text)
    → Agrees
        (edit_rows (suc (length ra)) a b (row_of ra [] b))
        (lev (reverse_onto a ra) (reverse_onto b []))
unfolding Agrees edit_rows
edit_rows-Agrees [] ra b = inl (last_entry-row ra [] b)
edit_rows-Agrees (c ∷ a) ra b =
    let row = next_row-lev c ra b in
    let best : ltb 2 (row_best (next_row (suc (length ra)) c b (row_of ra [] b)))
        ≡ far (row_of (c ∷ ra) [] b) =
      ap (λ r. ltb 2 (row_best r)) row ∙ row_best-far (lev (c ∷ ra) []) (row_after (c ∷ ra) [] b) in
    let rest : edit_rows (suc (suc (length ra))) a b
          (next_row (suc (length ra)) c b (row_of ra [] b))
        ≡ edit_rows (suc (suc (length ra))) a b (row_of (c ∷ ra) [] b) =
      ap (edit_rows (suc (suc (length ra))) a b) row in
    elim (Bool-cases (far (row_of (c ∷ ra) [] b))) [
      | inl e ↦ rw (best, e) (inr (omega arith, far-rest a (c ∷ ra) b e))
      | inr e ↦ rw (best, e, rest) (edit_rows-Agrees a (c ∷ ra) b)
    ]

lesser-above :
    (x y z k m n : ℕ)
    → m ≤ x + suc n
    → suc m ≤ y + n
    → m ≤ z + n
    → suc m ≤ lesser (lesser (x + 1) (y + 1)) (z + k) + suc n
unfolding lesser
lesser-above x y z k m n hx hy hz = ground arith

lev-lengths : (ra rb : Text) → length ra ≤ lev ra rb + length rb
unfolding lev
lev-lengths [] rb = omega arith
lev-lengths (c ∷ ra) [] = omega arith
lev-lengths (c ∷ ra) (d ∷ rb) =
    lesser-above (lev ra (d ∷ rb)) (lev (c ∷ ra) rb) (lev ra rb) (cost c d) (length ra) (length rb)
      (lev-lengths ra (d ∷ rb)) (lev-lengths (c ∷ ra) rb) (lev-lengths ra rb)

length-reverse_onto : (s r : Text) → length (reverse_onto s r) ≡ length s + length r
length-reverse_onto [] r = omega arith
length-reverse_onto (c ∷ s) r = omega (arith, length-reverse_onto s (c ∷ r))

lesser_swap :
    (e g : ℕ) {x x2 y y2 z z2 : ℕ}
    → x ≡ x2
    → y ≡ y2
    → z ≡ z2
    → lesser (lesser (x + 1) (y + 1)) (z + cost e g)
      ≡ lesser (lesser (y2 + 1) (x2 + 1)) (z2 + cost g e)
unfolding lesser
lesser_swap e g hx hy hz = ground arith

lev_comm : (ra rb : Text) → lev ra rb ≡ lev rb ra
unfolding lev
lev_comm [] [] = refl
lev_comm [] (d ∷ rb) = refl
lev_comm (c ∷ ra) [] = refl
lev_comm (c ∷ ra) (d ∷ rb) =
    lesser_swap c d (lev_comm ra (d ∷ rb)) (lev_comm (c ∷ ra) rb) (lev_comm ra rb)

edit_distance_from-Agrees : (a b : Text) → Agrees (edit_distance_from a b) (levenshtein a b)
unfolding Agrees edit_distance_from
edit_distance_from-Agrees a b = elim (Bool-cases (ltb 2 (length a - length b))) [
  | inl e ↦ rw e (
      inr (
        omega arith,
        omega (
          arith,
          ltb→lt 2 (length a - length b) e,
          lev-lengths (reverse_onto a []) (reverse_onto b []),
          length-reverse_onto a [],
          length-reverse_onto b [],
        ),
      ))
  | inr e ↦ rw (e, first_row-lev [] b) (edit_rows-Agrees a [] b)
]

-- The bounded distance of two texts is their edit distance, or both are greater than two.
pub bounded_edit_distance-levenshtein :
    (a b : Text)
    → (bounded_edit_distance a b ≡ levenshtein a b)
      ⊎ ((2 < bounded_edit_distance a b) × (2 < levenshtein a b))
unfolding bounded_edit_distance Agrees
bounded_edit_distance-levenshtein a b = elim (Bool-cases (ltb (length a) (length b))) [
  | inl e ↦ rw (e, lev_comm (reverse_onto a []) (reverse_onto b [])) (edit_distance_from-Agrees b a)
  | inr e ↦ rw e (edit_distance_from-Agrees a b)
]
