-- ===== src/Tags/Identity/Distance.antt =====
-- internal/tags/identity.go: boundedEditDistance, row by row. Two rows are kept, the last one and the one
-- being filled, as lists with an entry for every prefix of the shorter text.
use edub_kushim.Base.{ℕ, suc, ◌+◌, ◌-◌, List, [], ◌∷◌, ltb, leb, ◌==◌, length, if◌then◌else◌}
use edub_kushim.Tags.Names.{Text}

abbrev pub morphographic_max_distance : ℕ
morphographic_max_distance = 2

unfoldable pub lesser : ℕ → ℕ → ℕ
lesser a b = if leb a b then a else b

abbrev pub cost : ℕ → ℕ → ℕ
cost c d = if c == d then 0 else 1

-- The row of the empty prefix, from `j` on.
unfoldable pub first_row : ℕ → Text → List ℕ
first_row j [] = j ∷ []
first_row j (d ∷ b) = j ∷ first_row (suc j) b

-- The entries after the first: `left` is the one before, `diagonal` the one before it in the last row.
unfoldable pub row_step : ℕ → ℕ → ℕ → Text → List ℕ → List ℕ
unfolding lesser
row_step c left diagonal [] prev = []
row_step c left diagonal (d ∷ b) [] = []
row_step c left diagonal (d ∷ b) (up ∷ prev) =
    let here = lesser (lesser (up + 1) (left + 1)) (diagonal + cost c d) in
    here ∷ row_step c here up b prev

unfoldable pub next_row : ℕ → ℕ → Text → List ℕ → List ℕ
unfolding row_step
next_row i c b [] = i ∷ []
next_row i c b (diagonal ∷ prev) = i ∷ row_step c i diagonal b prev

-- `best`, the least entry of a row.
unfoldable pub best_of : ℕ → List ℕ → ℕ
best_of best [] = best
best_of best (x ∷ row) = best_of (if ltb x best then x else best) row

unfoldable pub row_best : List ℕ → ℕ
unfolding best_of
row_best [] = 0
row_best (x ∷ row) = best_of x row

-- `prev[len(b)]`
unfoldable pub last_entry : List ℕ → ℕ
last_entry [] = 0
last_entry (x ∷ []) = x
last_entry (x ∷ y ∷ row) = last_entry (y ∷ row)

unfoldable pub edit_rows : ℕ → Text → Text → List ℕ → ℕ
unfolding next_row row_best last_entry
edit_rows i [] b prev = last_entry prev
edit_rows i (c ∷ a) b prev =
    let row = next_row i c b prev in
    let rest = edit_rows (suc i) a b row in
    if ltb morphographic_max_distance (row_best row) then morphographic_max_distance + 1 else rest

unfoldable pub edit_distance_from : Text → Text → ℕ
unfolding edit_rows first_row
edit_distance_from a b =
    if ltb morphographic_max_distance (length a - length b)
    then morphographic_max_distance + 1
    else edit_rows 1 a b (first_row 0 b)

unfoldable pub bounded_edit_distance : Text → Text → ℕ
unfolding edit_distance_from
bounded_edit_distance a b =
    if ltb (length a) (length b) then edit_distance_from b a else edit_distance_from a b
