-- ===== src/Task/Db/Cascade/Rounds.antt =====
-- As many rounds as the table has rows reach the end of every cascade.
use edub_kushim.Base.{
  ℕ, zero, suc, ◌+◌, ◌≤◌, ◌≡◌, refl, sym, ◌⊎◌, inl, inr, arith, Bool, true, false, List, [], ◌∷◌,
  length, Option-cases,
}
use edub_kushim.Base.Tables.{update_where, count_where}
use edub_kushim.Types.{TaskStatus}
use edub_kushim.Task.Db.{TaskRow}
use edub_kushim.Task.Db.Cascade.{
  Frontier, from_parent, reached, inherit, next_frontier, cascade, is_nil,
}

module _ {E : Type 0} (wanted : TaskStatus → Bool) (set : E → TaskRow → TaskRow) where
  abbrev wanted_rows : List TaskRow → ℕ
  wanted_rows rows = count_where (λ (t : TaskRow). wanted t.status) rows

  abbrev updated : Frontier E → List TaskRow → List TaskRow
  updated frontier rows = update_where (reached wanted frontier) (inherit set frontier) rows

  -- The rows that a round takes on are those that stop being wanted.
  wanted-updated :
      ((e : E) (t : TaskRow) → wanted (set e t).status ≡ false)
      → (frontier : Frontier E) (rows : List TaskRow)
      → length (next_frontier wanted frontier rows) + wanted_rows (updated frontier rows)
        ≡ wanted_rows rows
  unfolding next_frontier update_where count_where
  wanted-updated leaves frontier [] = refl
  wanted-updated leaves frontier (t ∷ rows) =
      let rest = wanted-updated leaves frontier rows in
      elim (Option-cases (from_parent frontier t.parent_task_id)) [
        | inl none_here ↦ ground (arith, rest)
        | inr (e, here) ↦ ground (arith, rest, leaves e t)
      ]

  wanted_le : (rows : List TaskRow) → wanted_rows rows ≤ length rows
  unfolding count_where
  wanted_le [] = omega arith
  wanted_le (t ∷ rows) = ground (arith, wanted_le rows)

  nil_of_zero : {A : Type 0} (xs : List A) → length xs ≡ 0 → xs ≡ []
  nil_of_zero [] h = refl
  nil_of_zero (x ∷ xs) h = ground arith

  nil_of_is_nil : (xs : Frontier E) → (is_nil xs ≡ true) ⊎ ((is_nil xs ≡ false) × (1 ≤ length xs))
  nil_of_is_nil [] = inl refl
  nil_of_is_nil (x ∷ xs) = inr (refl, omega arith)

  -- a cascade with nothing to take on
  stopped :
      ((e : E) (t : TaskRow) → wanted (set e t).status ≡ false)
      → (n : ℕ) (frontier : Frontier E) (rows : List TaskRow) → wanted_rows rows ≤ 0
      → cascade wanted set n frontier rows ≡ (0, rows)
  unfolding cascade
  stopped leaves zero frontier rows few = refl
  stopped leaves (suc n) frontier rows few =
      let none_left : next_frontier wanted frontier rows ≡ [] =
        nil_of_zero (next_frontier wanted frontier rows)
          (omega (arith, wanted-updated leaves frontier rows)) in
      ground (arith, none_left)

  agree :
      ((e : E) (t : TaskRow) → wanted (set e t).status ≡ false)
      → (m n : ℕ) (frontier : Frontier E) (rows : List TaskRow) → wanted_rows rows ≤ m
      → wanted_rows rows ≤ n
      → cascade wanted set m frontier rows ≡ cascade wanted set n frontier rows
  unfolding cascade
  agree leaves zero n frontier rows few also = sym (stopped leaves n frontier rows few)
  agree leaves (suc m) zero frontier rows few also = stopped leaves (suc m) frontier rows also
  agree leaves (suc m) (suc n) frontier rows few also =
      elim (nil_of_is_nil (next_frontier wanted frontier rows)) [
        | inl stop ↦ ground arith
        | inr (go, one) ↦
            let left = wanted-updated leaves frontier rows in
            let rest =
              agree leaves m n (next_frontier wanted frontier rows) (updated frontier rows)
                (omega (arith, left)) (omega (arith, left)) in
            ground (arith, rest)
      ]

  -- Where an updated row has left the wanted status, no number of rounds beyond the rows of the table
  -- changes the cascade: it has come to its end.
  pub cascade-enough :
      ((e : E) (t : TaskRow) → wanted (set e t).status ≡ false)
      → (rounds : ℕ) (frontier : Frontier E) (rows : List TaskRow) → length rows ≤ rounds
      → cascade wanted set rounds frontier rows ≡ cascade wanted set (length rows) frontier rows
  cascade-enough leaves rounds frontier rows enough =
      agree leaves rounds (length rows) frontier rows (omega (arith, wanted_le rows))
        (wanted_le rows)
