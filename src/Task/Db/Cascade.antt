-- ===== src/Task/Db/Cascade.antt =====
-- The recursive queries over successor links. A round updates the rows of the wanted status whose
-- parent is in the frontier, and its rows are the next frontier. An updated row has left the wanted
-- status, so the rows wanted fall in every round that goes on, and as many rounds as rows suffice.
pub mod Rounds
use edub_kushim.Base.{
  ℕ, zero, suc, ◌+◌, String, Bool, true, false, ◌&&◌, Option, none, some, List, [], ◌∷◌, map,
  length, any, ◌==◌, if◌then◌else◌,
}
use edub_kushim.Base.Tables.{update_where, select_where, count_where, find_where, is_id}
use edub_kushim.Types.{TaskStatus}
use edub_kushim.Types.Statuses.{is_waiting, is_discarded, is_unstarted}
use edub_kushim.Task.Db.Rows.{Db, TaskRow}
use edub_kushim.Task.Db.Tasks.{with_tasks, in_batch, ended_row}

-- A frontier: task ids, each with what its children inherit.
abbrev pub Frontier : Type 0 → Type 0
Frontier E = List (ℕ × E)

module _ {E : Type 0} where
  -- the frontier's entry for a row's parent
  unfoldable pub from_parent : Frontier E → Option ℕ → Option E
  from_parent frontier none = none
  from_parent [] (some p) = none
  from_parent ((k, e) ∷ rest) (some p) = if k == p then some e else from_parent rest (some p)

  abbrev pub reached : (TaskStatus → Bool) → Frontier E → TaskRow → Bool
  reached wanted frontier t =
      wanted t.status
      && elim (from_parent frontier t.parent_task_id) [ none ↦ false | some e ↦ true ]

  abbrev pub inherit : (E → TaskRow → TaskRow) → Frontier E → TaskRow → TaskRow
  inherit set frontier t = elim (from_parent frontier t.parent_task_id) [
    | none ↦ t
    | some e ↦ set e t
  ]

  unfoldable pub next_frontier : (TaskStatus → Bool) → Frontier E → List TaskRow → Frontier E
  next_frontier wanted frontier [] = []
  next_frontier wanted frontier (t ∷ rows) =
      let rest = next_frontier wanted frontier rows in
      if wanted t.status
      then elim (from_parent frontier t.parent_task_id) [
        | none ↦ rest
        | some e ↦ (t.task_id, e) ∷ rest
      ]
      else rest

  abbrev pub is_nil : Frontier E → Bool
  is_nil [] = true
  is_nil _ = false

  -- the rows after the cascade, and how many it updated
  unfoldable pub cascade :
      (TaskStatus → Bool)
      → (E → TaskRow → TaskRow)
      → ℕ
      → Frontier E
      → List TaskRow
      → ℕ × List TaskRow
  unfolding update_where next_frontier
  cascade wanted set zero frontier rows = (0, rows)
  cascade wanted set (suc rounds) frontier rows =
      let next = next_frontier wanted frontier rows in
      let updated = update_where (reached wanted frontier) (inherit set frontier) rows in
      let rest = cascade wanted set rounds next updated in
      if is_nil next then (0, rows) else (length next + rest.0, rest.1)

-- DiscardWaitingSuccessorBranch
unfoldable pub discard_waiting_branch : ℕ → String → Db → ℕ × Db
unfolding cascade
discard_waiting_branch parent error db =
    let (n, rows) =
      cascade is_waiting (λ e. ended_row TaskStatus.discarded db.now e) (length db.tasks)
        ((parent, error) ∷ []) db.tasks in
    (n, with_tasks db rows)

abbrev restored_row : TaskRow → TaskRow
restored_row t = record t { status = TaskStatus.waiting; error = none; completed_at = none }

abbrev starting : (TaskRow → Bool) → List TaskRow → Frontier (Unit {0})
starting p rows = map (λ (t : TaskRow). (t.task_id, tt)) (select_where p rows)

-- RestoreDiscardedSuccessorsByBatch
unfoldable pub restore_discarded_successors : ℕ → Db → Db
unfolding cascade select_where
restore_discarded_successors b db =
    let live_parents = starting (λ t. is_unstarted t.status && in_batch b t) db.tasks in
    with_tasks db
      (cascade is_discarded (λ _. restored_row) (length db.tasks) live_parents db.tasks).1

abbrev pub is_ended : TaskStatus → Bool
is_ended TaskStatus.completed = true
is_ended TaskStatus.failed = true
is_ended TaskStatus.cancelled = true
is_ended TaskStatus.discarded = true
is_ended _ = false

-- COALESCE(p.error, …)
abbrev dead_reason : Option String → String
dead_reason none = "parent task did not complete"
dead_reason (some e) = e

-- DiscardOrphanedWaitingSuccessors
unfoldable pub discard_orphaned_successors : ℕ → Db → ℕ × Db
unfolding cascade select_where
discard_orphaned_successors b db =
    let dead =
      map (λ (t : TaskRow). (t.task_id, dead_reason t.error))
        (select_where (λ t. is_ended t.status && in_batch b t) db.tasks) in
    let (n, rows) =
      cascade is_waiting (λ e. ended_row TaskStatus.discarded db.now e) (length db.tasks) dead
        db.tasks in
    (n, with_tasks db rows)
