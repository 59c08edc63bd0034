-- ===== src/Task/Store/Idle.antt =====
-- No task of an id is being processed under a token: what completing and failing it bring about.
use edub_kushim.Base.{
  ℕ, zero, suc, String, ◌≡◌, inl, inr, Bool, false, some, List, [], ◌∷◌, any, ltb, ◌==◌, length,
  arith, Bool-cases, Option-cases,
}
use edub_kushim.Base.Updates.{any-update_where_kept, any-update_where_cleared, any_of_count}
use edub_kushim.Types.{TaskStatus}
use edub_kushim.Types.Statuses.{is_waiting}
use edub_kushim.Task.Json.{Raw}
use edub_kushim.Task.Db.{Db, TaskRow}
use edub_kushim.Task.Db.Owners.{batch_leased_by}
use edub_kushim.Task.Db.Tasks.{
  leased_task, ended_row, completed_row, armed_row, waiting_row, complete_blocking_task,
  fail_blocking_task, set_waiting_successor_pending, discard_waiting_successor,
}
use edub_kushim.Task.Db.Cascade.{
  Frontier, from_parent, cascade, next_frontier, reached, inherit, is_nil, discard_waiting_branch,
}
use edub_kushim.Task.Store.{
  SuccessorPlan, activate_successor, activate_successors, discard_duplicate_successor,
  complete_task, fail_task,
}

abbrev pub Idle : ℕ → ℕ → Db → Type 0
Idle id token db = any (leased_task db id token) db.tasks ≡ false

-- An UPDATE of the kind keeps a search empty: the rows that it writes are not processing.
cascade-kept :
    (p : TaskRow → Bool) (set : String → TaskRow → TaskRow)
    → ((e : String) (t : TaskRow) → p t ≡ false → p (set e t) ≡ false)
    → (rounds : ℕ) (frontier : Frontier String) (rows : List TaskRow) → any p rows ≡ false
    → any p (cascade is_waiting set rounds frontier rows).1 ≡ false
unfolding cascade
cascade-kept p set h zero frontier rows none_before = none_before
cascade-kept p set h (suc rounds) frontier rows none_before =
    let hit = reached is_waiting frontier in
    let kept : (t : TaskRow) → p t ≡ false → p (inherit set frontier t) ≡ false = λ t k.
      elim (Option-cases (from_parent frontier t.parent_task_id)) [
        | inl e ↦ ground arith
        | inr (x, e) ↦ ground (arith, h x t k)
      ] in
    let next = next_frontier is_waiting frontier rows in
    elim (Bool-cases (is_nil next)) [
      | inl e ↦ ground arith
      | inr e ↦ ground (
        arith,
        cascade-kept p set h rounds next _
            (any-update_where_kept p hit (inherit set frontier) rows kept none_before),
      )
    ]

module _ (id token : ℕ) where
  discard_branch-Idle :
      (parent : ℕ) (error : String) (db : Db)
      → Idle id token db
      → Idle id token (discard_waiting_branch parent error db).1
  unfolding discard_waiting_branch batch_leased_by
  discard_branch-Idle parent error db h =
      cascade-kept (leased_task db id token) (ended_row TaskStatus.discarded db.now)
        (λ e t k. ground arith) (length db.tasks) ((parent, error) ∷ []) db.tasks h

  pub fail_task-Idle :
      (task_id : ℕ) (error : String) (db : Db)
      → Idle id token ((fail_task id task_id error token db).2)
  unfolding fail_task fail_blocking_task
  fail_task-Idle task_id error db =
      let hit = leased_task db id token in
      let failed = (fail_blocking_task id error token db).1 in
      let idle : Idle id token failed =
        any-update_where_cleared hit (ended_row TaskStatus.failed db.now error) db.tasks
          (λ t. ground arith) in
      elim (Bool-cases (ltb 0 (fail_blocking_task id error token db).0)) [
        | inl e ↦ ground (arith, discard_branch-Idle task_id error failed idle)
        | inr e ↦ ground (arith, idle)
      ]

  discard_successor-Idle :
      (row : ℕ) (error : String) (db : Db)
      → Idle id token db
      → Idle id token (discard_waiting_successor row error db).1
  unfolding discard_waiting_successor batch_leased_by
  discard_successor-Idle row error db h =
      any-update_where_kept (leased_task db id token) (waiting_row row)
        (ended_row TaskStatus.discarded db.now error) db.tasks (λ t k. ground arith) h

  discard_duplicate-Idle :
      (plan : SuccessorPlan) (db : Db)
      → Idle id token db
      → Idle id token (discard_duplicate_successor plan db)
  unfolding discard_duplicate_successor
  discard_duplicate-Idle plan db h =
      discard_branch-Idle plan.task_id _ (discard_waiting_successor plan.id _ db).1
        (discard_successor-Idle plan.id _ db h)

  set_pending-Idle :
      (row : ℕ) (payload : Raw) (key : String) (db : Db) {n : ℕ} {after : Db}
      → set_waiting_successor_pending row payload key db ≡ some (n, after)
      → Idle id token db
      → Idle id token after
  unfolding set_waiting_successor_pending batch_leased_by
  set_pending-Idle row payload key db e h =
      let kept =
        any-update_where_kept (leased_task db id token) (waiting_row row) (armed_row payload key)
          db.tasks (λ t k. ground arith) h in
      ground (arith, kept)

  activate-Idle :
      (plan : SuccessorPlan) (db : Db)
      → Idle id token db
      → Idle id token (activate_successor plan db).1
  unfolding activate_successor
  activate-Idle plan db h = elim (Option-cases plan.error) [
    | inr (error, e) ↦ ground (arith, discard_successor-Idle plan.id error db h)
    | inl e ↦
        elim (Option-cases (set_waiting_successor_pending plan.id plan.payload plan.dedup_key db)) [
          | inl taken ↦ ground (arith, discard_duplicate-Idle plan db h)
          | inr ((zero, after), set) ↦
              ground (arith, set_pending-Idle plan.id plan.payload plan.dedup_key db set h)
          | inr ((suc n, after), set) ↦
              ground (arith, set_pending-Idle plan.id plan.payload plan.dedup_key db set h)
        ]
  ]

  activate_all-Idle :
      (plans : List SuccessorPlan) (db : Db)
      → Idle id token db
      → Idle id token (activate_successors plans db).1
  unfolding activate_successors
  activate_all-Idle [] db h = h
  activate_all-Idle (plan ∷ plans) db h =
      activate_all-Idle plans (activate_successor plan db).1 (activate-Idle plan db h)

  pub complete_task-Idle :
      (result : Raw) (plans : List SuccessorPlan) (db : Db)
      → Idle id token ((complete_task id result token plans db).2)
  unfolding complete_task complete_blocking_task
  complete_task-Idle result plans db =
      let hit = leased_task db id token in
      let completed = (complete_blocking_task id result token db).1 in
      let idle : Idle id token completed =
        any-update_where_cleared hit (completed_row db.now result) db.tasks (λ t. ground arith) in
      elim (Bool-cases ((complete_blocking_task id result token db).0 == 0)) [
        | inl e ↦ ground (arith, any_of_count hit db.tasks (ground arith))
        | inr e ↦ ground (arith, activate_all-Idle plans completed idle)
      ]
