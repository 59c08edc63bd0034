-- ===== src/Task/Runner/Attempts.antt =====
-- completeTaskWithRetry and the pause that a handler's error asks for.
use edub_kushim.Base.{
  ℕ, zero, suc, ◌+◌, ◌≤◌, ◌<◌, ◌≡◌, refl, ◌⊎◌, inl, inr, ap, ◌∙◌, subst, sym, ◌-◌, String, true,
  false, none, some, List, arith, Option-cases, ==_refl,
}
use edub_kushim.Types.{LockName, BatchStatus}
use edub_kushim.Task.Json.{Raw}
use edub_kushim.Task.Db.{Db, TaskRow, BatchRow}
use edub_kushim.Task.Db.Owners.{owned_by, release_batch_owner}
use edub_kushim.Task.Db.Tasks.{fail_blocking_task}
use edub_kushim.Task.Db.Cascade.{discard_waiting_branch}
use edub_kushim.Task.Db.Batches.{set_batch_paused, set_batch_status}
use edub_kushim.Task.Batch.Settling.{pause_batch}
use edub_kushim.Task.Locks.{held_by_batch, release_locks_for_batch}
use edub_kushim.Task.Catalog.{Catalog}
use edub_kushim.Task.Store.{SuccessorPlan, complete_task, fail_task}
use edub_kushim.Task.Successors.{PlanError}
use edub_kushim.Task.Runner.{
  World, Tried, landed, gave_up, failed, complete_from, complete_task_with_retry, max_attempts,
  fail_claimed, pause_or_settle, finish,
}

-- The batch is paused, and gave up its lease and its locks.
pub record Paused (b : ℕ) (row : BatchRow) (after : Db) : Type 0 where
  pub has_status : after.batches b ≡ some (record row { status = BatchStatus.paused })
  pub no_lease : after.owners b ≡ none
  pub no_lock : (name : LockName) → held_by_batch b (after.signals name) ≡ false

pause_batch-Paused :
    (token b : ℕ) (db : Db) (row : BatchRow)
    → db.batches b ≡ some row
    → row.status ≡ BatchStatus.processing
    → owned_by (db.owners b) token ≡ true
    → Paused b row (pause_batch (record { batch = b; owner = some token }) db).1
unfolding pause_batch set_batch_paused set_batch_status release_batch_owner release_locks_for_batch
pause_batch-Paused token b db row here busy leased = record {
  has_status = ground (arith, here, busy, leased, ==_refl b);
  no_lease = ground (arith, here, busy, leased, ==_refl b);
  no_lock = λ name. ground (arith, here, busy, leased);
}

fail_claimed_keeps :
    (w : World) (task : TaskRow) (token : ℕ) (message : String) (db : Db)
    → ((fail_claimed w task token message db).1.batches ≡ db.batches)
      × ((fail_claimed w task token message db).1.owners ≡ db.owners)
unfolding fail_claimed fail_task fail_blocking_task discard_waiting_branch
fail_claimed_keeps w task token message db = (ground arith, ground arith)

-- The tables after the gaps n + 1 to n + i.
unfoldable pub after_gaps : World → (n i : ℕ) → Db → Db
after_gaps w n zero db = db
after_gaps w n (suc i) db = after_gaps w (suc n) i (w.meanwhile (suc n) db)

-- The tries from n on, the i-th of which is the last: all before it were refused and not cut short.
pub record Reached (w : World) (n i : ℕ) : Type 0 where
  pub refused : (m : ℕ) → m < i → (e : String) × (w.complete_error (n + m) ≡ some e)
  pub carried_on : (m : ℕ) → m < i → w.interrupted (n + m) ≡ none

Reached-zero : (w : World) (n : ℕ) → Reached w n 0
Reached-zero w n = record { refused = λ m h. elim h [ ]; carried_on = λ m h. elim h [ ] }

refused-suc :
    (w : World) (n i : ℕ) {e : String}
    → w.complete_error n ≡ some e
    → Reached w (suc n) i
    → (m : ℕ) → m < suc i
    → (e' : String) × (w.complete_error (n + m) ≡ some e')
refused-suc w n i {e} first rest zero h = (e, ap w.complete_error (omega arith) ∙ first)
refused-suc w n i first rest (suc m) h =
    let (e', later) = rest.refused m (omega arith) in
    (e', ap w.complete_error (omega arith) ∙ later)

carried_on-suc :
    (w : World) (n i : ℕ)
    → w.interrupted n ≡ none
    → Reached w (suc n) i
    → (m : ℕ) → m < suc i
    → w.interrupted (n + m) ≡ none
carried_on-suc w n i first rest zero h = ap w.interrupted (omega arith) ∙ first
carried_on-suc w n i first rest (suc m) h =
    ap w.interrupted (omega arith) ∙ rest.carried_on m (omega arith)

Reached-suc :
    (w : World) (n i : ℕ) {e : String}
    → w.complete_error n ≡ some e
    → w.interrupted n ≡ none
    → Reached w (suc n) i
    → Reached w n (suc i)
Reached-suc w n i broke on rest = record {
  refused = refused-suc w n i broke rest;
  carried_on = carried_on-suc w n i on rest;
}

module _ (w : World) (task : TaskRow) (token : ℕ) (result : Raw) (plans : List SuccessorPlan) where
  -- The i-th try from n on is reached and lands, on the tables that the gaps left.
  pub record Lands (n left : ℕ) (db : Db) (out : Tried × Db) : Type 0 where
    pub try : ℕ
    pub in_time : try ≤ left
    pub reached : Reached w n try
    pub accepted : w.complete_error (n + try) ≡ none
    pub outcome :
        let done = complete_task task.id result token plans (after_gaps w n try db) in
        out ≡ (landed done.0 done.1, done.2)

  -- The i-th try is reached and refused, and either the run ended in the pause after it, or it was the
  -- last: the error given up with is the run's or the try's.
  pub record GivesUp (n left : ℕ) (db : Db) (out : Tried × Db) : Type 0 where
    pub try : ℕ
    pub in_time : try ≤ left
    pub reached : Reached w n try
    pub error : String
    pub broken : w.complete_error (n + try) ≡ some error
    pub reason : String
    pub final : (w.interrupted (n + try) ≡ some reason) ⊎ ((try ≡ left) × (reason ≡ error))
    pub outcome : out ≡ (gave_up reason, after_gaps w n try db)

  Lands-first :
      (n left : ℕ) (db : Db)
      → w.complete_error n ≡ none
      → Lands n left db
          (let done = complete_task task.id result token plans db in (landed done.0 done.1, done.2))
  unfolding after_gaps
  Lands-first n left db fine = record {
    try = 0;
    in_time = omega arith;
    reached = Reached-zero w n;
    accepted = ap w.complete_error (omega arith) ∙ fine;
    outcome = refl;
  }

  GivesUp-first :
      (n left : ℕ) (db : Db) (error reason : String)
      → w.complete_error n ≡ some error
      → (w.interrupted n ≡ some reason) ⊎ ((0 ≡ left) × (reason ≡ error))
      → GivesUp n left db (gave_up reason, db)
  unfolding after_gaps
  GivesUp-first n left db error reason broke why = record {
    try = 0;
    in_time = omega arith;
    reached = Reached-zero w n;
    error = error;
    broken = ap w.complete_error (omega arith) ∙ broke;
    reason = reason;
    final = elim why [ inl e ↦ inl (ap w.interrupted (omega arith) ∙ e) | inr last ↦ inr last ];
    outcome = refl;
  }

  module _ (n left : ℕ) (db : Db) {e : String} (broke : w.complete_error n ≡ some e)
      (on : w.interrupted n ≡ none) {out : Tried × Db} where
    Lands-later : Lands (suc n) left (w.meanwhile (suc n) db) out → Lands n (suc left) db out
    unfolding after_gaps
    Lands-later l = record {
      try = suc l.try;
      in_time = omega (arith, l.in_time);
      reached = Reached-suc w n l.try broke on l.reached;
      accepted = ap w.complete_error (omega arith) ∙ l.accepted;
      outcome = l.outcome;
    }

    GivesUp-later : GivesUp (suc n) left (w.meanwhile (suc n) db) out → GivesUp n (suc left) db out
    unfolding after_gaps
    GivesUp-later g = record {
      try = suc g.try;
      in_time = omega (arith, g.in_time);
      reached = Reached-suc w n g.try broke on g.reached;
      error = g.error;
      broken = ap w.complete_error (omega arith) ∙ g.broken;
      reason = g.reason;
      final = elim g.final [
        | inl e ↦ inl (ap w.interrupted (omega arith) ∙ e)
        | inr (last, same) ↦ inr (omega (arith, last), same)
      ];
      outcome = g.outcome;
    }

  complete_from-outcome :
      (left n : ℕ) (db : Db)
      → Lands n left db (complete_from w task token result plans left n db)
        ⊎ GivesUp n left db (complete_from w task token result plans left n db)
  unfolding complete_from
  complete_from-outcome zero n db = elim (Option-cases (w.complete_error n)) [
    | inl fine ↦ inl (subst (Lands n 0 db) (ground arith) (Lands-first n 0 db fine))
    | inr (e, broke) ↦
        inr (
          subst (GivesUp n 0 db) (ground arith) (GivesUp-first n 0 db e e broke (inr (refl, refl))))
  ]
  complete_from-outcome (suc left) n db = elim (Option-cases (w.complete_error n)) [
    | inl fine ↦
        inl (subst (Lands n (suc left) db) (ground arith) (Lands-first n (suc left) db fine))
    | inr (e, broke) ↦ elim (Option-cases (w.interrupted n)) [
      | inr (why, cut) ↦ inr (
          subst (GivesUp n (suc left) db) (ground arith)
            (GivesUp-first n (suc left) db e why broke (inl cut)))
      | inl on ↦ elim (complete_from-outcome left (suc n) (w.meanwhile (suc n) db)) [
        | inl l ↦
            inl (subst (Lands n (suc left) db) (ground arith) (Lands-later n left db broke on l))
        | inr g ↦
            inr
              (subst (GivesUp n (suc left) db) (ground arith) (GivesUp-later n left db broke on g))
      ]
    ]
  ]

  -- A completion is tried three times at most. The first try that the database accepts completes the
  -- task, on the tables as others left them by then; where there is none, all three were refused and the
  -- error is the last one's, or the run ended in the pause after a refused try and the error is the run's.
  -- Nothing of a refused try is kept.
  pub complete_task_with_retry-outcome :
      (render : PlanError → String) (catalog : Catalog) (db : Db)
      → Lands 0
          (max_attempts - 1)
          db
          (complete_task_with_retry render catalog w task token result plans db)
        ⊎ GivesUp 0
            (max_attempts - 1)
            db
            (complete_task_with_retry render catalog w task token result plans db)
  unfolding complete_task_with_retry
  complete_task_with_retry-outcome render catalog db = complete_from-outcome 2 0 db

module _ (render : PlanError → String) (catalog : Catalog) (w : World) (task : TaskRow) (token : ℕ)
    (b : ℕ) (in_batch : task.batch_id ≡ some b) (accepted : w.pause_refused ≡ false)
    (quiet : (later : Db)
      → ((w.before_settle later).batches b ≡ later.batches b)
        × ((w.before_settle later).owners b ≡ later.owners b)) where
  -- Where a handler's error asks for a pause while the run holds the lease of its processing batch, and
  -- nobody moves the batch in between, the batch is paused, without a lease or a lock, and not settled.
  pub finish-Paused :
      (message : String) (db : Db) {row : BatchRow}
      → db.batches b ≡ some row
      → row.status ≡ BatchStatus.processing
      → owned_by (db.owners b) token ≡ true
      → Paused b row (finish render catalog w task token (failed message true, db)).1
  unfolding finish pause_or_settle fail_claimed
  finish-Paused message db {row} here busy leased =
      let later = (fail_claimed w task token message db).1 in
      let before = w.before_settle later in
      let keeps = fail_claimed_keeps w task token message db in
      let (same_row, same_owner) = quiet later in
      let held : before.batches b ≡ some row = same_row ∙ ap (λ f. f b) keeps.0 ∙ here in
      let lease : owned_by (before.owners b) token ≡ true =
        ap (λ o. owned_by o token) (same_owner ∙ ap (λ f. f b) keeps.1) ∙ leased in
      let paused : pause_or_settle render catalog w task token true task.batch_id before
          ≡ (pause_batch (record { batch = b; owner = some token }) before).1 =
        ground arith in
      subst (Paused b row) (sym paused) (pause_batch-Paused token b before row held busy lease)
