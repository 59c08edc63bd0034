-- ===== src/Task/Run/Totality.antt =====
-- RunBatch ends.
use edub_kushim.Base.{
  ℕ, String, ◌≡◌, refl, ◌∙◌, inl, inr, Bool, true, false, Option, none, some, List, [], ◌∷◌, any,
  arith, Bool-cases, Option-cases,
}
use edub_kushim.Types.{TaskType, LockName, task_types_waiting_on}
use edub_kushim.Types.Statuses.{batch_paused, BatchStatus-cases}
use edub_kushim.Task.Db.{Db}
use edub_kushim.Task.Db.Owners.{adopt_batch_owner}
use edub_kushim.Task.Catalog.{Catalog}
use edub_kushim.Task.Successors.{PlanError}
use edub_kushim.Task.Batch.Moving.{reset_processing}
use edub_kushim.Task.Run.Monitor.{monitor_total, wait_for_drain_total, Decides, ends_wait}
use edub_kushim.Task.Run.{
  RunWorld, Report, aborted, teardown, torn_down, held_locks, work, after_drain, drained, end_run,
  work_rounds, run_adopted, run_claimed_batch, list_batch_task_types, run_batch,
}

abbrev pub Ends : Option (Report × Db) → Type 0
Ends out = (report : Report) × (after : Db) × (out ≡ some (report, after))

Ends-of_eq : {out other : Option (Report × Db)} → Ends out → other ≡ out → Ends other
Ends-of_eq (report, after, e) same = (report, after, same ∙ e)

drained_total :
    (w : RunWorld) (held : List LockName)
    → any (ends_wait (task_types_waiting_on held)) w.polls ≡ true
    → (answer : Bool) × (drained w held ≡ some answer)
unfolding drained
drained_total w [] h = (true, refl)
drained_total w (name ∷ names) h =
    wait_for_drain_total (task_types_waiting_on (name ∷ names)) w.polls h

torn_down_total :
    (w : RunWorld) (b token : ℕ) (held : List LockName) (out : Option (Report × Db))
    → Ends out
    → Ends (torn_down w b token held out)
unfolding torn_down
torn_down_total w b token held none (report, after, e) = cc
torn_down_total w b token held (some (report, db)) h =
    (report, teardown w b token held (aborted report) (w.others 4 db), refl)

module _ (render : PlanError → String) (catalog : Catalog) (retries_text : ℕ → String)
    (max_retries : ℕ) (w : RunWorld) (b token : ℕ) (turns : Decides b w.ticks) where
  work_total : (db : Db) → Ends (work render catalog w b token db)
  unfolding work
  work_total db =
      let (ending, e) = monitor_total b w.ticks turns in
      let out =
        end_run render catalog w b token ending (work_rounds render catalog token w.rounds db) in
      (out.0, out.1, ground arith)

  drain_total :
      (answer : Bool) (db : Db) → Ends (after_drain render catalog w b token (some answer) db)
  unfolding after_drain
  drain_total false db = (Report.drain_failed, db, refl)
  drain_total true db = work_total db

  adopted_total :
      (held : List LockName) (db : Db)
      → any (ends_wait (task_types_waiting_on held)) w.polls ≡ true
      → Ends (run_adopted render catalog retries_text max_retries w b token held db)
  unfolding run_adopted
  adopted_total held db polls =
      let entry = w.others 0 db in
      let reset = (reset_processing retries_text b max_retries false entry).1 in
      let (answer, e) = drained_total w held polls in
      elim (Bool-cases w.reset_refused) [
        | inl r ↦ (Report.reset_failed, entry, ground arith)
        | inr r ↦ Ends-of_eq (drain_total answer (w.others 1 reset)) (ground arith)
      ]

  claimed_total :
      (types : List TaskType) (db : Db)
      → any (ends_wait (task_types_waiting_on (held_locks [] types))) w.polls ≡ true
      → Ends (run_claimed_batch render catalog retries_text max_retries w b token types db)
  unfolding run_claimed_batch
  claimed_total [] db polls = (Report.no_types, db, refl)
  claimed_total (type ∷ types) db polls =
      let held = held_locks [] (type ∷ types) in
      let leased = (adopt_batch_owner b token w.pid db).1 in
      let run = run_adopted render catalog retries_text max_retries w b token held leased in
      elim (Bool-cases (adopt_batch_owner b token w.pid db).0) [
        | inr e ↦ (Report.not_adopted, db, ground arith)
        | inl e ↦
            Ends-of_eq (torn_down_total w b token held run (adopted_total held leased polls))
              (ground arith)
      ]

  -- A run ends where the monitor meets a turn that decides and the wait for the drain meets a poll that
  -- ends it. A turn decides where the context is done, where the batch is read and is paused or otherwise not
  -- processing, or where it is processing, its tasks are counted, and none of them is pending or processing.
  -- A poll ends the wait where the count fails, no task of the waiting types is processing, or the context
  -- is done.
  pub run_batch_total :
      (db : Db)
      → any (ends_wait (task_types_waiting_on (held_locks [] (list_batch_task_types b db)))) w.polls
        ≡ true
      → Ends (run_batch render catalog retries_text max_retries w b token db)
  unfolding run_batch
  run_batch_total db polls = elim (Option-cases (db.batches b)) [
    | inl absent ↦ (Report.not_found, db, ground arith)
    | inr (row, here) ↦ elim (Bool-cases (batch_paused row.status)) [
      | inl held ↦ (Report.was_paused, db, ground arith)
      | inr free ↦ elim (BatchStatus-cases row.status) [
        | inr idle ↦ (Report.not_claimed row.status, db, ground arith)
        | inl busy ↦ Ends-of_eq (claimed_total (list_batch_task_types b db) db polls) (ground arith)
      ]
    ]
  ]
