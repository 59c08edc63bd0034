-- ===== src/Task/Run.antt =====
-- internal/task/execute.go: RunBatch, the execution of a claimed batch from the adoption of its lease to
-- the teardown. A run of the workers is a list of rounds of Runner.Next, each in its own world, and the
-- monitor is a list of what its ticks saw; the heartbeats are steps of others. The quarantine of files has
-- no step, since files are not modelled.
pub mod Workers
pub mod Monitor
pub mod Teardown
pub mod Totality
use edub_kushim.Base.{
  ℕ, String, Bool, true, false, ◌&&◌, not, Option, none, some, List, [], ◌∷◌, any, if◌then◌else◌,
}
use edub_kushim.Base.Tables.{select_where}
use edub_kushim.Types.{
  TaskType, BatchStatus, LockName, all_task_types, lock_declaration_for, same_type,
  task_types_waiting_on,
}
use edub_kushim.Types.Statuses.{batch_processing, batch_paused}
use edub_kushim.Task.Errors.{Result, ok, err}
use edub_kushim.Task.Db.{Db, BatchRow}
use edub_kushim.Task.Db.Owners.{adopt_batch_owner, release_batch_owner}
use edub_kushim.Task.Db.Tasks.{in_batch}
use edub_kushim.Task.Db.Cascade.{discard_orphaned_successors}
use edub_kushim.Task.Db.Batches.{requeue_processing_batch}
use edub_kushim.Task.Locks.{union_lock_names, release_locks_for_token}
use edub_kushim.Task.Catalog.{Catalog}
use edub_kushim.Task.Successors.{PlanError}
use edub_kushim.Task.Batch.Settling.{settle_batch}
use edub_kushim.Task.Batch.Moving.{reset_processing}
use edub_kushim.Task.Runner.{World, run_next}
use edub_kushim.Task.Run.Monitor.{
  Poll, Tick, Ending, interrupted, paused, settled, completed, wait_for_drain, monitor,
}

-- ListBatchTaskTypes, in the registry's order; the program depends on the order nowhere but in the
-- order of the locks' names.
unfoldable pub list_batch_task_types : ℕ → Db → List TaskType
unfolding select_where same_type
list_batch_task_types b db =
    select_where (λ type. any (λ t. in_batch b t && same_type t.task_type type) db.tasks)
      all_task_types

-- The locks that the batch's types hold.
unfoldable pub held_locks : List LockName → List TaskType → List LockName
unfolding union_lock_names lock_declaration_for
held_locks held [] = held
held_locks held (type ∷ types) =
    held_locks (union_lock_names held (lock_declaration_for type).holds) types

-- adoptPID, with the process's own pid
unfoldable pub adopt_pid : Bool → ℕ → ℕ
adopt_pid in_process own_pid = if in_process then 0 else own_pid

-- What the world does during one run.
pub record RunWorld : Type 0 where
  pub pid : ℕ
  -- what others write before the n-th step of the run
  pub others : ℕ → Db → Db
  pub reset_refused : Bool
  pub polls : List Poll
  pub rounds : List (World × TaskType)
  pub ticks : List Tick
  pub sweep_refused : Bool
  pub settle_refused : Bool
  pub release_refused : Bool
  pub unlock_refused : Bool
  pub requeue_refused : Bool
  pub settle_uuids : ℕ → ℕ

pub data Report : Type 0 where
  not_found no_types not_adopted reset_failed drain_failed : Report
  not_claimed : BatchStatus → Report
  was_paused was_interrupted settle_failed : Report
  ended : BatchStatus → Report

-- Whether the report is one of an aborted execution: `requeue` in the source.
abbrev pub aborted : Report → Bool
aborted reset_failed = true
aborted drain_failed = true
aborted was_interrupted = true
aborted settle_failed = true
aborted _ = false

-- The deferred teardown: the lease, the locks, and an aborted run's batch goes back to the queue. A write
-- that the database refuses is logged, and the next one is tried all the same.
unfoldable pub teardown : RunWorld → ℕ → ℕ → List LockName → Bool → Db → Db
teardown w b token held requeue db =
    let released = if w.release_refused then db else (release_batch_owner b token db).1 in
    let before_unlock = w.others 5 released in
    let unlocked =
      if w.unlock_refused
      then before_unlock
      else release_locks_for_token (some token) held before_unlock in
    let before_requeue = w.others 6 unlocked in
    if not requeue
    then unlocked
    else if w.requeue_refused
    then before_requeue
    else (requeue_processing_batch b before_requeue).1

-- The teardown of whatever a run came to; a run that goes on has none.
unfoldable pub torn_down :
    RunWorld → ℕ → ℕ → List LockName → Option (Report × Db) → Option (Report × Db)
torn_down w b token held none = none
torn_down w b token held (some (report, db)) =
    some (report, teardown w b token held (aborted report) (w.others 4 db))

abbrev pub is_empty : List TaskType → Bool
is_empty [] = true
is_empty _ = false

-- A batch that holds no lock skips the drain.
unfoldable pub drained : RunWorld → List LockName → Option Bool
drained w [] = some true
drained w (name ∷ names) = wait_for_drain (task_types_waiting_on (name ∷ names)) w.polls

unfoldable pub settled_report : Result BatchStatus → Report
settled_report (ok status) = ended status
settled_report (err e) = settle_failed

module _ (render : PlanError → String) (catalog : Catalog) where
  -- The rounds of the workers, in the order of their claims.
  unfoldable pub work_rounds : ℕ → List (World × TaskType) → Db → Db
  work_rounds token [] db = db
  work_rounds token ((w, type) ∷ rounds) db =
      work_rounds token rounds (run_next render catalog w token type db).1

  -- The sweep and the terminal write of a run that was neither paused nor interrupted.
  unfoldable pub close_run : RunWorld → ℕ → ℕ → Db → Report × Db
  close_run w b token db =
      let swept = if w.sweep_refused then db else (discard_orphaned_successors b db).1 in
      let (status, after) =
        settle_batch catalog w.settle_uuids (record { batch = b; owner = some token })
          (w.others 3 swept) in
      if w.settle_refused then (settle_failed, w.others 3 swept) else (settled_report status, after)

  unfoldable pub end_run : RunWorld → ℕ → ℕ → Ending → Db → Report × Db
  end_run w b token interrupted db = (was_interrupted, db)
  end_run w b token paused db = (was_paused, db)
  end_run w b token settled db = close_run w b token (w.others 2 db)
  end_run w b token completed db = close_run w b token (w.others 2 db)

  -- The workers' rounds and what the monitor made of them; `none` is a run that still goes on.
  unfoldable pub work : RunWorld → ℕ → ℕ → Db → Option (Report × Db)
  work w b token db = elim (monitor b w.ticks) [
    | none ↦ none
    | some ending ↦ some (end_run w b token ending (work_rounds token w.rounds db))
  ]

  unfoldable pub after_drain : RunWorld → ℕ → ℕ → Option Bool → Db → Option (Report × Db)
  after_drain w b token none db = none
  after_drain w b token (some false) db = some (drain_failed, db)
  after_drain w b token (some true) db = work w b token db

  module _ (retries_text : ℕ → String) (max_retries : ℕ) where
    -- Between the adoption and the teardown.
    unfoldable pub run_adopted : RunWorld → ℕ → ℕ → List LockName → Db → Option (Report × Db)
    run_adopted w b token held db =
        let entry = w.others 0 db in
        let reset = (reset_processing retries_text b max_retries false entry).1 in
        if w.reset_refused
        then some (reset_failed, entry)
        else after_drain w b token (drained w held) (w.others 1 reset)

    -- The adoption and what follows it.
    unfoldable pub run_claimed_batch : RunWorld → ℕ → ℕ → List TaskType → Db → Option (Report × Db)
    run_claimed_batch w b token [] db = some (no_types, db)
    run_claimed_batch w b token (type ∷ types) db =
        let held = held_locks [] (type ∷ types) in
        let (adopted, leased) = adopt_batch_owner b token w.pid db in
        if not adopted
        then some (not_adopted, db)
        else torn_down w b token held (run_adopted w b token held leased)

    -- RunBatch: the report and the tables at its end, or `none` while it waits or watches.
    unfoldable pub run_batch : RunWorld → ℕ → ℕ → Db → Option (Report × Db)
    run_batch w b token db = elim (db.batches b) [
      | none ↦ some (not_found, db)
      | some row ↦
          if batch_paused row.status
          then some (was_paused, db)
          else if not (batch_processing row.status)
          then some (not_claimed row.status, db)
          else run_claimed_batch w b token (list_batch_task_types b db) db
    ]
