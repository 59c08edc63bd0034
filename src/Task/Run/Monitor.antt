-- ===== src/Task/Run/Monitor.antt =====
-- The drain before a run that holds locks, and the monitor that ends a run.
use edub_kushim.Base.{
  ℕ, Bool, true, false, ◌&&◌, ◌||◌, not, Option, none, some, List, [], ◌∷◌, ◌==◌, any,
  if◌then◌else◌, all, ◌≡◌, ◌≢◌, ap, refl, inl, inr, arith, Bool-cases, Option-cases, ◌++◌,
}
use edub_kushim.Types.{TaskType, TaskStatus, BatchStatus}
use mathlib.Core.List.{Memᴰ}
use edub_kushim.Types.Statuses.{batch_processing, batch_paused, is_live}
use edub_kushim.Task.Db.{Db, BatchRow, TaskRow}
use edub_kushim.Task.Db.Tasks.{in_batch, count_processing_tasks}

-- One round of WaitForTaskDrain: the query failed, the context ended in the wait after a count, or the
-- count was taken on these tables.
pub data Poll : Type 0 where
  count_failed : Poll
  counted : Db → (context_ended : Bool) → Poll

-- WaitForTaskDrain: true is drained, false an error, and `none` is that it still waits.
unfoldable pub wait_for_drain : List TaskType → List Poll → Option Bool
wait_for_drain types [] = none
wait_for_drain types (count_failed ∷ polls) = some false
wait_for_drain types (counted db stop ∷ polls) =
    let rest = wait_for_drain types polls in
    if count_processing_tasks types db == 0 then some true else if stop then some false else rest

-- What a turn of the monitor met: the end of the context, a batch that could not be read, or a batch
-- on these tables, with whether its tasks could be counted.
pub data Tick : Type 0 where
  context_done : Tick
  unread : Tick
  seen : (counts_read : Bool) → Db → Tick

pub data Ending : Type 0 where
  interrupted paused settled completed : Ending

-- counts.Pending + counts.Processing is not 0
unfoldable pub has_live_task : ℕ → Db → Bool
has_live_task b db = any (λ t. in_batch b t && is_live t.status) db.tasks

abbrev look_row : ℕ → Bool → Db → Option BatchRow → Option Ending
look_row b counts_read db none = none
look_row b counts_read db (some row) =
    if batch_paused row.status
    then some paused
    else if not (batch_processing row.status)
    then some settled
    else if counts_read && not (has_live_task b db)
    then some completed
    else none

-- One turn: `none` goes on.
unfoldable pub look : ℕ → Tick → Option Ending
look b context_done = some interrupted
look b unread = none
look b (seen counts_read db) = look_row b counts_read db (db.batches b)

abbrev pub goes_on : Option Ending → Bool
goes_on none = true
goes_on (some ending) = false

-- The monitor: `none` is that it still watches.
unfoldable pub monitor : ℕ → List Tick → Option Ending
monitor b [] = none
monitor b (tick ∷ ticks) =
    let rest = monitor b ticks in elim (look b tick) [ none ↦ rest | some ending ↦ some ending ]

-- A monitor ends at the first turn that decides, as that turn decides.
pub monitor-first :
    (b : ℕ) (before : List Tick) (tick : Tick) (after : List Tick) (ending : Ending)
    → all (λ t. goes_on (look b t)) before ≡ true
    → look b tick ≡ some ending
    → monitor b (before ++ tick ∷ after) ≡ some ending
unfolding monitor
monitor-first b [] tick after ending calm decides = ground arith
monitor-first b (t ∷ before) tick after ending calm decides =
    let rest = monitor-first b before tick after ending (ground arith) decides in
    elim (Option-cases (look b t)) [ inl e ↦ ground (arith, rest) | inr (x, e) ↦ ground arith ]

-- What decides a turn: the context is done, or the batch is read and is paused or otherwise not processing,
-- or its tasks are counted too and none is pending or processing.
pub data IsDeciding (b : ℕ) : Tick → Ending → Type 0 where
  on_done : IsDeciding b context_done interrupted
  on_paused :
      {counts_read : Bool} {db : Db} {row : BatchRow}
      → db.batches b ≡ some row
      → row.status ≡ BatchStatus.paused
      → IsDeciding b (seen counts_read db) paused
  on_settled :
      {counts_read : Bool} {db : Db} {row : BatchRow}
      → db.batches b ≡ some row
      → row.status ≢ BatchStatus.paused
      → row.status ≢ BatchStatus.processing
      → IsDeciding b (seen counts_read db) settled
  on_completed :
      {db : Db} {row : BatchRow}
      → db.batches b ≡ some row
      → row.status ≡ BatchStatus.processing
      → ((t : TaskRow)
          → Memᴰ t db.tasks
          → t.batch_id ≡ some b
          → (t.status ≢ TaskStatus.pending) × (t.status ≢ TaskStatus.processing))
      → IsDeciding b (seen true db) completed

not_live : (s : TaskStatus) → s ≢ TaskStatus.pending → s ≢ TaskStatus.processing → is_live s ≡ false
not_live TaskStatus.pending p q = elim (p refl) [ ]
not_live TaskStatus.processing p q = elim (q refl) [ ]
not_live s p q = refl

not_running :
    (s : BatchStatus)
    → s ≢ BatchStatus.paused
    → s ≢ BatchStatus.processing
    → (batch_paused s ≡ false) × (batch_processing s ≡ false)
not_running BatchStatus.paused a p = elim (a refl) [ ]
not_running BatchStatus.processing a p = elim (p refl) [ ]
not_running s a p = (refl, refl)

no_live :
    (b : ℕ) (rows : List TaskRow)
    → ((t : TaskRow)
        → Memᴰ t rows
        → t.batch_id ≡ some b
        → (t.status ≢ TaskStatus.pending) × (t.status ≢ TaskStatus.processing))
    → any (λ t. in_batch b t && is_live t.status) rows ≡ false
no_live b [] h = refl
no_live b (t ∷ rows) h =
    let rest = no_live b rows (λ x m. h x (Memᴰ.tail m)) in
    elim (Bool-cases (in_batch b t)) [
      | inr away ↦ ground (arith, away, rest)
      | inl member ↦
          let here : t.batch_id ≡ some b = ground (arith, member) in
          let (p, q) = h t (Memᴰ.head refl) here in ground (arith, not_live t.status p q, rest)
    ]

pub look-IsDeciding :
    (b : ℕ) {tick : Tick} {ending : Ending} → IsDeciding b tick ending → look b tick ≡ some ending
unfolding look has_live_task
look-IsDeciding b on_done = refl
look-IsDeciding b (on_paused {row} here status) = ground (arith, here, status)
look-IsDeciding b (on_settled {row} here a p) =
    let (away, idle) = not_running row.status a p in ground (arith, here, away, idle)
look-IsDeciding b (on_completed {db} {row} here status calm) =
    ground (arith, here, status, no_live b db.tasks calm)

-- A turn of the run decides how it ends.
pub record Decides (b : ℕ) (ticks : List Tick) : Type 0 where
  pub tick : Tick
  pub ending : Ending
  pub member : Memᴰ tick ticks
  pub decides : IsDeciding b tick ending

monitor-member :
    (b : ℕ) (ticks : List Tick) (tick : Tick) (ending : Ending)
    → Memᴰ tick ticks
    → look b tick ≡ some ending
    → (first : Ending) × (monitor b ticks ≡ some first)
unfolding monitor
monitor-member b [] tick ending m h = elim m [ ]
monitor-member b (t ∷ ticks) tick ending (Memᴰ.head e) h =
    (ending, ground (arith, ap (look b) e, h))
monitor-member b (t ∷ ticks) tick ending (Memᴰ.tail m) h = elim (Option-cases (look b t)) [
  | inl e ↦
      let (first, found) = monitor-member b ticks tick ending m h in (first, ground (arith, found))
  | inr (first, e) ↦ (first, ground arith)
]

pub monitor_total :
    (b : ℕ) (ticks : List Tick)
    → Decides b ticks
    → (ending : Ending) × (monitor b ticks ≡ some ending)
monitor_total b ticks d =
    monitor-member b ticks d.tick d.ending d.member (look-IsDeciding b d.decides)

abbrev pub ends_wait : List TaskType → Poll → Bool
ends_wait types count_failed = true
ends_wait types (counted db stop) = count_processing_tasks types db == 0 || stop

pub wait_for_drain_total :
    (types : List TaskType) (polls : List Poll)
    → any (ends_wait types) polls ≡ true
    → (answer : Bool) × (wait_for_drain types polls ≡ some answer)
unfolding wait_for_drain
wait_for_drain_total types [] h = cc
wait_for_drain_total types (count_failed ∷ polls) h = (false, refl)
wait_for_drain_total types (counted db stop ∷ polls) h =
    elim (Bool-cases (count_processing_tasks types db == 0)) [
      | inl e ↦ (true, ground arith)
      | inr e ↦ elim (Bool-cases stop) [
        | inl s ↦ (false, ground arith)
        | inr s ↦
            let (answer, found) = wait_for_drain_total types polls (ground arith) in
            (answer, ground (arith, found))
      ]
    ]
