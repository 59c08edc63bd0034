-- ===== src/Ops/Schedule/Entries.antt =====
-- internal/ops/queue/scheduler.go: the entries of the recurring work, and one evaluation of an entry. The
-- answers of the two queries on schedules and the settings are arguments. What an entry fires is an enqueue,
-- Task.Enqueue; a background job ends by a step of its own.
pub mod Cadence
use Prim.Native.String.{◌++◌ as ◌<>◌}
use edub_kushim.Base.{
  ℕ, ◌+◌, ◌*◌, String, Bool, true, false, ◌&&◌, not, Option, none, some, List, [], ◌∷◌, ◌++◌, leb,
  ltb, if◌then◌else◌,
}
use text.Mathlib.Text.{◌==◌ as str_eq}
use edub_kushim.Ops.Schedule.Slots.{Interval, whole_days, minute, next_backup_time, next_occurrence}

pub record Timing : Type 0 where
  pub interval : Interval
  pub time : String

-- An entry under the current configuration; the unnamed one is the inbox scan.
pub record Entry : Type 0 where
  pub name : String
  pub enabled : Bool
  pub timing : Timing

-- What the entries read of the configuration.
pub record Settings : Type 0 where
  pub backup_enabled : Bool
  pub backups : List (String × Timing)
  pub mirror_enabled : Bool
  pub thumbnails_enabled : Bool
  pub backfill_positive : Bool
  pub reconcile_enabled : Bool
  pub measure_enabled : Bool
  pub adjudicator_enabled : Bool
  pub audit_enabled : Bool
  pub maintenance_enabled : Bool
  pub polling_enabled : Bool
  pub polling_active : Bool
  pub mirror : Timing
  pub backfill : Timing
  pub reconcile : Timing
  pub measure : Timing
  pub audit : Timing
  pub maintenance : Timing

abbrev entry : String → Bool → Timing → Entry
entry name enabled timing = record { name = name; enabled = enabled; timing = timing }

abbrev daily : String → Timing
daily time = record { interval = whole_days 1; time = time }

abbrev backup_entries : List (String × Timing) → List Entry
backup_entries [] = []
backup_entries ((mode, timing) ∷ rest) = entry ("backup:" <> mode) true timing ∷ backup_entries rest

-- pollingEntry, which declares no timing: the one here is never read
abbrev pub polling_entry : Settings → Entry
polling_entry s = entry "" (s.polling_enabled && s.polling_active) (daily "")

-- entriesFor
unfoldable pub entries_for : Settings → List Entry
entries_for s =
    (if s.backup_enabled then backup_entries s.backups else [])
    ++ (entry "mirror" s.mirror_enabled s.mirror
        ∷ entry "thumbnail-backfill" (s.thumbnails_enabled && s.backfill_positive) s.backfill
        ∷ entry "tagreconcile" (s.reconcile_enabled && not s.maintenance_enabled) s.reconcile
        ∷ entry "tagmeasure" (s.measure_enabled && not s.maintenance_enabled) s.measure
        ∷ entry "tagidentity" s.adjudicator_enabled (daily "03:30")
        ∷ entry "tagsplitreask" s.adjudicator_enabled (daily "04:30")
        ∷ entry "tagaudit" (s.audit_enabled && not s.maintenance_enabled) s.audit
        ∷ entry "tagmaintenance" s.maintenance_enabled s.maintenance
        ∷ polling_entry s
        ∷ [])

-- The state of the scheduler; `last_fire` is the entry of the unnamed one, the only that is written.
pub record Scheduler : Type 0 where
  pub first_due : String → Option ℕ
  pub last_fire : Option ℕ
  pub scan_in_flight : Bool
  pub backfill_in_flight : Bool

-- The polling interval in minutes, one at least.
unfoldable pub polling_interval : ℕ → ℕ
polling_interval minutes = if ltb (minutes * minute) minute then minute else minutes * minute

abbrev pub elapsed : ℕ → ℕ → Option ℕ → Bool
elapsed gap now none = true
elapsed gap now (some last) = leb (last + gap) now

-- intervalDue
unfoldable pub interval_due : ℕ → ℕ → Scheduler → Bool
interval_due minutes now s = elapsed (polling_interval minutes) now s.last_fire

abbrev anchor : String → ℕ → Scheduler → Scheduler
anchor name first s = record s {
  first_due = λ other. if str_eq other name then some first else s.first_due other;
}

-- due, with the creation time of the last terminal batch of the name
unfoldable pub due :
    (String → Option ℕ) → Option ℕ → ℕ → String → Timing → Scheduler → Bool × Scheduler
due clock (some last) now name timing s =
    (leb (next_backup_time clock last timing.interval timing.time) now, s)
due clock none now name timing s = elim (s.first_due name) [
  | some first ↦ (leb first now, s)
  | none ↦ let first = next_occurrence clock now timing.time in (leb first now, anchor name first s)
]

-- What becomes of an entry's occurrence.
pub data Action : Type 0 where
  disabled active idle in_flight background inline : Action

-- spawnBackground, by the flag of the entry
unfoldable pub spawn_background : Bool → Action × Bool
spawn_background true = (in_flight, true)
spawn_background false = (background, true)

abbrev pub thumbnail_backfill : String
thumbnail_backfill = "thumbnail-backfill"

-- The answers of the queries and the configured polling interval.
pub record Answers : Type 0 where
  pub active_batches : String → ℕ
  pub last_terminal : String → Option ℕ
  pub polling_minutes : ℕ

unfoldable pub fire_named : Entry → Scheduler → Action × Scheduler
unfolding spawn_background
fire_named e s =
    let (action, busy) = spawn_background s.backfill_in_flight in
    if str_eq e.name thumbnail_backfill
    then (action, record s { backfill_in_flight = busy })
    else (inline, s)

unfoldable pub evaluate_unnamed : Answers → ℕ → Scheduler → Action × Scheduler
unfolding interval_due spawn_background
evaluate_unnamed q now s =
    let (action, busy) = spawn_background s.scan_in_flight in
    if interval_due q.polling_minutes now s
    then (action, record s { last_fire = some now; scan_in_flight = busy })
    else (idle, s)

unfoldable pub evaluate_named :
    (String → Option ℕ) → Answers → ℕ → Entry → Scheduler → Action × Scheduler
unfolding due fire_named
evaluate_named clock q now e s =
    let (arrived, anchored) = due clock (q.last_terminal e.name) now e.name e.timing s in
    if ltb 0 (q.active_batches e.name)
    then (active, s)
    else if arrived
    then fire_named e anchored
    else (idle, anchored)

-- evaluate
unfoldable pub evaluate : (String → Option ℕ) → Answers → ℕ → Entry → Scheduler → Action × Scheduler
unfolding evaluate_unnamed evaluate_named
evaluate clock q now e s =
    if not e.enabled
    then (disabled, s)
    else if str_eq e.name ""
    then evaluate_unnamed q now s
    else evaluate_named clock q now e s
