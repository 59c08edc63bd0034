-- ===== src/Examples/Schedules.antt =====
-- Schedules and polling windows: small runs, and the theorems applied to them.
use edub_kushim.Base.{
  ℕ, String, ◌≡◌, ◌≤◌, ◌<◌, ◌*◌, ◌+◌, ◌⊎◌, ◌↔◌, refl, true, false, Option, none, some, List, [],
  ◌∷◌,
}
use mathlib.Core.List.{Memᴰ}
use edub_kushim.Tags.Names.{codes, same_text, is_empty}
use edub_kushim.Ops.Schedule.Slots.{
  whole_days, below_a_day, NextTime, IsClock, minute, day, parse_preferred_time, next_backup_time,
  next_occurrence, next_backup_time-NextTime,
}
use edub_kushim.Ops.Schedule.Times.{parse_hhmm, render_hhmm, end_of_day, parse_hhmm_iff, is_hhmm}
use edub_kushim.Ops.Schedule.Windows.{
  Submitted, window, listed, Opens, windows_of, validate_polling_windows, valid_entry,
  validate_polling_windows-Opens,
}
use edub_kushim.Ops.Schedule.Entries.{Entry, evaluate_unnamed, Answers, Scheduler, polling_interval}
use edub_kushim.Ops.Schedule.Entries.Cadence.{
  Event, tick, scan_done, Spaced, AllFrom, dispatches, firings, dispatches-Spaced, firings-AllFrom,
}

-- A clock that reads HH:MM.
abbrev clock : String → Option ℕ
clock s = parse_hhmm (codes s) false

clock-IsClock : IsClock clock
clock-IsClock = record { below_a_day = λ s m h. ((parse_hhmm_iff (codes s) m).0.0 h).0 }

-- ten in the morning of the fourth day
abbrev at_ten : ℕ
at_ten = 3 * day + 600 * minute

next_backup_time-NextTime_example :
    NextTime
      (parse_preferred_time clock "04:30")
      at_ten
      (whole_days 2)
      (next_backup_time clock at_ten (whole_days 2) "04:30")
next_backup_time-NextTime_example = next_backup_time-NextTime clock at_ten (whole_days 2) "04:30"

in_two_days : next_backup_time clock at_ten (whole_days 2) "04:30" ≡ 5 * day + 270 * minute
unfolding next_backup_time is_hhmm same_text parse_hhmm
in_two_days = refl

-- Every nine hours from two o'clock: at eleven in the evening the next is at five in the morning.
past_midnight :
    next_backup_time clock (3 * day + 1380 * minute) (below_a_day (540 * minute)) ""
    ≡ 4 * day + 300 * minute
unfolding next_backup_time is_hhmm same_text parse_hhmm
past_midnight = refl

parse_hhmm_iff_example :
    ((parse_hhmm (codes "07:45") false ≡ some 465)
      ↔ (465 < 1440) × (codes "07:45" ≡ render_hhmm 465))
    × ((parse_hhmm (codes "07:45") true ≡ some 465)
        ↔ ((465 < 1440) × (codes "07:45" ≡ render_hhmm 465))
          ⊎ ((codes "07:45" ≡ end_of_day) × (◌≡◌ {A = ℕ} 465 1440)))
parse_hhmm_iff_example = parse_hhmm_iff (codes "07:45") 465

abbrev night : List Submitted
night = window (codes "22:00") (codes "24:00") ∷ []

night_valid : validate_polling_windows (listed night) ≡ true
unfolding validate_polling_windows valid_entry is_hhmm same_text parse_hhmm is_empty
night_valid = refl

validate_polling_windows-Opens_example : Opens (codes "22:00") (codes "24:00") (windows_of night)
validate_polling_windows-Opens_example =
    validate_polling_windows-Opens night (codes "22:00") (codes "24:00") night_valid
      (Memᴰ.head refl)

abbrev fresh : Scheduler
fresh = record {
  first_due = λ name. none;
  last_fire = none;
  scan_in_flight = false;
  backfill_in_flight = false;
}

abbrev answers : Answers
answers = record { active_batches = λ name. 0; last_terminal = λ name. none; polling_minutes = 5 }

-- A second tick after two minutes, a third after six.
abbrev events : List Event
events = tick at_ten ∷ tick (at_ten + 2 * minute) ∷ scan_done ∷ tick (at_ten + 6 * minute) ∷ []

dispatches-Spaced_example :
    (minute ≤ polling_interval 5)
    × Spaced (polling_interval 5) none (dispatches answers fresh events)
dispatches-Spaced_example = dispatches-Spaced answers fresh events

two_scans : dispatches answers fresh events ≡ at_ten ∷ (at_ten + 6 * minute) ∷ []
unfolding dispatches polling_interval evaluate_unnamed
two_scans = refl

abbrev mirror : Entry
mirror = record {
  name = "mirror";
  enabled = true;
  timing = record { interval = whole_days 1; time = "02:00" };
}

firings-AllFrom_example :
    AllFrom
      (next_occurrence clock at_ten "02:00")
      (firings clock answers mirror fresh (at_ten ∷ (at_ten + day) ∷ []))
    × (at_ten < next_occurrence clock at_ten "02:00")
firings-AllFrom_example =
    firings-AllFrom clock answers mirror refl refl clock-IsClock fresh at_ten ((at_ten + day) ∷ [])
      refl
