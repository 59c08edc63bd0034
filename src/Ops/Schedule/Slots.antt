-- ===== src/Ops/Schedule/Slots.antt =====
-- internal/backup/scheduler.go: the next slot of a schedule. A time of day is in minutes; time.Parse is the
-- parameter `clock`.
use edub_kushim.Base.{
  ℕ, zero, suc, ◌+◌, ◌*◌, ◌/◌, ◌%◌, ◌≤◌, ◌<◌, ◌≡◌, refl, ◌∙◌, inl, inr, String, Option, none, some,
  ltb, if◌then◌else◌, arith, Bool-cases, Option-cases,
}
use text.Mathlib.Text.{◌==◌ as str_eq}

abbrev pub minute : ℕ
minute = 60000000000

abbrev pub day : ℕ
day = 86400000000000

-- The interval in days: from one day on by its whole days, below one by the duration it is converted to.
-- A value that is not positive is one day.
pub data Interval : Type 0 where
  not_positive : Interval
  whole_days : ℕ → Interval
  below_a_day : ℕ → Interval

-- parsePreferredTime
unfoldable pub parse_preferred_time : (String → Option ℕ) → String → ℕ
parse_preferred_time clock preferred =
    let pref = if str_eq preferred "" then "02:00" else preferred in
    elim (clock pref) [
      | some minutes ↦ minutes
      | none ↦ elim (clock "02:00") [ none ↦ 0 | some minutes ↦ minutes ]
    ]

-- time.Date of the instant's day with an hour and a minute
unfoldable pub slot_of_day : ℕ → ℕ → ℕ
slot_of_day instant minutes = instant / day * day + minutes * minute

-- `for !candidate.After(after) { candidate += step }`, on fuel
unfoldable pub step_past : (fuel after step candidate : ℕ) → ℕ
step_past zero after step candidate = candidate
step_past (suc fuel) after step candidate =
    let rest = step_past fuel after step (candidate + step) in
    if ltb after candidate then candidate else rest

-- The branch of an interval from one day on.
unfoldable pub next_whole_day : ℕ → ℕ → ℕ → ℕ
unfolding step_past
next_whole_day after days minutes =
    step_past (suc after) after day (slot_of_day (after / day * day + days * day) minutes)

-- NextBackupTime
unfoldable pub next_backup_time : (String → Option ℕ) → ℕ → Interval → String → ℕ
unfolding next_whole_day step_past slot_of_day parse_preferred_time
next_backup_time clock after not_positive preferred =
    next_whole_day after 1 (parse_preferred_time clock preferred)
next_backup_time clock after (whole_days days) preferred =
    next_whole_day after days (parse_preferred_time clock preferred)
next_backup_time clock after (below_a_day step) preferred =
    step_past (suc after) after step (slot_of_day after (parse_preferred_time clock preferred))

-- NextOccurrence
unfoldable pub next_occurrence : (String → Option ℕ) → ℕ → String → ℕ
unfolding slot_of_day parse_preferred_time
next_occurrence clock now preferred =
    let candidate = slot_of_day now (parse_preferred_time clock preferred) in
    if ltb now candidate then candidate else candidate + day

-- The clock reads times of day.
pub record IsClock (clock : String → Option ℕ) : Type 0 where
  pub below_a_day : (text : String) (minutes : ℕ) → clock text ≡ some minutes → minutes < 1440

preferred_bound :
    {clock : String → Option ℕ} (reads : IsClock clock) (preferred : String)
    → parse_preferred_time clock preferred < 1440
unfolding parse_preferred_time
preferred_bound {clock} reads preferred =
    let pref = if str_eq preferred "" then "02:00" else preferred in
    elim (Option-cases (clock pref)) [
      | inr (m, e) ↦ ground (arith, reads.below_a_day pref m e)
      | inl e ↦ elim (Option-cases (clock "02:00")) [
        | inr (m, d) ↦ ground (arith, reads.below_a_day "02:00" m d)
        | inl d ↦ ground arith
      ]
    ]

-- With enough fuel the loop stops after the bound, at the first such candidate.
pub record FirstPast (after step start r : ℕ) : Type 0 where
  pub steps : ℕ
  pub on_grid : r ≡ start + steps * step
  pub past : after < r
  pub first : (k : ℕ) → k < steps → start + k * step ≤ after

first-suc :
    (after step start n : ℕ)
    → start ≤ after
    → ((k : ℕ) → k < n → start + step + k * step ≤ after)
    → (k : ℕ) → k < suc n
    → start + k * step ≤ after
first-suc after step start n now later zero h = omega (arith, now)
first-suc after step start n now later (suc k) h = grind (arith, later k (omega arith))

step_past-FirstPast :
    (fuel after step start : ℕ)
    → 0 < step
    → after < start + fuel
    → FirstPast after step start (step_past fuel after step start)
unfolding step_past
step_past-FirstPast zero after step start pos enough = record {
  steps = 0;
  on_grid = omega arith;
  past = omega arith;
  first = λ k h. elim h [ ];
}
step_past-FirstPast (suc fuel) after step start pos enough = elim (Bool-cases (ltb after start)) [
  | inl e ↦ record {
    steps = 0;
    on_grid = ground arith;
    past = ground arith;
    first = λ k h. elim h [ ];
  }
  | inr e ↦
      let rest = step_past-FirstPast fuel after step (start + step) pos (ground arith) in
      record {
        steps = suc rest.steps;
        on_grid = grind (arith, rest.on_grid);
        past = ground (arith, rest.past);
        first = first-suc after step start rest.steps (ground arith) rest.first;
      }
]

-- What is promised of the next time, by the interval.
abbrev pub NextTime : ℕ → ℕ → Interval → ℕ → Type 0
NextTime minutes after not_positive r =
    (r ≡ (after / day + 1) * day + minutes * minute) × (after < r)
NextTime minutes after (whole_days days) r =
    0 < days → (r ≡ (after / day + days) * day + minutes * minute) × (after < r)
NextTime minutes after (below_a_day step) r =
    0 < step → FirstPast after step (after / day * day + minutes * minute) r

whole_day_slot :
    (after days minutes : ℕ)
    → 0 < days
    → (slot_of_day (after / day * day + days * day) minutes
        ≡ (after / day + days) * day + minutes * minute)
      × (after < (after / day + days) * day + minutes * minute)
unfolding slot_of_day
whole_day_slot after days minutes pos = (omega arith, omega arith)

step_past-past :
    (fuel after step candidate : ℕ)
    → after < candidate
    → step_past fuel after step candidate ≡ candidate
unfolding step_past
step_past-past zero after step candidate h = refl
step_past-past (suc fuel) after step candidate h = ground arith

whole_day_next :
    (after days minutes : ℕ)
    → 0 < days
    → (next_whole_day after days minutes ≡ (after / day + days) * day + minutes * minute)
      × (after < next_whole_day after days minutes)
unfolding next_whole_day
whole_day_next after days minutes pos =
    let start = slot_of_day (after / day * day + days * day) minutes in
    let (at, past) = whole_day_slot after days minutes pos in
    let stays : step_past (suc after) after day start ≡ start =
      step_past-past (suc after) after day start (omega (arith, at, past)) in
    (stays ∙ at, omega (arith, stays, at, past))

-- The next time of an interval from one day on is the preferred time that many days after the instant's
-- day, and after the instant. Below one day it is the first of the times that follow the preferred time
-- of the instant's day in steps of the interval, to be after the instant; the steps go on past midnight.
pub next_backup_time-NextTime :
    (clock : String → Option ℕ) (after : ℕ) (interval : Interval) (preferred : String)
    → NextTime
        (parse_preferred_time clock preferred)
        after
        interval
        (next_backup_time clock after interval preferred)
unfolding next_backup_time
next_backup_time-NextTime clock after not_positive preferred =
    whole_day_next after 1 (parse_preferred_time clock preferred) (omega arith)
next_backup_time-NextTime clock after (whole_days days) preferred =
    λ pos. whole_day_next after days (parse_preferred_time clock preferred) pos
next_backup_time-NextTime clock after (below_a_day step) preferred = λ pos.
    step_past-FirstPast (suc after) after step
      (slot_of_day after (parse_preferred_time clock preferred)) pos (omega arith)

slot-bounds :
    (now minutes : ℕ)
    → minutes < 1440
    → (slot_of_day now minutes % day ≡ minutes * minute)
      × (slot_of_day now minutes / day ≡ now / day)
unfolding slot_of_day
slot-bounds now minutes h = (omega arith, omega arith)

-- The next occurrence is after the instant, within a day of it, at the preferred time of day, and no other
-- instant at that time of day lies between.
pub next_occurrence_first :
    (clock : String → Option ℕ) (reads : IsClock clock) (now : ℕ) (preferred : String)
    → (now < next_occurrence clock now preferred)
      × (next_occurrence clock now preferred ≤ now + day)
      × (next_occurrence clock now preferred % day ≡ parse_preferred_time clock preferred * minute)
      × ((t : ℕ)
          → now < t
          → t % day ≡ parse_preferred_time clock preferred * minute
          → next_occurrence clock now preferred ≤ t)
unfolding next_occurrence slot_of_day
next_occurrence_first clock reads now preferred =
    let m = parse_preferred_time clock preferred in
    let bound = preferred_bound reads preferred in
    elim (Bool-cases (ltb now (slot_of_day now m))) [
      | inl e ↦ (ground arith, ground arith, ground arith, λ t h k. ground arith)
      | inr e ↦ (ground arith, ground arith, ground arith, λ t h k. ground arith)
    ]
