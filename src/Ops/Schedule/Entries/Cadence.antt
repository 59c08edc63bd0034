-- ===== src/Ops/Schedule/Entries/Cadence.antt =====
-- internal/ops/queue/scheduler.go: how often an entry fires.
use edub_kushim.Base.{
  ℕ, ◌+◌, ◌≤◌, ◌<◌, ◌≡◌, ◌↔◌, ◌⊎◌, inl, inr, String, Bool, true, false, Option, none, some, List,
  [], ◌∷◌, if◌then◌else◌, arith, subst, Bool-cases,
}
use edub_kushim.Base.Texts.{str_eq_refl}
use text.Mathlib.Text.{◌==◌ as str_eq}
use edub_kushim.Ops.Schedule.Slots.{
  minute, next_backup_time, next_occurrence, IsClock, next_occurrence_first,
}
use edub_kushim.Ops.Schedule.Entries.{
  Entry, Scheduler, Action, in_flight, background, inline, Answers, polling_interval, elapsed,
  interval_due, due, spawn_background, fire_named, evaluate_unnamed, evaluate_named, evaluate,
}

-- An occurrence was started, or refused by a run in flight.
abbrev pub fired : Action → Bool
fired in_flight = true
fired background = true
fired inline = true
fired _ = false

-- What happens to the unnamed entry: an evaluation, or the end of its job.
pub data Event : Type 0 where
  tick : ℕ → Event
  scan_done : Event

-- The instants at which the unnamed entry is dispatched, in the order of the events.
unfoldable pub dispatches : Answers → Scheduler → List Event → List ℕ
dispatches q s [] = []
dispatches q s (scan_done ∷ events) = dispatches q (record s { scan_in_flight = false }) events
dispatches q s (tick now ∷ events) =
    let (action, after) = evaluate_unnamed q now s in
    let rest = dispatches q after events in if fired action then now ∷ rest else rest

-- Each instant is an interval after the one before it.
abbrev pub Spaced : ℕ → Option ℕ → List ℕ → Type 0
Spaced gap last [] = Unit {0}
Spaced gap none (t ∷ times) = Spaced gap (some t) times
Spaced gap (some last) (t ∷ times) = (last + gap ≤ t) × Spaced gap (some t) times

tick_cases :
    (q : Answers) (now : ℕ) (s : Scheduler)
    → ((fired (evaluate_unnamed q now s).0 ≡ false)
        × ((evaluate_unnamed q now s).1.last_fire ≡ s.last_fire))
      ⊎ ((fired (evaluate_unnamed q now s).0 ≡ true)
          × ((evaluate_unnamed q now s).1.last_fire ≡ some now)
          × (interval_due q.polling_minutes now s ≡ true))
unfolding evaluate_unnamed spawn_background
tick_cases q now s = elim (Bool-cases (interval_due q.polling_minutes now s)) [
  | inl e ↦ elim (Bool-cases s.scan_in_flight) [
    | inl f ↦ inr (ground arith, ground arith, e)
    | inr f ↦ inr (ground arith, ground arith, e)
  ]
  | inr e ↦ inl (ground arith, ground arith)
]

Spaced-fire :
    (gap now : ℕ) (last : Option ℕ) (times : List ℕ)
    → elapsed gap now last ≡ true
    → Spaced gap (some now) times
    → Spaced gap last (now ∷ times)
Spaced-fire gap now none times h rest = rest
Spaced-fire gap now (some t) times h rest = (ground arith, rest)

Spaced-dispatches :
    (q : Answers) (s : Scheduler) (events : List Event)
    → Spaced (polling_interval q.polling_minutes) s.last_fire (dispatches q s events)
unfolding dispatches interval_due
Spaced-dispatches q s [] = tt
Spaced-dispatches q s (scan_done ∷ events) =
    Spaced-dispatches q (record s { scan_in_flight = false }) events
Spaced-dispatches q s (tick now ∷ events) =
    let gap = polling_interval q.polling_minutes in
    let after = (evaluate_unnamed q now s).1 in
    let rest = Spaced-dispatches q after events in
    elim (tick_cases q now s) [
      | inl (quiet, same) ↦
          subst (λ l. Spaced gap l (dispatches q s (tick now ∷ events))) same
            (subst (Spaced gap after.last_fire) {x = dispatches q after events} (ground arith) rest)
      | inr (fires, anchored, arrived) ↦
          let later = dispatches q after events in
          let from_now = subst (λ l. Spaced gap l later) anchored rest in
          subst (Spaced gap s.last_fire) {x = now ∷ later} (ground arith)
            (Spaced-fire gap now s.last_fire later arrived from_now)
    ]

-- However often the scheduler evaluates the inbox scan and whenever its jobs end, two dispatches of it are
-- at least the polling interval apart, which is never below a minute.
pub dispatches-Spaced :
    (q : Answers) (s : Scheduler) (events : List Event)
    → (minute ≤ polling_interval q.polling_minutes)
      × Spaced (polling_interval q.polling_minutes) s.last_fire (dispatches q s events)
unfolding polling_interval
dispatches-Spaced q s events = (ground arith, Spaced-dispatches q s events)

-- The instants at which a named entry fires, where the queries' answers stay as they are.
unfoldable pub firings : (String → Option ℕ) → Answers → Entry → Scheduler → List ℕ → List ℕ
firings clock q e s [] = []
firings clock q e s (now ∷ times) =
    let (action, after) = evaluate_named clock q now e s in
    let rest = firings clock q e after times in if fired action then now ∷ rest else rest

abbrev pub AllFrom : ℕ → List ℕ → Type 0
AllFrom slot [] = Unit {0}
AllFrom slot (t ∷ times) = (slot ≤ t) × AllFrom slot times

module _ (clock : String → Option ℕ) (q : Answers) (e : Entry)
    (never : q.last_terminal e.name ≡ none) (free : q.active_batches e.name ≡ 0) where
  anchored_step :
      (now : ℕ) (s : Scheduler) (slot : ℕ)
      → s.first_due e.name ≡ some slot
      → ((evaluate_named clock q now e s).1.first_due e.name ≡ some slot)
        × (fired (evaluate_named clock q now e s).0 ≡ true → slot ≤ now)
  unfolding evaluate_named due fire_named spawn_background
  anchored_step now s slot h = (ground arith, λ f. ground arith)

  first_step :
      (now : ℕ) (s : Scheduler)
      → s.first_due e.name ≡ none
      → now < next_occurrence clock now e.timing.time
      → ((evaluate_named clock q now e s).1.first_due e.name
          ≡ some (next_occurrence clock now e.timing.time))
        × (fired (evaluate_named clock q now e s).0 ≡ false)
  unfolding evaluate_named due fire_named spawn_background
  first_step now s h later =
      (ground (arith, str_eq_refl e.name), ground (arith, str_eq_refl e.name))

  firings_from :
      (s : Scheduler) (slot : ℕ) (times : List ℕ)
      → s.first_due e.name ≡ some slot
      → AllFrom slot (firings clock q e s times)
  unfolding firings
  firings_from s slot [] h = tt
  firings_from s slot (now ∷ times) h =
      let after = (evaluate_named clock q now e s).1 in
      let rest = firings clock q e after times in
      let (kept, in_time) = anchored_step now s slot h in
      let later = firings_from after slot times kept in
      elim (Bool-cases (fired (evaluate_named clock q now e s).0)) [
        | inl f ↦ subst (AllFrom slot) {x = now ∷ rest} (ground arith) (in_time f, later)
        | inr f ↦ subst (AllFrom slot) {x = rest} (ground arith) later
      ]

  -- A named entry that has never run does not fire at its first evaluation, and never before the preferred
  -- time that follows it, however often it is evaluated.
  pub firings-AllFrom :
      (reads : IsClock clock) (s : Scheduler) (now : ℕ) (times : List ℕ)
      → s.first_due e.name ≡ none
      → AllFrom (next_occurrence clock now e.timing.time) (firings clock q e s (now ∷ times))
        × (now < next_occurrence clock now e.timing.time)
  unfolding firings
  firings-AllFrom reads s now times h =
      let later = (next_occurrence_first clock reads now e.timing.time).0 in
      let (kept, quiet) = first_step now s h later in
      let after = (evaluate_named clock q now e s).1 in
      (
        subst (AllFrom (next_occurrence clock now e.timing.time))
            {x = firings clock q e after times} (ground arith)
            (firings_from after (next_occurrence clock now e.timing.time) times kept),
        later,
      )

-- A named entry that has run before fires exactly where it is enabled, no batch of its name is active, and
-- the time after its last run that its interval and preferred time give has come.
pub evaluate_iff :
    (clock : String → Option ℕ) (q : Answers) (now : ℕ) (e : Entry) (s : Scheduler) {last : ℕ}
    → str_eq e.name "" ≡ false
    → q.last_terminal e.name ≡ some last
    → (fired (evaluate clock q now e s).0 ≡ true)
      ↔ (e.enabled ≡ true)
        × (q.active_batches e.name ≡ 0)
        × (next_backup_time clock last e.timing.interval e.timing.time ≤ now)
unfolding evaluate evaluate_named due fire_named spawn_background
evaluate_iff clock q now e s {last} named ran = (λ h. ground arith, λ h. ground arith)
