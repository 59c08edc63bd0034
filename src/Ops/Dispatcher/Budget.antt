-- ===== src/Ops/Dispatcher/Budget.antt =====
-- internal/ops/dispatch/dispatcher.go: the slot budget of a sweep.
use edub_kushim.Base.{
  ℕ, ◌+◌, ◌≤◌, ◌≡◌, refl, sym, ap, ◌∙◌, subst, ◌⊎◌, inl, inr, Bool, false, List, [], ◌∷◌, arith,
  Bool-cases,
}
use edub_kushim.Base.Tables.{count_where}
use edub_kushim.Task.Db.{Db}
use edub_kushim.Ops.Launch.{
  no_locks, batch_lock_sets, resolve_launch_target, in_process_eligible, Resolution, refused,
  launch, LaunchTarget, LaunchError,
}
use edub_kushim.Ops.Backoff.{cooling}
use edub_kushim.Ops.Dispatcher.{
  Dispatcher, Candidate, Sweep, Progress, go_on, stop, start_in_process, fork_candidate,
  sweep_candidate, sweep, over_budget, with_started, claim_candidate,
}

-- A candidate that acquires no lock.
abbrev pub takes_slot : Candidate → Bool
takes_slot c = no_locks (batch_lock_sets c.task_types).0

abbrev pub slots : List Candidate → ℕ
slots cs = count_where takes_slot cs

Resolution-cases :
    (r : Resolution) → ((e : LaunchError) × (r ≡ refused e)) ⊎ ((t : LaunchTarget) × (r ≡ launch t))
Resolution-cases (refused e) = inl (e, refl)
Resolution-cases (launch t) = inr (t, refl)

Progress-cases : (p : Progress) → ((s : Sweep) × (p ≡ go_on s)) ⊎ ((s : Sweep) × (p ≡ stop s))
Progress-cases (go_on s) = inl (s, refl)
Progress-cases (stop s) = inr (s, refl)

module _ (d : Dispatcher) (tokens : ℕ → ℕ) (forks : ℕ → Bool) (now budget base : ℕ) where
  -- `base` runs were live before; each started run without locks is one more, up to the budget.
  record Kept (s : Sweep) : Type 0 where
    counted : s.live ≡ base + slots s.started
    bounded : (slots s.started ≡ 0) ⊎ (s.live ≤ budget)

  abbrev sweep_of : Progress → Sweep
  sweep_of (go_on s) = s
  sweep_of (stop s) = s

  with_started-Kept :
      (c : Candidate) (db : Db) (s : Sweep)
      → over_budget d tokens forks now budget c s ≡ false
      → Kept s
      → Kept (with_started d tokens forks now budget c db s)
  unfolding over_budget with_started count_where
  with_started-Kept c db s open_slot k = elim (Bool-cases (takes_slot c)) [
    | inl e ↦ record {
      counted = ground (arith, k.counted, e);
      bounded = inr (ground (arith, k.counted, k.bounded, e, open_slot));
    }
    | inr e ↦ record {
      counted = ground (arith, k.counted, e);
      bounded = ground (arith, k.bounded, e);
    }
  ]

  same-Kept : (s t : Sweep) → t.live ≡ s.live → t.started ≡ s.started → Kept s → Kept t
  same-Kept s t live started k = record {
    counted = live ∙ k.counted ∙ ap (λ cs. base + slots cs) (sym started);
    bounded = elim k.bounded [
      | inl h ↦ inl (ap slots started ∙ h)
      | inr h ↦ inr (omega (arith, live, h))
    ];
  }

  start-Kept :
      (c : Candidate) (s : Sweep)
      → Kept s
      → Kept (sweep_of (start_in_process d tokens forks now budget c s))
  unfolding start_in_process
  start-Kept c s k =
      let (landed, db) =
        claim_candidate d c.batch (tokens c.batch) (batch_lock_sets c.task_types) s.db in
      elim (Bool-cases (over_budget d tokens forks now budget c s)) [
        | inl e ↦ rw e k
        | inr e ↦ elim (Bool-cases landed) [
          | inl l ↦ rw (e, l) (with_started-Kept c db s e k)
          | inr l ↦ rw (e, l) (same-Kept s (record s { db = db }) refl refl k)
        ]
      ]

  fork-Kept :
      (c : Candidate) (s : Sweep)
      → Kept s
      → Kept (sweep_of (fork_candidate d tokens forks now budget c s))
  unfolding fork_candidate
  fork-Kept c s k =
      let (landed, db) =
        claim_candidate d c.batch (tokens c.batch) (batch_lock_sets c.task_types) s.db in
      elim (Bool-cases (over_budget d tokens forks now budget c s)) [
        | inl e ↦ rw e k
        | inr e ↦ elim (Bool-cases landed) [
          | inr l ↦ rw (e, l) (same-Kept s (record s { db = db }) refl refl k)
          | inl l ↦ elim (Bool-cases (forks c.batch)) [
            | inl f ↦ rw (e, l, f) (with_started-Kept c db s e k)
            | inr f ↦ rw (e, l, f) (same-Kept s _ refl refl k)
          ]
        ]
      ]

  sweep_candidate-Kept :
      (c : Candidate) (s : Sweep)
      → Kept s
      → Kept (sweep_of (sweep_candidate d tokens forks now budget c s))
  unfolding sweep_candidate
  sweep_candidate-Kept c s k = elim (Bool-cases (cooling c.batch now s.failures)) [
    | inl e ↦ rw e k
    | inr e ↦ elim (Bool-cases (in_process_eligible d.catalog d.host d.in_process c.task_types)) [
      | inl f ↦ rw (e, f) (start-Kept c s k)
      | inr f ↦
          elim (Resolution-cases (resolve_launch_target d.catalog c.batch c.task_types d.host)) [
            | inl (r, g) ↦ rw (e, f, g) k
            | inr (target, g) ↦ rw (e, f, g) (fork-Kept c s k)
          ]
    ]
  ]

  sweep-Kept :
      (candidates : List Candidate) (s : Sweep)
      → Kept s
      → Kept (sweep d tokens forks now budget candidates s)
  unfolding sweep
  sweep-Kept [] s k = k
  sweep-Kept (c ∷ cs) s k = elim (Progress-cases (sweep_candidate d tokens forks now budget c s)) [
    | inl (t, e) ↦
        rw (e, sweep)
          (sweep-Kept cs t (subst (λ p. Kept (sweep_of p)) e (sweep_candidate-Kept c s k)))
    | inr (t, e) ↦ rw (e, sweep) (subst (λ p. Kept (sweep_of p)) e (sweep_candidate-Kept c s k))
  ]

Kept-fresh :
    (d : Dispatcher) (tokens : ℕ → ℕ) (forks : ℕ → Bool) (now budget : ℕ) (s : Sweep)
    → s.started ≡ []
    → Kept d tokens forks now budget s.live s
unfolding count_where
Kept-fresh d tokens forks now budget s fresh =
    let none_yet : slots s.started ≡ 0 = ap slots fresh in
    record { counted = omega (arith, none_yet); bounded = inl none_yet }

-- A sweep that starts from `live` runs ends with one more for every started batch that acquires no lock;
-- either it started none of those, or the runs are no more than the budget.
pub sweep_budget :
    (d : Dispatcher) (tokens : ℕ → ℕ) (forks : ℕ → Bool) (now budget : ℕ)
    (candidates : List Candidate) (s : Sweep)
    → s.started ≡ []
    → ((sweep d tokens forks now budget candidates s).live
        ≡ s.live + slots (sweep d tokens forks now budget candidates s).started)
      × ((slots (sweep d tokens forks now budget candidates s).started ≡ 0)
          ⊎ ((sweep d tokens forks now budget candidates s).live ≤ budget))
sweep_budget d tokens forks now budget candidates s fresh =
    let k =
      sweep-Kept d tokens forks now budget s.live candidates s
        (Kept-fresh d tokens forks now budget s fresh) in
    (k.counted, k.bounded)
