-- ===== src/Types/Statuses.antt =====
-- Tests of a status against the constants that the queries name.
use edub_kushim.Base.{◌≡◌, refl, ◌⊎◌, inl, inr, Bool, true, false, ◌||◌}
use edub_kushim.Types.{BatchStatus, TaskStatus}

abbrev pub is_pending : TaskStatus → Bool
is_pending TaskStatus.pending = true
is_pending _ = false

abbrev pub is_processing : TaskStatus → Bool
is_processing TaskStatus.processing = true
is_processing _ = false

abbrev pub is_waiting : TaskStatus → Bool
is_waiting TaskStatus.waiting = true
is_waiting _ = false

abbrev pub is_failed : TaskStatus → Bool
is_failed TaskStatus.failed = true
is_failed _ = false

abbrev pub is_discarded : TaskStatus → Bool
is_discarded TaskStatus.discarded = true
is_discarded _ = false

-- IN ('pending', 'processing'), the statuses of the dedup index
abbrev pub is_live : TaskStatus → Bool
is_live s = is_pending s || is_processing s

-- IN ('pending', 'waiting')
abbrev pub is_unstarted : TaskStatus → Bool
is_unstarted s = is_pending s || is_waiting s

-- IN ('pending', 'processing', 'waiting')
abbrev pub is_active : TaskStatus → Bool
is_active s = is_pending s || (is_processing s || is_waiting s)

abbrev pub batch_queued : BatchStatus → Bool
batch_queued BatchStatus.queued = true
batch_queued _ = false

abbrev pub batch_processing : BatchStatus → Bool
batch_processing BatchStatus.processing = true
batch_processing _ = false

abbrev pub batch_paused : BatchStatus → Bool
batch_paused BatchStatus.paused = true
batch_paused _ = false

pub BatchStatus-cases :
    (s : BatchStatus) → (s ≡ BatchStatus.processing) ⊎ (batch_processing s ≡ false)
BatchStatus-cases BatchStatus.processing = inl refl
BatchStatus-cases BatchStatus.queued = inr refl
BatchStatus-cases BatchStatus.completed = inr refl
BatchStatus-cases BatchStatus.failed = inr refl
BatchStatus-cases BatchStatus.paused = inr refl
BatchStatus-cases BatchStatus.cancelled = inr refl
