-- ===== src/Ops/Backoff.antt =====
-- internal/ops/dispatch/launcher.go: the launch failures of batches, in memory. Times are in seconds.
use edub_kushim.Base.{
  ℕ, suc, ◌+◌, ◌-◌, ◌*◌, ◌^◌, Bool, false, Option, none, some, ltb, leb, if◌then◌else◌,
}
use edub_kushim.Base.Tables.{put, delete}

abbrev pub max_launch_failures : ℕ
max_launch_failures = 3

pub record LaunchFailure : Type 0 where
  pub count : ℕ
  pub next_attempt : ℕ

abbrev pub Failures : Type 0
Failures = ℕ → Option LaunchFailure

abbrev pub new_launch_backoff : Failures
new_launch_backoff b = none

unfoldable pub cooling : ℕ → ℕ → Failures → Bool
cooling b now failures = elim (failures b) [
  | none ↦ false
  | some failure ↦ ltb now failure.next_attempt
]

abbrev pub count_of : Option LaunchFailure → ℕ
count_of none = 0
count_of (some failure) = failure.count

-- record: the running count, the delay, and the state; a batch that is failed has no delay.
unfoldable pub record_failure : ℕ → ℕ → Failures → (ℕ × ℕ) × Failures
record_failure b now failures =
    let count = suc (count_of (failures b)) in
    let delay = 5 * 2 ^ (count - 1) in
    if leb max_launch_failures count
    then ((count, 0), delete b failures)
    else ((count, delay), put b (record { count = count; next_attempt = now + delay }) failures)

unfoldable pub clear_failure : ℕ → Failures → Failures
clear_failure b failures = delete b failures
