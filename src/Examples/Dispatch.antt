-- ===== src/Examples/Dispatch.antt =====
-- A dispatcher over the small tables, and the theorems on launches and recovery applied to them.
use edub_kushim.Base.{ℕ, String, ◌+◌, ◌≤◌, ◌≡◌, ◌⊎◌, refl, Bool, false, true, [], ◌∷◌, none, some}
use edub_kushim.Types.{BatchStatus, TaskType, Host}
use edub_kushim.Task.Db.{Db}
use edub_kushim.Task.Db.Owners.{try_insert_batch_owner, release_stale_batch_owner}
use edub_kushim.Task.Db.Batches.{mark_batch_claimed, requeue_processing_batch}
use edub_kushim.Task.Db.Cascade.{restore_discarded_successors}
use edub_kushim.Task.Db.Resets.{reset_processing_tasks, quarantine_processing_tasks}
use edub_kushim.Task.Locks.{acquire_locks, release_locks_for_batch}
use edub_kushim.Task.Batch.Moving.{reset_processing}
use edub_kushim.Ops.Launch.{
  LaunchTarget, lock_sets_from, resolve_launch_target, in_process_eligible, launch, target_of,
}
use edub_kushim.Ops.Launch.Fitness.{AllFit, Chosen, resolve_launch_target-Chosen}
use edub_kushim.Ops.Backoff.{new_launch_backoff, cooling}
use edub_kushim.Ops.Dispatcher.{
  Dispatcher, Candidate, Sweep, sweep, sweep_candidate, fork_candidate, over_budget, with_started,
  claim_candidate,
}
use edub_kushim.Ops.Dispatcher.Budget.{slots, sweep_budget}
use edub_kushim.Ops.Dispatcher.Relaunch.{Failed}
use edub_kushim.Ops.Reaper.{
  RecoveryWorld, StaleOwner, reclaim_owner, recover_batch, requeue_released,
}
use edub_kushim.Ops.Reaper.Recovery.{IsStillStale, Handed, reclaim_owner-AtRest}
use edub_kushim.Examples.Data.{all_types, busy, definition_of, batch_at}

abbrev forker : Dispatcher
forker = record {
  catalog = all_types;
  host = Host.queue_host;
  dispatcher_id = 77;
  in_process = none;
}

abbrev ingest : Candidate
ingest = record { batch = 1; task_types = TaskType.consume ∷ TaskType.enrich ∷ [] }

abbrev idle : Sweep
idle = record { db = busy; failures = new_launch_backoff; live = 0; started = [] }

-- The same tables when the lease of batch 2 is stale.
abbrev late : Db
late = record busy { now = 200 }

abbrev stale_owner : StaleOwner
stale_owner = record { batch = 2; owner_id = 9; pid = 40 }

abbrev no_text : ℕ → String
no_text n = ""

abbrev ids : ℕ → ℕ
ids n = n + 100

abbrev target_1 : LaunchTarget
target_1 = target_of 1 (definition_of TaskType.consume)

resolved_1 :
    resolve_launch_target all_types 1 (TaskType.consume ∷ TaskType.enrich ∷ []) Host.queue_host
    ≡ launch target_1
unfolding resolve_launch_target
resolved_1 = refl

resolve_launch_target-Chosen_example :
    AllFit all_types Host.queue_host (TaskType.consume ∷ TaskType.enrich ∷ [])
    × Chosen all_types Host.queue_host 1 (TaskType.consume ∷ TaskType.enrich ∷ []) target_1
resolve_launch_target-Chosen_example =
    resolve_launch_target-Chosen all_types Host.queue_host 1
      (TaskType.consume ∷ TaskType.enrich ∷ []) target_1 resolved_1

abbrev yes_fork : ℕ → Bool
yes_fork b = true

sweep_budget_example :
    ((sweep forker ids yes_fork 50 2 (ingest ∷ []) idle).live
      ≡ 0 + slots (sweep forker ids yes_fork 50 2 (ingest ∷ []) idle).started)
    × ((slots (sweep forker ids yes_fork 50 2 (ingest ∷ []) idle).started ≡ 0)
        ⊎ ((sweep forker ids yes_fork 50 2 (ingest ∷ []) idle).live ≤ 2))
sweep_budget_example = sweep_budget forker ids yes_fork 50 2 (ingest ∷ []) idle refl

started_one : (sweep forker ids yes_fork 50 2 (ingest ∷ []) idle).live ≡ 1
unfolding sweep sweep_candidate cooling in_process_eligible resolve_launch_target fork_candidate
    over_budget with_started claim_candidate lock_sets_from try_insert_batch_owner acquire_locks
    mark_batch_claimed
started_one = refl

-- Three launches with the batch's token, twenty seconds apart.
abbrev launch_at : ℕ → Failed 2
launch_at now = record { token = 9; at = now; db = busy }

-- Others write nothing, and the database refuses no write.
abbrev calm : RecoveryWorld
calm = record {
  release_refused = false;
  reset_refused = false;
  check_refused = false;
  settle_refused = false;
  requeue_refused = false;
  others = λ n db. db;
}

reclaim_owner-AtRest_example :
    (((calm.release_refused ≡ true) ⊎ ¬ IsStillStale stale_owner late)
      × (reclaim_owner no_text all_types ids 3 calm stale_owner late ≡ late))
    ⊎ (IsStillStale stale_owner late
        × Handed calm 2 (reclaim_owner no_text all_types ids 3 calm stale_owner late))
reclaim_owner-AtRest_example = reclaim_owner-AtRest no_text all_types ids 3 calm stale_owner late

requeued :
    (reclaim_owner no_text all_types ids 3 calm stale_owner late).batches 2
    ≡ some (batch_at BatchStatus.queued)
unfolding reclaim_owner recover_batch requeue_released release_stale_batch_owner reset_processing
    restore_discarded_successors reset_processing_tasks quarantine_processing_tasks
    release_locks_for_batch requeue_processing_batch
requeued = refl
