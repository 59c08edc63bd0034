-- ===== src/Examples/Enqueues.antt =====
-- An enqueue of a parent and its waiting child.
use edub_kushim.Base.{ℕ, ◌+◌, ◌≡◌, ◌⊎◌, refl, none, some, [], ◌∷◌}
use edub_kushim.Types.{BatchOrigin, TaskStatus, TaskType}
use edub_kushim.Task.Json.{object, end}
use edub_kushim.Task.Enqueue.{TaskSpec, BatchSpec, pass, Resolved}
use edub_kushim.Task.Enqueue.Inserting.{EnqueueResult, enqueue_batch}
use edub_kushim.Task.Enqueue.Outcomes.{Enqueued, enqueue_batch-outcome}
use edub_kushim.Examples.Data.{done, definition_of, all_types}

abbrev consume_spec : TaskSpec
consume_spec = record {
  task_type = TaskType.consume;
  task_id = some 50;
  parent_task_id = none;
  payload = object end;
  status = none;
}

abbrev enrich_spec : TaskSpec
enrich_spec = record {
  task_type = TaskType.enrich;
  task_id = none;
  parent_task_id = some 50;
  payload = object end;
  status = some TaskStatus.waiting;
}

abbrev from_api : BatchSpec
from_api = record { origin = some BatchOrigin.api; schedule = ""; follow_up = [] }

abbrev from_seventy : ℕ → ℕ
from_seventy n = n + 70

enqueue_batch-outcome_example :
    ((enqueue_batch all_types from_seventy from_api (consume_spec ∷ enrich_spec ∷ []) done).1
      ≡ done)
    ⊎ ((r : EnqueueResult) × ((enqueue_batch all_types from_seventy from_api
            (consume_spec ∷ enrich_spec ∷ [])
            done).0
          ≡ pass r)
        × Enqueued 70
            (consume_spec ∷ enrich_spec ∷ [])
            r
            done
            (enqueue_batch all_types from_seventy from_api
              (consume_spec ∷ enrich_spec ∷ [])
              done).1)
enqueue_batch-outcome_example =
    enqueue_batch-outcome all_types from_seventy from_api (consume_spec ∷ enrich_spec ∷ []) done
      refl

abbrev resolved_child : Resolved
resolved_child = record {
  spec = enrich_spec;
  definition = definition_of TaskType.enrich;
  created_status = TaskStatus.waiting;
}
