-- ===== src/Task/Enqueue/Fitness.antt =====
-- Which task specs an enqueue takes.
use edub_kushim.Base.{◌≡◌, ◌⊎◌, arith, true, none, some}
use edub_kushim.Types.{TaskStatus}
use edub_kushim.Task.Catalog.{Catalog}
use edub_kushim.Task.Enqueue.{
  TaskSpec, pass, Resolved, has_id, has_hook, task_creation_status, resolve_task,
}

-- A task spec that is taken keeps its text and has the catalog's definition of its type. It is created
-- pending, with a dedup hook and without a parent, or waiting, with a parent.
pub resolve_task-fits :
    (catalog : Catalog) (t : TaskSpec) {r : Resolved}
    → resolve_task catalog t ≡ pass r
    → (r.spec ≡ t)
      × (catalog t.task_type ≡ some r.definition)
      × ((r.created_status ≡ TaskStatus.pending)
            × (has_hook r.definition ≡ true)
            × (t.parent_task_id ≡ none)
          ⊎ (r.created_status ≡ TaskStatus.waiting) × (has_id t.parent_task_id ≡ true))
unfolding resolve_task task_creation_status
resolve_task-fits catalog t {r} h = ground arith
