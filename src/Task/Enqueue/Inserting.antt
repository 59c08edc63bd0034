-- ===== src/Task/Enqueue/Inserting.antt =====
-- EnqueueBatch: the batch and its tasks in one transaction.
use text.Mathlib.Text.{◌==◌ as str_eq}
use edub_kushim.Base.{ℕ, suc, not, Option, none, some, List, [], ◌∷◌, ◌++◌, map, if◌then◌else◌}
use edub_kushim.Types.{BatchOrigin, BatchStatus}
use edub_kushim.Types.Statuses.{is_waiting}
use edub_kushim.Task.Json.{Raw, blank, malformed, null}
use edub_kushim.Task.Db.{Db, BatchRow, TaskRow, FollowUp, FollowUpTask, declared}
use edub_kushim.Task.Db.Batches.{inserted, dedup_conflict, id_conflict, create_task, create_batch}
use edub_kushim.Task.Catalog.{Catalog, TypeDefinition, derived_key}
use edub_kushim.Task.Enqueue.{
  TaskSpec, BatchSpec, EnqueueError, type_unknown, hook_missing, marshal_failed, insert_failed,
  Checked, pass, fail, Resolved, has_hook, contains_id, validate, resolve_tasks,
  validate_parent_links, validate_common_holds, check_preconditions,
}

-- A payload that is no JSON cannot be marshalled, and one without bytes is null.
abbrev marshalled : Raw → Option Raw
marshalled malformed = none
marshalled blank = some null
marshalled p = some p

abbrev add_declared : TaskSpec → Checked (List FollowUpTask) → Checked (List FollowUpTask)
add_declared t (fail e) = fail e
add_declared t (pass rest) = elim (marshalled t.payload) [
  | none ↦ fail marshal_failed
  | some p ↦ pass (record { task_type = t.task_type; payload = p } ∷ rest)
]

-- json.Marshal of the declared tasks
unfoldable pub declare : List TaskSpec → Checked (List FollowUpTask)
declare [] = pass []
declare (t ∷ tasks) = add_declared t (declare tasks)

abbrev add_definition :
    Option TypeDefinition → Checked (List TypeDefinition) → Checked (List TypeDefinition)
add_definition none rest = fail type_unknown
add_definition (some d) rest =
    if not (has_hook d)
    then fail hook_missing
    else elim rest [ fail e ↦ fail e | pass ds ↦ pass (d ∷ ds) ]

unfoldable pub follow_up_definitions : Catalog → List TaskSpec → Checked (List TypeDefinition)
follow_up_definitions catalog [] = pass []
follow_up_definitions catalog (t ∷ tasks) =
    add_definition (catalog t.task_type) (follow_up_definitions catalog tasks)

abbrev first_error : Option EnqueueError → Option EnqueueError → Option EnqueueError
first_error (some e) other = some e
first_error none other = other

-- prepareFollowUp
unfoldable pub prepare_follow_up : Catalog → List TaskSpec → Checked (Option FollowUp)
unfolding follow_up_definitions validate_common_holds check_preconditions declare
prepare_follow_up catalog [] = pass none
prepare_follow_up catalog (t ∷ tasks) = elim (follow_up_definitions catalog (t ∷ tasks)) [
  | fail e ↦ fail e
  | pass definitions ↦
      elim (first_error (validate_common_holds definitions) (check_preconditions [] definitions)) [
        | some e ↦ fail e
        | none ↦ elim (declare (t ∷ tasks)) [
          | fail e ↦ fail e
          | pass stored ↦ pass (some (declared stored))
        ]
      ]
]

unfoldable pub new_task_row : ℕ → ℕ → Resolved → TaskRow
unfolding derived_key
new_task_row b id r = record {
  id = 0;
  task_id = id;
  task_type = r.spec.task_type;
  status = r.created_status;
  batch_id = some b;
  payload = some r.spec.payload;
  result = none;
  dedup_key = if is_waiting r.created_status then none else derived_key r.definition r.spec.payload;
  started_at = none;
  completed_at = none;
  error = none;
  attempts = 0;
  progress = none;
  parent_task_id = r.spec.parent_task_id;
}

-- What the loop has done: the ids created in order, the tasks skipped, and the tables.
pub record Progress : Type 0 where
  pub created : List ℕ
  pub skipped : ℕ
  pub tables : Db

abbrev pub skip_task : Progress → Progress
skip_task p = record p { skipped = suc p.skipped }

-- the id of a spec, and the uuids that are left
abbrev pub task_id_of : (ℕ → ℕ) → Option ℕ → ℕ × (ℕ → ℕ)
task_id_of uuids none = (uuids 0, λ n. uuids (suc n))
task_id_of uuids (some id) = (id, uuids)

-- The body of the loop for one spec with its id.
unfoldable pub insert_task : ℕ → ℕ → Resolved → Progress → Option Progress
unfolding new_task_row create_task
insert_task b id r p =
    if not (contains_id p.created r.spec.parent_task_id)
    then some (skip_task p)
    else elim (create_task (new_task_row b id r) p.tables) [
      | inserted db ↦
          some (record { created = p.created ++ id ∷ []; skipped = p.skipped; tables = db })
      | dedup_conflict ↦ some (skip_task p)
      | id_conflict ↦ none
    ]

-- The loop over the tasks.
unfoldable pub insert_tasks : (ℕ → ℕ) → ℕ → List Resolved → Progress → Option Progress
unfolding insert_task
insert_tasks uuids b [] p = some p
insert_tasks uuids b (r ∷ rs) p =
    let (id, left) = task_id_of uuids r.spec.task_id in
    let again = λ (next : Progress). insert_tasks left b rs next in
    elim (insert_task b id r p) [ none ↦ none | some next ↦ again next ]

pub record EnqueueResult : Type 0 where
  pub batch_id : Option ℕ
  pub task_ids : List ℕ
  pub skipped : ℕ

abbrev nothing_done : EnqueueResult
nothing_done = record { batch_id = none; task_ids = []; skipped = 0 }

abbrev pub finish : ℕ → Db → Option Progress → Checked EnqueueResult × Db
finish b db none = (fail insert_failed, db)
finish b db (some p) = elim p.created [
  | [] ↦ (pass (record { batch_id = none; task_ids = []; skipped = p.skipped }), db)
  | id ∷ ids ↦
      (pass (record { batch_id = some b; task_ids = p.created; skipped = p.skipped }), p.tables)
]

abbrev pub new_row : BatchSpec → BatchOrigin → Option FollowUp → BatchRow
new_row spec origin follow_up = record {
  origin = origin;
  schedule = if str_eq spec.schedule "" then none else some spec.schedule;
  status = BatchStatus.queued;
  follow_up = follow_up;
}

-- The checks between the specs and the transaction: what the transaction will write.
unfoldable pub prepare_enqueue :
    Catalog → BatchSpec → List TaskSpec → Checked (List Resolved × Option FollowUp)
unfolding resolve_tasks validate_parent_links validate_common_holds check_preconditions
    prepare_follow_up
prepare_enqueue catalog spec tasks = elim (resolve_tasks catalog tasks) [
  | fail e ↦ fail e
  | pass resolved ↦
      let definitions = map (λ (r : Resolved). r.definition) resolved in
      elim (first_error (validate_parent_links [] tasks)
        (first_error (validate_common_holds definitions) (check_preconditions [] definitions))) [
          | some e ↦ fail e
          | none ↦ elim (prepare_follow_up catalog spec.follow_up) [
            | fail e ↦ fail e
            | pass follow_up ↦ pass (resolved, follow_up)
          ]
        ]
]

-- The transaction; the first uuid is the batch's id.
unfoldable pub enqueue_prepared :
    (ℕ → ℕ) → BatchRow → List Resolved → Db → Checked EnqueueResult × Db
unfolding insert_tasks create_batch
enqueue_prepared uuids row resolved db =
    let b = uuids 0 in
    finish b db (
      insert_tasks (λ n. uuids (suc n)) b resolved
        (record { created = []; skipped = 0; tables = create_batch b row db }))

-- EnqueueBatch
unfoldable pub enqueue_batch :
    Catalog → (ℕ → ℕ) → BatchSpec → List TaskSpec → Db → Checked EnqueueResult × Db
unfolding validate prepare_enqueue enqueue_prepared
enqueue_batch catalog uuids spec tasks db = elim spec.origin [
  | none ↦ (fail EnqueueError.origin_undeclared, db)
  | some origin ↦ elim (validate spec) [
    | some e ↦ (fail e, db)
    | none ↦ elim tasks [
      | [] ↦ (pass nothing_done, db)
      | t ∷ ts ↦ elim (prepare_enqueue catalog spec (t ∷ ts)) [
        | fail e ↦ (fail e, db)
        | pass (resolved, follow_up) ↦
            enqueue_prepared uuids (new_row spec origin follow_up) resolved db
      ]
    ]
  ]
]
