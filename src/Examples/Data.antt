-- ===== src/Examples/Data.antt =====
-- Two batches of one task each: batch 1 is queued, batch 2 processes under the lease of token 9.
use edub_kushim.Base.{String, true, ℕ, Option, none, some, [], ◌∷◌}
use edub_kushim.Base.Tables.{put}
use edub_kushim.Types.{
  BatchOrigin, BatchStatus, Host, TaskStatus, TaskType, maintenance, storage, lock_declaration_for,
}
use edub_kushim.Task.Json.{Raw, object, quoted, array, item, nil, field, end}
use edub_kushim.Task.Db.{Db, BatchRow, OwnerRow, TaskRow}
use edub_kushim.Task.Catalog.{Catalog, TypeDefinition}
use edub_kushim.Task.Batch.Settling.{ClaimRequest, Execution}

abbrev pub batch_at : BatchStatus → BatchRow
batch_at status = record {
  origin = BatchOrigin.api;
  schedule = none;
  status = status;
  follow_up = none;
}

abbrev pub task_at : ℕ → ℕ → TaskStatus → Option ℕ → TaskRow
task_at id b status parent = record {
  id = id;
  task_id = id;
  task_type = TaskType.consume;
  status = status;
  batch_id = some b;
  payload = none;
  result = none;
  dedup_key = none;
  started_at = none;
  completed_at = none;
  error = none;
  attempts = 0;
  progress = none;
  parent_task_id = parent;
}

abbrev pub lease : OwnerRow
lease = record { owner_id = 9; pid = 40; dispatcher_id = none; last_heartbeat = 99 }

abbrev pub tables : TaskStatus → Db
tables status = record {
  batches =
      put 1 (batch_at BatchStatus.queued) (put 2 (batch_at BatchStatus.processing) (λ _. none));
  owners = put 2 lease (λ _. none);
  signals = λ _. none;
  tasks = task_at 11 1 TaskStatus.pending none ∷ task_at 12 2 status none ∷ [];
  next_id = 13;
  now = 100;
}

abbrev pub busy : Db
busy = tables TaskStatus.processing

abbrev pub done : Db
done = tables TaskStatus.completed

abbrev pub claim_1 : ClaimRequest
claim_1 = record {
  batch = 1;
  exec_token = 5;
  holds = maintenance ∷ [];
  waits = storage ∷ [];
  dispatcher = none;
}

abbrev pub run_2 : Execution
run_2 = record { batch = 2; owner = some 9 }

abbrev pub payload : Raw
payload =
    object (field "inherit" (array (item (quoted "path") nil)) (field "path" (quoted "a") end))

abbrev constant_key : Raw → String
constant_key _ = "document"

abbrev pub definition_of : TaskType → TypeDefinition
definition_of type = record {
  type = type;
  locks = lock_declaration_for type;
  concurrency = 1;
  dedup_key = some constant_key;
  preconditions = true ∷ [];
  cli = "consume";
  batch_selector = "--from-batch";
  hosts = Host.queue_host ∷ [];
}

abbrev pub all_types : Catalog
all_types type = some (definition_of type)
