-- ===== src/Task/Db/Rows.antt =====
-- The rows of the tables batch, batch_owner, system_signal and task.
use edub_kushim.Base.{ℕ, String, Option, List}
use edub_kushim.Types.{BatchOrigin, BatchStatus, TaskStatus, TaskType, LockName}
use edub_kushim.Task.Json.{Raw}

-- One task that a batch declares for creation when it settles.
pub record FollowUpTask : Type 0 where
  pub task_type : TaskType
  pub payload : Raw

-- The stored declaration, by what decoding it gives.
pub data FollowUp : Type 0 where
  undecodable : FollowUp
  declared : List FollowUpTask → FollowUp

pub record BatchRow : Type 0 where
  pub origin : BatchOrigin
  pub schedule : Option String
  pub status : BatchStatus
  pub follow_up : Option FollowUp

pub record OwnerRow : Type 0 where
  pub owner_id : ℕ
  pub pid : ℕ
  pub dispatcher_id : Option ℕ
  pub last_heartbeat : ℕ

-- The JSON in `data` of a held lock.
pub record LockData : Type 0 where
  pub started_at : ℕ
  pub owner_token : Option ℕ
  pub batch_id : Option ℕ

-- `none` is a row with value 'false'; a row with value 'true' carries its data.
abbrev pub LockRow : Type 0
LockRow = Option LockData

pub record TaskRow : Type 0 where
  pub id : ℕ
  pub task_id : ℕ
  pub task_type : TaskType
  pub status : TaskStatus
  pub batch_id : Option ℕ
  pub payload : Option Raw
  pub result : Option Raw
  pub dedup_key : Option String
  pub started_at : Option ℕ
  pub completed_at : Option ℕ
  pub error : Option String
  pub attempts : ℕ
  pub progress : Option Raw
  pub parent_task_id : Option ℕ

pub record Db : Type 0 where
  pub batches : ℕ → Option BatchRow
  pub owners : ℕ → Option OwnerRow
  pub signals : LockName → LockRow
  pub tasks : List TaskRow
  pub next_id : ℕ
  pub now : ℕ
