-- ===== src/Types.antt =====
-- internal/types/registry.go: the vocabulary of the task system. A wire value is the name of its
-- constructor; `wire` gives the string, and a value that no constant names is not a constructor.
pub mod Waiting
pub mod Statuses
use mathlib.Core.Bool.{decide}
use edub_kushim.Base.{Bool, true, false, not, ◌||◌, List, [], ◌∷◌, ◌++◌, any, if◌then◌else◌}
use edub_kushim.Base.Tables.{select_where}

pub data BatchOrigin : Type 0 where
  cli api polling schedule setup wizard trigger : BatchOrigin

pub data BatchStatus : Type 0 where
  queued processing completed failed paused cancelled : BatchStatus

pub data TaskStatus : Type 0 where
  pending processing completed failed cancelled discarded waiting : TaskStatus

pub data TaskType : Type 0 where
  consume enrich thumbnail backup mirror migrate_db migrate_storage : TaskType
  tag_reconcile thumb_backfill tag_measure tag_identity tag_audit tag_rejudge : TaskType
  tag_split_reask : TaskType

pub data LockName : Type 0 where
  maintenance storage : LockName

pub data Host : Type 0 where
  queue_host wizard_host : Host

pub TaskType-discrete : Discrete TaskType
TaskType-discrete = hlevel

pub LockName-discrete : Discrete LockName
LockName-discrete = hlevel

unfoldable pub same_type : TaskType → TaskType → Bool
unfolding TaskType-discrete decide
same_type a b = decide (TaskType-discrete a b)

abbrev pub same_lock : LockName → LockName → Bool
same_lock maintenance maintenance = true
same_lock storage storage = true
same_lock _ _ = false

abbrev pub same_host : Host → Host → Bool
same_host queue_host queue_host = true
same_host wizard_host wizard_host = true
same_host _ _ = false

pub record LockDeclaration : Type 0 where
  pub holds : List LockName
  pub waits_for : List LockName

abbrev locks : List LockName → List LockName → LockDeclaration
locks h w = record { holds = h; waits_for = w }

-- The map `lockDeclarations`; every type has an entry.
unfoldable pub lock_declaration_for : TaskType → LockDeclaration
lock_declaration_for consume = locks [] (maintenance ∷ [])
lock_declaration_for enrich = locks [] (maintenance ∷ [])
lock_declaration_for thumbnail = locks [] (maintenance ∷ storage ∷ [])
lock_declaration_for thumb_backfill = locks (storage ∷ []) (maintenance ∷ [])
lock_declaration_for backup = locks (maintenance ∷ []) (storage ∷ [])
lock_declaration_for mirror = locks (maintenance ∷ []) (storage ∷ [])
lock_declaration_for tag_reconcile = locks (maintenance ∷ []) []
lock_declaration_for tag_measure = locks (maintenance ∷ []) []
lock_declaration_for tag_identity = locks (maintenance ∷ []) []
lock_declaration_for tag_audit = locks (maintenance ∷ []) []
lock_declaration_for tag_rejudge = locks (maintenance ∷ []) []
lock_declaration_for tag_split_reask = locks (maintenance ∷ []) []
lock_declaration_for migrate_db = locks (maintenance ∷ []) []
lock_declaration_for migrate_storage = locks (maintenance ∷ []) (storage ∷ [])

unfoldable pub terminal : BatchStatus → Bool
terminal completed = true
terminal failed = true
terminal cancelled = true
terminal _ = false

abbrev pub all_task_types : List TaskType
all_task_types =
    consume ∷ enrich ∷ thumbnail ∷ backup ∷ mirror ∷ migrate_db ∷ migrate_storage ∷ tag_reconcile
    ∷ thumb_backfill ∷ tag_measure ∷ tag_identity ∷ tag_audit ∷ tag_rejudge ∷ tag_split_reask ∷ []

abbrev pub all_lock_names : List LockName
all_lock_names = maintenance ∷ storage ∷ []

-- `slices.Contains` over lock names
abbrev pub has_lock : List LockName → LockName → Bool
has_lock names name = any (same_lock name) names

abbrev is_empty : List LockName → Bool
is_empty [] = true
is_empty _ = false

unfoldable pub holds_locks : TaskType → Bool
unfolding lock_declaration_for
holds_locks t = not (is_empty (lock_declaration_for t).holds)

-- The inner loop: some wait of the type is among the locks.
unfoldable pub waits_on : List LockName → TaskType → Bool
unfolding lock_declaration_for
waits_on locks t = any (has_lock locks) (lock_declaration_for t).waits_for

unfoldable pub task_types_waiting_on : List LockName → List TaskType
unfolding waits_on select_where
task_types_waiting_on locks = select_where (waits_on locks) all_task_types

unfoldable pub lock_holding_task_types : List TaskType
unfolding holds_locks select_where
lock_holding_task_types = select_where holds_locks all_task_types
