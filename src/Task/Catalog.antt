-- ===== src/Task/Catalog.antt =====
-- internal/task/type_definition.go: the definition of a task type, and the catalog of a process as
-- the function `Definition`, with `none` for the error on an unknown type.
use edub_kushim.Base.{ℕ, String, Bool, Option, none, some, List, if◌then◌else◌}
use text.Mathlib.Text.{◌==◌ as str_eq}
use edub_kushim.Types.{TaskType, LockDeclaration, Host}
use edub_kushim.Task.Json.{Raw}

-- A precondition is what its check of the environment returned: true is no error.
pub record TypeDefinition : Type 0 where
  pub type : TaskType
  pub locks : LockDeclaration
  pub concurrency : ℕ
  pub dedup_key : Option (Raw → String)
  pub preconditions : List Bool
  pub cli : String
  pub batch_selector : String
  pub hosts : List Host

abbrev pub Catalog : Type 0
Catalog = TaskType → Option TypeDefinition

-- The key that a new pending task carries: an empty key is none.
unfoldable pub derived_key : TypeDefinition → Raw → Option String
derived_key definition payload = elim definition.dedup_key [
  | none ↦ none
  | some f ↦ if str_eq (f payload) "" then none else some (f payload)
]
