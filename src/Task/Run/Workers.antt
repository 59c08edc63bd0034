-- ===== src/Task/Run/Workers.antt =====
-- execute.go: the workers of a run and the connections that they take.
use edub_kushim.Base.{
  ℕ, zero, suc, ◌+◌, ◌≤◌, ◌≡◌, refl, none, some, List, [], ◌∷◌, ◌++◌, length, length-append, ltb,
  if◌then◌else◌, arith,
}
use edub_kushim.Types.{TaskType}
use edub_kushim.Task.Catalog.{Catalog}

abbrev pub batch_aux_conns : ℕ
batch_aux_conns = 4

-- workersForType; an unknown type is `none` of the catalog
unfoldable pub workers_for_type : Catalog → TaskType → ℕ
workers_for_type catalog type = elim (catalog type) [
  | none ↦ 1
  | some definition ↦ if ltb 1 definition.concurrency then definition.concurrency else 1
]

unfoldable pub count_workers : Catalog → List TaskType → ℕ
count_workers catalog [] = 0
count_workers catalog (type ∷ types) = workers_for_type catalog type + count_workers catalog types

-- batchConnBudget
unfoldable pub batch_conn_budget : Catalog → List TaskType → ℕ
unfolding count_workers
batch_conn_budget catalog types = count_workers catalog types + batch_aux_conns

-- The inner loop of RunBatch: one worker of the type for each count.
unfoldable pub worker_set : ℕ → TaskType → List TaskType
worker_set zero type = []
worker_set (suc n) type = type ∷ worker_set n type

-- The workers that RunBatch starts, each by its type.
unfoldable pub start_workers : Catalog → List TaskType → List TaskType
unfolding worker_set
start_workers catalog [] = []
start_workers catalog (type ∷ types) =
    worker_set (workers_for_type catalog type) type ++ start_workers catalog types

length-worker_set : (n : ℕ) (type : TaskType) → length (worker_set n type) ≡ n
unfolding worker_set
length-worker_set zero type = refl
length-worker_set (suc n) type = omega (arith, length-worker_set n type)

workers-pos : (catalog : Catalog) (type : TaskType) → 1 ≤ workers_for_type catalog type
unfolding workers_for_type
workers-pos catalog type = ground arith

length-start_workers :
    (catalog : Catalog) (types : List TaskType)
    → length (start_workers catalog types) ≡ count_workers catalog types
unfolding start_workers count_workers
length-start_workers catalog [] = refl
length-start_workers catalog (type ∷ types) =
    let n = workers_for_type catalog type in
    omega (
      arith,
      length-append {0} (worker_set n type) (start_workers catalog types),
      length-worker_set n type,
      length-start_workers catalog types,
    )

le-count_workers :
    (catalog : Catalog) (types : List TaskType) → length types ≤ count_workers catalog types
unfolding count_workers
le-count_workers catalog [] = omega arith
le-count_workers catalog (type ∷ types) =
    omega (arith, workers-pos catalog type, le-count_workers catalog types)

-- The connections that a forked run sizes its pool to are one for each worker that it starts and the four
-- of its other loops, and every type of the batch has a worker.
pub batch_conn_budget-workers :
    (catalog : Catalog) (types : List TaskType)
    → (batch_conn_budget catalog types ≡ length (start_workers catalog types) + batch_aux_conns)
      × (length types + batch_aux_conns ≤ batch_conn_budget catalog types)
unfolding batch_conn_budget
batch_conn_budget-workers catalog types = (
  omega (arith, length-start_workers catalog types),
  omega (arith, le-count_workers catalog types),
)
