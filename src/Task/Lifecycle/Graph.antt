-- ===== src/Task/Lifecycle/Graph.antt =====
-- The diagram of batch statuses, and what it means that a batch row follows it.
use edub_kushim.Base.{
  ℕ, ◌≡◌, ◌⊎◌, inl, inr, Bool, true, Option, none, some, arith, ◌==◌, Bool-cases, Option-cases,
  subst, sym, ==_iff,
}
use edub_kushim.Types.{BatchStatus}
use edub_kushim.Task.Db.{Db, BatchRow}
use edub_kushim.Task.Db.Batches.{set_batch_status, resumable}

-- The moves of an operation; only a resume, flagged true, takes a batch out of where it ended.
pub data Move : (resume : Bool) → BatchStatus → BatchStatus → Type 0 where
  claimed : {r : Bool} → Move r BatchStatus.queued BatchStatus.processing
  succeeded : {r : Bool} → Move r BatchStatus.processing BatchStatus.completed
  broke : {r : Bool} → Move r BatchStatus.processing BatchStatus.failed
  unlaunched : {r : Bool} → Move r BatchStatus.queued BatchStatus.failed
  halted : {r : Bool} → Move r BatchStatus.processing BatchStatus.paused
  withdrawn : {r : Bool} → Move r BatchStatus.queued BatchStatus.cancelled
  stopped : {r : Bool} → Move r BatchStatus.processing BatchStatus.cancelled
  dropped : {r : Bool} → Move r BatchStatus.paused BatchStatus.cancelled
  handed_back : {r : Bool} → Move r BatchStatus.processing BatchStatus.queued
  resumed : {s : BatchStatus} → resumable s ≡ true → Move true s BatchStatus.queued

-- A row stays, moves along the diagram with all but its status kept, or is new and queued.
abbrev pub Evolves : Bool → Option BatchRow → Option BatchRow → Type 0
Evolves r before after =
    (after ≡ before)
    ⊎ ((row : BatchRow) × (status : BatchStatus) × (before ≡ some row)
        × (after ≡ some (record row { status = status }))
        × Move r row.status status)
    ⊎ ((row : BatchRow) × (before ≡ none) × (after ≡ some row) × (row.status ≡ BatchStatus.queued))

pub at_key :
    (j b : ℕ) (db : Db) {row : BatchRow}
    → db.batches b ≡ some row
    → (j == b) ≡ true
    → db.batches j ≡ some row
at_key j b db {row} here same =
    subst (λ k. db.batches k ≡ some row) (sym ((==_iff j b).0 same)) here

-- A guarded status write follows the diagram if its guard allows only edges.
pub set_batch_status-Evolves :
    {r : Bool} (guard : BatchStatus → Bool) (status : BatchStatus) (b j : ℕ) (db : Db)
    → ((s : BatchStatus) → guard s ≡ true → Move r s status)
    → Evolves r (db.batches j) ((set_batch_status guard status b db).1.batches j)
unfolding set_batch_status
set_batch_status-Evolves guard status b j db edge = elim (Option-cases (db.batches b)) [
  | inl absent ↦ inl (ground arith)
  | inr (row, here) ↦ elim (Bool-cases (guard row.status)) [
    | inr shut ↦ inl (ground arith)
    | inl fits ↦ elim (Bool-cases (j == b)) [
      | inr other ↦ inl (ground arith)
      | inl same ↦
          inr (inl (row, status, at_key j b db here same, ground arith, edge row.status fits))
    ]
  ]
]
