-- ===== src/Task/Lifecycle/Paths.antt =====
-- The whole of the operations: every batch row follows the diagram.
use edub_kushim.Base.{
  ℕ, all, not, ◌≡◌, refl, ap, inl, inr, true, false, Option, none, some, arith, ◌==◌, Bool-cases,
  Option-cases, List, [], ◌∷◌, String, subst, ◌∙◌,
}
use edub_kushim.Types.{BatchStatus, TaskType, terminal}
use edub_kushim.Task.Json.{Raw}
use edub_kushim.Task.Db.{Db, BatchRow, TaskRow}
use edub_kushim.Task.Db.Owners.{
  adopt_batch_owner, heartbeat_batch_owner, release_batch_owner, release_stale_batch_owner,
}
use edub_kushim.Task.Db.Tasks.{
  claim_task, get_task, complete_blocking_task, fail_blocking_task, set_waiting_successor_pending,
  discard_waiting_successor,
}
use edub_kushim.Task.Db.Batches.{mark_batch_claimed}
use edub_kushim.Task.Locks.{
  acquire_locks, acquire_locks_query, release_locks_for_token, release_locks_for_batch,
  touch_locks_for_token,
}
use edub_kushim.Task.Db.Cascade.{discard_waiting_branch, discard_orphaned_successors}
use edub_kushim.Task.Store.{
  SuccessorPlan, activate_successor, activate_successors, discard_duplicate_successor,
  complete_task, fail_task,
}
use edub_kushim.Task.Store.Claiming.{
  claim_next_pending, next_pending_task, flip_batch, claim_selected,
}
use edub_kushim.Task.Lifecycle.{Op, exec, run, is_resume}
use edub_kushim.Task.Lifecycle.Graph.{Evolves, Move}
use edub_kushim.Task.Lifecycle.Steps.{
  Evolves-of_cases, mark-Evolves, claim-Evolves, pause-Evolves, cancel-Evolves,
  fail_unstarted-Evolves, requeue-Evolves, resume-Evolves, batches-reset,
}
use edub_kushim.Task.Lifecycle.Enqueueing.{enqueue_batch-Evolves}
use edub_kushim.Task.Lifecycle.FollowUps.{settle-Evolves}

flip-Evolves :
    (db : Db) (task : TaskRow) (o : Option ℕ) (claimed : Db) (j : ℕ)
    → claimed.batches ≡ db.batches
    → Evolves false (db.batches j) ((flip_batch db task o claimed).1.batches j)
unfolding flip_batch mark_batch_claimed
flip-Evolves db task none claimed j same = inl (ap (λ f. f j) same)
flip-Evolves db task (some b) claimed j same =
    Evolves-of_cases {written = (mark_batch_claimed b claimed).1.batches j} (ground arith) (
      subst (λ f. Evolves false (f j) ((mark_batch_claimed b claimed).1.batches j)) same
        (mark-Evolves b j claimed))

selected-Evolves :
    (db : Db) (selected : TaskRow) (j : ℕ)
    → Evolves false (db.batches j) ((claim_selected db selected).1.batches j)
unfolding claim_selected claim_task
selected-Evolves db selected j =
    let claimed = (claim_task selected.id db).1 in
    elim (Bool-cases ((claim_task selected.id db).0 == 0)) [
      | inl none_left ↦ inl (ground arith)
      | inr some_row ↦ elim (Option-cases (get_task selected.id claimed)) [
        | inl e ↦ inl (ground arith)
        | inr (task, e) ↦
            Evolves-of_cases {written = (flip_batch db task task.batch_id claimed).1.batches j}
              (ground arith) (flip-Evolves db task task.batch_id claimed j refl)
      ]
    ]

claim_next-Evolves :
    (owner : Option ℕ) (type : TaskType) (db : Db) (j : ℕ)
    → Evolves false (db.batches j) ((claim_next_pending owner type db).1.batches j)
unfolding claim_next_pending
claim_next-Evolves none type db j = inl refl
claim_next-Evolves (some owner) type db j = elim (Option-cases (next_pending_task type owner db)) [
  | inl e ↦ inl (ground arith)
  | inr (selected, e) ↦
      Evolves-of_cases {written = (claim_selected db selected).1.batches j} (ground arith)
        (selected-Evolves db selected j)
]

batches-activate :
    (plan : SuccessorPlan) (db : Db) → (activate_successor plan db).1.batches ≡ db.batches
unfolding activate_successor set_waiting_successor_pending discard_duplicate_successor
    discard_waiting_successor discard_waiting_branch
batches-activate plan db = ground arith

batches-activate_all :
    (plans : List SuccessorPlan) (db : Db) → (activate_successors plans db).1.batches ≡ db.batches
unfolding activate_successors
batches-activate_all [] db = refl
batches-activate_all (plan ∷ plans) db =
    batches-activate_all plans (activate_successor plan db).1 ∙ batches-activate plan db

batches-complete_task :
    (id : ℕ) (result : Raw) (token : ℕ) (plans : List SuccessorPlan) (db : Db)
    → (complete_task id result token plans db).2.batches ≡ db.batches
unfolding complete_task complete_blocking_task
batches-complete_task id result token plans db =
    ground (arith, batches-activate_all plans (complete_blocking_task id result token db).1)

batches-fail_task :
    (id task_id : ℕ) (error : String) (token : ℕ) (db : Db)
    → (fail_task id task_id error token db).2.batches ≡ db.batches
unfolding fail_task fail_blocking_task discard_waiting_branch
batches-fail_task id task_id error token db = ground arith

-- Every operation of the task system, at every batch, leaves the row as it is, or changes only its
-- status and that along the diagram, or creates the row as a queued batch. Only a resume takes a batch
-- out of an end status.
pub exec-Evolves :
    (op : Op) (db : Db) (j : ℕ) → Evolves (is_resume op) (db.batches j) ((exec op db).batches j)
unfolding exec adopt_batch_owner heartbeat_batch_owner release_batch_owner release_stale_batch_owner
    discard_orphaned_successors acquire_locks acquire_locks_query release_locks_for_token
    release_locks_for_batch touch_locks_for_token
exec-Evolves (Op.enqueue catalog uuids spec tasks) db j =
    enqueue_batch-Evolves catalog uuids spec tasks db j
exec-Evolves (Op.claim request) db j = claim-Evolves request db j
exec-Evolves (Op.settle catalog uuids execution) db j = settle-Evolves catalog uuids execution db j
exec-Evolves (Op.pause execution) db j = pause-Evolves execution db j
exec-Evolves (Op.cancel alive signal_lands b) db j = cancel-Evolves alive signal_lands b db j
exec-Evolves (Op.fail_unstarted b token) db j = fail_unstarted-Evolves b token db j
exec-Evolves (Op.reset text b limit locks) db j =
    inl (ap (λ f. f j) (batches-reset text b limit locks db))
exec-Evolves (Op.resume text b limit failed) db j = resume-Evolves text b limit failed db j
exec-Evolves (Op.requeue b) db j = requeue-Evolves b db j
exec-Evolves (Op.adopt b token pid) db j = inl (ground arith)
exec-Evolves (Op.heartbeat token) db j = inl refl
exec-Evolves (Op.release b token) db j = inl (ground arith)
exec-Evolves (Op.release_stale b token pid window) db j = inl (ground arith)
exec-Evolves (Op.claim_task owner type) db j = claim_next-Evolves owner type db j
exec-Evolves (Op.complete id result token plans) db j =
    inl (ap (λ f. f j) (batches-complete_task id result token plans db))
exec-Evolves (Op.fail id task_id error token) db j =
    inl (ap (λ f. f j) (batches-fail_task id task_id error token db))
exec-Evolves (Op.sweep_orphans b) db j = inl refl
exec-Evolves (Op.acquire holds waits token b) db j = inl (ground arith)
exec-Evolves (Op.release_locks token names) db j = inl refl
exec-Evolves (Op.release_batch_locks b) db j = inl refl
exec-Evolves (Op.touch_locks token names) db j = inl refl
exec-Evolves (Op.tick now) db j = inl refl

terminal-Move : {s t : BatchStatus} → Move false s t → terminal s ≡ false
unfolding terminal
terminal-Move Move.claimed = refl
terminal-Move Move.succeeded = refl
terminal-Move Move.broke = refl
terminal-Move Move.unlaunched = refl
terminal-Move Move.halted = refl
terminal-Move Move.withdrawn = refl
terminal-Move Move.stopped = refl
terminal-Move Move.dropped = refl
terminal-Move Move.handed_back = refl

stuck :
    {before after : Option BatchRow} {row : BatchRow}
    → Evolves false before after
    → before ≡ some row
    → terminal row.status ≡ true
    → after ≡ some row
stuck (inl same) here ended = same ∙ here
stuck (inr (inl (r, status, was, wrote, move))) here ended = ground (arith, terminal-Move move)
stuck (inr (inr (r, absent, new, queued))) here ended = cc

-- Where a batch has ended, its row stays as it is over any sequence of operations without a resume.
pub terminal-run :
    (ops : List Op) (db : Db) (j : ℕ) {row : BatchRow}
    → db.batches j ≡ some row
    → terminal row.status ≡ true
    → all (λ op. not (is_resume op)) ops ≡ true
    → (run ops db).batches j ≡ some row
unfolding run
terminal-run [] db j here ended free = here
terminal-run (op ∷ ops) db j {row} here ended free =
    terminal-run ops (exec op db) j
      (stuck
        (subst (λ r. Evolves r (db.batches j) ((exec op db).batches j)) (ground arith)
          (exec-Evolves op db j))
        here ended)
      ended (ground arith)
