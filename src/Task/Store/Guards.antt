-- ===== src/Task/Store/Guards.antt =====
-- The fence of the lease: what CompleteTask and FailTask do for a token that is not the batch's.
use edub_kushim.Base.{ℕ, ◌≡◌, arith, String, false, List, [], any}
use edub_kushim.Base.Updates.{update_where-any, count_where-any}
use edub_kushim.Types.{TaskStatus}
use edub_kushim.Task.Json.{Raw}
use edub_kushim.Task.Db.{Db}
use edub_kushim.Task.Db.Tasks.{ended_row, leased_task, complete_blocking_task, fail_blocking_task}
use edub_kushim.Task.Store.{SuccessorPlan, complete_task, fail_task}

-- Where the task is not processing under a lease with this token, neither completing nor failing it
-- has any effect: no row, no successor and no table changes.
pub complete_task-stale :
    (id task_id : ℕ) (result : Raw) (error : String) (token : ℕ) (plans : List SuccessorPlan)
    (db : Db)
    → any (leased_task db id token) db.tasks ≡ false
    → (complete_task id result token plans db ≡ (0, [], db))
      × (fail_task id task_id error token db ≡ (0, 0, db))
unfolding complete_task fail_task complete_blocking_task fail_blocking_task
complete_task-stale id task_id result error token plans db h =
    let hit = leased_task db id token in
    (
      ground (arith, count_where-any hit db.tasks h),
      ground (
        arith,
        count_where-any hit db.tasks h,
        update_where-any hit (ended_row TaskStatus.failed db.now error) db.tasks h,
      ),
    )
