-- ===== src/Task/Runner/Resting.antt =====
-- settle and pause of internal/task/execute.go: a task that the run does not process stays so.
use edub_kushim.Base.{
  ℕ, ◌≡◌, refl, ap, ◌∙◌, sym, subst, inl, inr, Bool, true, false, all, Option, none, some, List, [],
  ◌∷◌, any, arith, Bool-cases, Option-cases,
}
use edub_kushim.Base.Updates.{any-append_kept}
use edub_kushim.Task.Db.{Db, TaskRow, BatchRow}
use edub_kushim.Task.Db.Owners.{batch_leased_by, owned_by, release_batch_owner}
use edub_kushim.Task.Db.Tasks.{leased_task}
use edub_kushim.Task.Db.Batches.{settle_batch_row, set_batch_paused, set_batch_status}
use edub_kushim.Task.Locks.{release_locks_for_batch}
use edub_kushim.Task.Catalog.{Catalog}
use edub_kushim.Task.Store.Idle.{Idle}
use edub_kushim.Task.Batch.Settling.{Execution, create_follow_up_batch, settle_batch, pause_batch}
use edub_kushim.Task.Batch.Sequels.{
  fresh_in, create_follow_up_batch-outcome, owners-create_follow_up,
}

leased_by-owners :
    (db db' : Db) (o : Option ℕ) (token : ℕ)
    → db'.owners ≡ db.owners
    → batch_leased_by db' o token ≡ batch_leased_by db o token
unfolding batch_leased_by
leased_by-owners db db' none token same = refl
leased_by-owners db db' (some b) token same = ap (λ f. owned_by (f b) token) same

leased-owners :
    (id token : ℕ) (db db' : Db) (rows : List TaskRow)
    → db'.owners ≡ db.owners
    → any (leased_task db' id token) rows ≡ any (leased_task db id token) rows
leased-owners id token db db' [] same = refl
leased-owners id token db db' (t ∷ rows) same =
    ground (
      arith,
      leased_by-owners db db' t.batch_id token same,
      leased-owners id token db db' rows same,
    )

fresh_unleased :
    (id token b : ℕ) (db : Db) (rows : List TaskRow)
    → all (fresh_in b) rows ≡ true
    → any (leased_task db id token) rows ≡ false
fresh_unleased id token b db [] h = refl
fresh_unleased id token b db (t ∷ rows) h =
    ground (arith, fresh_unleased id token b db rows (ground arith))

Idle-same :
    (id token : ℕ) (db db' : Db)
    → db'.owners ≡ db.owners
    → db'.tasks ≡ db.tasks
    → Idle id token db
    → Idle id token db'
Idle-same id token db db' owners tasks h =
    leased-owners id token db db' db'.tasks owners ∙ ap (any (leased_task db id token)) tasks ∙ h

follow_up-Idle :
    (catalog : Catalog) (uuids : ℕ → ℕ) (id token : ℕ) (settled : BatchRow) (db : Db)
    → Idle id token db
    → Idle id token (create_follow_up_batch catalog uuids settled db)
follow_up-Idle catalog uuids id token settled db h =
    let after = create_follow_up_batch catalog uuids settled db in
    let owners = owners-create_follow_up catalog uuids settled db in
    elim (create_follow_up_batch-outcome catalog uuids settled db) [
      | inl (same, why) ↦ subst (Idle id token) (sym same) h
      | inr (m, fired, new, more) ↦
          leased-owners id token db after after.tasks owners
          ∙ ap (any (leased_task db id token)) more.tasks_then_rows
          ∙ any-append_kept (leased_task db id token) db.tasks more.rows h
              (fresh_unleased id token (uuids 0) db more.rows more.all_fresh)
    ]

release_locks_keep :
    (b : ℕ) (db : Db)
    → ((release_locks_for_batch b db).owners ≡ db.owners)
      × ((release_locks_for_batch b db).tasks ≡ db.tasks)
unfolding release_locks_for_batch
release_locks_keep b db = (refl, refl)

settle_row_keeps :
    (execution : Execution) (db : Db) {settled : BatchRow} {written : Db}
    → settle_batch_row execution.batch execution.owner db ≡ some (settled, written)
    → (written.owners ≡ db.owners) × (written.tasks ≡ db.tasks)
unfolding settle_batch_row
settle_row_keeps execution db e = ground arith

pub settle-Idle :
    (catalog : Catalog) (uuids : ℕ → ℕ) (id token : ℕ) (execution : Execution) (db : Db)
    → Idle id token db
    → Idle id token (settle_batch catalog uuids execution db).1
unfolding settle_batch
settle-Idle catalog uuids id token execution db h =
    elim (Option-cases (settle_batch_row execution.batch execution.owner db)) [
      | inl refused ↦ elim (Option-cases (db.batches execution.batch)) [
        | inl e ↦ Idle-same id token db _ (ground arith) (ground arith) h
        | inr (row, e) ↦ Idle-same id token db _ (ground arith) (ground arith) h
      ]
      | inr ((settled, written), e) ↦
          let sequel = create_follow_up_batch catalog uuids settled written in
          Idle-same id token sequel _ (ground (arith, release_locks_keep execution.batch sequel))
            (ground (arith, release_locks_keep execution.batch sequel))
            (follow_up-Idle catalog uuids id token settled written (
              Idle-same id token db written (settle_row_keeps execution db e).0
                (settle_row_keeps execution db e).1 h))
    ]

unleased :
    (token b : ℕ) (db : Db) (o : Option ℕ)
    → batch_leased_by db o token ≡ false
    → batch_leased_by (release_batch_owner b token db).1 o token ≡ false
unfolding batch_leased_by release_batch_owner
unleased token b db none h = refl
unleased token b db (some j) h = ground (arith, h)

any-weaker :
    (p q : TaskRow → Bool) (rows : List TaskRow)
    → ((t : TaskRow) → p t ≡ false → q t ≡ false)
    → any p rows ≡ false
    → any q rows ≡ false
any-weaker p q [] h none_before = refl
any-weaker p q (t ∷ rows) h none_before =
    ground (arith, h t (ground arith), any-weaker p q rows h (ground arith))

tasks-release : (b token : ℕ) (db : Db) → (release_batch_owner b token db).1.tasks ≡ db.tasks
unfolding release_batch_owner
tasks-release b token db = ground arith

release-Idle :
    (id token b : ℕ) (db : Db) → Idle id token db → Idle id token (release_batch_owner b token db).1
release-Idle id token b db h =
    let released = (release_batch_owner b token db).1 in
    ap (any (leased_task released id token)) (tasks-release b token db)
    ∙ any-weaker (leased_task db id token) (leased_task released id token) db.tasks
        (λ t k. ground (arith, unleased token b db t.batch_id)) h

pause_row_keeps :
    (b token : ℕ) (db : Db)
    → ((set_batch_paused b (some token) db).1.owners ≡ db.owners)
      × ((set_batch_paused b (some token) db).1.tasks ≡ db.tasks)
unfolding set_batch_paused set_batch_status
pause_row_keeps b token db = (ground arith, ground arith)

pub pause-Idle :
    (id token b : ℕ) (db : Db)
    → Idle id token db
    → Idle id token (pause_batch (record { batch = b; owner = some token }) db).1
unfolding pause_batch
pause-Idle id token b db h =
    let (written, paused) = set_batch_paused b (some token) db in
    let unlocked = release_locks_for_batch b paused in
    let keeps = pause_row_keeps b token db in
    let locks = release_locks_keep b paused in
    elim (Bool-cases (set_batch_paused b (some token) db).0) [
      | inl e ↦
          let idle =
            release-Idle id token b unlocked
              (Idle-same id token db unlocked (locks.0 ∙ keeps.0) (locks.1 ∙ keeps.1) h) in
          ground (arith, idle)
      | inr e ↦ ground (arith, h)
    ]
