-- ===== src/Examples/Tasks.antt =====
-- Runs of the task operations on the small tables.
use mathlib.Core.List.{Memᴰ}
use edub_kushim.Base.{
  arith, ap, sym, ◌∙◌, none, ℕ, String, ◌≡◌, ◌⊎◌, refl, true, false, some, List, [], ◌∷◌, any, all,
}
use edub_kushim.Types.{TaskType, TaskStatus, lock_declaration_for}
use edub_kushim.Task.Json.{
  Fields, object, quoted, array, item, nil, field, end, blank, get_field, as_text_list, as_texts,
}
use edub_kushim.Task.Db.{Db, TaskRow}
use edub_kushim.Task.Db.Tasks.{leased_task}
use edub_kushim.Task.Db.Owners.{batch_leased_by}
use edub_kushim.Task.Store.{complete_task, fail_task}
use edub_kushim.Task.Store.Claiming.{claim_next_pending}
use edub_kushim.Task.Store.Guards.{complete_task-stale}
use edub_kushim.Task.Store.Eligibility.{Eligible}
use edub_kushim.Task.Store.Claims.{Claimed, claim_next_pending-outcome}
use edub_kushim.Task.Errors.{ok}
use edub_kushim.Task.Successors.{merged, merge_inherited_fields}
use edub_kushim.Task.Successors.Plans.{Inherits, has_field, merge_inherited_fields-Inherits}
use edub_kushim.Examples.Data.{busy, tables, task_at}

-- the token 8 is not the lease of batch 2
foreign_token : any (leased_task busy 12 8) busy.tasks ≡ false
unfolding batch_leased_by
foreign_token = refl

complete_task-stale_example :
    (complete_task 12 blank 8 [] busy ≡ (0, [], busy))
    × (fail_task 12 12 "gone" 8 busy ≡ (0, 0, busy))
complete_task-stale_example = complete_task-stale 12 12 blank "gone" 8 [] busy foreign_token

-- The task of batch 2 is pending, and the batch is leased to the token 9.
abbrev waiting : Db
waiting = tables TaskStatus.pending

unique_ids : (s t : TaskRow) → Memᴰ s waiting.tasks → Memᴰ t waiting.tasks → t.id ≡ s.id → t ≡ s
unique_ids s t (Memᴰ.head e) (Memᴰ.head f) same = f ∙ sym e
unique_ids s t (Memᴰ.tail (Memᴰ.head e)) (Memᴰ.tail (Memᴰ.head f)) same = f ∙ sym e
unique_ids s t (Memᴰ.head e) (Memᴰ.tail (Memᴰ.head f)) same =
    let x = ap (λ (r : TaskRow). r.id) e in
    let y = ap (λ (r : TaskRow). r.id) f in ground (arith, x, y, same)
unique_ids s t (Memᴰ.tail (Memᴰ.head e)) (Memᴰ.head f) same =
    let x = ap (λ (r : TaskRow). r.id) e in
    let y = ap (λ (r : TaskRow). r.id) f in ground (arith, x, y, same)
unique_ids s t (Memᴰ.tail (Memᴰ.tail m)) n same = elim m [ ]
unique_ids s t m (Memᴰ.tail (Memᴰ.tail n)) same = elim n [ ]

claim_next_pending-outcome_example :
    (((claim_next_pending (some 9) TaskType.consume waiting).1 ≡ waiting)
      × ((token : ℕ) (t : TaskRow)
          → some 9 ≡ some token
          → ¬ Eligible TaskType.consume token waiting t))
    ⊎ ((token : ℕ) × (selected : TaskRow) × (some 9 ≡ some token)
        × (e : Eligible TaskType.consume token waiting selected) × Claimed selected e.batch e.row
            waiting
            (claim_next_pending (some 9) TaskType.consume waiting))
claim_next_pending-outcome_example =
    claim_next_pending-outcome (some 9) TaskType.consume waiting unique_ids

claims_the_task :
    (claim_next_pending (some 9) TaskType.consume waiting).0
    ≡ ok (record (task_at 12 2 TaskStatus.processing none) { started_at = some 100 })
unfolding claim_next_pending lock_declaration_for
claims_the_task = refl

-- a payload that inherits its path from a result
abbrev stored : Fields
stored = field "inherit" (array (item (quoted "path") nil)) (field "kind" (quoted "a") end)

abbrev result : Fields
result = field "path" (quoted "b") end

abbrev wanted_keys : List String
wanted_keys = "path" ∷ []

declares : get_field stored "inherit" ≡ some (array (item (quoted "path") nil))
unfolding get_field
declares = refl

names_path : as_text_list (array (item (quoted "path") nil)) ≡ some wanted_keys
unfolding as_text_list as_texts
names_path = refl

has_path : all (has_field result) wanted_keys ≡ true
unfolding get_field
has_path = refl

merge_inherited_fields-Inherits_example :
    (fs : Fields) × (merge_inherited_fields (some (object stored)) (some result)
      ≡ merged (object fs))
    × Inherits wanted_keys result stored fs
merge_inherited_fields-Inherits_example =
    merge_inherited_fields-Inherits result stored wanted_keys declares names_path has_path
