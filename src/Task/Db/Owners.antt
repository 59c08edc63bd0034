-- ===== src/Task/Db/Owners.antt =====
-- batch.sql.go on the table batch_owner, and the SQL functions that read it. The window is in seconds.
use edub_kushim.Base.{ℕ, ◌+◌, Bool, true, false, ◌&&◌, Option, none, some, ltb, ◌==◌, if◌then◌else◌}
use edub_kushim.Base.Tables.{put, delete}
use edub_kushim.Task.Db.Rows.{Db, OwnerRow}

abbrev pub owned_by : Option OwnerRow → ℕ → Bool
owned_by none token = false
owned_by (some o) token = o.owner_id == token

-- batch_leased_by(batch, owner)
unfoldable pub batch_leased_by : Db → Option ℕ → ℕ → Bool
batch_leased_by db none token = false
batch_leased_by db (some b) token = owned_by (db.owners b) token

-- last_heartbeat < now - window
unfoldable pub stale_lease : ℕ → ℕ → OwnerRow → Bool
stale_lease now window o = ltb (o.last_heartbeat + window) now

abbrev pub with_owners : Db → (ℕ → Option OwnerRow) → Db
with_owners db owners = record db { owners = owners }

-- TryInsertBatchOwner: false is a conflict on the batch.
unfoldable pub try_insert_batch_owner : ℕ → ℕ → Option ℕ → Db → Bool × Db
try_insert_batch_owner b token dispatcher db = elim (db.owners b) [
  | some o ↦ (false, db)
  | none ↦
      let lease : OwnerRow = record {
        owner_id = token;
        pid = 0;
        dispatcher_id = dispatcher;
        last_heartbeat = db.now;
      } in
      (true, with_owners db (put b lease db.owners))
]

abbrev adopt_row : ℕ → ℕ → OwnerRow → OwnerRow
adopt_row pid now o = record o { pid = pid; last_heartbeat = now }

-- AdoptBatchOwner: the token must match and the lease must be unadopted.
unfoldable pub adopt_batch_owner : ℕ → ℕ → ℕ → Db → Bool × Db
adopt_batch_owner b token pid db = elim (db.owners b) [
  | none ↦ (false, db)
  | some o ↦
      if o.owner_id == token && o.pid == 0
      then (true, with_owners db (put b (adopt_row pid db.now o) db.owners))
      else (false, db)
]

abbrev beat : ℕ → ℕ → Option OwnerRow → Option OwnerRow
beat token now none = none
beat token now (some o) =
    some (if o.owner_id == token then record o { last_heartbeat = now } else o)

-- HeartbeatBatchOwner
unfoldable pub heartbeat_batch_owner : ℕ → Db → Db
heartbeat_batch_owner token db = with_owners db (λ b. beat token db.now (db.owners b))

-- ReleaseBatchOwner: whether the row went.
unfoldable pub release_batch_owner : ℕ → ℕ → Db → Bool × Db
release_batch_owner b token db =
    if owned_by (db.owners b) token
    then (true, with_owners db (delete b db.owners))
    else (false, db)

abbrev same_stale_row : ℕ → ℕ → ℕ → ℕ → Option OwnerRow → Bool
unfolding stale_lease
same_stale_row token pid window now none = false
same_stale_row token pid window now (some o) =
    o.owner_id == token && o.pid == pid && stale_lease now window o

-- ReleaseStaleBatchOwner: the same row, still stale.
unfoldable pub release_stale_batch_owner : ℕ → ℕ → ℕ → ℕ → Db → Bool × Db
unfolding stale_lease
release_stale_batch_owner b token pid window db =
    if same_stale_row token pid window db.now (db.owners b)
    then (true, with_owners db (delete b db.owners))
    else (false, db)
