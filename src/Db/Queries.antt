-- ===== src/Db/Queries.antt =====
-- The look-ups by key that several services share (`getById` and the like), and the counts and sums
-- that the quota checks read.
use sandbox_platform.Prelude.{
  ℕ, ◌+◌, String, Bool, true, false, not, ◌&&◌, Option, none, some, ◌==◌, str_eq, find_where,
  count_where, sum_where,
}
use sandbox_platform.Db.{Db}
use sandbox_platform.Db.Rows.{UserRow, QuotaRow, ImageRow, ContainerRow, Status}

-- user.service.ts getById, getByUsername
abbrev pub user_by_id : ℕ → Db → Option UserRow
user_by_id id db = find_where (λ u. u.id == id) db.users.rows

abbrev pub user_by_username : String → Db → Option UserRow
user_by_username name db = find_where (λ u. str_eq u.username name) db.users.rows

-- quota.service.ts getById, getByName
abbrev pub quota_by_id : ℕ → Db → Option QuotaRow
quota_by_id id db = find_where (λ q. q.id == id) db.resource_quotas.rows

abbrev pub quota_by_name : String → Db → Option QuotaRow
quota_by_name name db = find_where (λ q. str_eq q.name name) db.resource_quotas.rows

-- image.service.ts getById
abbrev pub image_by_id : ℕ → Db → Option ImageRow
image_by_id id db = find_where (λ i. i.id == id) db.images.rows

-- container.service.ts getById
abbrev pub container_by_id : ℕ → Db → Option ContainerRow
container_by_id id db = find_where (λ c. c.id == id) db.containers.rows

abbrev pub is_destroyed : Status → Bool
is_destroyed Status.destroyed = true
is_destroyed _ = false

abbrev pub is_running : Status → Bool
is_running Status.running = true
is_running _ = false

abbrev pub is_stopped : Status → Bool
is_stopped Status.stopped = true
is_stopped _ = false

-- user_id = ? AND status != 'destroyed'
abbrev pub is_active_of : ℕ → ContainerRow → Bool
is_active_of user_id c = c.user_id == user_id && not (is_destroyed c.status)

-- … AND image_id = ?
abbrev pub is_instance_of : ℕ → ℕ → ContainerRow → Bool
is_instance_of user_id image_id c = is_active_of user_id c && c.image_id == image_id

abbrev pub active_containers : ℕ → Db → ℕ
active_containers user_id db = count_where (is_active_of user_id) db.containers.rows

abbrev pub image_instances : ℕ → ℕ → Db → ℕ
image_instances user_id image_id db =
    count_where (is_instance_of user_id image_id) db.containers.rows

abbrev pub workspace_count : ℕ → Db → ℕ
workspace_count user_id db = count_where (λ w. w.user_id == user_id) db.workspaces.rows

-- overlays o JOIN containers c ON o.container_id = c.id WHERE c.user_id = ? AND …; the id of a
-- container is its primary key, so an overlay joins one row at most.
abbrev pub joins_active : Option ContainerRow → ℕ → Bool
joins_active none user_id = false
joins_active (some c) user_id = is_active_of user_id c

abbrev pub overlay_bytes : ℕ → Db → ℕ
overlay_bytes user_id db =
    sum_where (λ o. joins_active (container_by_id o.container_id db) user_id) (λ o. o.size_bytes)
      db.overlays.rows

abbrev pub snapshot_bytes : ℕ → Db → ℕ
snapshot_bytes user_id db =
    sum_where (λ s. s.user_id == user_id) (λ s. s.size_bytes) db.snapshots.rows

abbrev pub workspace_bytes : ℕ → Db → ℕ
workspace_bytes user_id db =
    sum_where (λ w. w.user_id == user_id) (λ w. w.size_bytes) db.workspaces.rows

-- The total that `assertAggregateDisk` selects.
abbrev pub disk_bytes : ℕ → Db → ℕ
disk_bytes user_id db =
    overlay_bytes user_id db + snapshot_bytes user_id db + workspace_bytes user_id db
