-- ===== src/Quota.antt =====
-- services/quota.service.ts: the tiers, the tier of a user, and the checks that run before a
-- container, a snapshot or a workspace is made. `allowed_image_ids` is kept decoded.
pub mod Admission
use sandbox_platform.Prelude.{
  ℕ, zero, suc, ◌+◌, ◌*◌, ◌<◌, String, Bool, true, false, not, ◌&&◌, Option, none, some, List, [],
  ◌∷◌, ltb, leb, ◌==◌, if◌then◌else◌, is_some, or_else, count_where, update_where, delete_where,
  any_where,
}
use sandbox_platform.Action.{
  Action, ◌>>=◌, ◌>>◌, pure, gets, modify, throw_if, or_throw, conflict, not_found, quota_exceeded,
  image_not_allowed,
}
use sandbox_platform.Db.{Db, insert_row, with_rows}
use sandbox_platform.Db.Rows.{QuotaRow, UserRow, ImageRow, ResourceRequest}
use sandbox_platform.Db.Queries.{
  user_by_id, quota_by_id, quota_by_name, active_containers, image_instances, workspace_count,
  disk_bytes,
}

unfoldable pub require_quota : ℕ → Action Db QuotaRow
require_quota id = do or_throw (← gets (quota_by_id id)) not_found

-- `if (user?.quota_id)`: 0 is no id
abbrev pub user_tier_id : Option UserRow → Option ℕ
user_tier_id none = none
user_tier_id (some u) = elim u.quota_id [
  | none ↦ none
  | some id ↦ if id == 0 then none else some id
]

abbrev pub tier_by_id : Option ℕ → Db → Option QuotaRow
tier_by_id none db = none
tier_by_id (some id) db = quota_by_id id db

-- The tier that `forUser` resolves: the user's own, or else the one named `default`.
unfoldable pub tier_of : ℕ → Db → Option QuotaRow
tier_of user_id db = elim (tier_by_id (user_tier_id (user_by_id user_id db)) db) [
  | none ↦ quota_by_name "default" db
  | some q ↦ some q
]

unfoldable pub for_user : ℕ → Action Db QuotaRow
for_user user_id = do or_throw (← gets (tier_of user_id)) not_found

unfoldable pub assert_can_create : ℕ → ResourceRequest → Action Db QuotaRow
unfolding for_user
assert_can_create user_id request = do
  quota ← for_user user_id
  used ← gets (active_containers user_id)
  throw_if (leb quota.max_containers used) quota_exceeded
  throw_if (ltb quota.max_cpu_cores request.cpu) quota_exceeded
  throw_if (ltb quota.max_memory_mb request.memory_mb) quota_exceeded
  throw_if (ltb quota.max_disk_gb request.disk_gb) quota_exceeded
  pure quota

-- `!whitelist || whitelist.length === 0 || whitelist.includes(image.id)`
abbrev pub whitelist_admits : Option (List ℕ) → ℕ → Bool
whitelist_admits none image_id = true
whitelist_admits (some []) image_id = true
whitelist_admits (some (x ∷ xs)) image_id = any_where (λ i. i == image_id) (x ∷ xs)

-- A public image goes by the whitelist; any other is for admins.
abbrev pub refuses_image : ImageRow → QuotaRow → Bool → Bool
refuses_image image quota is_admin =
    if image.is_public
    then not (whitelist_admits quota.allowed_image_ids image.id)
    else not is_admin

unfoldable pub assert_image_allowed : ℕ → ImageRow → Bool → Action Db (Unit {0})
unfolding for_user
assert_image_allowed user_id image is_admin = do
  quota ← for_user user_id
  throw_if (refuses_image image quota is_admin) image_not_allowed

unfoldable pub assert_can_create_workspace : ℕ → Action Db QuotaRow
unfolding for_user
assert_can_create_workspace user_id = do
  quota ← for_user user_id
  used ← gets (workspace_count user_id)
  throw_if (leb quota.max_workspaces_per_user used) quota_exceeded
  pure quota

-- `max <= 0` and null are unlimited.
abbrev pub reaches_limit : ℕ → ℕ → Bool
reaches_limit limit used = ltb 0 limit && leb limit used

unfoldable pub assert_image_instance_limit : ℕ → ImageRow → Action Db (Unit {0})
assert_image_instance_limit user_id image = do
  used ← gets (image_instances user_id image.id)
  throw_if (reaches_limit (or_else image.max_per_user 0) used) quota_exceeded

abbrev pub gib : ℕ
gib = 1073741824

unfoldable pub assert_aggregate_disk : ℕ → ℕ → Action Db (Unit {0})
unfolding for_user
assert_aggregate_disk user_id additional_bytes = do
  quota ← for_user user_id
  used ← gets (disk_bytes user_id)
  throw_if (ltb (quota.max_disk_gb * gib) (used + additional_bytes)) quota_exceeded

-- The tiers themselves. An absent field of the patch is `undefined`.
pub record QuotaPatch : Type 0 where
  pub description : Option (Option String)
  pub max_containers : Option ℕ
  pub max_cpu_cores : Option ℕ
  pub max_memory_mb : Option ℕ
  pub max_disk_gb : Option ℕ
  pub max_snapshots_per_container : Option ℕ
  pub max_workspaces_per_user : Option ℕ
  pub allowed_image_ids : Option (Option (List ℕ))

abbrev pub apply_patch : QuotaPatch → QuotaRow → QuotaRow
apply_patch p q = record q {
  description = or_else p.description q.description;
  max_containers = or_else p.max_containers q.max_containers;
  max_cpu_cores = or_else p.max_cpu_cores q.max_cpu_cores;
  max_memory_mb = or_else p.max_memory_mb q.max_memory_mb;
  max_disk_gb = or_else p.max_disk_gb q.max_disk_gb;
  max_snapshots_per_container = or_else p.max_snapshots_per_container q.max_snapshots_per_container;
  max_workspaces_per_user = or_else p.max_workspaces_per_user q.max_workspaces_per_user;
  allowed_image_ids = or_else p.allowed_image_ids q.allowed_image_ids;
}

-- With no field in the patch the row is returned as it stands; writing no column back is the same.
unfoldable pub update_quota : ℕ → QuotaPatch → Action Db QuotaRow
unfolding require_quota
update_quota id patch = do
  require_quota id
  modify λ db. record db {
    resource_quotas =
        with_rows (update_where (λ q. q.id == id) (apply_patch patch)) db.resource_quotas;
  }
  require_quota id

pub record QuotaCreateInput : Type 0 where
  pub name : String
  pub description : Option String
  pub max_containers : ℕ
  pub max_cpu_cores : ℕ
  pub max_memory_mb : ℕ
  pub max_disk_gb : ℕ
  pub max_snapshots_per_container : ℕ
  pub max_workspaces_per_user : Option ℕ
  pub allowed_image_ids : Option (List ℕ)

abbrev pub new_quota : QuotaCreateInput → ℕ → QuotaRow
new_quota input id = record {
  id = id;
  name = input.name;
  description = input.description;
  max_containers = input.max_containers;
  max_cpu_cores = input.max_cpu_cores;
  max_memory_mb = input.max_memory_mb;
  max_disk_gb = input.max_disk_gb;
  max_snapshots_per_container = input.max_snapshots_per_container;
  max_workspaces_per_user = or_else input.max_workspaces_per_user 10;
  allowed_image_ids = input.allowed_image_ids;
}

unfoldable pub create_quota : QuotaCreateInput → Action Db QuotaRow
unfolding require_quota
create_quota input = do
  existing ← gets (quota_by_name input.name)
  throw_if (is_some existing) conflict
  id ← gets (λ db. db.resource_quotas.next_id)
  modify λ db. record db { resource_quotas = insert_row (new_quota input) db.resource_quotas }
  require_quota id

abbrev pub has_tier : ℕ → UserRow → Bool
has_tier id u = elim u.quota_id [ none ↦ false | some q ↦ q == id ]

unfoldable pub delete_quota : ℕ → Action Db (Unit {0})
delete_quota id = do
  users ← gets (λ db. count_where (has_tier id) db.users.rows)
  throw_if (ltb 0 users) conflict
  modify λ db. record db {
    resource_quotas = with_rows (delete_where (λ q. q.id == id)) db.resource_quotas;
  }
