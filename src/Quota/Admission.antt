-- ===== src/Quota/Admission.antt =====
-- What the quota checks let through: exactly what the tier allows, and nothing is written.
use sandbox_platform.Prelude.{
  ℕ, ◌+◌, ◌*◌, ◌≤◌, ◌<◌, ◌≡◌, ◌↔◌, ◌⊎◌, true, some, arith, or_else, Bool, ◌≢◌,
}
use sandbox_platform.Action.{ok, err, quota_exceeded, image_not_allowed}
use sandbox_platform.Db.{Db}
use sandbox_platform.Db.Rows.{QuotaRow, ImageRow, ResourceRequest}
use sandbox_platform.Db.Queries.{active_containers, image_instances, disk_bytes, workspace_count}
use sandbox_platform.Quota.{
  tier_of, assert_can_create, assert_image_allowed, assert_aggregate_disk, gib, whitelist_admits,
  assert_image_instance_limit, assert_can_create_workspace,
}

-- What a container request has to meet.
pub record Fits (db : Db) (user_id : ℕ) (quota : QuotaRow) (request : ResourceRequest)
    : Type 0 where
  pub containers : active_containers user_id db < quota.max_containers
  pub cpu : request.cpu ≤ quota.max_cpu_cores
  pub memory : request.memory_mb ≤ quota.max_memory_mb
  pub disk : request.disk_gb ≤ quota.max_disk_gb

module _ (user_id : ℕ) (db : Db) (quota : QuotaRow) (tier : tier_of user_id db ≡ some quota) where
  -- Where the user's tier resolves, `assertCanCreate` returns that tier when the request fits it, and
  -- throws QUOTA_EXCEEDED when it does not. Nothing is written in either case.
  pub assert_can_create_branches :
      (request : ResourceRequest)
      → (Fits db user_id quota request → assert_can_create user_id request db ≡ (ok quota, db))
        × (¬ Fits db user_id quota request
            → assert_can_create user_id request db ≡ (err quota_exceeded, db))
  unfolding assert_can_create
  assert_can_create_branches request = (λ f. ground arith, λ n. ground arith)

  -- Where the user's tier resolves, `assertImageAllowed` passes exactly when the image is public
  -- and the tier's whitelist admits it, or the image is private and the actor is an admin;
  -- otherwise it throws IMAGE_NOT_ALLOWED. Nothing is written.
  pub assert_image_allowed_iff :
      (image : ImageRow) (is_admin : Bool)
      → let passes =
          ((image.is_public ≡ true) × (whitelist_admits quota.allowed_image_ids image.id ≡ true))
          ⊎ ((image.is_public ≢ true) × (is_admin ≡ true)) in
        (passes → assert_image_allowed user_id image is_admin db ≡ (ok tt, db))
        × (¬ passes → assert_image_allowed user_id image is_admin db ≡ (err image_not_allowed, db))
  unfolding assert_image_allowed
  assert_image_allowed_iff image is_admin = (λ p. ground arith, λ n. ground arith)

  -- Where the user's tier resolves, `assertAggregateDisk` passes exactly when the bytes of the
  -- user's overlays (of containers that are not destroyed), snapshots and workspaces, and the
  -- additional bytes, come to no more than `max_disk_gb` GiB; it writes nothing.
  pub assert_aggregate_disk_iff :
      (additional : ℕ)
      → (assert_aggregate_disk user_id additional db ≡ (ok tt, db))
        ↔ (disk_bytes user_id db + additional ≤ quota.max_disk_gb * gib)
  unfolding assert_aggregate_disk
  assert_aggregate_disk_iff additional = (λ e. ground arith, λ f. ground arith)

  -- Where the user's tier resolves, `assertCanCreateWorkspace` returns that tier and writes nothing
  -- exactly when the user has fewer workspaces than `max_workspaces_per_user`.
  pub assert_can_create_workspace_iff :
      (assert_can_create_workspace user_id db ≡ (ok quota, db))
      ↔ (workspace_count user_id db < quota.max_workspaces_per_user)
  unfolding assert_can_create_workspace
  assert_can_create_workspace_iff = (λ e. ground arith, λ f. ground arith)

-- `assertImageInstanceLimit` passes exactly when the image has no cap (null or 0), or the user has
-- fewer containers of it, not destroyed, than the cap.
pub assert_image_instance_limit_iff :
    (user_id : ℕ) (image : ImageRow) (db : Db)
    → (assert_image_instance_limit user_id image db ≡ (ok tt, db)) ↔ (
        (or_else image.max_per_user 0 ≡ 0)
        ⊎ (image_instances user_id image.id db < or_else image.max_per_user 0))
unfolding assert_image_instance_limit
assert_image_instance_limit_iff user_id image db = (λ e. ground arith, λ f. ground arith)
