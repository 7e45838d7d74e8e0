-- ===== src/Tests/Spaces.antt =====
-- Workspaces on the small platform.
use sandbox_platform.Prelude.{
  ℕ, suc, ◌<◌, ◌≡◌, ◌⊎◌, arith, false, none, some, [], ◌∷◌, ◌++◌, count_where,
}
use sandbox_platform.Action.{AppError, ok, err}
use sandbox_platform.Db.Rows.{QuotaRow, Status}
use sandbox_platform.Db.Queries.{workspace_count}
use sandbox_platform.Quota.{tier_of}
use sandbox_platform.World.{World}
use sandbox_platform.Workspaces.{WorkspaceStorage, NewWorkspace, create, same_name}
use sandbox_platform.Workspaces.Creation.{HasFreshWorkspaceIds, made, create_whole_or_not}
use sandbox_platform.Tests.{sample_world}

abbrev platform : World ℕ
platform = sample_world Status.running

abbrev disk : WorkspaceStorage ℕ
disk = record {
  ensure_workspace_dir = λ user_id id n. (ok tt, suc n);
  remove_workspace_dir = λ user_id id n. (ok tt, suc n);
  foreign_key_violation = "FOREIGN KEY constraint failed";
}

abbrev notes : NewWorkspace
notes = record { name = "notes"; description = none; is_template = false }

fresh_ids : HasFreshWorkspaceIds platform.db
fresh_ids = ground arith

create_whole_or_not_example :
    let (r, v) = create disk 1 notes platform in
    ((x : AppError) × (r ≡ err x) × (v.db.workspaces.rows ≡ platform.db.workspaces.rows))
    ⊎ ((quota : QuotaRow) × (tier_of 1 platform.db ≡ some quota)
        × (workspace_count 1 platform.db < quota.max_workspaces_per_user)
        × (count_where (same_name 1 "notes") platform.db.workspaces.rows ≡ 0)
        × (r ≡ ok (made disk 1 notes platform.db))
        × (v.db.workspaces.rows
            ≡ platform.db.workspaces.rows ++ made disk 1 notes platform.db ∷ []))
create_whole_or_not_example = create_whole_or_not disk 1 notes platform fresh_ids
