-- ===== src/Workspaces/Deletion.antt =====
-- When a workspace can be deleted.
use sandbox_platform.Prelude.{ℕ, ◌≡◌, Bool, true, false, some, arith, ◌==◌, any_where, find_where}
use sandbox_platform.Action.{ok, err, failure}
use sandbox_platform.Db.Rows.{WorkspaceRow}
use sandbox_platform.World.{World}
use sandbox_platform.Containers.Mounts.{require_owned_workspace, is_foreign}
use sandbox_platform.Workspaces.{
  WorkspaceStorage, delete, delete_row, has_workspace_id, remove_workspace,
}

-- `delete`, called by the owner or an admin on a workspace that is found, tells the storage to remove the
-- directory. Where a mount of some container refers to the workspace it then throws and leaves
-- the database as it was; else it returns, and the workspace is removed, even if the storage failed.
pub delete_branches :
    {R : Type 0} (storage : WorkspaceStorage R) (id user_id : ℕ) (is_admin : Bool) (w : World R)
    (ws : WorkspaceRow)
    → find_where (has_workspace_id id) w.db.workspaces.rows ≡ some ws
    → is_foreign ws.user_id is_admin user_id ≡ false
    → let (r, v) = delete storage id user_id is_admin w in
      let mounted = any_where (λ m. m.workspace_id == id) w.db.container_mounts.rows in
      (v.runtime ≡ (storage.remove_workspace_dir ws.user_id id w.runtime).1)
      × (mounted ≡ true → (r ≡ err (failure storage.foreign_key_violation)) × (v.db ≡ w.db))
      × (mounted ≡ false → (r ≡ ok tt) × (v.db ≡ remove_workspace id w.db))
unfolding delete delete_row require_owned_workspace
delete_branches storage id user_id is_admin w ws e f =
    (ground arith, λ m. (ground arith, ground arith), λ m. (ground arith, ground arith))
