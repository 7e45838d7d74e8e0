-- ===== src/Workspaces.antt =====
-- services/workspace.service.ts create, update and delete. What they call of
-- services/workspace-storage.ts is a parameter, and the message of the database when a foreign key
-- constraint fails.
pub mod Creation
pub mod Deletion
use sandbox_platform.Prelude.{
  any_where, ℕ, String, Bool, false, not, ◌&&◌, Option, none, some, is_some, or_else, ◌==◌, str_eq,
  if◌then◌else◌, find_where, update_where, delete_where,
}
use sandbox_platform.Action.{
  AppError, Action, ◌>>=◌, ◌>>◌, pure, throw, throw_if, or_throw, catch, when, conflict, failure,
}
use sandbox_platform.Db.{Db, insert_row, with_rows}
use sandbox_platform.Db.Rows.{WorkspaceRow, StoragePath}
use sandbox_platform.Quota.{assert_can_create_workspace}
use sandbox_platform.World.{World, on_db, on_host, set_db, ask, best_effort}
use sandbox_platform.Containers.Mounts.{require_owned_workspace}

pub record WorkspaceStorage (R : Type 0) : Type 0 where
  pub ensure_workspace_dir : ℕ → ℕ → Action R (Unit {0})
  pub remove_workspace_dir : ℕ → ℕ → Action R (Unit {0})
  pub foreign_key_violation : String

pub record NewWorkspace : Type 0 where
  pub name : String
  pub description : Option String
  pub is_template : Bool

pub record WorkspacePatch : Type 0 where
  pub name : Option String
  pub description : Option (Option String)
  pub is_template : Option Bool

abbrev pub has_workspace_id : ℕ → WorkspaceRow → Bool
has_workspace_id id ws = ws.id == id

abbrev pub same_name : ℕ → String → WorkspaceRow → Bool
same_name user_id name ws = ws.user_id == user_id && str_eq ws.name name

abbrev pub new_workspace : ℕ → NewWorkspace → ℕ → WorkspaceRow
new_workspace user_id input id = record {
  id = id;
  user_id = user_id;
  name = input.name;
  description = input.description;
  storage_path = StoragePath.pending user_id;
  size_bytes = 0;
  file_count = 0;
  is_template = input.is_template;
}

abbrev pub insert_workspace : ℕ → NewWorkspace → Db → Db
insert_workspace user_id input db = record db {
  workspaces = insert_row (new_workspace user_id input) db.workspaces;
}

abbrev pub update_workspace : ℕ → (WorkspaceRow → WorkspaceRow) → Db → Db
update_workspace id f db = record db {
  workspaces = with_rows (update_where (has_workspace_id id) f) db.workspaces;
}

abbrev pub remove_workspace : ℕ → Db → Db
remove_workspace id db = record db {
  workspaces = with_rows (delete_where (has_workspace_id id)) db.workspaces;
}

abbrev pub locate : ℕ → ℕ → WorkspaceRow → WorkspaceRow
locate user_id id ws = record ws { storage_path = StoragePath.located user_id id }

abbrev pub patch_workspace : WorkspacePatch → WorkspaceRow → WorkspaceRow
patch_workspace patch ws = record ws {
  name = or_else patch.name ws.name;
  description = or_else patch.description ws.description;
  is_template = or_else patch.is_template ws.is_template;
}

module _ {R : Type 0} where
  -- A rename to the name that the row has is no change.
  unfoldable pub assert_name_free : WorkspaceRow → Option String → Action (World R) (Unit {0})
  assert_name_free ws none = pure tt
  assert_name_free ws (some name) = when (not (str_eq name ws.name)) do
    dup ← ask (λ db.
        find_where (λ v. same_name ws.user_id name v && not (v.id == ws.id)) db.workspaces.rows)
    throw_if (is_some dup) conflict

  -- Where no column is set the row is left as it is, as it is by the update of none.
  unfoldable pub update : ℕ → ℕ → WorkspacePatch → Bool → Action (World R) WorkspaceRow
  unfolding assert_name_free require_owned_workspace
  update id user_id patch is_admin = do
    ws ← require_owned_workspace id user_id is_admin
    assert_name_free ws patch.name
    set_db (update_workspace id (patch_workspace patch))
    require_owned_workspace id user_id is_admin

module _ {R : Type 0} (storage : WorkspaceStorage R) where
  -- The row is removed again where its directory cannot be made.
  unfoldable pub make_dir_or_remove : ℕ → ℕ → Action (World R) (Unit {0})
  make_dir_or_remove user_id id =
      catch (on_host (storage.ensure_workspace_dir user_id id))
        (λ e. do set_db (remove_workspace id); throw e)

  unfoldable pub create : ℕ → NewWorkspace → Action (World R) WorkspaceRow
  unfolding make_dir_or_remove require_owned_workspace
  create user_id input = do
    on_db (assert_can_create_workspace user_id)
    dup ← ask (λ db. find_where (same_name user_id input.name) db.workspaces.rows)
    throw_if (is_some dup) conflict
    id ← ask (λ db. db.workspaces.next_id)
    set_db (insert_workspace user_id input)
    make_dir_or_remove user_id id
    set_db (update_workspace id (locate user_id id))
    require_owned_workspace id user_id false

  -- DELETE FROM workspaces, where container_mounts.workspace_id refers to the row
  unfoldable pub delete_row : ℕ → Action (World R) (Unit {0})
  delete_row id = do
    used ← ask (λ db. any_where (λ m. m.workspace_id == id) db.container_mounts.rows)
    throw_if used (failure storage.foreign_key_violation)
    set_db (remove_workspace id)

  unfoldable pub delete : ℕ → ℕ → Bool → Action (World R) (Unit {0})
  unfolding require_owned_workspace delete_row
  delete id user_id is_admin = do
    ws ← require_owned_workspace id user_id is_admin
    best_effort (on_host (storage.remove_workspace_dir ws.user_id id))
    delete_row id
