-- ===== src/Containers/Mounts.antt =====
-- container.service.ts: who may touch a container or a workspace, and the input and output mounts.
use Prim.Native.Char.{code}
use sandbox_platform.Prelude.{
  ℕ, ◌+◌, String, Bool, true, false, not, ◌&&◌, Option, none, some, List, [], ◌∷◌, ◌++◌, ltb, leb,
  ◌==◌, if◌then◌else◌, find_where, select_where, delete_where, length, str_eq,
}
use sandbox_platform.Action.{
  Action, ◌>>=◌, ◌>>◌, pure, throw_if, or_throw, not_found, bad_request, invalid_state, failure,
}
use sandbox_platform.Db.{Db, insert_row, with_rows}
use sandbox_platform.Db.Rows.{ContainerRow, MountRow, MountKind, WorkspaceRow, ImageRow}
use sandbox_platform.Db.Queries.{container_by_id, image_by_id, is_destroyed}
use sandbox_platform.Containers.Host.{Host, World, MountDirs, on_host, set_db, ask}

-- `!isAdmin && row.user_id !== userId`
abbrev pub is_foreign : ℕ → Bool → ℕ → Bool
is_foreign owner is_admin user_id = not is_admin && not (owner == user_id)

abbrev pub is_input : MountRow → Bool
is_input m = elim m.kind [ MountKind.input ↦ true | MountKind.output ↦ false ]

abbrev pub is_output : MountRow → Bool
is_output m = not (is_input m)

-- path.replace(/^\/+/, "")
unfoldable pub strip_slashes : String → String
strip_slashes String.[] = ""
strip_slashes (String.◌∷◌ c s) =
    let rest = strip_slashes s in if code c == b'/' then rest else String.◌∷◌ c s

-- What `_prepareMounts` collects to insert once the container has an id.
pub record MountDraft : Type 0 where
  pub kind : MountKind
  pub workspace_id : ℕ
  pub rel_path : String
  pub name : String

pub record InputItem : Type 0 where
  pub workspace_id : ℕ
  pub path : String

pub record MountsInput : Type 0 where
  pub inputs : List InputItem
  pub output : Option ℕ

pub record MountSetup : Type 0 where
  pub mount_dirs : MountDirs
  pub rows : List MountDraft

-- An instance name that is null or empty is falsy.
abbrev pub instance_of : Option String → Option String
instance_of none = none
instance_of (some name) = if str_eq name "" then none else some name

abbrev pub insert_mount : ℕ → MountDraft → Db → Db
insert_mount container_id m db = record db {
  container_mounts =
      insert_row
        (λ i. record {
          id = i;
          container_id = container_id;
          kind = m.kind;
          workspace_id = m.workspace_id;
          rel_path = m.rel_path;
          name = m.name;
        })
        db.container_mounts;
}

unfoldable pub get_mounts : ℕ → Db → List MountRow
get_mounts container_id db =
    select_where (λ m. m.container_id == container_id) db.container_mounts.rows

module _ {R : Type 0} where
  unfoldable pub require_container : ℕ → Action (World R) ContainerRow
  require_container id = do or_throw (← ask (container_by_id id)) not_found

  -- Another user's container is reported as missing.
  unfoldable pub require_owned : ℕ → ℕ → Bool → Action (World R) ContainerRow
  unfolding require_container
  require_owned id user_id is_admin = do
    row ← require_container id
    throw_if (is_foreign row.user_id is_admin user_id) not_found
    pure row

  unfoldable pub require_image : ℕ → Action (World R) ImageRow
  require_image id = do or_throw (← ask (image_by_id id)) not_found

  -- workspace.service.ts requireOwned
  unfoldable pub require_owned_workspace : ℕ → ℕ → Bool → Action (World R) WorkspaceRow
  require_owned_workspace id user_id is_admin = do
    ws ← or_throw (← ask (λ db. find_where (λ w. w.id == id) db.workspaces.rows)) not_found
    throw_if (is_foreign ws.user_id is_admin user_id) not_found
    pure ws

module _ {R : Type 0} (host : Host R) where
  open host.storage use {
    ensure_input_dir, input_dir, ensure_output_dir, output_rel_dir, resolve_input_source,
    materialize_input, remove_staging_entry, assert_dir_has_no_symlinks, du_bytes, max_inputs,
    max_input_bytes,
  }

  -- The loop of `_prepareMounts` over the inputs, with the bytes so far.
  unfoldable pub stage_inputs : ℕ → String → ℕ → List InputItem → Action (World R) (List MountDraft)
  unfolding require_owned_workspace
  stage_inputs user_id staging total [] = pure []
  stage_inputs user_id staging total (item ∷ items) = do
    ws ← require_owned_workspace item.workspace_id user_id false
    src ← on_host (resolve_input_source ws.user_id ws.id item.path)
    throw_if (ltb max_input_bytes (total + src.size_bytes)) bad_request
    name ← on_host (materialize_input src.host_path staging src.name)
    rest ← stage_inputs user_id staging (total + src.size_bytes) items
    pure (
        record {
          kind = MountKind.input;
          workspace_id = ws.id;
          rel_path = strip_slashes item.path;
          name = name;
        }
        ∷ rest)

  unfoldable pub stage_output :
      ℕ → String → Option ℕ → Action (World R) (Option (String × MountDraft))
  unfolding require_owned_workspace
  stage_output user_id container_name none = pure none
  stage_output user_id container_name (some workspace_id) = do
    ws ← require_owned_workspace workspace_id user_id false
    dir ← on_host (ensure_output_dir ws.user_id ws.id container_name)
    pure (
        some (
          dir,
          record {
            kind = MountKind.output;
            workspace_id = ws.id;
            rel_path = output_rel_dir container_name;
            name = "output";
          },
        ))

  abbrev pub setup_with : String → List MountDraft → Option (String × MountDraft) → MountSetup
  setup_with staging drafts none = record {
    mount_dirs = record { input_dir = staging; output_dir = none };
    rows = drafts;
  }
  setup_with staging drafts (some (dir, draft)) = record {
    mount_dirs = record { input_dir = staging; output_dir = some dir };
    rows = drafts ++ draft ∷ [];
  }

  -- Some mount was asked for.
  unfoldable pub prepare_some :
      ℕ → String → String → MountsInput → Action (World R) (Option MountSetup)
  prepare_some user_id instance_name container_name mounts = do
    throw_if (ltb max_inputs (length mounts.inputs)) bad_request
    staging ← on_host (ensure_input_dir instance_name)
    drafts ← stage_inputs user_id staging 0 mounts.inputs
    output ← stage_output user_id container_name mounts.output
    pure (some (setup_with staging drafts output))

  unfoldable pub prepare_mounts :
      ℕ → String → String → Option MountsInput → Action (World R) (Option MountSetup)
  prepare_mounts user_id instance_name container_name none = pure none
  prepare_mounts user_id instance_name container_name (some mounts) = elim mounts.inputs [
    | [] ↦ elim mounts.output [
      | none ↦ pure none
      | some w ↦ prepare_some user_id instance_name container_name mounts
    ]
    | item ∷ items ↦ prepare_some user_id instance_name container_name mounts
  ]

  unfoldable pub replay_output :
      ContainerRow → String → Option MountRow → Action (World R) (Option MountDirs)
  unfolding require_owned_workspace
  replay_output row input none = pure (some (record { input_dir = input; output_dir = none }))
  replay_output row input (some m) = do
    ws ← require_owned_workspace m.workspace_id row.user_id true
    dir ← on_host (ensure_output_dir ws.user_id ws.id row.name)
    on_host (assert_dir_has_no_symlinks dir)
    pure (some (record { input_dir = input; output_dir = some dir }))

  unfoldable pub replay_rows : ContainerRow → List MountRow → Action (World R) (Option MountDirs)
  replay_rows row [] = pure none
  replay_rows row (m ∷ ms) = do
    name ← or_throw row.instance_name (failure "The path argument must be a string")
    input ← on_host (ensure_input_dir name)
    replay_output row input (find_where is_output (m ∷ ms))

  unfoldable pub replay_mounts : ContainerRow → Action (World R) (Option MountDirs)
  replay_mounts row = do replay_rows row (← ask (get_mounts row.id))

  unfoldable pub add_input : ℕ → ℕ → InputItem → Bool → Action (World R) MountRow
  unfolding require_owned require_owned_workspace get_mounts
  add_input container_id user_id item is_admin = do
    row ← require_owned container_id user_id is_admin
    throw_if (is_destroyed row.status) invalid_state
    instance_name ← or_throw (instance_of row.instance_name) invalid_state
    existing ← ask (get_mounts container_id)
    throw_if (leb max_inputs (length (select_where is_input existing))) bad_request
    ws ← require_owned_workspace item.workspace_id user_id is_admin
    src ← on_host (resolve_input_source ws.user_id ws.id item.path)
    staging ← on_host (ensure_input_dir instance_name)
    used ← on_host (du_bytes staging)
    throw_if (ltb max_input_bytes (used + src.size_bytes)) bad_request
    name ← on_host (materialize_input src.host_path staging src.name)
    id ← ask (λ db. db.container_mounts.next_id)
    set_db (
        insert_mount container_id (record {
          kind = MountKind.input;
          workspace_id = ws.id;
          rel_path = strip_slashes item.path;
          name = name;
        }))
    or_throw (← ask (λ db. find_where (λ m. m.id == id) db.container_mounts.rows)) not_found

  unfoldable pub remove_entry : Option String → String → Action (World R) (Unit {0})
  remove_entry none name = pure tt
  remove_entry (some instance_name) name =
      on_host (remove_staging_entry (input_dir instance_name) name)

  unfoldable pub remove_input : ℕ → ℕ → ℕ → Bool → Action (World R) (Unit {0})
  unfolding require_owned remove_entry
  remove_input container_id user_id mount_id is_admin = do
    row ← require_owned container_id user_id is_admin
    m ←
        or_throw
          (← ask (λ db.
            find_where (λ m. m.id == mount_id && m.container_id == container_id)
              db.container_mounts.rows))
          not_found
    throw_if (is_output m) not_found
    remove_entry (instance_of row.instance_name) m.name
    set_db λ db. record db {
      container_mounts = with_rows (delete_where (λ m. m.id == mount_id)) db.container_mounts;
    }
