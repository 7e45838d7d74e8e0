-- ===== src/Containers/Create.antt =====
-- container.service.ts create: the checks, the row, and the provisioning.
use sandbox_platform.Prelude.{
  ℕ, String, Bool, true, false, Option, none, some, List, [], ◌∷◌, or_else, str_eq, if◌then◌else◌,
  ◌==◌, update_where,
}
use sandbox_platform.Action.{AppError, Outcome, ok, Action, ◌>>=◌, ◌>>◌, pure, throw, catch}
use sandbox_platform.Db.{Db, insert_row, with_rows}
use sandbox_platform.Db.Rows.{ContainerRow, ImageRow, OverlayKind, ResourceRequest, Env, Status}
use sandbox_platform.Quota.{assert_can_create, assert_image_allowed, assert_image_instance_limit}
use sandbox_platform.Containers.Host.{
  Host, World, CreateRequest, ContainerHandle, MountDirs, on_db, on_host, set_db,
  resolve_image_path,
}
use sandbox_platform.Containers.Mounts.{
  MountDraft, MountsInput, MountSetup, require_image, require_container, require_owned_workspace,
  prepare_mounts, insert_mount,
}

pub record CreateInput : Type 0 where
  pub image_id : ℕ
  pub name : String
  pub cpu : Option ℕ
  pub memory_mb : Option ℕ
  pub disk_gb : Option ℕ
  pub env : Option Env
  pub workspace_id : Option ℕ
  pub mounts : Option MountsInput

-- env[key] = value, on the entries of an object
abbrev pub put_env : String → String → Env → Env
put_env k v [] = (k, v) ∷ []
put_env k v ((j, w) ∷ e) = if str_eq j k then (k, v) ∷ e else (j, w) ∷ put_env k v e

-- { ...base, ...over }
abbrev pub spread_env : Env → Env → Env
spread_env base [] = base
spread_env base ((k, v) ∷ over) = spread_env (put_env k v base) over

-- The LLM entries win over the user's.
abbrev pub merge_env : Option Env → Option Env → Option Env
merge_env none none = none
merge_env (some given) none = some given
merge_env none (some llm) = some (spread_env [] llm)
merge_env (some given) (some llm) = some (spread_env given llm)

abbrev pub default_resources : ResourceRequest
default_resources = record { cpu = 1; memory_mb = 1024; disk_gb = 1 }

abbrev pub requested : CreateInput → ImageRow → ResourceRequest
requested input image =
    let d = or_else image.default_resources default_resources in
    record {
      cpu = or_else input.cpu d.cpu;
      memory_mb = or_else input.memory_mb d.memory_mb;
      disk_gb = or_else input.disk_gb d.disk_gb;
    }

-- The row as it is inserted; the database gives it its id.
abbrev pub new_container : ℕ → CreateInput → String → ResourceRequest → Option Env → ContainerRow
new_container user_id input instance_name request env = record {
  id = 0;
  user_id = user_id;
  image_id = input.image_id;
  name = input.name;
  instance_name = some instance_name;
  status = Status.creating;
  overlay_path = none;
  node = none;
  cpu = request.cpu;
  memory_mb = request.memory_mb;
  disk_gb = request.disk_gb;
  env = env;
  error_message = none;
  last_started_at = none;
  last_stopped_at = none;
  auto_stopped = false;
  auto_stopped_at = none;
}

abbrev pub has_id : ℕ → ContainerRow → Bool
has_id id c = c.id == id

-- UPDATE containers SET … WHERE id = ?
abbrev pub update_container : ℕ → (ContainerRow → ContainerRow) → Db → Db
update_container id f db = record db {
  containers = with_rows (update_where (has_id id) f) db.containers;
}

abbrev pub insert_overlay : ℕ → String → ℕ → Db → Db
insert_overlay container_id path size db = record db {
  overlays =
      insert_row
        (λ i. record {
          id = i;
          container_id = container_id;
          path = path;
          is_current = true;
          size_bytes = size;
        })
        db.overlays;
}

-- status = 'running', overlay_path = ?, node = ?, last_started_at = CURRENT_TIMESTAMP
abbrev pub mark_running : ContainerHandle → ℕ → ContainerRow → ContainerRow
mark_running handle now c = record c {
  status = Status.running;
  overlay_path = some handle.overlay_path;
  node = some handle.node;
  last_started_at = some now;
}

-- status = 'error', error_message = ?
abbrev pub mark_error : AppError → ContainerRow → ContainerRow
mark_error e c = record c { status = Status.error; error_message = some e }

abbrev pub dir_overlay : OverlayKind → Option OverlayKind
dir_overlay OverlayKind.dir = some OverlayKind.dir
dir_overlay OverlayKind.ext3 = none

abbrev pub setup_dirs : Option MountSetup → Option MountDirs
setup_dirs none = none
setup_dirs (some s) = some s.mount_dirs

abbrev pub setup_rows : Option MountSetup → List MountDraft
setup_rows none = []
setup_rows (some s) = s.rows

abbrev pub insert_mounts : ℕ → List MountDraft → Db → Db
insert_mounts id [] db = db
insert_mounts id (m ∷ ms) db = insert_mounts id ms (insert_mount id m db)

abbrev pub creation_request :
    ImageRow → ContainerRow → Option String → Option MountSetup → String → String → CreateRequest
creation_request image row seed setup instance_name path = record {
  id = instance_name;
  image_path = path;
  cpu = row.cpu;
  memory_mb = row.memory_mb;
  disk_gb = row.disk_gb;
  env = row.env;
  overlay_path = none;
  seed_from_path = seed;
  overlay_kind = dir_overlay image.overlay_kind;
  mount_dirs = setup_dirs setup;
}

-- What is recorded once the instance runs.
unfoldable pub record_running : ℕ → ContainerHandle → List MountDraft → Db → Db
record_running id handle drafts db = insert_mounts id drafts (
    insert_overlay id handle.overlay_path 0 (update_container id (mark_running handle db.clock) db))

-- What is known when the row is inserted: the row, but for its id, and what provisioning needs.
pub record Plan : Type 0 where
  pub image : ImageRow
  pub row : ContainerRow
  pub instance_name : String
  pub seed : Option String
  pub setup : Option MountSetup

abbrev pub insert_container_row : ContainerRow → Db → Db
insert_container_row row db = record db {
  containers = insert_row (λ i. record row { id = i }) db.containers;
}

module _ {R : Type 0} (host : Host R) where
  abbrev pub lift_outcome : {A : Type 0} → Outcome A → Action (World R) A
  lift_outcome r w = (r, w)

  -- The checks that come before any write, in the order of the code.
  unfoldable pub admit : ℕ → CreateInput → Bool → Action (World R) (ImageRow × ResourceRequest)
  unfolding require_image
  admit user_id input is_admin = do
    image ← require_image input.image_id
    on_db (assert_image_allowed user_id image is_admin)
    let request = requested input image
    on_db (assert_can_create user_id request)
    on_db (assert_image_instance_limit user_id image)
    pure (image, request)

  -- A failure of the LLM hook is passed over.
  unfoldable pub llm_env : ℕ → Action (World R) (Option Env)
  llm_env user_id = catch (on_host (host.llm_env_for user_id)) (λ e. pure none)

  unfoldable pub seed_path : ℕ → Option ℕ → Action (World R) (Option String)
  unfolding require_owned_workspace
  seed_path user_id none = pure none
  seed_path user_id (some workspace_id) = do
    ws ← require_owned_workspace workspace_id user_id false
    pure (some (host.storage.workspace_dir ws.user_id ws.id))

  -- The body of the `try`.
  unfoldable pub provision :
      ℕ
      → ImageRow
      → ContainerRow
      → Option String
      → Option MountSetup
      → String
      → Action (World R) (Unit {0})
  unfolding record_running
  provision id image row seed setup instance_name = do
    path ← lift_outcome (resolve_image_path host image.sif_path)
    handle ←
        on_host (host.executor.create (creation_request image row seed setup instance_name path))
    set_db (record_running id handle (setup_rows setup))

  unfoldable pub insert_container : ContainerRow → Action (World R) ℕ
  insert_container row w =
      (ok w.db.containers.next_id, record w { db = insert_container_row row w.db })

  -- All that comes before the row is inserted.
  unfoldable pub plan : ℕ → CreateInput → Bool → Action (World R) Plan
  plan user_id input is_admin = do
    (image, request) ← admit user_id input is_admin
    llm ← llm_env user_id
    let env = merge_env input.env llm
    instance_name ← on_host host.fresh_instance_name
    seed ← seed_path user_id input.workspace_id
    setup ← prepare_mounts host user_id instance_name input.name input.mounts
    pure (record {
      image = image;
      row = new_container user_id input instance_name request env;
      instance_name = instance_name;
      seed = seed;
      setup = setup;
    })

  unfoldable pub commit : Plan → Action (World R) ContainerRow
  unfolding insert_container require_container
  commit p = do
    id ← insert_container p.row
    catch (provision id p.image p.row p.seed p.setup p.instance_name)
        (λ e. do set_db (update_container id (mark_error e)); throw e)
    require_container id

  unfoldable pub create : ℕ → CreateInput → Bool → Action (World R) ContainerRow
  create user_id input is_admin = do commit (← plan user_id input is_admin)
