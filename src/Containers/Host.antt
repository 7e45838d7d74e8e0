-- ===== src/Containers/Host.antt =====
-- What container.service.ts calls: the executor (executors/types.ts), the mount storage
-- (services/container-mounts.ts), the LLM environment hook, and node's and the database's own
-- functions. `R` is the state of the world outside the database.
use sandbox_platform.Prelude.{
  ℕ, String, Bool, not, ◌&&◌, Option, none, some, or_else, str_eq, starts_with, if◌then◌else◌,
}
use sandbox_platform.Action.{Outcome, ok, err, Action, bad_request, failure}
use sandbox_platform.Db.Rows.{ContainerRow, Env, OverlayKind}
use sandbox_platform.Db.Queries.{is_running}
pub use sandbox_platform.World.{World, on_db, on_host, set_db, ask, best_effort}

pub record MountDirs : Type 0 where
  pub input_dir : String
  pub output_dir : Option String

pub record CreateRequest : Type 0 where
  pub id : String
  pub image_path : String
  pub cpu : ℕ
  pub memory_mb : ℕ
  pub disk_gb : ℕ
  pub env : Option Env
  pub overlay_path : Option String
  pub seed_from_path : Option String
  pub overlay_kind : Option OverlayKind
  pub mount_dirs : Option MountDirs

pub record ContainerHandle : Type 0 where
  pub id : String
  pub node : String
  pub overlay_path : String
  pub running : Bool

pub record SnapshotHandle : Type 0 where
  pub overlay_path : String
  pub size_bytes : ℕ

pub record InputSource : Type 0 where
  pub host_path : String
  pub name : String
  pub size_bytes : ℕ

-- `SandboxExecutor`, as far as this service calls it.
pub record Executor (R : Type 0) : Type 0 where
  pub create : CreateRequest → Action R ContainerHandle
  pub stop : ContainerHandle → Action R (Unit {0})
  pub destroy : ContainerHandle → Action R (Unit {0})
  pub snapshot : ContainerHandle → String → Action R SnapshotHandle
  pub restore : SnapshotHandle → CreateRequest → Action R ContainerHandle
  pub remove_path : String → Option String → Action R (Unit {0})

-- The exports of container-mounts.ts and workspace-storage.ts that this service calls.
pub record MountStorage (R : Type 0) : Type 0 where
  pub ensure_input_dir : String → Action R String
  pub input_dir : String → String
  pub remove_input_dir : String → Action R (Unit {0})
  pub ensure_output_dir : ℕ → ℕ → String → Action R String
  pub output_rel_dir : String → String
  pub resolve_input_source : ℕ → ℕ → String → Action R InputSource
  pub materialize_input : String → String → String → Action R String
  pub remove_staging_entry : String → String → Action R (Unit {0})
  pub assert_dir_has_no_symlinks : String → Action R (Unit {0})
  pub du_bytes : String → Action R ℕ
  pub workspace_dir : ℕ → ℕ → String
  pub max_inputs : ℕ
  pub max_input_bytes : ℕ

-- `fresh_instance_name` is `sb-${nanoid(12)}`; `like` is the database's LIKE; `unique_violation` is
-- its message when a UNIQUE constraint fails; `image_base_dir` is IMAGE_BASE_DIR resolved, and
-- `image_base_prefix` that with a separator at its end; without the LLM hook `llm_env_for` gives `none`.
pub record Host (R : Type 0) : Type 0 where
  pub executor : Executor R
  pub storage : MountStorage R
  pub llm_env_for : ℕ → Action R (Option Env)
  pub fresh_instance_name : Action R String
  pub image_base_dir : String
  pub image_base_prefix : String
  pub is_absolute : String → Bool
  pub resolve_path : String → String → String
  pub like : String → String → Bool
  pub unique_violation : String

-- image.service.ts resolveImagePath
unfoldable pub resolve_image_path : {R : Type 0} → Host R → String → Outcome String
resolve_image_path host sif_path =
    let abs = host.resolve_path host.image_base_dir sif_path in
    if host.is_absolute sif_path
    then ok sif_path
    else if not (str_eq abs host.image_base_dir) && not (starts_with abs host.image_base_prefix)
    then err bad_request
    else ok abs

-- A missing or empty instance name is refused.
unfoldable pub handle_from_row : ContainerRow → Outcome ContainerHandle
handle_from_row row = elim row.instance_name [
  | none ↦ err (failure "Container has no instance_name")
  | some name ↦
      if str_eq name ""
      then err (failure "Container has no instance_name")
      else ok (record {
        id = name;
        node = or_else row.node "local";
        overlay_path = or_else row.overlay_path "";
        running = is_running row.status;
      })
]
