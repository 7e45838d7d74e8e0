-- ===== src/Db/Rows.antt =====
-- The rows of each table, with the source's columns.
use sandbox_platform.Prelude.{ℕ, String, Bool, Option, List}
use sandbox_platform.Action.{AppError}

pub data Role : Type 0 where
  admin user : Role

pub data UserStatus : Type 0 where
  active disabled pending : UserStatus

pub record UserRow : Type 0 where
  pub id : ℕ
  pub username : String
  pub password_hash : String
  pub email : Option String
  pub role : Role
  pub quota_id : Option ℕ
  pub status : UserStatus
  pub must_change_password : Bool
  pub token_version : ℕ
  pub last_login_at : Option ℕ

pub record QuotaRow : Type 0 where
  pub id : ℕ
  pub name : String
  pub description : Option String
  pub max_containers : ℕ
  pub max_cpu_cores : ℕ
  pub max_memory_mb : ℕ
  pub max_disk_gb : ℕ
  pub max_snapshots_per_container : ℕ
  pub max_workspaces_per_user : ℕ
  pub allowed_image_ids : Option (List ℕ)

pub record ResourceRequest : Type 0 where
  pub cpu : ℕ
  pub memory_mb : ℕ
  pub disk_gb : ℕ

pub data OverlayKind : Type 0 where
  ext3 dir : OverlayKind

pub record ImageRow : Type 0 where
  pub id : ℕ
  pub name : String
  pub display_name : String
  pub sif_path : String
  pub description : Option String
  pub is_public : Bool
  pub tags : Option (List String)
  pub default_resources : Option ResourceRequest
  pub overlay_kind : OverlayKind
  pub max_per_user : Option ℕ

pub data Status : Type 0 where
  creating running stopped error destroyed : Status

-- The env column is JSON text of an object: its entries, in order.
abbrev pub Env : Type 0
Env = List (String × String)

pub record ContainerRow : Type 0 where
  pub id : ℕ
  pub user_id : ℕ
  pub image_id : ℕ
  pub name : String
  pub instance_name : Option String
  pub status : Status
  pub overlay_path : Option String
  pub node : Option String
  pub cpu : ℕ
  pub memory_mb : ℕ
  pub disk_gb : ℕ
  pub env : Option Env
  pub error_message : Option AppError  -- the error whose message the column holds
  pub last_started_at : Option ℕ
  pub last_stopped_at : Option ℕ
  pub auto_stopped : Bool
  pub auto_stopped_at : Option ℕ

pub record OverlayRow : Type 0 where
  pub id : ℕ
  pub container_id : ℕ
  pub path : String
  pub is_current : Bool
  pub size_bytes : ℕ

pub record SnapshotRow : Type 0 where
  pub id : ℕ
  pub container_id : Option ℕ
  pub overlay_id : Option ℕ
  pub user_id : ℕ
  pub image_id : Option ℕ
  pub name : String
  pub description : Option String
  pub overlay_path : String
  pub size_bytes : ℕ

pub data MountKind : Type 0 where
  input output : MountKind

pub record MountRow : Type 0 where
  pub id : ℕ
  pub container_id : ℕ
  pub kind : MountKind
  pub workspace_id : ℕ
  pub rel_path : String
  pub name : String

-- `user-<user>/ws-pending`, and `user-<user>/ws-<id>`
pub data StoragePath : Type 0 where
  pending : ℕ → StoragePath
  located : ℕ → ℕ → StoragePath

pub record WorkspaceRow : Type 0 where
  pub id : ℕ
  pub user_id : ℕ
  pub name : String
  pub description : Option String
  pub storage_path : StoragePath
  pub size_bytes : ℕ
  pub file_count : ℕ
  pub is_template : Bool

pub record RefreshTokenRow : Type 0 where
  pub id : ℕ
  pub user_id : ℕ
  pub token_hash : String
  pub family_id : String
  pub expires_at : ℕ
  pub revoked_at : Option ℕ
  pub client_ip : Option String

pub record ApiKeyRow : Type 0 where
  pub id : ℕ
  pub user_id : ℕ
  pub name : String
  pub key_prefix : String
  pub key_hash : String
  pub last_used_at : Option ℕ
  pub revoked_at : Option ℕ

-- A connection to a container; `ended_at` is null while it lasts.
pub record SessionRow : Type 0 where
  pub id : ℕ
  pub container_id : ℕ
  pub user_id : ℕ
  pub client_ip : Option String
  pub bytes_in : ℕ
  pub bytes_out : ℕ
  pub started_at : ℕ
  pub ended_at : Option ℕ

pub data LogStatus : Type 0 where
  success failure : LogStatus

-- What an entry of the audit log says; `detail` is the JSON text of the value.
pub record LogEntry : Type 0 where
  pub user_id : Option ℕ
  pub action : String
  pub resource_type : String
  pub resource_id : Option ℕ
  pub detail : Option String
  pub ip : Option String
  pub status : LogStatus
  pub error_message : Option String

pub record LogRow : Type 0 where
  pub id : ℕ
  pub entry : LogEntry
  pub prev_hash : Option String
  pub hash : Option String
  pub purged_at : Option ℕ
  pub created_at : ℕ

-- What a JSON column can hold: SQL's or JSON's null, a list of texts, or the text of such a value.
pub data Json : Type 0 where
  null : Json
  texts : List String → Json
  encoded : Json → Json

-- Money is in millionths, as the column has it.
pub record LlmBindingRow : Type 0 where
  pub id : ℕ
  pub platform_user_id : ℕ
  pub litellm_user_id : String
  pub litellm_alias : Option String
  pub max_budget : ℕ
  pub budget_duration : Option String
  pub models : Json
  pub granted_by : ℕ
  pub revoked_at : Option ℕ

pub record LlmVirtualKeyRow : Type 0 where
  pub id : ℕ
  pub user_id : ℕ
  pub litellm_key_hash : String
  pub litellm_key_id : Option String
  pub key_prefix : String
  pub encrypted_key : String
  pub name : String
  pub models : Json
  pub max_budget : Option ℕ
  pub budget_duration : Option String
  pub revoked_at : Option ℕ
