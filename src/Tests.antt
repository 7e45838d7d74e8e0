-- ===== src/Tests.antt =====
-- A small platform for the tests: three users, two containers, a snapshot, a workspace, tokens and a
-- key, an executor that always answers, and a vault whose hash of a text is the text.
mod Containing
mod Quotas
mod Sessions
mod Tickets
mod Locks
mod Sweeps
mod Storing
mod Commands
mod Overlays
mod Spaces
mod Imaging
mod Capping
mod Terminals
mod Gateways
mod Tooling
use sandbox_platform.Prelude.{
  ℕ, suc, ◌+◌, String, Bool, true, false, Option, none, some, List, [], ◌∷◌, str_eq, if◌then◌else◌,
}
use sandbox_platform.Action.{Outcome, ok, err, unauthorized}
use sandbox_platform.Db.{Db, Table, empty_table}
use sandbox_platform.Db.Rows.{
  WorkspaceRow, StoragePath, UserRow, QuotaRow, ImageRow, ContainerRow, OverlayRow, SnapshotRow,
  WorkspaceRow, RefreshTokenRow, ApiKeyRow, Role, UserStatus, OverlayKind, Status,
}
use sandbox_platform.World.{World}
use sandbox_platform.Containers.Host.{Host, Executor, MountStorage, ContainerHandle, CreateRequest}
use sandbox_platform.Accounts.Vault.{Vault, Claims, TokenType}

abbrev pub sample_user : ℕ → String → UserStatus → UserRow
sample_user id name status = record {
  id = id;
  username = name;
  password_hash = "Secret-1";
  email = none;
  role = Role.user;
  quota_id = none;
  status = status;
  must_change_password = false;
  token_version = 3;
  last_login_at = none;
}

abbrev pub small_tier : QuotaRow
small_tier = record {
  id = 1;
  name = "default";
  description = none;
  max_containers = 2;
  max_cpu_cores = 4;
  max_memory_mb = 4096;
  max_disk_gb = 10;
  max_snapshots_per_container = 2;
  max_workspaces_per_user = 2;
  allowed_image_ids = none;
}

abbrev pub ubuntu : ImageRow
ubuntu = record {
  id = 1;
  name = "ubuntu";
  display_name = "Ubuntu";
  sif_path = "/images/ubuntu.sif";
  description = none;
  is_public = true;
  tags = none;
  default_resources = none;
  overlay_kind = OverlayKind.ext3;
  max_per_user = some 2;
}

abbrev pub sample_container : ℕ → ℕ → Status → ContainerRow
sample_container id user_id status = record {
  id = id;
  user_id = user_id;
  image_id = 1;
  name = "box";
  instance_name = some "sb-1";
  status = status;
  overlay_path = some "/overlays/1";
  node = some "local";
  cpu = 1;
  memory_mb = 512;
  disk_gb = 1;
  env = none;
  error_message = none;
  last_started_at = none;
  last_stopped_at = none;
  auto_stopped = false;
  auto_stopped_at = none;
}

abbrev pub sample_overlay : ℕ → ℕ → OverlayRow
sample_overlay id container_id = record {
  id = id;
  container_id = container_id;
  path = "/overlays/1";
  is_current = true;
  size_bytes = 100;
}

abbrev pub sample_snapshot : SnapshotRow
sample_snapshot = record {
  id = 1;
  container_id = some 1;
  overlay_id = none;
  user_id = 1;
  image_id = some 1;
  name = "before";
  description = none;
  overlay_path = "/snapshots/1";
  size_bytes = 50;
}

abbrev pub sample_token : ℕ → String → Option ℕ → RefreshTokenRow
sample_token id token revoked_at = record {
  id = id;
  user_id = 1;
  token_hash = token;
  family_id = "family-1";
  expires_at = 1000;
  revoked_at = revoked_at;
  client_ip = none;
}

abbrev pub sample_workspace : WorkspaceRow
sample_workspace = record {
  id = 1;
  user_id = 1;
  name = "data";
  description = none;
  storage_path = StoragePath.located 1 1;
  size_bytes = 10;
  file_count = 1;
  is_template = false;
}

abbrev pub sample_key : ApiKeyRow
sample_key = record {
  id = 1;
  user_id = 1;
  name = "ci";
  key_prefix = "sk_0";
  key_hash = "sk_0123";
  last_used_at = none;
  revoked_at = none;
}

-- The first container has the status that is asked for.
abbrev pub sample_db : Status → Db
sample_db status = record {
  users = record {
    rows =
        sample_user 1 "alice" UserStatus.active
        ∷ sample_user 2 "bob" UserStatus.active
        ∷ sample_user 3 "carol" UserStatus.pending
        ∷ [];
    next_id = 4;
  };
  resource_quotas = record { rows = small_tier ∷ []; next_id = 2 };
  images = record { rows = ubuntu ∷ []; next_id = 2 };
  containers = record {
    rows = sample_container 1 1 status ∷ sample_container 2 2 Status.stopped ∷ [];
    next_id = 3;
  };
  overlays = record { rows = sample_overlay 1 1 ∷ sample_overlay 2 2 ∷ []; next_id = 3 };
  snapshots = record { rows = sample_snapshot ∷ []; next_id = 2 };
  container_mounts = empty_table;
  workspaces = record { rows = sample_workspace ∷ []; next_id = 2 };
  refresh_tokens = record {
    rows = sample_token 1 "refresh-0" (some 5) ∷ sample_token 2 "refresh-1" none ∷ [];
    next_id = 3;
  };
  api_keys = record { rows = sample_key ∷ []; next_id = 2 };
  sessions = empty_table;
  operation_logs = empty_table;
  llm_user_bindings = empty_table;
  llm_virtual_keys = empty_table;
  clock = 7;
}

-- The state outside the database counts the calls.
abbrev pub sample_world : Status → World ℕ
sample_world status = record { db = sample_db status; runtime = 0 }

abbrev pub sample_handle : ContainerHandle
sample_handle = record { id = "sb-1"; node = "local"; overlay_path = "/overlays/1"; running = true }

abbrev pub new_handle : CreateRequest → ContainerHandle
new_handle request = record {
  id = request.id;
  node = "local";
  overlay_path = "/overlays/new";
  running = true;
}

abbrev pub answering : Executor ℕ
answering = record {
  create = λ request n. (ok (new_handle request), suc n);
  stop = λ handle n. (ok tt, suc n);
  destroy = λ handle n. (ok tt, suc n);
  snapshot =
      λ handle name n. (ok (record { overlay_path = "/snapshots/new"; size_bytes = 60 }), suc n);
  restore = λ snap request n. (ok (new_handle request), suc n);
  remove_path = λ path node n. (ok tt, suc n);
}

abbrev pub plain_storage : MountStorage ℕ
plain_storage = record {
  ensure_input_dir = λ name n. (ok name, n);
  input_dir = λ name. name;
  remove_input_dir = λ name n. (ok tt, n);
  ensure_output_dir = λ user_id id name n. (ok name, n);
  output_rel_dir = λ name. name;
  resolve_input_source =
      λ user_id id path n. (ok (record { host_path = path; name = path; size_bytes = 1 }), n);
  materialize_input = λ path dir name n. (ok name, n);
  remove_staging_entry = λ dir name n. (ok tt, n);
  assert_dir_has_no_symlinks = λ dir n. (ok tt, n);
  du_bytes = λ dir n. (ok 0, n);
  workspace_dir = λ user_id id. "/workspaces";
  max_inputs = 8;
  max_input_bytes = 1000;
}

abbrev pub sample_host : Host ℕ
sample_host = record {
  executor = answering;
  storage = plain_storage;
  llm_env_for = λ user_id n. (ok none, n);
  fresh_instance_name = λ n. (ok "sb-new", n);
  image_base_dir = "/images";
  image_base_prefix = "/images/";
  is_absolute = λ path. true;
  resolve_path = λ base path. path;
  like = λ name pattern. false;
  unique_violation = "UNIQUE constraint failed";
}

-- The access token "access" is one of the first user's, with token version 3; any other text is a
-- refresh token of that user.
abbrev pub sample_claims : TokenType → Claims
sample_claims kind = record {
  sub = 1;
  username = "alice";
  role = Role.user;
  kind = kind;
  pwd_change_required = false;
  tv = some 3;
}

abbrev pub sample_vault : Vault ℕ
sample_vault = record {
  hash = λ password n. (ok password, n);
  compare = λ password stored. str_eq password stored;
  digest = λ text. text;
  sign_access = λ claims n. (ok "access", n);
  sign_refresh = λ user_id jti n. (ok "refresh-2", n);
  verify = λ token n. (
    ok (sample_claims (if str_eq token "access" then TokenType.access else TokenType.refresh)),
    n,
  );
  decode_exp = λ token. none;
  random_uuid = λ n. (ok "uuid-1", n);
  random_secret = λ n. (ok "89ab", n);
  access_seconds = 900;
  min_length = 8;
  require_complexity = false;
  code_units = λ password. 8;
  has_lower = λ password. true;
  has_upper = λ password. true;
  has_digit = λ password. true;
  is_password_change_path = λ path. str_eq path "/me";
  unique_violation = "UNIQUE constraint failed";
}
