-- ===== src/Llm.antt =====
-- services/llm.service.ts: who has access to the LLM gateway, and the keys issued for it. Each method
-- is one action; the gateway is called through Llm.Gateway, and utils/crypto.ts is a parameter.
pub mod Gateway
pub mod Keys
pub mod Bindings
pub mod Bound
pub mod Lifecycle
pub mod Secrets
pub mod Terms
use sandbox_platform.Prelude.{
  ℕ, String, Bool, true, false, not, ◌&&◌, Option, none, some, is_some, or_else, List, [], ◌∷◌, map,
  ◌==◌, str_eq, if◌then◌else◌, find_where, select_where, update_where, delete_where, reverse,
}
use sandbox_platform.Action.{
  AppError, Outcome, ok, err, Action, ◌>>=◌, ◌>>◌, pure, throw, throw_if, or_throw, catch, when,
  not_found, bad_request, conflict,
}
use sandbox_platform.Db.{Db, insert_row, with_rows}
use sandbox_platform.Db.Rows.{Json, null, texts, encoded, LlmBindingRow, LlmVirtualKeyRow, UserRow}
use sandbox_platform.Db.Queries.{user_by_id}
use sandbox_platform.World.{World, on_host, set_db, ask, best_effort}
use sandbox_platform.Accounts.Users.{is_active}
use sandbox_platform.AuditLog.{Dialect, sqlite, postgres}
use Gateway.{
  GatewayHost, GeneratedKey, GenerateInput, ResourceValue, is_http_error, is_missing, generate_key,
  delete_key, put_key_resource,
}

-- `encrypt` draws a random IV, and throws for a key that is not 64 hexadecimal digits; `owner_id` is
-- `litellm_user_` with the id in decimal, and `prefix` the first 12 characters.
pub record LlmHost (R : Type 0) : Type 0 where
  pub gateway : GatewayHost R
  pub encrypt : String → Action R String
  pub decrypt : String → Outcome String
  pub owner_id : ℕ → String
  pub prefix : String → String
  pub dialect : Dialect

pub record GrantInput : Type 0 where
  pub platform_user_id : ℕ
  pub max_budget : ℕ
  pub budget_duration : Option String
  pub models : Json
  pub default_key_name : Option String
  pub granted_by : ℕ

-- A field that is `none` is left out of the patch; `some none` and `some null` are null.
pub record BudgetPatch : Type 0 where
  pub max_budget : Option ℕ
  pub budget_duration : Option (Option String)
  pub models : Option Json

pub record IssueInput : Type 0 where
  pub platform_user_id : ℕ
  pub name : String
  pub models : Json
  pub max_budget : ℕ
  pub budget_duration : Option String

-- db/driver.ts encodeJson and decodeJson, for a value that is not undefined.
unfoldable pub encode_json : Dialect → Json → Json
encode_json sqlite v = encoded v
encode_json postgres v = v

unfoldable pub decode_json : Dialect → Json → Json
decode_json sqlite (encoded v) = v
decode_json sqlite v = v
decode_json postgres v = v

abbrev pub has_owner : ℕ → LlmBindingRow → Bool
has_owner user_id b = b.platform_user_id == user_id

abbrev pub is_of : ℕ → LlmVirtualKeyRow → Bool
is_of user_id k = k.user_id == user_id

abbrev pub is_live_of : ℕ → LlmVirtualKeyRow → Bool
is_live_of user_id k = k.user_id == user_id && not (is_some k.revoked_at)

abbrev pub is_key_of : ℕ → ℕ → LlmVirtualKeyRow → Bool
is_key_of id user_id k = k.id == id && k.user_id == user_id

abbrev pub binding_of : ℕ → Db → Option LlmBindingRow
binding_of user_id db = find_where (has_owner user_id) db.llm_user_bindings.rows

abbrev pub key_row : ℕ → ℕ → Db → Option LlmVirtualKeyRow
key_row id user_id db = find_where (is_key_of id user_id) db.llm_virtual_keys.rows

-- The ids that are there and not empty.
abbrev pub key_ids : List LlmVirtualKeyRow → List String
key_ids [] = []
key_ids (k ∷ ks) =
    let rest = key_ids ks in
    elim k.litellm_key_id [ none ↦ rest | some id ↦ if str_eq id "" then rest else id ∷ rest ]

-- Those with their hashes, where both are not empty.
abbrev pub resources_of : List LlmVirtualKeyRow → List (String × String)
resources_of [] = []
resources_of (k ∷ ks) =
    let rest = resources_of ks in
    elim k.litellm_key_id [
      | none ↦ rest
      | some id ↦
          if not (str_eq id "") && not (str_eq k.litellm_key_hash "")
          then (id, k.litellm_key_hash) ∷ rest
          else rest
    ]

abbrev pub active_key_resources : ℕ → Db → List (String × String)
active_key_resources user_id db =
    resources_of (select_where (is_live_of user_id) db.llm_virtual_keys.rows)

abbrev pub new_binding : Dialect → GrantInput → String → String → ℕ → LlmBindingRow
new_binding dialect input owner alias id = record {
  id = id;
  platform_user_id = input.platform_user_id;
  litellm_user_id = owner;
  litellm_alias = some alias;
  max_budget = input.max_budget;
  budget_duration = input.budget_duration;
  models = encode_json dialect input.models;
  granted_by = input.granted_by;
  revoked_at = none;
}

abbrev pub set_terms : ℕ → Option String → Json → ℕ → LlmBindingRow → LlmBindingRow
set_terms max_budget duration models granted_by b = record b {
  max_budget = max_budget;
  budget_duration = duration;
  models = models;
  granted_by = granted_by;
}

abbrev pub with_bindings : (List LlmBindingRow → List LlmBindingRow) → Db → Db
with_bindings f db = record db { llm_user_bindings = with_rows f db.llm_user_bindings }

abbrev pub with_keys : (List LlmVirtualKeyRow → List LlmVirtualKeyRow) → Db → Db
with_keys f db = record db { llm_virtual_keys = with_rows f db.llm_virtual_keys }

abbrev pub revoke_binding : ℕ → LlmBindingRow → LlmBindingRow
revoke_binding now b = record b { revoked_at = some now }

abbrev pub revoke_virtual_key : ℕ → LlmVirtualKeyRow → LlmVirtualKeyRow
revoke_virtual_key now k = record k { revoked_at = some now }

abbrev pub new_key :
    Dialect → IssueInput → String → Option String → String → String → ℕ → LlmVirtualKeyRow
new_key dialect input hash resource prefix cipher id = record {
  id = id;
  user_id = input.platform_user_id;
  litellm_key_hash = hash;
  litellm_key_id = resource;
  key_prefix = prefix;
  encrypted_key = cipher;
  name = input.name;
  models = encode_json dialect input.models;
  max_budget = some input.max_budget;
  budget_duration = input.budget_duration;
  revoked_at = none;
}
