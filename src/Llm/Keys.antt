-- ===== src/Llm/Keys.antt =====
-- services/llm.service.ts, the keys: issue, revoke, reveal and list.
use sandbox_platform.Prelude.{
  ℕ, String, Bool, not, ◌&&◌, Option, none, some, is_some, List, [], ◌∷◌, map, ◌==◌, str_eq,
  if◌then◌else◌, select_where, update_where, reverse,
}
use sandbox_platform.Action.{
  Action, ◌>>=◌, ◌>>◌, pure, throw, throw_if, or_throw, catch, when, not_found, conflict,
}
use sandbox_platform.Db.{Db, insert_row}
use sandbox_platform.Db.Rows.{Json, LlmBindingRow, LlmVirtualKeyRow}
use sandbox_platform.World.{World, on_host, set_db, ask}
use sandbox_platform.Llm.{
  LlmHost, IssueInput, binding_of, key_row, is_of, new_key, with_keys, revoke_virtual_key,
  decode_json,
}
use sandbox_platform.Llm.Gateway.{
  GeneratedKey, GenerateInput, is_http_error, is_missing, generate_key, delete_key,
}

pub record IssuedKey : Type 0 where
  pub plaintext : String
  pub id : ℕ

-- `toKeyPublic`: a row without its cipher text and hash.
pub record LlmVirtualKeyPublic : Type 0 where
  pub id : ℕ
  pub user_id : ℕ
  pub litellm_key_id : Option String
  pub key_prefix : String
  pub name : String
  pub models : Json
  pub max_budget : Option ℕ
  pub budget_duration : Option String
  pub revoked_at : Option ℕ

-- A binding that is missing or revoked counts as not found.
abbrev pub live_binding : Option LlmBindingRow → Option LlmBindingRow
live_binding none = none
live_binding (some b) = if is_some b.revoked_at then none else some b

abbrev pub generate_input : IssueInput → LlmBindingRow → GenerateInput
generate_input input b = record {
  user_id = b.litellm_user_id;
  models = input.models;
  max_budget = input.max_budget;
  budget_duration = input.budget_duration;
}

abbrev pub has_key_id : ℕ → LlmVirtualKeyRow → Bool
has_key_id id k = k.id == id

-- `if (row.litellm_key_id)`
abbrev pub resource_ids : Option String → List String
resource_ids none = []
resource_ids (some id) = if str_eq id "" then [] else id ∷ []

module _ {R : Type 0} where
  -- An HttpError other than 404 is thrown on; any other error is passed over.
  abbrev pub unless_refused : Action R (Unit {0}) → Action R (Unit {0})
  unless_refused m =
      catch m (λ e. if is_http_error e && not (is_missing e) then throw e else pure tt)

module _ {R : Type 0} (host : LlmHost R) where
  abbrev pub insert_key : IssueInput → GeneratedKey → String → Db → Db
  insert_key input generated cipher db = record db {
    llm_virtual_keys =
        insert_row
          (new_key host.dialect input (host.gateway.digest generated.key) generated.key_name
            (host.prefix generated.key) cipher)
          db.llm_virtual_keys;
  }

  unfoldable pub issue_key : IssueInput → Action (World R) IssuedKey
  issue_key input = do
    found ← ask (binding_of input.platform_user_id)
    binding ← or_throw (live_binding found) not_found
    generated ← on_host (generate_key host.gateway (generate_input input binding))
    cipher ← on_host (host.encrypt generated.key)
    id ← ask (λ db. db.llm_virtual_keys.next_id)
    set_db (insert_key input generated cipher)
    pure (record { plaintext = generated.key; id = id })

  unfoldable pub revoke_key : ℕ → ℕ → Action (World R) (Unit {0})
  revoke_key id user_id = do
    row ← or_throw (← ask (key_row id user_id)) not_found
    when (not (is_some row.revoked_at)) do
      on_host (unless_refused (delete_key host.gateway (resource_ids row.litellm_key_id)))
      set_db (λ db. with_keys (update_where (has_key_id id) (revoke_virtual_key db.clock)) db)

  unfoldable pub reveal_key : ℕ → ℕ → Action (World R) IssuedKey
  reveal_key id user_id = do
    row ← or_throw (← ask (key_row id user_id)) not_found
    throw_if (is_some row.revoked_at) conflict
    plaintext ← on_host (λ s. (host.decrypt row.encrypted_key, s))
    pure (record { plaintext = plaintext; id = id })

  abbrev pub to_key_public : LlmVirtualKeyRow → LlmVirtualKeyPublic
  to_key_public k = record {
    id = k.id;
    user_id = k.user_id;
    litellm_key_id = k.litellm_key_id;
    key_prefix = k.key_prefix;
    name = k.name;
    models = decode_json host.dialect k.models;
    max_budget = k.max_budget;
    budget_duration = k.budget_duration;
    revoked_at = k.revoked_at;
  }

  unfoldable pub list_keys_for_user : ℕ → Action (World R) (List LlmVirtualKeyPublic)
  list_keys_for_user user_id =
      ask
        (λ db. map to_key_public (reverse (select_where (is_of user_id) db.llm_virtual_keys.rows)))

  unfoldable pub list_all_keys : Action (World R) (List LlmVirtualKeyPublic)
  list_all_keys = ask (λ db. map to_key_public (reverse db.llm_virtual_keys.rows))
