-- ===== src/Llm/Bindings.antt =====
-- services/llm.service.ts, the bindings: who has access, on which terms.
use sandbox_platform.Prelude.{
  ℕ, String, Bool, false, not, Option, none, some, is_some, or_else, List, [], ◌∷◌, map,
  if◌then◌else◌, select_where, update_where, delete_where,
}
use sandbox_platform.Action.{
  AppError, failure, Action, ◌>>=◌, ◌>>◌, pure, throw_if, or_throw, when, not_found, bad_request,
}
use sandbox_platform.Db.{Db, insert_row}
use sandbox_platform.Db.Rows.{Json, LlmBindingRow, UserRow}
use sandbox_platform.Db.Queries.{user_by_id}
use sandbox_platform.World.{World, on_host, set_db, ask, best_effort}
use sandbox_platform.Accounts.Users.{is_active}
use sandbox_platform.Llm.{
  LlmHost, GrantInput, BudgetPatch, IssueInput, encode_json, decode_json, has_owner, is_of,
  is_live_of, binding_of, key_ids, active_key_resources, new_binding, set_terms, with_bindings,
  with_keys, revoke_binding, revoke_virtual_key,
}
use sandbox_platform.Llm.Gateway.{ResourceValue, delete_key, put_key_resource}
use sandbox_platform.Llm.Keys.{IssuedKey, live_binding, unless_refused, issue_key}

-- `toBindingPublic`: the models decoded, and the user's name.
pub record LlmBindingPublic : Type 0 where
  pub binding : LlmBindingRow
  pub username : String

-- The terms of a binding.
pub record Terms : Type 0 where
  pub max_budget : ℕ
  pub budget_duration : Option String
  pub models : Json

abbrev pub issue_input : GrantInput → IssueInput
issue_input input = record {
  platform_user_id = input.platform_user_id;
  name = or_else input.default_key_name "default";
  models = input.models;
  max_budget = input.max_budget;
  budget_duration = input.budget_duration;
}

-- The column of the old models stands in for those that the patch leaves out.
abbrev pub next_terms : BudgetPatch → LlmBindingRow → Terms
next_terms patch b = record {
  max_budget = or_else patch.max_budget b.max_budget;
  budget_duration = or_else patch.budget_duration b.budget_duration;
  models = or_else patch.models b.models;
}

-- What `toBindingPublic` throws for a row that is not there.
abbrev pub no_row : AppError
no_row = failure "Cannot read properties of null (reading 'models')"

abbrev pub is_revoked : Option LlmBindingRow → Bool
is_revoked none = false
is_revoked (some b) = is_some b.revoked_at

abbrev pub is_live : Option LlmBindingRow → Bool
is_live none = false
is_live (some b) = not (is_some b.revoked_at)

module _ {R : Type 0} (host : LlmHost R) where
  abbrev pub to_binding_public : LlmBindingRow → String → LlmBindingPublic
  to_binding_public b username = record {
    binding = record b { models = decode_json host.dialect b.models };
    username = username;
  }

  abbrev pub resource_value : Terms → String → String → ResourceValue
  resource_value terms owner hash = record {
    key_hash = hash;
    owner = owner;
    models = terms.models;
    max_budget = terms.max_budget;
    budget_duration = terms.budget_duration;
  }

  -- The requests are all made, and the failures passed over.
  unfoldable pub mirror : Terms → String → List (String × String) → Action (World R) (Unit {0})
  mirror terms owner [] = pure tt
  mirror terms owner ((id, hash) ∷ rest) = do
    best_effort (on_host (put_key_resource host.gateway id (resource_value terms owner hash)))
    mirror terms owner rest

  -- The binding's columns, in the database; `models` is encoded.
  abbrev pub write_terms : ℕ → Terms → ℕ → Db → Db
  write_terms user_id terms granted_by = with_bindings (
      update_where (has_owner user_id) (
        set_terms terms.max_budget terms.budget_duration (encode_json host.dialect terms.models)
          granted_by))

  abbrev pub insert_binding : GrantInput → String → Db → Db
  insert_binding input alias db = record db {
    llm_user_bindings =
        insert_row (new_binding host.dialect input (host.owner_id input.platform_user_id) alias)
          db.llm_user_bindings;
  }

  abbrev pub granted_terms : GrantInput → Terms
  granted_terms input = record {
    max_budget = input.max_budget;
    budget_duration = input.budget_duration;
    models = input.models;
  }

  -- The binding is live: its terms are set anew, and a further key is issued.
  unfoldable pub renew_access : GrantInput → Action (World R) (Unit {0})
  unfolding mirror
  renew_access input = do
    resources ← ask (active_key_resources input.platform_user_id)
    mirror (granted_terms input) (host.owner_id input.platform_user_id) resources
    set_db (write_terms input.platform_user_id (granted_terms input) input.granted_by)

  -- The gateway forgets the old keys, and the revoked binding goes.
  unfoldable pub clear_revoked : ℕ → Action (World R) (Unit {0})
  clear_revoked user_id = do
    stale ← ask (λ db. key_ids (select_where (is_of user_id) db.llm_virtual_keys.rows))
    best_effort (on_host (delete_key host.gateway stale))
    set_db (with_bindings (delete_where (has_owner user_id)))

  unfoldable pub bind_user : GrantInput → String → Action (World R) (Unit {0})
  unfolding clear_revoked
  bind_user input alias = do
    existing ← ask (binding_of input.platform_user_id)
    when (is_revoked existing) (clear_revoked input.platform_user_id)
    set_db (insert_binding input alias)

  unfoldable pub enter_access : GrantInput → UserRow → Action (World R) (Unit {0})
  unfolding renew_access bind_user
  enter_access input user = do
    existing ← ask (binding_of input.platform_user_id)
    if is_live existing then renew_access input else bind_user input user.username

  unfoldable pub issue_first :
      GrantInput → UserRow → Action (World R) (LlmBindingPublic × IssuedKey)
  unfolding issue_key
  issue_first input user = do
    key ← issue_key host (issue_input input)
    binding ← or_throw (← ask (binding_of input.platform_user_id)) no_row
    pure (to_binding_public binding user.username, key)

  unfoldable pub grant_access : GrantInput → Action (World R) (LlmBindingPublic × IssuedKey)
  unfolding enter_access issue_first
  grant_access input = do
    user ← or_throw (← ask (user_by_id input.platform_user_id)) not_found
    throw_if (not (is_active user.status)) bad_request
    enter_access input user
    issue_first input user

  unfoldable pub update_budget : ℕ → BudgetPatch → ℕ → Action (World R) LlmBindingPublic
  unfolding mirror
  update_budget user_id patch granted_by = do
    found ← ask (binding_of user_id)
    existing ← or_throw (live_binding found) not_found
    user ← or_throw (← ask (user_by_id user_id)) not_found
    resources ← ask (active_key_resources user_id)
    mirror (next_terms patch existing) existing.litellm_user_id resources
    set_db (write_terms user_id (next_terms patch existing) granted_by)
    refreshed ← or_throw (← ask (binding_of user_id)) no_row
    pure (to_binding_public refreshed user.username)

  abbrev pub revoke_rows : ℕ → Db → Db
  revoke_rows user_id db =
      with_keys (update_where (is_live_of user_id) (revoke_virtual_key db.clock))
        (with_bindings (update_where (has_owner user_id) (revoke_binding db.clock)) db)

  unfoldable pub revoke_access : ℕ → Action (World R) (Unit {0})
  revoke_access user_id = do
    existing ← or_throw (← ask (binding_of user_id)) not_found
    resources ← ask (active_key_resources user_id)
    on_host (unless_refused (delete_key host.gateway (map (λ r. r.0) resources)))
    set_db (revoke_rows user_id)

  unfoldable pub get_binding : ℕ → Action (World R) (Option LlmBindingPublic)
  get_binding user_id = do
    found ← ask (binding_of user_id)
    user ← ask (user_by_id user_id)
    pure (elim found [
      | none ↦ none
      | some b ↦ some (to_binding_public b (elim user [ none ↦ "" | some u ↦ u.username ]))
    ])
