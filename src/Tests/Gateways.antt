-- ===== src/Tests/Gateways.antt =====
-- The LLM service on the small platform, with a gateway that takes every request. The state outside the
-- database is the hashes that were declared to it, the newest first.
use sandbox_platform.Prelude.{◌≡◌, ◌⊎◌, refl, String, false, none, some, List, [], ◌∷◌, inl}
use sandbox_platform.Action.{ok, err, not_found, conflict}
use sandbox_platform.Db.Rows.{texts, encoded, Status, LlmBindingRow, UserStatus}
use sandbox_platform.World.{World}
use sandbox_platform.AuditLog.{Dialect}
use sandbox_platform.Llm.{LlmHost, GrantInput, BudgetPatch, set_terms, new_binding, encode_json}
use sandbox_platform.Llm.Gateway.{
  GatewayHost, AdminRequest, AdminResponse, generate_key, delete_key, put_key_resource,
}
use sandbox_platform.Llm.Keys.{IssuedKey, issue_key, reveal_key, revoke_key}
use sandbox_platform.Llm.Bindings.{issue_input, grant_access, mirror, update_budget, revoke_access}
use sandbox_platform.Llm.Bound.{KeysAreBound, live_keys}
use sandbox_platform.Llm.Lifecycle.{methods-KeysAreBound}
use sandbox_platform.Llm.Secrets.{issue-reveal, revoke_access-reveal}
use sandbox_platform.Llm.Terms.{update_budget_returns}
use sandbox_platform.Tests.{sample_db, sample_user}

abbrev declared : AdminRequest → List String → List String
declared (AdminRequest.put_resources value) s = value.key_hash ∷ s
declared (AdminRequest.put_resource id value) s = value.key_hash ∷ s
declared (AdminRequest.delete_resource id) s = s

abbrev open_gateway : GatewayHost (List String)
open_gateway = record {
  fetch = λ r s. (AdminResponse.responded 200 false (some "res-1"), declared r s);
  random_hex = λ s. ("f00d", s);
  digest = λ text. "d1";
}

abbrev llm : LlmHost (List String)
llm = record {
  gateway = open_gateway;
  encrypt = λ text s. (ok text, s);
  decrypt = λ text. ok text;
  owner_id = λ id. "litellm_user_1";
  prefix = λ text. "sk-agw";
  dialect = Dialect.sqlite;
}

abbrev grant : GrantInput
grant = record {
  platform_user_id = 1;
  max_budget = 5000000;
  budget_duration = none;
  models = texts ("small" ∷ []);
  default_key_name = none;
  granted_by = 2;
}

abbrev raise : BudgetPatch
raise = record { max_budget = some 9000000; budget_duration = none; models = none }

abbrev before : World (List String)
before = record { db = sample_db Status.running; runtime = [] }

abbrev binding : LlmBindingRow
binding = new_binding Dialect.sqlite grant "litellm_user_1" "alice" 1

-- The world with the binding and no key.
abbrev bound : World (List String)
bound = record before {
  db = record before.db { llm_user_bindings = record { rows = binding ∷ []; next_id = 2 } };
}

abbrev issued : IssuedKey
issued = record { plaintext = "sk-agw-f00d"; id = 1 }

was_issued : (issue_key llm (issue_input grant) bound).0 ≡ ok issued
unfolding issue_key generate_key
was_issued = refl

opens : (p c : String) (s t : List String) → llm.encrypt p s ≡ (ok c, t) → llm.decrypt c ≡ ok p
opens p c s t e = cc

issue-reveal_example :
    let v = (issue_key llm (issue_input grant) bound).1 in
    ((reveal_key llm 1 1 v).0 ≡ ok issued) × ((reveal_key llm 1 2 v).0 ≡ err not_found)
issue-reveal_example =
    issue-reveal llm (issue_input grant) 2 bound issued opens refl refl was_issued

abbrev keyed : World (List String)
keyed = (issue_key llm (issue_input grant) bound).1

keyed_bound : KeysAreBound keyed.db
keyed_bound = (methods-KeysAreBound llm grant 1 1 2 raise bound (λ u. inl refl)).3

methods-KeysAreBound_example :
    KeysAreBound (grant_access llm grant keyed).1.db
    × KeysAreBound (update_budget llm 1 raise 2 keyed).1.db
    × KeysAreBound (revoke_access llm 1 keyed).1.db
    × KeysAreBound (issue_key llm (issue_input grant) keyed).1.db
    × KeysAreBound (revoke_key llm 1 1 keyed).1.db
methods-KeysAreBound_example = methods-KeysAreBound llm grant 1 1 2 raise keyed keyed_bound

was_revoked : (revoke_access llm 1 keyed).0 ≡ ok tt
unfolding revoke_access issue_key generate_key delete_key
was_revoked = refl

revoke_access-reveal_example :
    let v = (revoke_access llm 1 keyed).1 in
    (live_keys 1 v.db ≡ 0)
    × (((reveal_key llm 1 1 v).0 ≡ err conflict) ⊎ ((reveal_key llm 1 1 v).0 ≡ err not_found))
revoke_access-reveal_example = revoke_access-reveal llm 1 1 keyed was_revoked

-- The list of models is shown as the text of the list.
update_budget_returns_example :
    (update_budget llm 1 raise 2 bound).0
    ≡ ok (record {
      binding = set_terms 9000000 none (encoded (texts ("small" ∷ []))) 2 binding;
      username = "alice";
    })
unfolding encode_json
update_budget_returns_example =
    update_budget_returns llm 1 raise 2 bound binding (sample_user 1 "alice" UserStatus.active) refl
      refl refl

-- The hash that is declared for a new key, and the one that an update of the budget puts in its place.
hash_rewritten : (update_budget llm 1 raise 2 keyed).1.runtime ≡ "d1" ∷ "sha256:d1" ∷ []
unfolding update_budget mirror issue_key generate_key put_key_resource
hash_rewritten = refl
