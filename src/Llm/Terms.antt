-- ===== src/Llm/Terms.antt =====
-- The JSON columns, and what an update of a budget makes of the models it is not told.
use sandbox_platform.Prelude.{
  ℕ, ◌≡◌, refl, arith, String, some, is_some, or_else, false, List, [], ◌∷◌, find_where-update_self,
}
use sandbox_platform.Action.{ok}
use sandbox_platform.Db.Rows.{Json, LlmBindingRow, UserRow}
use sandbox_platform.Db.Queries.{user_by_id}
use sandbox_platform.World.{World}
use sandbox_platform.AuditLog.{Dialect, sqlite, postgres}
use sandbox_platform.Llm.{
  LlmHost, BudgetPatch, encode_json, decode_json, has_owner, binding_of, active_key_resources,
  set_terms,
}
use sandbox_platform.Llm.Bindings.{Terms, next_terms, mirror, update_budget}
use sandbox_platform.Llm.Bound.{mirror-db}

-- What encodeJson wrote, decodeJson gives back.
pub decode-encode : (d : Dialect) (v : Json) → decode_json d (encode_json d v) ≡ v
unfolding decode_json encode_json
decode-encode sqlite v = refl
decode-encode postgres v = refl

module _ {R : Type 0} (host : LlmHost R) where
  mirror-ok :
      (terms : Terms) (owner : String) (l : List (String × String)) (w : World R)
      → (mirror host terms owner l w).0 ≡ ok tt
  unfolding mirror
  mirror-ok terms owner [] w = refl
  mirror-ok terms owner ((id, hash) ∷ l) w =
      grind (arith, λ (v : World R). mirror-ok terms owner l v)

  -- For a user who is found and has a live binding, `updateBudget` returns, whatever the gateway answers,
  -- the binding with each of the three terms from the patch, or from the column where the patch has none, and
  -- with the grantor. The models column is taken as it is stored, not decoded.
  pub update_budget_returns :
      (user_id : ℕ) (patch : BudgetPatch) (granted_by : ℕ) (w : World R) (b : LlmBindingRow)
      (user : UserRow)
      → binding_of user_id w.db ≡ some b
      → is_some b.revoked_at ≡ false
      → user_by_id user_id w.db ≡ some user
      → (update_budget host user_id patch granted_by w).0
        ≡ ok (record {
          binding = record b {
            max_budget = or_else patch.max_budget b.max_budget;
            budget_duration = or_else patch.budget_duration b.budget_duration;
            models = or_else patch.models b.models;
            granted_by = granted_by;
          };
          username = user.username;
        })
  unfolding update_budget
  update_budget_returns user_id patch granted_by w b user found live there =
      let terms = next_terms patch b in
      let resources = active_key_resources user_id w.db in
      let stored =
        set_terms terms.max_budget terms.budget_duration (encode_json host.dialect terms.models)
          granted_by in
      ground (
        arith,
        mirror-ok terms b.litellm_user_id resources w,
        mirror-db host terms b.litellm_user_id resources w,
        find_where-update_self (has_owner user_id) stored w.db.llm_user_bindings.rows b (λ c e. e)
            found,
        decode-encode host.dialect terms.models,
      )
