-- ===== src/Llm/Lifecycle.antt =====
-- The methods of the LLM service keep each live key with a user who has access.
use sandbox_platform.Prelude.{
  ℕ, ◌≡◌, ◌⊎◌, inl, inr, refl, sym, subst, arith, String, Bool, true, false, Option-cases,
  if◌then◌else◌, not,
}
use sandbox_platform.Action.{
  ◌>>=◌, ◌>>◌, Outcome-cases, pure, when, or_throw, throw_if, bad_request, not_found,
}
use sandbox_platform.Db.Queries.{user_by_id}
use sandbox_platform.Db.Rows.{UserRow, LlmBindingRow}
use sandbox_platform.World.{World, set_db, bind_keeps, ask}
use sandbox_platform.Accounts.Users.{is_active}
use sandbox_platform.Llm.{LlmHost, GrantInput, BudgetPatch, active_key_resources, binding_of}
use sandbox_platform.Llm.Keys.{IssuedKey, issue_key, revoke_key, live_binding}
use sandbox_platform.Llm.Bindings.{
  Terms, next_terms, is_live, is_revoked, mirror, write_terms, insert_binding, revoke_rows,
  renew_access, clear_revoked, bind_user, enter_access, issue_first, grant_access, update_budget,
  revoke_access, issue_input, no_row, to_binding_public,
}
use sandbox_platform.Llm.Bound.{
  KeysAreBound, write_terms-Bound, insert_binding-Bound, revoke_rows-Bound, mirror-db,
  renew_access-Bound, clear_revoked-Bound, issue_key-Bound, key_revoked,
}

module _ {R : Type 0} (host : LlmHost R) where
  -- The clearing of what a revoked binding left.
  cleared-Bound :
      (input : GrantInput) (revoked : Bool) (w : World R)
      → is_revoked (binding_of input.platform_user_id w.db) ≡ revoked
      → KeysAreBound w.db
      → KeysAreBound (when revoked (clear_revoked host input.platform_user_id) w).1.db
  cleared-Bound input true w e h = clear_revoked-Bound host input.platform_user_id w e h
  cleared-Bound input false w e h = h

  bind_user-Bound :
      (input : GrantInput) (alias : String) (w : World R)
      → KeysAreBound w.db
      → KeysAreBound (bind_user host input alias w).1.db
  unfolding bind_user
  bind_user-Bound input alias w h =
      let revoked = is_revoked (binding_of input.platform_user_id w.db) in
      let cleared = cleared-Bound input revoked w refl h in
      bind_keeps KeysAreBound (λ (done : Unit {0}). set_db (insert_binding host input alias))
        (when revoked (clear_revoked host input.platform_user_id)) w cleared
        (λ done e.
          insert_binding-Bound host input alias
            (when revoked (clear_revoked host input.platform_user_id) w).1.db cleared)

  entered-Bound :
      (input : GrantInput) (alias : String) (live : Bool) (w : World R)
      → KeysAreBound w.db
      → KeysAreBound ((if live then renew_access host input else bind_user host input alias) w).1.db
  entered-Bound input alias true w h = renew_access-Bound host input w h
  entered-Bound input alias false w h = bind_user-Bound input alias w h

  enter_access-Bound :
      (input : GrantInput) (user : UserRow) (w : World R)
      → KeysAreBound w.db
      → KeysAreBound (enter_access host input user w).1.db
  unfolding enter_access
  enter_access-Bound input user w =
      entered-Bound input user.username (is_live (binding_of input.platform_user_id w.db)) w

  issue_first-Bound :
      (input : GrantInput) (user : UserRow) (w : World R)
      → KeysAreBound w.db
      → KeysAreBound (issue_first host input user w).1.db
  unfolding issue_first
  issue_first-Bound input user w h =
      let issued = issue_key-Bound host (issue_input input) w h in
      let v = (issue_key host (issue_input input) w).1 in
      bind_keeps KeysAreBound
        (λ (key : IssuedKey). do
          binding ← or_throw (← ask (binding_of input.platform_user_id)) no_row
          pure (to_binding_public host binding user.username, key))
        (issue_key host (issue_input input)) w issued
        (λ key e.
          bind_keeps KeysAreBound
            (λ (b : LlmBindingRow). pure (to_binding_public host b user.username, key))
            (or_throw (binding_of input.platform_user_id v.db) no_row) v issued (λ b f. issued))

  grant_access-Bound :
      (input : GrantInput) (w : World R)
      → KeysAreBound w.db
      → KeysAreBound (grant_access host input w).1.db
  unfolding grant_access
  grant_access-Bound input w h =
      bind_keeps KeysAreBound
        (λ (user : UserRow). do
          throw_if (not (is_active user.status)) bad_request
          enter_access host input user
          issue_first host input user)
        (or_throw (user_by_id input.platform_user_id w.db) not_found) w h
        (λ user found.
          bind_keeps KeysAreBound
            (λ (passed : Unit {0}). do enter_access host input user; issue_first host input user)
            (throw_if (not (is_active user.status)) bad_request) w h
            (λ passed e.
              let entered = enter_access-Bound input user w h in
              bind_keeps KeysAreBound (λ (done : Unit {0}). issue_first host input user)
                (enter_access host input user) w entered
                (λ done f.
                  issue_first-Bound input user (enter_access host input user w).1 entered)))

  update_budget-db :
      (user_id : ℕ) (patch : BudgetPatch) (granted_by : ℕ) (w : World R)
      → let v = (update_budget host user_id patch granted_by w).1 in
        (v.db ≡ w.db) ⊎ ((terms : Terms) × (v.db ≡ write_terms host user_id terms granted_by w.db))
  unfolding update_budget
  update_budget-db user_id patch granted_by w =
      elim (Option-cases (live_binding (binding_of user_id w.db))) [
        | inl missing ↦ inl (ground arith)
        | inr (b, found) ↦ elim (Option-cases (user_by_id user_id w.db)) [
          | inl nobody ↦ inl (ground arith)
          | inr (user, there) ↦
              let resources = active_key_resources user_id w.db in
              let kept = mirror-db host (next_terms patch b) b.litellm_user_id resources w in
              elim (Outcome-cases
                (mirror host (next_terms patch b) b.litellm_user_id resources w).0) [
                  | inl (done, e) ↦ inr (next_terms patch b, ground (arith, kept))
                  | inr (x, e) ↦ inl (ground (arith, kept))
                ]
        ]
      ]

  update_budget-Bound :
      (user_id : ℕ) (patch : BudgetPatch) (granted_by : ℕ) (w : World R)
      → KeysAreBound w.db
      → KeysAreBound (update_budget host user_id patch granted_by w).1.db
  update_budget-Bound user_id patch granted_by w h =
      elim (update_budget-db user_id patch granted_by w) [
        | inl same ↦ subst KeysAreBound (sym same) h
        | inr (terms, written) ↦
            subst KeysAreBound (sym written)
              (write_terms-Bound host user_id terms granted_by w.db h)
      ]

  revoke_access-db :
      (user_id : ℕ) (w : World R)
      → ((revoke_access host user_id w).1.db ≡ w.db)
        ⊎ ((revoke_access host user_id w).1.db ≡ revoke_rows host user_id w.db)
  unfolding revoke_access
  revoke_access-db user_id w = ground arith

  revoke_key-Bound :
      (id user_id : ℕ) (w : World R)
      → KeysAreBound w.db
      → KeysAreBound (revoke_key host id user_id w).1.db
  unfolding revoke_key
  revoke_key-Bound id user_id w h u =
      ground (arith, h u, key_revoked u id w.db.clock w.db.llm_virtual_keys.rows)

  revoke_access-Bound :
      (user_id : ℕ) (w : World R)
      → KeysAreBound w.db
      → KeysAreBound (revoke_access host user_id w).1.db
  revoke_access-Bound user_id w h = elim (revoke_access-db user_id w) [
    | inl same ↦ subst KeysAreBound (sym same) h
    | inr revoked ↦ subst KeysAreBound (sym revoked) (revoke_rows-Bound host user_id w.db h)
  ]

  -- Where each key that is not revoked is one of a user with a live binding, it is so after each method
  -- that grants or takes access or keys, whatever the gateway answers and whether it returns or throws.
  pub methods-KeysAreBound :
      (input : GrantInput) (id user_id granted_by : ℕ) (patch : BudgetPatch) (w : World R)
      → KeysAreBound w.db
      → KeysAreBound (grant_access host input w).1.db
        × KeysAreBound (update_budget host user_id patch granted_by w).1.db
        × KeysAreBound (revoke_access host user_id w).1.db
        × KeysAreBound (issue_key host (issue_input input) w).1.db
        × KeysAreBound (revoke_key host id user_id w).1.db
  methods-KeysAreBound input id user_id granted_by patch w h = (
    grant_access-Bound input w h,
    update_budget-Bound user_id patch granted_by w h,
    revoke_access-Bound user_id w h,
    issue_key-Bound host (issue_input input) w h,
    revoke_key-Bound id user_id w h,
  )
