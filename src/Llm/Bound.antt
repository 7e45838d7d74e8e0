-- ===== src/Llm/Bound.antt =====
-- A key that is not revoked is that of a user who has access.
use sandbox_platform.Prelude.{
  ℕ, ◌≤◌, ◌≡◌, ◌⊎◌, inl, inr, refl, sym, subst, arith, String, Bool, true, false, Option, none,
  some, is_some, List, [], ◌∷◌, ◌++◌, ◌==◌, Bool-cases, Option-cases, find_where, count_where,
  update_where, delete_where, count_where-append, if◌then◌else◌,
}
use sandbox_platform.Action.{Outcome-cases}
use sandbox_platform.Db.{Db}
use sandbox_platform.Db.Rows.{LlmBindingRow, LlmVirtualKeyRow}
use sandbox_platform.World.{World, set_db, bind_keeps}
use sandbox_platform.Llm.{
  LlmHost, GrantInput, IssueInput, active_key_resources, set_terms, encode_json, new_binding,
  has_owner, is_live_of, binding_of, new_key, revoke_binding, revoke_virtual_key,
}
use sandbox_platform.Llm.Gateway.{GeneratedKey, generate_key}
use sandbox_platform.Llm.Keys.{insert_key, issue_key, live_binding, has_key_id, generate_input}
use sandbox_platform.Llm.Bindings.{
  Terms, granted_terms, is_live, is_revoked, mirror, write_terms, insert_binding, revoke_rows,
  renew_access, clear_revoked,
}

abbrev pub live_keys : ℕ → Db → ℕ
live_keys user_id db = count_where (is_live_of user_id) db.llm_virtual_keys.rows

abbrev pub has_access : ℕ → Db → Bool
has_access user_id db = is_live (binding_of user_id db)

abbrev pub KeysAreBound : Db → Type 0
KeysAreBound db = (u : ℕ) → (live_keys u db ≡ 0) ⊎ (has_access u db ≡ true)

updated_live :
    (u v : ℕ) (f : LlmBindingRow → LlmBindingRow) (rows : List LlmBindingRow)
    → ((b : LlmBindingRow) → (f b).platform_user_id ≡ b.platform_user_id)
    → ((b : LlmBindingRow) → is_some (f b).revoked_at ≡ is_some b.revoked_at)
    → is_live (find_where (has_owner u) (update_where (has_owner v) f rows))
      ≡ is_live (find_where (has_owner u) rows)
updated_live u v f [] h k = refl
updated_live u v f (b ∷ rows) h k = ground (arith, h b, k b, updated_live u v f rows h k)

revoked_live :
    (u v now : ℕ) (rows : List LlmBindingRow)
    → (u == v) ≡ false
    → is_live (find_where (has_owner u) (update_where (has_owner v) (revoke_binding now) rows))
      ≡ is_live (find_where (has_owner u) rows)
revoked_live u v now [] ne = refl
revoked_live u v now (b ∷ rows) ne = ground (arith, revoked_live u v now rows ne)

deleted_live :
    (u v : ℕ) (rows : List LlmBindingRow)
    → (u == v) ≡ false
    → is_live (find_where (has_owner u) (delete_where (has_owner v) rows))
      ≡ is_live (find_where (has_owner u) rows)
deleted_live u v [] ne = refl
deleted_live u v (b ∷ rows) ne = ground (arith, deleted_live u v rows ne)

appended_live :
    (u : ℕ) (rows : List LlmBindingRow) (b : LlmBindingRow)
    → is_live (find_where (has_owner u) rows) ≡ true
    → is_live (find_where (has_owner u) (rows ++ b ∷ [])) ≡ true
appended_live u [] b h = ground arith
appended_live u (c ∷ rows) b h = ground (arith, appended_live u rows b)

pub revoked_keys :
    (u v now : ℕ) (keys : List LlmVirtualKeyRow)
    → count_where (is_live_of u) (update_where (is_live_of v) (revoke_virtual_key now) keys)
      ≡ (if u == v then 0 else count_where (is_live_of u) keys)
revoked_keys u v now [] = ground arith
revoked_keys u v now (k ∷ keys) = ground (arith, revoked_keys u v now keys)

pub key_revoked :
    (u id now : ℕ) (keys : List LlmVirtualKeyRow)
    → count_where (is_live_of u) (update_where (has_key_id id) (revoke_virtual_key now) keys)
      ≤ count_where (is_live_of u) keys
key_revoked u id now [] = omega arith
key_revoked u id now (k ∷ keys) = ground (arith, key_revoked u id now keys)

revoked_dead : (o : Option LlmBindingRow) → is_revoked o ≡ true → is_live o ≡ false
revoked_dead none h = refl
revoked_dead (some b) h = ground arith

module _ {R : Type 0} (host : LlmHost R) where
  pub write_terms-Bound :
      (v : ℕ) (terms : Terms) (granted_by : ℕ) (db : Db)
      → KeysAreBound db
      → KeysAreBound (write_terms host v terms granted_by db)
  write_terms-Bound v terms granted_by db h u = ground (
    arith,
    h u,
    updated_live u v
        (set_terms terms.max_budget terms.budget_duration (encode_json host.dialect terms.models)
          granted_by)
        db.llm_user_bindings.rows (λ b. refl) (λ b. refl),
  )

  pub insert_binding-Bound :
      (input : GrantInput) (alias : String) (db : Db)
      → KeysAreBound db
      → KeysAreBound (insert_binding host input alias db)
  insert_binding-Bound input alias db h u = ground (
    arith,
    h u,
    appended_live u db.llm_user_bindings.rows (
        new_binding host.dialect input (host.owner_id input.platform_user_id) alias
          db.llm_user_bindings.next_id),
  )

  pub insert_key-Bound :
      (input : IssueInput) (generated : GeneratedKey) (cipher : String) (db : Db)
      → has_access input.platform_user_id db ≡ true
      → KeysAreBound db
      → KeysAreBound (insert_key host input generated cipher db)
  insert_key-Bound input generated cipher db live h u =
      elim (Bool-cases (u == input.platform_user_id)) [
        | inl same ↦
            let equal : input.platform_user_id ≡ u = ground arith in
            inr (subst (λ v. has_access v db ≡ true) equal live)
        | inr other ↦
            let made =
              new_key host.dialect input (host.gateway.digest generated.key) generated.key_name
                (host.prefix generated.key) cipher db.llm_virtual_keys.next_id in
            ground
              (arith, h u, count_where-append (is_live_of u) db.llm_virtual_keys.rows (made ∷ []))
      ]

  pub revoke_rows-Bound : (v : ℕ) (db : Db) → KeysAreBound db → KeysAreBound (revoke_rows host v db)
  revoke_rows-Bound v db h u = elim (Bool-cases (u == v)) [
    | inl same ↦ inl (ground (arith, revoked_keys u v db.clock db.llm_virtual_keys.rows))
    | inr other ↦ ground (
      arith,
      h u,
      revoked_keys u v db.clock db.llm_virtual_keys.rows,
      revoked_live u v db.clock db.llm_user_bindings.rows,
    )
  ]

  pub mirror-db :
      (terms : Terms) (owner : String) (l : List (String × String)) (w : World R)
      → (mirror host terms owner l w).1.db ≡ w.db
  unfolding mirror
  mirror-db terms owner [] w = refl
  mirror-db terms owner ((id, hash) ∷ l) w =
      grind (arith, λ (v : World R). mirror-db terms owner l v)

  pub renew_access-Bound :
      (input : GrantInput) (w : World R)
      → KeysAreBound w.db
      → KeysAreBound (renew_access host input w).1.db
  unfolding renew_access
  renew_access-Bound input w h =
      let terms = granted_terms host input in
      let owner = host.owner_id input.platform_user_id in
      let resources = active_key_resources input.platform_user_id w.db in
      let kept = mirror-db terms owner resources w in
      let before = subst KeysAreBound (sym kept) h in
      bind_keeps KeysAreBound
        (λ (done : Unit {0}).
          set_db (write_terms host input.platform_user_id terms input.granted_by))
        (mirror host terms owner resources) w before
        (λ done e.
          write_terms-Bound input.platform_user_id terms input.granted_by
            (mirror host terms owner resources w).1.db before)

  pub clear_revoked-Bound :
      (v : ℕ) (w : World R)
      → is_revoked (binding_of v w.db) ≡ true
      → KeysAreBound w.db
      → KeysAreBound (clear_revoked host v w).1.db
  unfolding clear_revoked
  clear_revoked-Bound v w gone h u = elim (Bool-cases (u == v)) [
    | inl same ↦
        let equal : v ≡ u = ground arith in
        let dead =
          revoked_dead (binding_of u w.db)
            (subst (λ x. is_revoked (binding_of x w.db) ≡ true) equal gone) in
        ground (arith, h u, dead)
    | inr other ↦ ground (arith, h u, deleted_live u v w.db.llm_user_bindings.rows)
  ]

  live_binding-access :
      (o : Option LlmBindingRow) (b : LlmBindingRow) → live_binding o ≡ some b → is_live o ≡ true
  live_binding-access none b e = cc
  live_binding-access (some c) b e = ground arith

  -- `issue_key` leaves the database as it was, or stores one key of a user with access.
  pub issue_key-db :
      (input : IssueInput) (w : World R)
      → let v = (issue_key host input w).1 in
        (v.db ≡ w.db)
        ⊎ ((generated : GeneratedKey) × (cipher : String) × (has_access input.platform_user_id w.db
              ≡ true)
            × (v.db ≡ insert_key host input generated cipher w.db))
  unfolding issue_key
  issue_key-db input w =
      elim (Option-cases (live_binding (binding_of input.platform_user_id w.db))) [
        | inl missing ↦ inl (ground arith)
        | inr (b, found) ↦
            let made = generate_key host.gateway (generate_input input b) w.runtime in
            elim (Outcome-cases made.0) [
              | inr (e, failed) ↦ inl (ground arith)
              | inl (generated, got) ↦ elim (Outcome-cases (host.encrypt generated.key made.1).0) [
                | inr (e, failed) ↦ inl (ground arith)
                | inl (cipher, sealed) ↦ inr (
                  generated,
                  cipher,
                  live_binding-access (binding_of input.platform_user_id w.db) b found,
                  ground arith,
                )
              ]
            ]
      ]

  pub issue_key-Bound :
      (input : IssueInput) (w : World R)
      → KeysAreBound w.db
      → KeysAreBound (issue_key host input w).1.db
  issue_key-Bound input w h = elim (issue_key-db input w) [
    | inl same ↦ subst KeysAreBound (sym same) h
    | inr (generated, cipher, live, stored) ↦
        subst KeysAreBound (sym stored) (insert_key-Bound input generated cipher w.db live h)
  ]
