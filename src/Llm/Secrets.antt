-- ===== src/Llm/Secrets.antt =====
-- What a key's owner can get back, and for how long.
use sandbox_platform.Prelude.{
  ℕ, ◌≡◌, ◌⊎◌, inl, inr, refl, arith, String, true, false, none, some, ◌==◌, ==-refl, Option-cases,
  is_some, List, [], ◌∷◌, ◌++◌, find_where, count_where, update_where, find_where-append_new,
}
use sandbox_platform.Action.{ok, err, Outcome-cases, not_found, conflict}
use sandbox_platform.Db.Rows.{LlmVirtualKeyRow}
use sandbox_platform.World.{World}
use sandbox_platform.Llm.{
  LlmHost, IssueInput, binding_of, key_row, is_key_of, is_live_of, new_key, revoke_virtual_key,
}
use sandbox_platform.Llm.Gateway.{generate_key}
use sandbox_platform.Llm.Keys.{
  IssuedKey, live_binding, generate_input, has_key_id, issue_key, reveal_key,
}
use sandbox_platform.Llm.Bindings.{revoke_access, revoke_rows}
use sandbox_platform.Llm.Bound.{live_keys, revoked_keys}

-- A key that is found after the keys of its user were revoked is revoked.
found_revoked :
    (id user_id now : ℕ) (keys : List LlmVirtualKeyRow) (k : LlmVirtualKeyRow)
    → find_where
        (is_key_of id user_id)
        (update_where (is_live_of user_id) (revoke_virtual_key now) keys)
      ≡ some k
    → is_some k.revoked_at ≡ true
found_revoked id user_id now [] k e = cc
found_revoked id user_id now (x ∷ keys) k e = ground (arith, found_revoked id user_id now keys k)

other_owner :
    (id user_id other : ℕ) (keys : List LlmVirtualKeyRow) (k : LlmVirtualKeyRow)
    → count_where (has_key_id id) keys ≡ 0
    → k.user_id ≡ user_id
    → (user_id == other) ≡ false
    → find_where (is_key_of id other) (keys ++ k ∷ []) ≡ none
other_owner id user_id other [] k fresh own ne = ground arith
other_owner id user_id other (x ∷ keys) k fresh own ne =
    ground (arith, other_owner id user_id other keys k)

fresh_of_owner :
    (id user_id : ℕ) (keys : List LlmVirtualKeyRow)
    → count_where (has_key_id id) keys ≡ 0
    → count_where (is_key_of id user_id) keys ≡ 0
fresh_of_owner id user_id [] fresh = refl
fresh_of_owner id user_id (x ∷ keys) fresh = ground (arith, fresh_of_owner id user_id keys)

module _ {R : Type 0} (host : LlmHost R) where
  -- Where decryption undoes encryption and the next id is not taken: a key that `issueKey` gave back is
  -- revealed to its owner as the same text, and to any other user it does not exist.
  pub issue-reveal :
      (input : IssueInput) (other : ℕ) (w : World R) (key : IssuedKey)
      → ((p c : String) (s t : R) → host.encrypt p s ≡ (ok c, t) → host.decrypt c ≡ ok p)
      → count_where (has_key_id w.db.llm_virtual_keys.next_id) w.db.llm_virtual_keys.rows ≡ 0
      → (input.platform_user_id == other) ≡ false
      → (issue_key host input w).0 ≡ ok key
      → let v = (issue_key host input w).1 in
        ((reveal_key host key.id input.platform_user_id v).0 ≡ ok key)
        × ((reveal_key host key.id other v).0 ≡ err not_found)
  unfolding issue_key reveal_key
  issue-reveal input other w key undo fresh ne e =
      elim (Option-cases (live_binding (binding_of input.platform_user_id w.db))) [
        | inl missing ↦ absurd (ground arith)
        | inr (b, found) ↦
            let made = generate_key host.gateway (generate_input input b) w.runtime in
            elim (Outcome-cases made.0) [
              | inr (x, failed) ↦ absurd (ground arith)
              | inl (generated, got) ↦
                  let sealed = host.encrypt generated.key made.1 in
                  elim (Outcome-cases sealed.0) [
                    | inr (x, failed) ↦ absurd (ground arith)
                    | inl (cipher, done) ↦
                        let row =
                          new_key host.dialect input (host.gateway.digest generated.key)
                            generated.key_name (host.prefix generated.key) cipher
                            w.db.llm_virtual_keys.next_id in
                        let keys = w.db.llm_virtual_keys.rows in
                        let id = w.db.llm_virtual_keys.next_id in
                        let mine =
                          find_where-append_new (is_key_of id input.platform_user_id) keys row
                            (fresh_of_owner id input.platform_user_id keys fresh) (ground arith) in
                        let hidden =
                          other_owner id input.platform_user_id other keys row fresh refl ne in
                        let opened = undo generated.key cipher made.1 sealed.1 (ground arith) in
                        (ground (arith, mine, opened), ground (arith, hidden))
                  ]
            ]
      ]

  -- Once `revokeAccess` has returned, no key of the user is live, and none of them can be revealed: the
  -- service throws CONFLICT, or NOT_FOUND where there is no such key.
  pub revoke_access-reveal :
      (user_id id : ℕ) (w : World R)
      → (revoke_access host user_id w).0 ≡ ok tt
      → let v = (revoke_access host user_id w).1 in
        (live_keys user_id v.db ≡ 0)
        × (((reveal_key host id user_id v).0 ≡ err conflict)
            ⊎ ((reveal_key host id user_id v).0 ≡ err not_found))
  unfolding revoke_access reveal_key
  revoke_access-reveal user_id id w e = (
    ground (
      arith,
      revoked_keys user_id user_id w.db.clock w.db.llm_virtual_keys.rows,
      ==-refl user_id,
    ),
    elim (Option-cases (key_row id user_id (revoke_rows host user_id w.db))) [
      | inl missing ↦ inr (ground arith)
      | inr (k, found) ↦
          inl
            (ground (arith, found_revoked id user_id w.db.clock w.db.llm_virtual_keys.rows k found))
    ],
  )
