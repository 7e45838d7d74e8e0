-- ===== src/Accounts/Keys.antt =====
-- API keys: how many a user has, and what a revoked one is worth.
use sandbox_platform.Prelude.{
  ℕ, subst, any_where, leb, ◌≤◌, ◌<◌, ◌≡◌, refl, ◌⊎◌, inl, inr, String, none, some, arith, ◌==◌,
  str_eq, List, [], ◌∷◌, ◌++◌, count_where, count_where-append, count_where-update_le,
  find_where-update_kept, Bool-cases, Option-cases,
}
use sandbox_platform.Action.{ok, Outcome-cases}
use sandbox_platform.Db.{Db}
use sandbox_platform.Db.Rows.{ApiKeyRow}
use sandbox_platform.World.{World}
use sandbox_platform.Accounts.Vault.{Vault}
use sandbox_platform.Accounts.ApiKeys.{
  create, revoke, authenticate, authenticate_row, key_by_hash, key_of, active_key_of,
  max_active_keys, generate_key, insert_key, get_by_id, new_key, key_with,
}

abbrev pub active_keys : ℕ → Db → ℕ
active_keys user_id db = count_where (active_key_of user_id) db.api_keys.rows

module _ {R : Type 0} (vault : Vault R) where
  create-cases :
      (user_id : ℕ) (name : String) (w : World R)
      → let v = (create vault user_id name w).1 in
        (v.db ≡ w.db)
        ⊎ ((secret : String) × (v.db.api_keys.rows
              ≡ w.db.api_keys.rows
                ++ new_key user_id name (key_with vault secret) w.db.api_keys.next_id ∷ [])
            × (active_keys user_id w.db < max_active_keys))
  unfolding create insert_key generate_key get_by_id
  create-cases user_id name w = elim (Outcome-cases (vault.random_secret w.runtime).0) [
    | inr (x, e) ↦ inl (ground arith)
    | inl (secret, e) ↦ elim (Outcome-cases (create vault user_id name w).0) [
      | inl (k, f) ↦ inr (secret, ground arith, ground arith)
      | inr (x, f) ↦ elim (Bool-cases (leb max_active_keys (active_keys user_id w.db))) [
        | inl g ↦ inl (ground arith)
        | inr g ↦
            elim (Bool-cases (
              any_where (λ k. str_eq k.key_hash (key_with vault secret).hash) w.db.api_keys.rows)) [
                | inl h ↦ inl (ground arith)
                | inr h ↦ inr (secret, ground arith, ground arith)
              ]
      ]
    ]
  ]

  added :
      (user_id u : ℕ) (rows : List ApiKeyRow) (row : ApiKeyRow)
      → row.user_id ≡ user_id
      → count_where (active_key_of user_id) rows < max_active_keys
      → count_where (active_key_of u) rows ≤ max_active_keys
      → count_where (active_key_of u) (rows ++ row ∷ []) ≤ max_active_keys
  added user_id u rows row e h k =
      rw (count_where-append (active_key_of u) rows (row ∷ [])) (elim (Bool-cases (user_id == u)) [
        | inl f ↦ ground (arith, same (ground arith))
        | inr f ↦ ground arith
      ])
    where
      same : user_id ≡ u → count_where (active_key_of u) rows < max_active_keys
      same p = subst (λ v. count_where (active_key_of v) rows < max_active_keys) p h

  revoke-counts :
      (id user_id u : ℕ) (w : World R)
      → active_keys u (revoke id user_id w).1.db ≤ active_keys u w.db
  unfolding revoke get_by_id
  revoke-counts id user_id u w = ground (
    arith,
    count_where-update_le (key_of id user_id) (active_key_of u)
        (λ k. record k { revoked_at = some w.db.clock }) w.db.api_keys.rows (λ k i j. ground arith),
  )

  authenticate-counts :
      (plaintext : String) (u : ℕ) (w : World R)
      → active_keys u (authenticate vault plaintext w).1.db ≤ active_keys u w.db
  unfolding authenticate authenticate_row
  authenticate-counts plaintext u w =
      elim (Option-cases (key_by_hash (vault.digest plaintext) w.db)) [
        | inl e ↦ ground arith
        | inr (key, e) ↦ ground (
          arith,
          count_where-update_le (λ k. k.id == key.id) (active_key_of u)
              (λ k. record k { last_used_at = some w.db.clock }) w.db.api_keys.rows (λ k i j. j),
        )
      ]

  -- A key that was revoked by its owner does not authenticate: `authenticate` returns null and
  -- changes nothing.
  pub revoked_key_refused :
      (id user_id : ℕ) (plaintext : String) (w : World R) (key : ApiKeyRow)
      → key_by_hash (vault.digest plaintext) w.db ≡ some key
      → key.id ≡ id
      → key.user_id ≡ user_id
      → (revoke id user_id w).0 ≡ ok tt
      → let v = (revoke id user_id w).1 in authenticate vault plaintext v ≡ (ok none, v)
  unfolding revoke get_by_id authenticate authenticate_row
  revoked_key_refused id user_id plaintext w key e f g h = ground (
    arith,
    find_where-update_kept (λ k. str_eq k.key_hash (vault.digest plaintext)) (key_of id user_id)
        (λ k. record k { revoked_at = some w.db.clock }) w.db.api_keys.rows key (λ k. refl) e,
  )

  -- No user has more than 50 active keys: create, revoke and authenticate keep this, whatever they
  -- return or throw.
  pub keys-Bounded :
      (id user_id u : ℕ) (name plaintext : String) (w : World R)
      → active_keys u w.db ≤ max_active_keys
      → (active_keys u (create vault user_id name w).1.db ≤ max_active_keys)
        × (active_keys u (revoke id user_id w).1.db ≤ max_active_keys)
        × (active_keys u (authenticate vault plaintext w).1.db ≤ max_active_keys)
  keys-Bounded id user_id u name plaintext w h = (
    elim (create-cases user_id name w) [
      | inl e ↦ rw e h
      | inr (secret, e, f) ↦ rw e (added user_id u w.db.api_keys.rows _ refl f h)
    ],
    omega (arith, h, revoke-counts id user_id u w),
    omega (arith, h, authenticate-counts plaintext u w),
  )
