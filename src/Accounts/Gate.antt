-- ===== src/Accounts/Gate.antt =====
-- What `requireAuth` lets pass.
use sandbox_platform.Prelude.{
  ◌≡◌, find_where-holds, inl, inr, true, String, Option, none, some, arith, ◌==◌, Bool-cases,
  Option-cases,
}
use sandbox_platform.Action.{ok, Outcome-cases}
use sandbox_platform.Db.{Db}
use sandbox_platform.Db.Rows.{UserRow, UserStatus, ApiKeyRow}
use sandbox_platform.Db.Queries.{user_by_id}
use sandbox_platform.World.{World}
use sandbox_platform.Accounts.Vault.{Vault, Claims}
use sandbox_platform.Accounts.ApiKeys.{authenticate, authenticate_row, key_by_hash}
use sandbox_platform.Accounts.Guard.{
  AuthMethod, identify, require_auth, claims_from_token, claims_from_api_key, claims_of_owner,
  recheck, is_api_key_format,
}

-- The claims are those of an active user, as the user's row stands.
pub record Live (d : Db) (claims : Claims) (user : UserRow) : Type 0 where
  pub found : user_by_id claims.sub d ≡ some user
  pub active : user.status ≡ UserStatus.active
  pub role : claims.role ≡ user.role
  pub username : claims.username ≡ user.username
  pub gated : user.must_change_password ≡ true → claims.pwd_change_required ≡ true

module _ {R : Type 0} (vault : Vault R) where
  recheck-Live :
      (given claims : Claims) (w : World R)
      → (recheck given w).0 ≡ ok claims
      → (user : UserRow) × Live w.db claims user
  unfolding recheck
  recheck-Live given claims w e = elim (Option-cases (user_by_id given.sub w.db)) [
    | inl f ↦ absurd (ground arith)
    | inr (user, f) ↦ (user, ground arith)
  ]

  claims_from_token-Live :
      (credential : String) (claims : Claims) (w : World R)
      → (claims_from_token vault credential w).0 ≡ ok claims
      → (user : UserRow) × Live w.db claims user
  unfolding claims_from_token
  claims_from_token-Live credential claims w e =
      elim (Outcome-cases (vault.verify credential w.runtime).0) [
        | inr (x, f) ↦ absurd (ground arith)
        | inl (given, f) ↦
            recheck-Live given claims (record w { runtime = (vault.verify credential w.runtime).1 })
              (ground arith)
      ]

  claims_from_api_key-Live :
      (credential : String) (claims : Claims) (w : World R)
      → (claims_from_api_key vault credential w).0 ≡ ok (some claims)
      → (user : UserRow) × Live w.db claims user
  unfolding claims_from_api_key claims_of_owner authenticate authenticate_row
  claims_from_api_key-Live credential claims w e =
      elim (Option-cases (key_by_hash (vault.digest credential) w.db)) [
        | inl f ↦ absurd (ground arith)
        | inr (key, f) ↦ elim (Option-cases (user_by_id key.user_id w.db)) [
          | inl g ↦ absurd (ground arith)
          | inr (user, g) ↦ (user, owner_live key user f g)
        ]
      ]
    where
      owner_live :
          (key : ApiKeyRow) (user : UserRow)
          → key_by_hash (vault.digest credential) w.db ≡ some key
          → user_by_id key.user_id w.db ≡ some user
          → Live w.db claims user
      owner_live key user f g =
          ground (arith, find_where-holds (λ u. u.id == key.user_id) w.db.users.rows user g)

  identify-Live :
      (credential : String) (claims : Claims) (how : AuthMethod) (w : World R)
      → (identify vault credential w).0 ≡ ok (claims, how)
      → (user : UserRow) × Live w.db claims user
  unfolding identify
  identify-Live credential claims how w e = elim (Bool-cases (is_api_key_format credential)) [
    | inl f ↦ claims_from_api_key-Live credential claims w (ground arith)
    | inr f ↦ claims_from_token-Live credential claims w (ground arith)
  ]

  -- When requireAuth passes a request, there was a credential, and its claims are those of an active
  -- user: the name and the role are those of the user's row in the database, and not the token's. A
  -- user who must change the password passes only on the paths that serve that change.
  pub require_auth-Live :
      (credential : Option String) (path : String) (claims : Claims) (how : AuthMethod)
      (w : World R)
      → (require_auth vault credential path w).0 ≡ ok (claims, how)
      → (user : UserRow) × Live w.db claims user
        × (user.must_change_password ≡ true → vault.is_password_change_path path ≡ true)
  unfolding require_auth
  require_auth-Live none path claims how w e = absurd (ground arith)
  require_auth-Live (some credential) path claims how w e =
      let (user, live) = identify-Live credential claims how w (ground arith) in
      (user, live, λ m. ground (arith, live.gated m))
