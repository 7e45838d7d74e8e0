-- ===== src/Accounts/Login.antt =====
-- Who gets tokens and claims: the password, the state of the account, and the version of its tokens.
use sandbox_platform.Prelude.{
  ℕ, ◌≡◌, ◌≢◌, ◌⊎◌, inl, inr, true, false, String, Option, none, some, or_else, arith, count_where,
  count_where-update_none, find_where-update_self,
}
use sandbox_platform.Action.{ok, err, Outcome-cases, unauthorized}
use sandbox_platform.Db.Rows.{UserRow, UserStatus}
use sandbox_platform.Db.Queries.{user_by_id, user_by_username}
use sandbox_platform.World.{World}
use sandbox_platform.Accounts.Vault.{Vault, Claims}
use sandbox_platform.Accounts.Users.{has_user_id, set_hash, set_password, require_user}
use sandbox_platform.Accounts.Auth.{
  TokenPair, revoke, live_of_user, login, change_password, assert_may_login,
}
use sandbox_platform.Accounts.Guard.{
  is_api_key_format, claims_from_token, recheck, identify, require_auth, authenticate_credential,
}

module _ {R : Type 0} (vault : Vault R) where
  open vault use {compare, verify}

  -- A login with a user name that nobody has, and one with a wrong password for a user of any
  -- state (active, pending or disabled), are refused alike: UNAUTHORIZED, and nothing is changed.
  pub login_refusals_alike :
      (username password : String) (client_ip : Option String) (w : World R)
      → (user_by_username username w.db ≡ none)
        ⊎ ((user : UserRow) × (user_by_username username w.db ≡ some user)
            × (compare password user.password_hash ≡ false))
      → login vault username password client_ip w ≡ (err unauthorized, w)
  unfolding login
  login_refusals_alike username password client_ip w h = ground arith

  -- When login returns, the user is the one of that name as the row was before, the password fits the
  -- stored hash, and the account is active.
  pub login_authentic :
      (username password : String) (client_ip : Option String) (w : World R) (pair : TokenPair)
      (user : UserRow)
      → (login vault username password client_ip w).0 ≡ ok (pair, user)
      → (user_by_username username w.db ≡ some user)
        × (compare password user.password_hash ≡ true)
        × (user.status ≡ UserStatus.active)
  unfolding login assert_may_login
  login_authentic username password client_ip w pair user e =
      (ground arith, ground arith, ground arith)

  -- The row of the user after a change of password.
  changed_user :
      (user_id : ℕ) (current next : String) (w : World R) (user : UserRow)
      → user_by_id user_id w.db ≡ some user
      → (change_password vault user_id current next w).0 ≡ ok tt
      → (hash : String) × (user_by_id user_id (change_password vault user_id current next w).1.db
          ≡ some (set_hash hash true user))
  unfolding change_password set_password require_user
  changed_user user_id current next w user e f =
      elim (Outcome-cases (vault.hash next w.runtime).0) [
        | inr (x, g) ↦ absurd (ground arith)
        | inl (hash, g) ↦ (
          hash,
          ground (
            arith,
            find_where-update_self (has_user_id user_id) (set_hash hash true) w.db.users.rows user
                (λ y k. k) e,
          ),
        )
      ]

  sessions_ended :
      (user_id : ℕ) (current next : String) (w : World R)
      → (change_password vault user_id current next w).0 ≡ ok tt
      → count_where
          (live_of_user user_id)
          (change_password vault user_id current next w).1.db.refresh_tokens.rows
        ≡ 0
  unfolding change_password set_password require_user
  sessions_ended user_id current next w e = ground (
    arith,
    count_where-update_none (live_of_user user_id) (revoke w.db.clock) w.db.refresh_tokens.rows
        (λ t. ground arith),
  )

  superseded :
      (credential : String) (claims : Claims) (user : UserRow) (w : World R)
      → is_api_key_format credential ≡ false
      → (verify credential w.runtime).0 ≡ ok claims
      → user_by_id claims.sub w.db ≡ some user
      → or_else claims.tv 0 ≢ user.token_version
      → (claims_from_token vault credential w).0 ≡ err unauthorized
  unfolding claims_from_token recheck
  superseded credential claims user w e f g h = ground arith

  -- After a change of password that returns, no refresh token of the user is live, and a credential
  -- that verifies as the user's with the former token version is refused: `requireAuth` throws
  -- UNAUTHORIZED whatever the path, and `authenticateCredential` gives null.
  pub change_password_ends_sessions :
      (user_id : ℕ) (current next path credential : String) (w : World R) (user : UserRow)
      (claims : Claims)
      → user_by_id user_id w.db ≡ some user
      → (change_password vault user_id current next w).0 ≡ ok tt
      → let v = (change_password vault user_id current next w).1 in
        is_api_key_format credential ≡ false
        → (verify credential v.runtime).0 ≡ ok claims
        → claims.sub ≡ user_id
        → or_else claims.tv 0 ≡ user.token_version
        → (count_where (live_of_user user_id) v.db.refresh_tokens.rows ≡ 0)
          × ((require_auth vault (some credential) path v).0 ≡ err unauthorized)
          × ((authenticate_credential vault credential v).0 ≡ ok none)
  unfolding require_auth identify authenticate_credential
  change_password_ends_sessions user_id current next path credential w user claims e f g h i j =
      let (hash, k) = changed_user user_id current next w user e f in
      let refused =
        superseded credential claims (set_hash hash true user)
          (change_password vault user_id current next w).1 g h (rw i k) (λ l. ground arith) in
      (sessions_ended user_id current next w f, ground arith, ground arith)
