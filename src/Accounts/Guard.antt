-- ===== src/Accounts/Guard.antt =====
-- auth/middleware.ts: a credential is turned into claims, against the user's row as it stands.
use sandbox_platform.Prelude.{
  ℕ, String, Bool, true, false, not, ◌&&◌, ◌||◌, Option, none, some, or_else, ◌==◌, starts_with,
  if◌then◌else◌,
}
use sandbox_platform.Action.{
  Action, ◌>>=◌, ◌>>◌, pure, throw, throw_if, or_throw, catch, unauthorized, forbidden, http_error,
}
use sandbox_platform.Db.{Db}
use sandbox_platform.Db.Rows.{UserRow, Role}
use sandbox_platform.Db.Queries.{user_by_id}
use sandbox_platform.World.{World, on_host, ask}
use sandbox_platform.Accounts.Vault.{Vault, Claims, TokenType}
use sandbox_platform.Accounts.Users.{is_active}
use sandbox_platform.Accounts.ApiKeys.{authenticate}

pub data AuthMethod : Type 0 where
  jwt api_key : AuthMethod

abbrev pub is_access : TokenType → Bool
is_access TokenType.access = true
is_access _ = false

abbrev pub is_api_key_format : String → Bool
is_api_key_format credential = starts_with credential "sk_"

-- !row || row.status !== "active" is refused
abbrev pub active_user : ℕ → Db → Option UserRow
active_user id db = elim (user_by_id id db) [
  | none ↦ none
  | some u ↦ if is_active u.status then some u else none
]

abbrev pub is_superseded : Claims → UserRow → Bool
is_superseded claims row = not (or_else claims.tv 0 == row.token_version)

-- The role and the name are the row's.
abbrev pub live_claims : Claims → UserRow → Claims
live_claims claims row = record claims {
  username = row.username;
  role = row.role;
  pwd_change_required = claims.pwd_change_required || row.must_change_password;
}

abbrev pub key_claims : UserRow → Claims
key_claims user = record {
  sub = user.id;
  username = user.username;
  role = user.role;
  kind = TokenType.access;
  pwd_change_required = user.must_change_password;
  tv = none;
}

abbrev pub is_admin_role : Role → Bool
is_admin_role Role.admin = true
is_admin_role Role.user = false

abbrev pub claims_of : Option UserRow → Option Claims
claims_of none = none
claims_of (some user) = some (key_claims user)

module _ {R : Type 0} where
  unfoldable pub claims_of_owner : Option ℕ → Action (World R) (Option Claims)
  claims_of_owner none = pure none
  claims_of_owner (some user_id) = do pure (claims_of (← ask (active_user user_id)))

  -- A token that was verified, against the row of its user.
  unfoldable pub recheck : Claims → Action (World R) Claims
  recheck claims = do
    throw_if (not (is_access claims.kind)) unauthorized
    row ← or_throw (← ask (active_user claims.sub)) unauthorized
    throw_if (is_superseded claims row) unauthorized
    pure (live_claims claims row)

module _ {R : Type 0} (vault : Vault R) where
  unfoldable pub claims_from_api_key : String → Action (World R) (Option Claims)
  unfolding claims_of_owner
  claims_from_api_key plaintext = do claims_of_owner (← authenticate vault plaintext)

  unfoldable pub claims_from_token : String → Action (World R) Claims
  unfolding recheck
  claims_from_token credential = do
    claims ← catch (on_host (vault.verify credential)) (λ e. throw unauthorized)
    recheck claims

  -- Whatever is refused or thrown, the caller gets null.
  unfoldable pub authenticate_credential : String → Action (World R) (Option Claims)
  authenticate_credential credential =
      if is_api_key_format credential
      then catch (claims_from_api_key credential) (λ e. pure none)
      else catch (do pure (some (← claims_from_token credential))) (λ e. pure none)

  unfoldable pub identify : String → Action (World R) (Claims × AuthMethod)
  identify credential =
      if is_api_key_format credential
      then (do
        claims ← or_throw (← claims_from_api_key credential) unauthorized
        pure (claims, AuthMethod.api_key))
      else (do claims ← claims_from_token credential; pure (claims, AuthMethod.jwt))

  -- `requireAuth`, of the credential that the headers carry, if any, and the path of the request.
  unfoldable pub require_auth : Option String → String → Action (World R) (Claims × AuthMethod)
  require_auth none path = throw unauthorized
  require_auth (some credential) path = do
    (claims, how) ← identify credential
    throw_if (claims.pwd_change_required && not (vault.is_password_change_path path))
        (http_error 403 "PASSWORD_CHANGE_REQUIRED")
    pure (claims, how)

  unfoldable pub require_admin : Option String → String → Action (World R) (Claims × AuthMethod)
  require_admin credential path = do
    (claims, how) ← require_auth credential path
    throw_if (not (is_admin_role claims.role)) forbidden
    pure (claims, how)
