-- ===== src/Accounts/Auth.antt =====
-- services/auth.service.ts: login, rotation of refresh tokens, logout and the change of a password.
use sandbox_platform.Prelude.{
  ℕ, String, Bool, true, false, not, ◌&&◌, Option, none, some, or_else, is_some, ◌==◌, str_eq,
  if◌then◌else◌, find_where, count_where, update_where,
}
use sandbox_platform.Action.{
  Action, ◌>>=◌, ◌>>◌, pure, throw, throw_if, or_throw, catch, unauthorized, account_pending,
  http_error, bad_request,
}
use sandbox_platform.Db.{Db, insert_row, with_rows}
use sandbox_platform.Db.Rows.{UserRow, RefreshTokenRow, UserStatus}
use sandbox_platform.Db.Queries.{user_by_id, user_by_username}
use sandbox_platform.World.{World, on_host, set_db, ask}
use sandbox_platform.Accounts.Vault.{Vault, Claims, TokenType, decode_expiry, violates_policy}
use sandbox_platform.Accounts.Users.{is_pending, touch_login, set_password}

pub record TokenPair : Type 0 where
  pub access_token : String
  pub refresh_token : String
  pub expires_in : ℕ

abbrev pub is_disabled : UserStatus → Bool
is_disabled UserStatus.disabled = true
is_disabled _ = false

abbrev pub is_refresh : TokenType → Bool
is_refresh TokenType.refresh = true
is_refresh _ = false

abbrev pub is_live : RefreshTokenRow → Bool
is_live t = not (is_some t.revoked_at)

abbrev pub revoke : ℕ → RefreshTokenRow → RefreshTokenRow
revoke now t = record t { revoked_at = some now }

-- UPDATE refresh_tokens SET revoked_at = CURRENT_TIMESTAMP WHERE p
abbrev pub revoke_where : (RefreshTokenRow → Bool) → Db → Db
revoke_where p db = record db {
  refresh_tokens = with_rows (update_where p (revoke db.clock)) db.refresh_tokens;
}

abbrev pub live_in_family : String → RefreshTokenRow → Bool
live_in_family family t = str_eq t.family_id family && is_live t

abbrev pub live_of_user : ℕ → RefreshTokenRow → Bool
live_of_user user_id t = t.user_id == user_id && is_live t

abbrev pub live_with_id : ℕ → RefreshTokenRow → Bool
live_with_id id t = t.id == id && is_live t

abbrev pub insert_token : UserRow → String → ℕ → Option String → String → Db → Db
insert_token user token_hash expires_at client_ip family db = record db {
  refresh_tokens =
      insert_row
        (λ i. record {
          id = i;
          user_id = user.id;
          token_hash = token_hash;
          family_id = family;
          expires_at = expires_at;
          revoked_at = none;
          client_ip = client_ip;
        })
        db.refresh_tokens;
}

abbrev pub access_claims : UserRow → Claims
access_claims user = record {
  sub = user.id;
  username = user.username;
  role = user.role;
  kind = TokenType.access;
  pwd_change_required = user.must_change_password;
  tv = some user.token_version;
}

-- WHERE token_hash = ?
abbrev pub token_by_hash : String → Db → Option RefreshTokenRow
token_by_hash h db = find_where (λ t. str_eq t.token_hash h) db.refresh_tokens.rows

module _ {R : Type 0} where
  -- The two refusals that login, loginDirect and refresh share.
  unfoldable pub assert_may_login : UserRow → Action (World R) (Unit {0})
  assert_may_login user = do
    throw_if (is_pending user.status) account_pending
    throw_if (is_disabled user.status) (http_error 403 "ACCOUNT_DISABLED")

  -- A revoked token was replayed, or the rotation was lost.
  unfoldable pub refuse_replay : {A : Type 0} → String → Action (World R) A
  refuse_replay family = do set_db (revoke_where (live_in_family family)); throw unauthorized

module _ {R : Type 0} (vault : Vault R) where
  open vault use {compare, digest, sign_access, sign_refresh, verify, random_uuid, access_seconds}

  unfoldable pub issue_token_pair :
      UserRow → Option String → Option String → Action (World R) TokenPair
  issue_token_pair user client_ip family_id = do
    jti ← on_host random_uuid
    refresh_token ← on_host (sign_refresh user.id jti)
    set_db λ db.
        insert_token user (digest refresh_token) (decode_expiry vault db.clock refresh_token)
          client_ip (or_else family_id jti) db
    access_token ← on_host (sign_access (access_claims user))
    pure (record {
      access_token = access_token;
      refresh_token = refresh_token;
      expires_in = access_seconds;
    })

  -- The user has proved who they are.
  unfoldable pub login_direct : UserRow → Option String → Action (World R) (TokenPair × UserRow)
  unfolding assert_may_login touch_login
  login_direct user client_ip = do
    assert_may_login user
    touch_login user.id
    pair ← issue_token_pair user client_ip none
    pure (pair, user)

  unfoldable pub login : String → String → Option String → Action (World R) (TokenPair × UserRow)
  unfolding login_direct assert_may_login touch_login
  login username password client_ip = do
    user ← or_throw (← ask (user_by_username username)) unauthorized
    throw_if (not (compare password user.password_hash)) unauthorized
    assert_may_login user
    touch_login user.id
    pair ← issue_token_pair user client_ip none
    pure (pair, user)

  unfoldable pub rotate : RefreshTokenRow → UserRow → Option String → Action (World R) TokenPair
  unfolding refuse_replay
  rotate stored user client_ip = do
    changes ← ask (λ db. count_where (live_with_id stored.id) db.refresh_tokens.rows)
    set_db (revoke_where (live_with_id stored.id))
    if not (changes == 1)
        then refuse_replay stored.family_id
        else issue_token_pair user client_ip (some stored.family_id)

  unfoldable pub refresh_stored : RefreshTokenRow → Option String → Action (World R) TokenPair
  unfolding refuse_replay assert_may_login
  refresh_stored stored client_ip =
      if is_some stored.revoked_at then refuse_replay stored.family_id else (do
        user ← or_throw (← ask (user_by_id stored.user_id)) unauthorized
        assert_may_login user
        rotate stored user client_ip)

  unfoldable pub refresh : String → Option String → Action (World R) TokenPair
  refresh refresh_token client_ip = do
    claims ← catch (on_host (verify refresh_token)) (λ e. throw unauthorized)
    throw_if (not (is_refresh claims.kind)) unauthorized
    stored ← or_throw (← ask (token_by_hash (digest refresh_token))) unauthorized
    refresh_stored stored client_ip

  unfoldable pub logout : String → Action (World R) (Unit {0})
  logout refresh_token = do
    stored ← ask (token_by_hash (digest refresh_token))
    elim stored [ none ↦ pure tt | some t ↦ set_db (revoke_where (λ s. s.id == t.id)) ]

  unfoldable pub profile : ℕ → Action (World R) UserRow
  profile user_id = do or_throw (← ask (user_by_id user_id)) unauthorized

  unfoldable pub change_password : ℕ → String → String → Action (World R) (Unit {0})
  unfolding set_password
  change_password user_id current_password new_password = do
    user ← or_throw (← ask (user_by_id user_id)) unauthorized
    throw_if (not (compare current_password user.password_hash)) unauthorized
    throw_if (str_eq current_password new_password) bad_request
    throw_if (violates_policy vault new_password) bad_request
    set_password vault user_id new_password true
    set_db (revoke_where (live_of_user user_id))
