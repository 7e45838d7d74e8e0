-- ===== src/Tests/Sessions.antt =====
-- Logins, refreshes, keys and the gate on the small platform.
use sandbox_platform.Prelude.{ℕ, ◌≡◌, inr, refl, arith, true, none, some, count_where}
use sandbox_platform.Action.{ok, err, unauthorized}
use sandbox_platform.Db.Rows.{UserRow, UserStatus, Status}
use sandbox_platform.Db.Queries.{user_by_username}
use sandbox_platform.World.{World}
use sandbox_platform.Accounts.Vault.{TokenType, decode_expiry, violates_policy}
use sandbox_platform.Accounts.Users.{set_password, require_user, touch_login}
use sandbox_platform.Accounts.Auth.{
  TokenPair, live_in_family, live_of_user, revoke_where, login, refresh, logout, change_password,
  refresh_stored, rotate, issue_token_pair, refuse_replay, assert_may_login,
}
use sandbox_platform.Accounts.ApiKeys.{revoke, get_by_id}
use sandbox_platform.Accounts.Guard.{
  AuthMethod, require_auth, identify, claims_from_token, recheck, authenticate_credential,
}
use sandbox_platform.Accounts.Sessions.{OneLive}
use sandbox_platform.Accounts.Sessions.Families.{
  HasFreshFamily, sessions-OneLive, replay_revokes_family,
}
use sandbox_platform.Accounts.Sessions.Rotation.{refresh_once}
use sandbox_platform.Accounts.Login.{
  login_refusals_alike, login_authentic, change_password_ends_sessions,
}
use sandbox_platform.Accounts.Gate.{Live, require_auth-Live}
use sandbox_platform.Tests.{sample_world, sample_vault, sample_claims, sample_user, sample_token}

abbrev platform : World ℕ
platform = sample_world Status.running

abbrev issued_pair : TokenPair
issued_pair = record { access_token = "access"; refresh_token = "refresh-2"; expires_in = 900 }

refreshed : (refresh sample_vault "refresh-1" none platform).0 ≡ ok issued_pair
unfolding refresh refresh_stored rotate issue_token_pair refuse_replay assert_may_login
    decode_expiry
refreshed = refl

refresh_once_example :
    (refresh sample_vault "refresh-1"
      (some "10.0.0.1")
      (refresh sample_vault "refresh-1" none platform).1).0
    ≡ err unauthorized
refresh_once_example =
    refresh_once sample_vault "refresh-1" none (some "10.0.0.1") platform issued_pair refreshed

replay_revokes_family_example :
    let (r, v) = refresh sample_vault "refresh-0" none platform in
    (r ≡ err unauthorized)
    × (count_where (live_in_family "family-1") v.db.refresh_tokens.rows ≡ 0)
    × (v.db ≡ revoke_where (live_in_family "family-1") platform.db)
replay_revokes_family_example =
    replay_revokes_family sample_vault "refresh-0" none platform (sample_claims TokenType.refresh)
      (sample_token 1 "refresh-0" (some 5)) refl refl refl refl

one_live : OneLive platform.db
one_live = record { at = λ family. ground arith }

fresh_family : HasFreshFamily sample_vault platform
fresh_family jti e = rw (← same) refl
  where
    same : "uuid-1" ≡ jti
    same = ground arith

sessions-OneLive_example :
    OneLive (login sample_vault "alice" "Secret-1" none platform).1.db
    × OneLive (refresh sample_vault "refresh-1" none platform).1.db
    × OneLive (logout sample_vault "refresh-1" platform).1.db
    × OneLive (change_password sample_vault 1 "Secret-1" "Secret-2" platform).1.db
sessions-OneLive_example =
    sessions-OneLive sample_vault "alice" "Secret-1" "refresh-1" "Secret-2" none 1 platform one_live
      fresh_family

login_refusals_alike_example :
    login sample_vault "carol" "guess" none platform ≡ (err unauthorized, platform)
login_refusals_alike_example =
    login_refusals_alike sample_vault "carol" "guess" none platform
      (inr (sample_user 3 "carol" UserStatus.pending, refl, refl))

alice_in :
    (login sample_vault "alice" "Secret-1" none platform).0
    ≡ ok (issued_pair, sample_user 1 "alice" UserStatus.active)
unfolding login assert_may_login touch_login issue_token_pair decode_expiry
alice_in = refl

login_authentic_example :
    (user_by_username "alice" platform.db ≡ some (sample_user 1 "alice" UserStatus.active))
    × (sample_vault.compare "Secret-1" "Secret-1" ≡ true)
    × (UserStatus.active ≡ UserStatus.active)
login_authentic_example =
    login_authentic sample_vault "alice" "Secret-1" none platform issued_pair
      (sample_user 1 "alice" UserStatus.active) alice_in

changed : (change_password sample_vault 1 "Secret-1" "Secret-2" platform).0 ≡ ok tt
unfolding change_password set_password require_user violates_policy
changed = refl

change_password_ends_sessions_example :
    let v = (change_password sample_vault 1 "Secret-1" "Secret-2" platform).1 in
    (count_where (live_of_user 1) v.db.refresh_tokens.rows ≡ 0)
    × ((require_auth sample_vault (some "access") "/containers" v).0 ≡ err unauthorized)
    × ((authenticate_credential sample_vault "access" v).0 ≡ ok none)
change_password_ends_sessions_example =
    change_password_ends_sessions sample_vault 1 "Secret-1" "Secret-2" "/containers" "access"
      platform (sample_user 1 "alice" UserStatus.active) (sample_claims TokenType.access) refl
      changed refl refl refl refl

revoked : (revoke 1 1 platform).0 ≡ ok tt
unfolding revoke get_by_id
revoked = refl

passed :
    (require_auth sample_vault (some "access") "/containers" platform).0
    ≡ ok (sample_claims TokenType.access, AuthMethod.jwt)
unfolding require_auth identify claims_from_token recheck
passed = refl

require_auth-Live_example :
    (user : UserRow) × Live platform.db (sample_claims TokenType.access) user
    × (user.must_change_password ≡ true → sample_vault.is_password_change_path "/containers" ≡ true)
require_auth-Live_example =
    require_auth-Live sample_vault (some "access") "/containers" (sample_claims TokenType.access)
      AuthMethod.jwt platform passed
