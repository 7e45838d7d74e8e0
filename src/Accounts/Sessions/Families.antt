-- ===== src/Accounts/Sessions/Families.antt =====
-- What login, refresh, logout and changePassword make of the families of refresh tokens.
use sandbox_platform.Prelude.{
  ℕ, ◌≡◌, ◌⊎◌, inl, inr, true, false, String, Option, none, some, arith, is_some, ◌==◌, count_where,
  count_where-update_none, Option-cases, Bool-cases,
}
use sandbox_platform.Action.{ok, err, Outcome-cases, unauthorized}
use sandbox_platform.Db.Rows.{UserRow, RefreshTokenRow}
use sandbox_platform.Db.Queries.{user_by_id, user_by_username}
use sandbox_platform.World.{World}
use sandbox_platform.Accounts.Vault.{Vault, Claims}
use sandbox_platform.Accounts.Users.{touch_login, set_password, require_user}
use sandbox_platform.Accounts.Auth.{
  is_refresh, revoke, revoke_where, live_in_family, live_of_user, token_by_hash, refuse_replay,
  issue_token_pair, rotate, refresh_stored, refresh, login, logout, change_password,
  assert_may_login,
}
use sandbox_platform.Accounts.Sessions.{
  OneLive, revoked_dead, revoke_where-OneLive, issue_token_pair-OneLive, rotate-OneLive,
}

module _ {R : Type 0} (vault : Vault R) where
  open vault use {digest, verify, random_uuid}

  refresh_stored-cases :
      (stored : RefreshTokenRow) (client_ip : Option String) (w : World R)
      → let v = (refresh_stored vault stored client_ip w).1 in
        (v.db ≡ w.db)
        ⊎ (v.db ≡ revoke_where (live_in_family stored.family_id) w.db)
        ⊎ ((user : UserRow) × (is_some stored.revoked_at ≡ false)
            × (v ≡ (rotate vault stored user client_ip w).1))
  unfolding refresh_stored refuse_replay assert_may_login
  refresh_stored-cases stored client_ip w = elim (Bool-cases (is_some stored.revoked_at)) [
    | inl e ↦ inr (inl (ground arith))
    | inr e ↦ elim (Option-cases (user_by_id stored.user_id w.db)) [
      | inl f ↦ inl (ground arith)
      | inr (user, f) ↦ elim (Outcome-cases (assert_may_login user w).0) [
        | inl (u, g) ↦ inr (inr (user, e, ground arith))
        | inr (x, g) ↦ inl (ground arith)
      ]
    ]
  ]

  -- The world once the token was verified.
  abbrev pub verified : String → World R → World R
  verified token w = record w { runtime = (verify token w.runtime).1 }

  refresh-cases :
      (token : String) (client_ip : Option String) (w : World R)
      → let v = (refresh vault token client_ip w).1 in
        (v.db ≡ w.db)
        ⊎ ((stored : RefreshTokenRow) × (token_by_hash (digest token) w.db ≡ some stored)
            × (v ≡ (refresh_stored vault stored client_ip (verified token w)).1))
  unfolding refresh
  refresh-cases token client_ip w = elim (Outcome-cases (verify token w.runtime).0) [
    | inr (x, e) ↦ inl (ground arith)
    | inl (claims, e) ↦ elim (Bool-cases (is_refresh claims.kind)) [
      | inr f ↦ inl (ground arith)
      | inl f ↦ elim (Option-cases (token_by_hash (digest token) w.db)) [
        | inl g ↦ inl (ground arith)
        | inr (stored, g) ↦ inr (stored, g, ground arith)
      ]
    ]
  ]

  refresh-OneLive :
      (token : String) (client_ip : Option String) (w : World R)
      → OneLive w.db
      → OneLive (refresh vault token client_ip w).1.db
  refresh-OneLive token client_ip w h = elim (refresh-cases token client_ip w) [
    | inl e ↦ rw e h
    | inr (stored, e, f) ↦ rw f (elim (refresh_stored-cases stored client_ip (verified token w)) [
      | inl g ↦ rw g h
      | inr (inl g) ↦ rw g (revoke_where-OneLive (live_in_family stored.family_id) w.db h)
      | inr (inr (user, k, g)) ↦
          rw g (rotate-OneLive vault (digest token) stored user client_ip (verified token w) h e k)
    ])
  ]

  -- The next family has no live token.
  abbrev pub HasFreshFamily : World R → Type 0
  HasFreshFamily w =
      (jti : String)
      → (random_uuid w.runtime).0 ≡ ok jti
      → count_where (live_in_family jti) w.db.refresh_tokens.rows ≡ 0

  login-cases :
      (username password : String) (client_ip : Option String) (w : World R)
      → let v = (login vault username password client_ip w).1 in
        (v.db ≡ w.db)
        ⊎ ((user : UserRow) × (v
              ≡ (issue_token_pair vault user client_ip none (touch_login user.id w).1).1))
  unfolding login assert_may_login touch_login
  login-cases username password client_ip w = elim (Option-cases (user_by_username username w.db)) [
    | inl e ↦ inl (ground arith)
    | inr (user, e) ↦ elim (Bool-cases (vault.compare password user.password_hash)) [
      | inr f ↦ inl (ground arith)
      | inl f ↦ elim (Outcome-cases (assert_may_login user w).0) [
        | inr (x, g) ↦ inl (ground arith)
        | inl (u, g) ↦
            elim (Outcome-cases
              (issue_token_pair vault user client_ip none (touch_login user.id w).1).0) [
                | inl (p, k) ↦ inr (user, ground arith)
                | inr (x, k) ↦ inr (user, ground arith)
              ]
      ]
    ]
  ]

  login-OneLive :
      (username password : String) (client_ip : Option String) (w : World R)
      → OneLive w.db
      → HasFreshFamily w
      → OneLive (login vault username password client_ip w).1.db
  unfolding touch_login
  login-OneLive username password client_ip w h fresh =
      elim (login-cases username password client_ip w) [
        | inl e ↦ rw e h
        | inr (user, e) ↦ rw e (
            issue_token_pair-OneLive vault user client_ip none (touch_login user.id w).1
              (record { at = h.at }) fresh)
      ]

  logout-OneLive :
      (token : String) (w : World R) → OneLive w.db → OneLive (logout vault token w).1.db
  unfolding logout
  logout-OneLive token w h = elim (Option-cases (token_by_hash (digest token) w.db)) [
    | inl e ↦ rw (none_left e) h
    | inr (t, e) ↦ rw (one_left t e) (revoke_where-OneLive (λ s. s.id == t.id) w.db h)
  ]
    where
      none_left : token_by_hash (digest token) w.db ≡ none → (logout vault token w).1.db ≡ w.db
      none_left e = ground arith

      one_left :
          (t : RefreshTokenRow)
          → token_by_hash (digest token) w.db ≡ some t
          → (logout vault token w).1.db ≡ revoke_where (λ s. s.id == t.id) w.db
      one_left t e = ground arith

  -- Whether the password was set or not, the tokens are as they were until they are revoked.
  change_password-cases :
      (user_id : ℕ) (current next : String) (w : World R)
      → let v = (change_password vault user_id current next w).1 in
        (v.db.refresh_tokens ≡ w.db.refresh_tokens)
        ⊎ (v.db.refresh_tokens ≡ (revoke_where (live_of_user user_id) w.db).refresh_tokens)
  unfolding change_password set_password require_user
  change_password-cases user_id current next w = ground arith

  change_password-OneLive :
      (user_id : ℕ) (current next : String) (w : World R)
      → OneLive w.db
      → OneLive (change_password vault user_id current next w).1.db
  change_password-OneLive user_id current next w h =
      elim (change_password-cases user_id current next w) [
        | inl e ↦ record { at = λ family. rw e (h.at family) }
        | inr e ↦ record {
          at = λ family. rw e ((revoke_where-OneLive (live_of_user user_id) w.db h).at family);
        }
      ]

  -- That every family has at most one token that is not revoked is kept by login (where the new
  -- family has no live token), refresh, logout and changePassword, whatever they return or throw.
  pub sessions-OneLive :
      (username password token next : String) (client_ip : Option String) (user_id : ℕ)
      (w : World R)
      → OneLive w.db
      → HasFreshFamily w
      → OneLive (login vault username password client_ip w).1.db
        × OneLive (refresh vault token client_ip w).1.db
        × OneLive (logout vault token w).1.db
        × OneLive (change_password vault user_id password next w).1.db
  sessions-OneLive username password token next client_ip user_id w h fresh = (
    login-OneLive username password client_ip w h fresh,
    refresh-OneLive token client_ip w h,
    logout-OneLive token w h,
    change_password-OneLive user_id password next w h,
  )

  -- A refresh token that is recorded as revoked is a replay: `refresh` throws UNAUTHORIZED, and
  -- afterwards no token of its family is live, while tokens of the other families, and all other tables, are as
  -- they were.
  pub replay_revokes_family :
      (token : String) (client_ip : Option String) (w : World R) (claims : Claims)
      (stored : RefreshTokenRow)
      → (verify token w.runtime).0 ≡ ok claims
      → is_refresh claims.kind ≡ true
      → token_by_hash (digest token) w.db ≡ some stored
      → is_some stored.revoked_at ≡ true
      → let (r, v) = refresh vault token client_ip w in
        (r ≡ err unauthorized)
        × (count_where (live_in_family stored.family_id) v.db.refresh_tokens.rows ≡ 0)
        × (v.db ≡ revoke_where (live_in_family stored.family_id) w.db)
  unfolding refresh refresh_stored refuse_replay
  replay_revokes_family token client_ip w claims stored e f g h =
      (ground arith, ground (arith, dead), ground arith)
    where
      dead :
          count_where
            (live_in_family stored.family_id)
            (revoke_where (live_in_family stored.family_id) w.db).refresh_tokens.rows
          ≡ 0
      dead =
          count_where-update_none (live_in_family stored.family_id) (revoke w.db.clock)
            w.db.refresh_tokens.rows (revoked_dead stored.family_id w.db.clock)
