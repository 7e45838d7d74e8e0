-- ===== src/Accounts/Sessions/Rotation.antt =====
-- A refresh token is good for one rotation.
use sandbox_platform.Prelude.{
  ◌≡◌, refl, subst, inl, inr, true, false, String, Option, some, arith, is_some, str_eq,
  find_where-update_kept, find_where-append, Option-cases,
}
use sandbox_platform.Action.{ok, err, unauthorized}
use sandbox_platform.Db.{Db}
use sandbox_platform.Db.Rows.{UserRow, RefreshTokenRow}
use sandbox_platform.Db.Queries.{user_by_id}
use sandbox_platform.World.{World}
use sandbox_platform.Accounts.Vault.{Vault}
use sandbox_platform.Accounts.Auth.{
  TokenPair, revoke, live_with_id, token_by_hash, refuse_replay, issue_token_pair, rotate,
  refresh_stored, refresh, assert_may_login,
}
use sandbox_platform.Accounts.Sessions.{issue_token_pair-cases, rotated}
use sandbox_platform.Accounts.Sessions.Families.{verified}

module _ {R : Type 0} (vault : Vault R) where
  open vault use {digest, verify}

  -- The stored token, once it was rotated away.
  abbrev Spent : String → Db → Type 0
  Spent token d =
      (t : RefreshTokenRow) × (token_by_hash (digest token) d ≡ some t)
      × (is_some t.revoked_at ≡ true)

  issue_token_pair-kept :
      (h : String) (t : RefreshTokenRow) (user : UserRow) (client_ip family_id : Option String)
      (w : World R)
      → token_by_hash h w.db ≡ some t
      → token_by_hash h (issue_token_pair vault user client_ip family_id w).1.db ≡ some t
  issue_token_pair-kept h t user client_ip family_id w e =
      elim (issue_token_pair-cases vault user client_ip family_id w) [
        | inl (x, f, g) ↦ rw g e
        | inr (jti, token, f, g) ↦
            rw g (find_where-append (λ t. str_eq t.token_hash h) w.db.refresh_tokens.rows _ t e)
      ]

  revoked_kept :
      (h : String) (stored : RefreshTokenRow) (w : World R)
      → token_by_hash h w.db ≡ some stored
      → is_some stored.revoked_at ≡ false
      → token_by_hash h (rotated vault stored w).db ≡ some (revoke w.db.clock stored)
  revoked_kept h stored w e f = ground (
    arith,
    find_where-update_kept (λ t. str_eq t.token_hash h) (live_with_id stored.id) (revoke w.db.clock)
        w.db.refresh_tokens.rows stored (λ y. refl) e,
  )

  spent_refused :
      (token : String) (client_ip : Option String) (w : World R) (t : RefreshTokenRow)
      → token_by_hash (digest token) w.db ≡ some t
      → is_some t.revoked_at ≡ true
      → (refresh vault token client_ip w).0 ≡ err unauthorized
  unfolding refresh refresh_stored refuse_replay
  spent_refused token client_ip w t e f = ground arith

  rotate_spends :
      (token : String) (stored : RefreshTokenRow) (user : UserRow) (client_ip : Option String)
      (w : World R) (pair : TokenPair)
      → token_by_hash (digest token) w.db ≡ some stored
      → is_some stored.revoked_at ≡ false
      → (rotate vault stored user client_ip w).0 ≡ ok pair
      → Spent token (rotate vault stored user client_ip w).1.db
  unfolding rotate refuse_replay
  rotate_spends token stored user client_ip w pair e f g = (
    revoke w.db.clock stored,
    ground (
      arith,
      revoked_kept (digest token) stored w e f,
      issue_token_pair-kept (digest token) (revoke w.db.clock stored) user client_ip
          (some stored.family_id) (rotated vault stored w),
    ),
    refl,
  )

  -- A refresh that returns has rotated a stored token that was live.
  refresh-rotates :
      (token : String) (client_ip : Option String) (w : World R) (pair : TokenPair)
      → (refresh vault token client_ip w).0 ≡ ok pair
      → (stored : RefreshTokenRow) × (user : UserRow) × (token_by_hash (digest token) w.db
          ≡ some stored)
        × (is_some stored.revoked_at ≡ false)
        × ((rotate vault stored user client_ip (verified vault token w)).0 ≡ ok pair)
        × ((rotate vault stored user client_ip (verified vault token w)).1
            ≡ (refresh vault token client_ip w).1)
  unfolding refresh refresh_stored refuse_replay assert_may_login
  refresh-rotates token client_ip w pair e =
      elim (Option-cases (token_by_hash (digest token) w.db)) [
        | inl f ↦ absurd (ground arith)
        | inr (stored, f) ↦ elim (Option-cases (user_by_id stored.user_id w.db)) [
          | inl g ↦ absurd (ground arith)
          | inr (user, g) ↦ (stored, user, f, ground arith, ground arith, ground arith)
        ]
      ]

  refresh_spends :
      (token : String) (client_ip : Option String) (w : World R) (pair : TokenPair)
      → (refresh vault token client_ip w).0 ≡ ok pair
      → Spent token (refresh vault token client_ip w).1.db
  refresh_spends token client_ip w pair e =
      let (stored, user, f, g, h, k) = refresh-rotates token client_ip w pair e in
      subst (λ v. Spent token v.db) k
        (rotate_spends token stored user client_ip (verified vault token w) pair f g h)

  -- A refresh token is good for one refresh: where `refresh` returned a pair for a token, a second refresh with that
  -- token, from the same or another address, throws UNAUTHORIZED.
  pub refresh_once :
      (token : String) (first second : Option String) (w : World R) (pair : TokenPair)
      → (refresh vault token first w).0 ≡ ok pair
      → (refresh vault token second (refresh vault token first w).1).0 ≡ err unauthorized
  refresh_once token first second w pair e =
      let (t, f, g) = refresh_spends token first w pair e in
      spent_refused token second (refresh vault token first w).1 t f g
