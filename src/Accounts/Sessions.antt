-- ===== src/Accounts/Sessions.antt =====
-- Refresh tokens: a family is the chain of tokens that one login starts.
pub mod Families
pub mod Rotation
use sandbox_platform.Prelude.{
  eq_iff, subst, ℕ, ◌≡◌, ◌≢◌, ◌≤◌, ◌<◌, ◌+◌, refl, sym, ap, ◌∙◌, ◌⊎◌, inl, inr, Bool, true, false,
  String, Option, none, some, or_else, arith, is_some, List, [], ◌∷◌, ◌++◌, str_eq, ◌==◌,
  find_where, count_where, update_where, count_where-append, count_where-update_le,
  count_where-update_none, count_where-update_lt, find_where-update_kept, find_where-append,
  Option-cases, Bool-cases,
}
use sandbox_platform.Action.{AppError, Outcome, ok, err, Outcome-cases, unauthorized}
use sandbox_platform.Db.{Db}
use sandbox_platform.Db.Rows.{UserRow, RefreshTokenRow}
use sandbox_platform.World.{World}
use sandbox_platform.Accounts.Vault.{Vault, Claims, decode_expiry}
use sandbox_platform.Accounts.Auth.{
  TokenPair, is_live, is_refresh, revoke, revoke_where, live_in_family, live_with_id, insert_token,
  token_by_hash, refuse_replay, issue_token_pair, rotate, refresh_stored, refresh, login, logout,
  change_password, assert_may_login,
}

-- A family has at most one token that is not revoked.
pub record OneLive (d : Db) : Type 0 where
  pub at : (family : String) → count_where (live_in_family family) d.refresh_tokens.rows ≤ 1

pub revoked_dead :
    (family : String) (now : ℕ) (t : RefreshTokenRow) → live_in_family family (revoke now t) ≡ false
revoked_dead family now t = ground arith

pub revoke_where-OneLive :
    (p : RefreshTokenRow → Bool) (d : Db) → OneLive d → OneLive (revoke_where p d)
revoke_where-OneLive p d h = record {
  at = λ family. ground (
    arith,
    h.at family,
    count_where-update_le p (live_in_family family) (revoke d.clock) d.refresh_tokens.rows
        (λ t i j. ground (arith, revoked_dead family d.clock t)),
  );
}

-- A token of a family without a live one.
pub insert_token-OneLive :
    (user : UserRow) (token_hash : String) (expires_at : ℕ) (client_ip : Option String)
    (family : String) (d : Db)
    → OneLive d
    → count_where (live_in_family family) d.refresh_tokens.rows ≡ 0
    → OneLive (insert_token user token_hash expires_at client_ip family d)
insert_token-OneLive user token_hash expires_at client_ip family d h z = record {
  at = λ g.
      rw (count_where-append (live_in_family g) d.refresh_tokens.rows (_ ∷ []))
        (elim (Bool-cases (str_eq family g)) [
          | inl e ↦ ground (
            arith,
            subst (λ f. count_where (live_in_family f) d.refresh_tokens.rows ≡ 0)
                ((eq_iff family g).0 e) z,
          )
          | inr e ↦ ground (arith, h.at g)
        ]);
}

module _ {R : Type 0} (vault : Vault R) where
  open vault use {random_uuid, sign_refresh, digest}

  pub issue_token_pair-cases :
      (user : UserRow) (client_ip family_id : Option String) (w : World R)
      → let (r, v) = issue_token_pair vault user client_ip family_id w in
        ((x : AppError) × (r ≡ err x) × (v.db ≡ w.db))
        ⊎ ((jti token : String) × ((random_uuid w.runtime).0 ≡ ok jti)
            × (v.db
                ≡ insert_token user
                    (digest token)
                    (decode_expiry vault w.db.clock token)
                    client_ip
                    (or_else family_id jti)
                    w.db))
  unfolding issue_token_pair
  issue_token_pair-cases user client_ip family_id w =
      elim (Outcome-cases (random_uuid w.runtime).0) [
        | inr (x, e) ↦ inl (x, ground arith, ground arith)
        | inl (jti, e) ↦
            elim (Outcome-cases (sign_refresh user.id jti (random_uuid w.runtime).1).0) [
              | inr (x, f) ↦ inl (x, ground arith, ground arith)
              | inl (token, f) ↦ inr (jti, token, e, ground arith)
            ]
      ]

  pub issue_token_pair-OneLive :
      (user : UserRow) (client_ip family_id : Option String) (w : World R)
      → OneLive w.db
      → ((jti : String)
          → (random_uuid w.runtime).0 ≡ ok jti
          → count_where (live_in_family (or_else family_id jti)) w.db.refresh_tokens.rows ≡ 0)
      → OneLive (issue_token_pair vault user client_ip family_id w).1.db
  issue_token_pair-OneLive user client_ip family_id w h z =
      elim (issue_token_pair-cases user client_ip family_id w) [
        | inl (x, e, f) ↦ rw f h
        | inr (jti, token, e, f) ↦ rw f (insert_token-OneLive user _ _ client_ip _ w.db h (z jti e))
      ]

  -- The world once the stored token is revoked.
  abbrev pub rotated : RefreshTokenRow → World R → World R
  rotated stored w = record w { db = revoke_where (live_with_id stored.id) w.db }

  pub emptied :
      (h : String) (stored : RefreshTokenRow) (w : World R)
      → OneLive w.db
      → token_by_hash h w.db ≡ some stored
      → is_some stored.revoked_at ≡ false
      → count_where (live_in_family stored.family_id) (rotated stored w).db.refresh_tokens.rows ≡ 0
  emptied h stored w one e f = ground (
    arith,
    one.at stored.family_id,
    count_where-update_lt (λ t. str_eq t.token_hash h) (live_with_id stored.id)
        (live_in_family stored.family_id) (revoke w.db.clock) w.db.refresh_tokens.rows stored e
        (ground arith) (rw ((eq_iff stored.family_id stored.family_id).1 refl) (ground arith))
        (revoked_dead stored.family_id w.db.clock),
  )

  pub rotate-cases :
      (stored : RefreshTokenRow) (user : UserRow) (client_ip : Option String) (w : World R)
      → ((rotate vault stored user client_ip w).1.db
          ≡ revoke_where (live_in_family stored.family_id) (rotated stored w).db)
        ⊎ ((rotate vault stored user client_ip w).1
            ≡ (issue_token_pair vault user client_ip (some stored.family_id) (rotated stored w)).1)
  unfolding rotate refuse_replay
  rotate-cases stored user client_ip w =
      elim (Bool-cases (count_where (live_with_id stored.id) w.db.refresh_tokens.rows == 1)) [
        | inl e ↦ inr (ground arith)
        | inr e ↦ inl (ground arith)
      ]

  pub rotate-OneLive :
      (h : String) (stored : RefreshTokenRow) (user : UserRow) (client_ip : Option String)
      (w : World R)
      → OneLive w.db
      → token_by_hash h w.db ≡ some stored
      → is_some stored.revoked_at ≡ false
      → OneLive (rotate vault stored user client_ip w).1.db
  rotate-OneLive h stored user client_ip w one e f =
      let one' = revoke_where-OneLive (live_with_id stored.id) w.db one in
      elim (rotate-cases stored user client_ip w) [
        | inl g ↦ rw g (revoke_where-OneLive (live_in_family stored.family_id) _ one')
        | inr g ↦ rw g (
            issue_token_pair-OneLive user client_ip (some stored.family_id) (rotated stored w) one'
              (λ jti k. emptied h stored w one e f))
      ]
