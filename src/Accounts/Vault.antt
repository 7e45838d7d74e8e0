-- ===== src/Accounts/Vault.antt =====
-- What the account services call: bcrypt, SHA-256, the JWT library, node's random source, and the
-- configuration. `R` is the state of the world outside the database.
use sandbox_platform.Prelude.{ℕ, ◌+◌, ◌*◌, String, Bool, not, ◌&&◌, ◌||◌, Option, none, some, ltb}
use sandbox_platform.Action.{Action}
use sandbox_platform.Db.Rows.{Role}

pub data TokenType : Type 0 where
  access refresh other : TokenType

-- The payload of a token, as far as the services read it; `jti` is written only.
pub record Claims : Type 0 where
  pub sub : ℕ
  pub username : String
  pub role : Role
  pub kind : TokenType
  pub pwd_change_required : Bool
  pub tv : Option ℕ

-- `sign_access` and `sign_refresh` sign a payload with the secret, the present time and the
-- lifetimes of the configuration; `verify` is `jwtVerify` and throws on a bad token; `decode_exp` is
-- the `exp` of `decodeJwt` in seconds, `none` where there is none or it throws. `compare` is
-- `bcrypt.compare`, and `hash` is `bcrypt.hash`, which salts. The three character tests are the
-- policy's regular expressions, `is_password_change_path` is PASSWORD_CHANGE_ALLOWED_PATHS, `code_units` is a
-- string's length, `random_secret` is 16 random bytes in hexadecimal, and `unique_violation` is the
-- database's message when a UNIQUE constraint fails.
pub record Vault (R : Type 0) : Type 0 where
  pub hash : String → Action R String
  pub compare : String → String → Bool
  pub digest : String → String
  pub sign_access : Claims → Action R String
  pub sign_refresh : ℕ → String → Action R String
  pub verify : String → Action R Claims
  pub decode_exp : String → Option ℕ
  pub random_uuid : Action R String
  pub random_secret : Action R String
  pub access_seconds : ℕ
  pub min_length : ℕ
  pub require_complexity : Bool
  pub code_units : String → ℕ
  pub has_lower : String → Bool
  pub has_upper : String → Bool
  pub has_digit : String → Bool
  pub is_password_change_path : String → Bool
  pub unique_violation : String

module _ {R : Type 0} (vault : Vault R) where
  -- jwt.ts decodeExpiry, in milliseconds: seven days from now where the token does not say.
  unfoldable pub decode_expiry : ℕ → String → ℕ
  decode_expiry now token = elim (vault.decode_exp token) [
    | none ↦ now + 7 * 24 * 60 * 60 * 1000
    | some seconds ↦ seconds * 1000
  ]

  -- password.ts validatePasswordPolicy: whether there is a violation.
  unfoldable pub violates_policy : String → Bool
  violates_policy password =
      ltb (vault.code_units password) vault.min_length
      || (vault.require_complexity
          && (not (vault.has_lower password)
              || (not (vault.has_upper password) || not (vault.has_digit password))))
