-- ===== src/Accounts/ApiKeys.antt =====
-- services/apikey.service.ts, but for list.
use sandbox_platform.Prelude.{
  ℕ, String, Bool, not, ◌&&◌, Option, none, some, is_some, ◌==◌, str_eq, leb, if◌then◌else◌,
  find_where, count_where, any_where, update_where,
}
use Prim.Native.String.{◌++◌, slice}
use sandbox_platform.Action.{
  Action, ok, err, ◌>>=◌, ◌>>◌, pure, throw_if, or_throw, not_found, bad_request, failure,
}
use sandbox_platform.Db.{Db, insert_row, with_rows}
use sandbox_platform.Db.Rows.{ApiKeyRow}
use sandbox_platform.World.{World, on_host, set_db, ask}
use sandbox_platform.Accounts.Vault.{Vault}

-- A key as it is shown once.
pub record CreatedApiKey : Type 0 where
  pub row : ApiKeyRow
  pub key : String

pub record GeneratedKey : Type 0 where
  pub plaintext : String
  pub prefix : String
  pub hash : String

abbrev pub active_key_of : ℕ → ApiKeyRow → Bool
active_key_of user_id k = k.user_id == user_id && not (is_some k.revoked_at)

abbrev pub key_of : ℕ → ℕ → ApiKeyRow → Bool
key_of id user_id k = k.id == id && k.user_id == user_id

abbrev pub key_by_hash : String → Db → Option ApiKeyRow
key_by_hash h db = find_where (λ k. str_eq k.key_hash h) db.api_keys.rows

abbrev pub revoke_key : ℕ → ℕ → Db → Db
revoke_key id user_id db = record db {
  api_keys =
      with_rows (update_where (key_of id user_id) (λ k. record k { revoked_at = some db.clock }))
        db.api_keys;
}

abbrev pub touch_key : ℕ → Db → Db
touch_key id db = record db {
  api_keys =
      with_rows (update_where (λ k. k.id == id) (λ k. record k { last_used_at = some db.clock }))
        db.api_keys;
}

abbrev pub new_key : ℕ → String → GeneratedKey → ℕ → ApiKeyRow
new_key user_id name key id = record {
  id = id;
  user_id = user_id;
  name = name;
  key_prefix = key.prefix;
  key_hash = key.hash;
  last_used_at = none;
  revoked_at = none;
}

abbrev pub max_active_keys : ℕ
max_active_keys = 50

module _ {R : Type 0} where
  unfoldable pub get_by_id : ℕ → ℕ → Action (World R) (Option ApiKeyRow)
  get_by_id id user_id = ask (λ db. find_where (key_of id user_id) db.api_keys.rows)

  unfoldable pub revoke : ℕ → ℕ → Action (World R) (Unit {0})
  unfolding get_by_id
  revoke id user_id = do or_throw (← get_by_id id user_id) not_found; set_db (revoke_key id user_id)

module _ {R : Type 0} (vault : Vault R) where
  abbrev pub key_with : String → GeneratedKey
  key_with secret =
      let plaintext = "sk_" ++ secret in
      record {
        plaintext = plaintext;
        prefix = "sk_" ++ slice secret 0 8;
        hash = vault.digest plaintext;
      }

  unfoldable pub generate_key : Action (World R) GeneratedKey
  generate_key = do pure (key_with (← on_host vault.random_secret))

  -- INSERT INTO api_keys, under UNIQUE (key_hash)
  unfoldable pub insert_key : ℕ → String → GeneratedKey → Action (World R) ℕ
  insert_key user_id name key w =
      if any_where (λ k. str_eq k.key_hash key.hash) w.db.api_keys.rows
      then (err (failure vault.unique_violation), w)
      else (
        ok w.db.api_keys.next_id,
        record w {
          db = record w.db { api_keys = insert_row (new_key user_id name key) w.db.api_keys };
        },
      )

  -- The row is there, since it was inserted before.
  unfoldable pub create : ℕ → String → Action (World R) CreatedApiKey
  unfolding generate_key insert_key get_by_id
  create user_id name = do
    active ← ask (λ db. count_where (active_key_of user_id) db.api_keys.rows)
    throw_if (leb max_active_keys active) bad_request
    key ← generate_key
    id ← insert_key user_id name key
    row ← or_throw (← get_by_id id user_id) (failure "The row is null")
    pure (record { row = row; key = key.plaintext })

  unfoldable pub authenticate_row : Option ApiKeyRow → Action (World R) (Option ℕ)
  authenticate_row none = pure none
  authenticate_row (some row) =
      if is_some row.revoked_at
      then pure none
      else (do set_db (touch_key row.id); pure (some row.user_id))

  unfoldable pub authenticate : String → Action (World R) (Option ℕ)
  unfolding authenticate_row
  authenticate plaintext = do authenticate_row (← ask (key_by_hash (vault.digest plaintext)))
