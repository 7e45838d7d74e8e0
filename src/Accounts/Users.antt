-- ===== src/Accounts/Users.antt =====
-- services/user.service.ts, but for list, count and delete.
use sandbox_platform.Prelude.{
  ℕ, ◌+◌, String, Bool, true, false, not, Option, none, some, or_else, is_some, ◌==◌, if◌then◌else◌,
  update_where,
}
use sandbox_platform.Action.{
  Action, ◌>>=◌, ◌>>◌, throw_if, or_throw, not_found, conflict, invalid_state, failure,
}
use sandbox_platform.Db.{Db, insert_row, with_rows}
use sandbox_platform.Db.Rows.{UserRow, Role, UserStatus}
use sandbox_platform.Db.Queries.{user_by_id, user_by_username}
use sandbox_platform.World.{World, on_host, set_db, ask}
use sandbox_platform.Accounts.Vault.{Vault}

pub record NewUser : Type 0 where
  pub username : String
  pub password : String
  pub email : Option String
  pub role : Option Role
  pub quota_id : Option ℕ
  pub status : Option UserStatus
  pub must_change_password : Bool

-- `Partial<…>`: a field that is `none` is left as it is; `some none` sets null.
pub record UserPatch : Type 0 where
  pub email : Option (Option String)
  pub role : Option Role
  pub quota_id : Option (Option ℕ)
  pub status : Option UserStatus

abbrev pub is_pending : UserStatus → Bool
is_pending UserStatus.pending = true
is_pending _ = false

abbrev pub is_active : UserStatus → Bool
is_active UserStatus.active = true
is_active _ = false

abbrev pub has_user_id : ℕ → UserRow → Bool
has_user_id id u = u.id == id

abbrev pub update_user : ℕ → (UserRow → UserRow) → Db → Db
update_user id f db = record db { users = with_rows (update_where (has_user_id id) f) db.users }

abbrev pub new_user : NewUser → String → ℕ → UserRow
new_user input password_hash id = record {
  id = id;
  username = input.username;
  password_hash = password_hash;
  email = input.email;
  role = or_else input.role Role.user;
  quota_id = input.quota_id;
  status = or_else input.status UserStatus.active;
  must_change_password = input.must_change_password;
  token_version = 0;
  last_login_at = none;
}

abbrev pub set_hash : String → Bool → UserRow → UserRow
set_hash password_hash clear u = record u {
  password_hash = password_hash;
  must_change_password = if clear then false else u.must_change_password;
  token_version = u.token_version + 1;
}

abbrev pub patch_user : UserPatch → UserRow → UserRow
patch_user patch u = record u {
  email = or_else patch.email u.email;
  role = or_else patch.role u.role;
  quota_id = or_else patch.quota_id u.quota_id;
  status = or_else patch.status u.status;
}

module _ {R : Type 0} where
  unfoldable pub require_user : ℕ → Action (World R) UserRow
  require_user id = do or_throw (← ask (user_by_id id)) not_found

  unfoldable pub approve : ℕ → Action (World R) UserRow
  unfolding require_user
  approve id = do
    row ← require_user id
    throw_if (not (is_pending row.status)) invalid_state
    set_db (update_user id (λ u. record u { status = UserStatus.active }))
    require_user id

  -- Where no column is set the row is left as it is, as it is by the update of none.
  unfoldable pub update : ℕ → UserPatch → Action (World R) UserRow
  unfolding require_user
  update id patch = do require_user id; set_db (update_user id (patch_user patch)); require_user id

  unfoldable pub touch_login : ℕ → Action (World R) (Unit {0})
  touch_login id =
      set_db (λ db. update_user id (λ u. record u { last_login_at = some db.clock }) db)

module _ {R : Type 0} (vault : Vault R) where
  unfoldable pub create : NewUser → Action (World R) UserRow
  unfolding require_user
  create input = do
    existing ← ask (user_by_username input.username)
    throw_if (is_some existing) conflict
    password_hash ← on_host (vault.hash input.password)
    id ← ask (λ db. db.users.next_id)
    set_db (λ db. record db { users = insert_row (new_user input password_hash) db.users })
    or_throw (← ask (user_by_id id)) (failure "User insert returned no row")

  unfoldable pub set_password : ℕ → String → Bool → Action (World R) (Unit {0})
  unfolding require_user
  set_password id password clear_must_change = do
    require_user id
    password_hash ← on_host (vault.hash password)
    set_db (update_user id (set_hash password_hash clear_must_change))
