-- ===== src/Containers/Ownership.antt =====
-- Who may touch a container: to a user who is neither its owner nor an admin it does not exist.
use sandbox_platform.Prelude.{ℕ, String, ◌≡◌, ◌≢◌, ◌⊎◌, false, Bool, Option, none, some, arith}
use sandbox_platform.Action.{Outcome, err, not_found}
use sandbox_platform.Db.Rows.{ContainerRow}
use sandbox_platform.Db.Queries.{container_by_id}
use sandbox_platform.Containers.Host.{Host, World}
use sandbox_platform.Containers.Mounts.{InputItem, require_owned, add_input, remove_input}
use sandbox_platform.Containers.Lifecycle.{
  start, stop, destroy, restore_snapshot, resolve_running_handle,
}
use sandbox_platform.Containers.Snapshots.{snapshot, delete_snapshot}

-- There is no such container, or it is another user's.
abbrev pub Hidden : {R : Type 0} → World R → ℕ → ℕ → Type 0
Hidden w id user_id =
    (container_by_id id w.db ≡ none)
    ⊎ ((row : ContainerRow) × (container_by_id id w.db ≡ some row) × (row.user_id ≢ user_id))

module _ {R : Type 0} (host : Host R) (w : World R) (id user_id : ℕ)
    (hidden : Hidden w id user_id) where
  require_owned_hidden : require_owned id user_id false w ≡ (err not_found, w)
  unfolding require_owned
  require_owned_hidden = ground arith

  abbrev Refuses : {A : Type 0} → (World R → Outcome A × World R) → Type 0
  Refuses m = m w ≡ (err not_found, w)

  -- On a container that is missing or another user's, each of these methods throws NOT_FOUND to a
  -- user who is no admin, whatever the other arguments are, and changes neither the database nor
  -- the outside world: start, stop, destroy, snapshot, restoreSnapshot, deleteSnapshot,
  -- resolveRunningHandle, addInput, removeInput.
  pub hidden_refused :
      (other : ℕ) (name : String) (description : Option String) (restart : Bool) (item : InputItem)
      → Refuses (start host id user_id false)
        × Refuses (stop host id user_id false)
        × Refuses (destroy host id user_id false)
        × Refuses (snapshot host id user_id name description false restart)
        × Refuses (restore_snapshot host id other user_id false)
        × Refuses (delete_snapshot host id other user_id false)
        × Refuses (resolve_running_handle host id user_id false)
        × Refuses (add_input host id user_id item false)
        × Refuses (remove_input host id user_id other false)
  hidden_refused other name description restart item = (
    unfold start in ground arith,
    unfold stop in ground arith,
    unfold destroy in ground arith,
    unfold snapshot in ground arith,
    unfold restore_snapshot in ground arith,
    unfold delete_snapshot in ground arith,
    unfold resolve_running_handle in ground arith,
    unfold add_input in ground arith,
    unfold remove_input in ground arith,
  )
