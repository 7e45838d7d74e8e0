-- ===== src/Containers/States.antt =====
-- The state machine of a container: which of its states each method refuses, and the state in which
-- it leaves the row.
pub mod Starting
use sandbox_platform.Prelude.{
  ℕ, ◌≡◌, ◌⊎◌, inl, inr, Bool, true, false, ◌&&◌, Option, none, some, String, arith, find_where,
  ◌==◌, update_where, find_where-update_self, find_where-holds, Option-cases,
}
use sandbox_platform.Action.{
  Outcome, ok, err, AppError, invalid_state, container_not_running, Outcome-cases,
}
use sandbox_platform.Db.{Db}
use sandbox_platform.Db.Rows.{ContainerRow, SnapshotRow, Status}
use sandbox_platform.Db.Queries.{container_by_id, is_running, is_destroyed}
use sandbox_platform.Containers.Host.{Host, World, ContainerHandle}
use sandbox_platform.Containers.Mounts.{InputItem, add_input, is_foreign}
use sandbox_platform.Containers.Create.{has_id, mark_running}
use sandbox_platform.Containers.Lifecycle.{
  start, stop, destroy, restore_snapshot, resolve_running_handle, start_row, record_restored,
  restore_from_snapshot, snapshot_of, clear_error,
}
use sandbox_platform.Containers.Snapshots.{snapshot}
use sandbox_platform.Containers.Restoring.{restore_from_snapshot-Restored}

-- The container is in the database, and the caller may act on it.
pub record Allowed {R : Type 0} (w : World R) (id user_id : ℕ) (is_admin : Bool)
    (row : ContainerRow) : Type 0 where
  pub found : container_by_id id w.db ≡ some row
  pub owned : is_foreign row.user_id is_admin user_id ≡ false

module _ {R : Type 0} (host : Host R) (w : World R) (id user_id : ℕ) (is_admin : Bool)
    (row : ContainerRow) (allowed : Allowed w id user_id is_admin row) where
  -- Called by the owner or an admin on a destroyed container, start, stop and snapshot throw
  -- INVALID_STATE, resolveRunningHandle throws CONTAINER_NOT_RUNNING, and destroy returns; none of
  -- them changes the database or the outside world.
  pub destroyed_refused :
      (name : String) (description : Option String) (restart : Bool)
      → row.status ≡ Status.destroyed
      → (start host id user_id is_admin w ≡ (err invalid_state, w))
        × (stop host id user_id is_admin w ≡ (err invalid_state, w))
        × (snapshot host id user_id name description is_admin restart w ≡ (err invalid_state, w))
        × (resolve_running_handle host id user_id is_admin w ≡ (err container_not_running, w))
        × (destroy host id user_id is_admin w ≡ (ok tt, w))
  destroyed_refused name description restart e =
      let f = allowed.found in
      let g = allowed.owned in
      (
        unfold start in unfold start_row in ground arith,
        unfold stop in ground arith,
        unfold snapshot in ground arith,
        unfold resolve_running_handle in ground arith,
        unfold destroy in ground arith,
      )

  -- When restoreSnapshot, called by the owner or an admin, returns, the row runs without an error,
  -- whatever it was before (destroyed included), and carries the auto-stop marker that it had.
  pub restore_snapshot_runs :
      (snapshot_id : ℕ) (r : ContainerRow)
      → (restore_snapshot host id snapshot_id user_id is_admin w).0 ≡ ok r
      → (r.status ≡ Status.running) × (r.auto_stopped ≡ row.auto_stopped) × (r.error_message ≡ none)
  unfolding restore_snapshot record_restored
  restore_snapshot_runs snapshot_id r e =
      elim (Option-cases
        (find_where (λ s. s.id == snapshot_id && snapshot_of id s) w.db.snapshots.rows)) [
          | inl g ↦ ground (arith, allowed.found, allowed.owned)
          | inr (snap, g) ↦ elim (restore_from_snapshot-Restored host row snap w) [
            | inr (x, f, k) ↦ ground (arith, allowed.found, allowed.owned)
            | inl (f, (handle, answer, k)) ↦
                ground (arith, allowed.found, allowed.owned, same_id, again handle)
          ]
        ]
    where
      same_id : row.id ≡ id
      same_id = ground (arith, find_where-holds (has_id id) w.db.containers.rows row allowed.found)

      again :
          (handle : ContainerHandle)
          → find_where (has_id id) (
              update_where
                (has_id id)
                (λ c. clear_error (mark_running handle w.db.clock c))
                w.db.containers.rows)
            ≡ some (clear_error (mark_running handle w.db.clock row))
      again handle =
          find_where-update_self (has_id id) (λ c. clear_error (mark_running handle w.db.clock c))
            w.db.containers.rows row (λ y k. k) allowed.found
