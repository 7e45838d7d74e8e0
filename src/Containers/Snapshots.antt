-- ===== src/Containers/Snapshots.antt =====
-- container.service.ts snapshot, deleteSnapshot, restoreSnapshotToNewContainer, deleteMySnapshot and
-- requireOwnedSnapshot.
use sandbox_platform.Prelude.{
  ℕ, String, Bool, not, ◌&&◌, Option, none, some, ◌==◌, leb, str_eq, if◌then◌else◌, is_some,
  find_where, find_last_where, count_where, update_where, delete_where, any_where,
}
use sandbox_platform.Action.{
  Action, ok, err, ◌>>=◌, ◌>>◌, pure, throw, throw_if, or_throw, catch, when, not_found,
  invalid_state, bad_request, failure,
}
use sandbox_platform.Db.{Db, insert_row, with_rows}
use sandbox_platform.Db.Rows.{ContainerRow, SnapshotRow, OverlayRow}
use sandbox_platform.Db.Queries.{container_by_id, is_running, is_destroyed}
use sandbox_platform.Quota.{for_user, assert_aggregate_disk}
use sandbox_platform.Containers.Host.{
  Host, World, ContainerHandle, SnapshotHandle, on_db, on_host, set_db, ask, best_effort,
  resolve_image_path, handle_from_row,
}
use sandbox_platform.Containers.Mounts.{require_owned, require_container, require_image, is_foreign}
use sandbox_platform.Containers.Create.{CreateInput, create, update_container, lift_outcome}
use sandbox_platform.Containers.Lifecycle.{
  request_for, mark_stopped, overlay_of, snapshot_of, restore_from_snapshot, destroy,
}

-- What `snapshot` returns.
pub record SnapshotInfo : Type 0 where
  pub id : ℕ
  pub name : String
  pub size_bytes : ℕ

abbrev pub named : ℕ → String → SnapshotRow → Bool
named id name s = snapshot_of id s && str_eq s.name name

abbrev pub same_key : ℕ → String → SnapshotRow → Bool
same_key user_id name s = s.user_id == user_id && str_eq s.name name

abbrev pub new_snapshot : ContainerRow → String → Option String → SnapshotHandle → ℕ → SnapshotRow
new_snapshot row name description snap id = record {
  id = id;
  container_id = some row.id;
  overlay_id = none;
  user_id = row.user_id;
  image_id = some row.image_id;
  name = name;
  description = description;
  overlay_path = snap.overlay_path;
  size_bytes = snap.size_bytes;
}

-- The current overlay row of the container, which the new snapshot is linked to.
abbrev pub current_overlay : ℕ → Db → Option OverlayRow
current_overlay id db = find_last_where (λ o. overlay_of id o && o.is_current) db.overlays.rows

unfoldable pub link_overlay : ℕ → ℕ → Option OverlayRow → Db → Db
link_overlay snapshot_id size none db = db
link_overlay snapshot_id size (some o) db = record db {
  snapshots =
      with_rows (update_where (λ s. s.id == snapshot_id) (λ s. record s { overlay_id = some o.id }))
        db.snapshots;
  overlays =
      with_rows (update_where (λ p. p.id == o.id) (λ p. record p { size_bytes = size }))
        db.overlays;
}

-- LEFT JOIN containers c ON c.id = s.container_id
abbrev pub joined_node : SnapshotRow → Db → Option String
joined_node s db = elim s.container_id [
  | none ↦ none
  | some id ↦ elim (container_by_id id db) [ none ↦ none | some c ↦ c.node ]
]

abbrev pub plain_input : ℕ → String → CreateInput
plain_input image_id name = record {
  image_id = image_id;
  name = name;
  cpu = none;
  memory_mb = none;
  disk_gb = none;
  env = none;
  workspace_id = none;
  mounts = none;
}

-- `if (!snap.image_id)`: 0 is no image
abbrev pub recorded_image : Option ℕ → Option ℕ
recorded_image none = none
recorded_image (some i) = if i == 0 then none else some i

-- `try { m } finally { f }`, where `f` throws nothing.
abbrev pub finally : {S A : Type 0} → Action S A → Action S (Unit {0}) → Action S A
finally m f s = let (r, t) = m s in (r, (f t).1)

module _ {R : Type 0} (host : Host R) where
  open host.executor use {create as executor_create, remove_path}

  -- INSERT INTO snapshots, under UNIQUE (user_id, name)
  unfoldable pub insert_snapshot :
      ContainerRow → String → Option String → SnapshotHandle → Action (World R) ℕ
  insert_snapshot row name description snap w =
      if any_where (same_key row.user_id name) w.db.snapshots.rows
      then (err (failure host.unique_violation), w)
      else (
        ok w.db.snapshots.next_id,
        record w {
          db = record w.db {
            snapshots = insert_row (new_snapshot row name description snap) w.db.snapshots;
          };
        },
      )

  -- A copy that is not recorded is removed.
  unfoldable pub record_copy :
      ContainerRow → String → Option String → SnapshotHandle → Action (World R) ℕ
  unfolding insert_snapshot
  record_copy row name description snap =
      catch
        (do
          on_db (assert_aggregate_disk row.user_id snap.size_bytes)
          insert_snapshot row name description snap)
        (λ e. do best_effort (on_host (remove_path snap.overlay_path row.node)); throw e)

  unfoldable pub copy_overlay :
      ContainerRow → ContainerHandle → String → Option String → Action (World R) SnapshotInfo
  unfolding record_copy link_overlay
  copy_overlay row handle name description = do
    snap ← on_host (host.executor.snapshot handle name)
    id ← record_copy row name description snap
    set_db (λ db. link_overlay id snap.size_bytes (current_overlay row.id db) db)
    pure (record { id = id; name = name; size_bytes = snap.size_bytes })

  -- The request carries the container's overlay, and no mounts.
  unfoldable pub recreate_instance : ContainerRow → ContainerHandle → Action (World R) (Unit {0})
  unfolding require_image
  recreate_instance row handle = do
    image ← require_image row.image_id
    path ← lift_outcome host (resolve_image_path host image.sif_path)
    on_host (
        executor_create
          (record (request_for row handle.id path) { overlay_path = some handle.overlay_path }))
    pure tt

  unfoldable pub restart_current :
      ContainerRow → ContainerHandle → Option ContainerRow → Action (World R) (Unit {0})
  unfolding recreate_instance
  restart_current row handle none = pure tt
  restart_current row handle (some current) =
      when (not (is_destroyed current.status)) (recreate_instance row handle)

  -- Where the restart fails the row is marked stopped.
  unfoldable pub restart_after : ContainerRow → ContainerHandle → Action (World R) (Unit {0})
  unfolding restart_current
  restart_after row handle =
      catch (do restart_current row handle (← ask (container_by_id row.id)))
        (λ e. set_db (λ db. update_container row.id (mark_stopped db.clock) db))

  -- The checks before anything is stopped or copied.
  unfoldable pub admit_snapshot : ℕ → ℕ → String → Bool → Action (World R) ContainerRow
  unfolding require_owned
  admit_snapshot id user_id name is_admin = do
    row ← require_owned id user_id is_admin
    throw_if (is_destroyed row.status) invalid_state
    quota ← on_db (for_user row.user_id)
    count ← ask (λ db. count_where (snapshot_of id) db.snapshots.rows)
    throw_if (leb quota.max_snapshots_per_container count) invalid_state
    dup ← ask (λ db. find_where (named id name) db.snapshots.rows)
    throw_if (is_some dup) bad_request
    pure row

  unfoldable pub snapshot :
      ℕ → ℕ → String → Option String → Bool → Bool → Action (World R) SnapshotInfo
  unfolding admit_snapshot
  snapshot id user_id name description is_admin restart = do
    row ← admit_snapshot id user_id name is_admin
    handle ← lift_outcome host (handle_from_row row)
    when (is_running row.status) (best_effort (on_host (host.executor.stop handle)))
    finally (copy_overlay row handle name description)
        (when (is_running row.status && restart) (restart_after row handle))

  -- The file goes first, on the container's node; the row is deleted whatever comes of that.
  unfoldable pub remove_copy : Option SnapshotRow → Option String → Action (World R) (Unit {0})
  remove_copy none on_node = pure tt
  remove_copy (some s) on_node = best_effort (on_host (remove_path s.overlay_path on_node))

  unfoldable pub delete_snapshot : ℕ → ℕ → ℕ → Bool → Action (World R) (Unit {0})
  unfolding require_owned remove_copy
  delete_snapshot id snapshot_id user_id is_admin = do
    row ← require_owned id user_id is_admin
    snap ← ask (λ db. find_where (λ s. s.id == snapshot_id && snapshot_of id s) db.snapshots.rows)
    remove_copy snap row.node
    set_db λ db. record db {
      snapshots =
          with_rows (delete_where (λ s. s.id == snapshot_id && snapshot_of id s)) db.snapshots;
    }

  unfoldable pub require_owned_snapshot : ℕ → ℕ → Bool → Action (World R) SnapshotRow
  require_owned_snapshot snapshot_id user_id is_admin = do
    snap ←
        or_throw (← ask (λ db. find_where (λ s. s.id == snapshot_id) db.snapshots.rows)) not_found
    throw_if (is_foreign snap.user_id is_admin user_id) not_found
    pure snap

  unfoldable pub delete_my_snapshot : ℕ → ℕ → Bool → Action (World R) (Unit {0})
  unfolding require_owned_snapshot remove_copy
  delete_my_snapshot snapshot_id user_id is_admin = do
    snap ← require_owned_snapshot snapshot_id user_id is_admin
    node ← ask (joined_node snap)
    remove_copy (some snap) node
    set_db λ db. record db {
      snapshots = with_rows (delete_where (λ s. s.id == snapshot_id)) db.snapshots;
    }

  unfoldable pub restore_snapshot_to_new_container :
      ℕ → ℕ → String → Bool → Action (World R) ContainerRow
  unfolding require_owned_snapshot require_container
  restore_snapshot_to_new_container snapshot_id user_id name is_admin = do
    snap ← require_owned_snapshot snapshot_id user_id is_admin
    image_id ← or_throw (recorded_image snap.image_id) bad_request
    row ← create host user_id (plain_input image_id name) is_admin
    catch (restore_from_snapshot host row snap)
        (λ e. do best_effort (destroy host row.id user_id is_admin); throw e)
    require_container row.id
