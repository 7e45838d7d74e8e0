-- ===== src/Containers/Lifecycle.antt =====
-- container.service.ts start, stop, destroy, restoreSnapshot and resolveRunningHandle, with the
-- restore path that they share.
use sandbox_platform.Prelude.{
  ℕ, List, any_where, String, Bool, false, not, ◌&&◌, Option, none, some, ◌==◌, if◌then◌else◌,
  find_where, find_last_where, update_where, delete_where,
}
use sandbox_platform.Action.{
  AppError, Action, ◌>>=◌, ◌>>◌, pure, throw, throw_if, or_throw, catch, when, not_found,
  invalid_state, container_not_running, failure,
}
use sandbox_platform.Db.{Db, with_rows}
use sandbox_platform.Db.Rows.{ContainerRow, OverlayRow, SnapshotRow, Status}
use sandbox_platform.Db.Queries.{is_running, is_destroyed, is_stopped}
use sandbox_platform.Containers.Host.{
  Host, World, CreateRequest, ContainerHandle, on_host, set_db, ask, best_effort,
  resolve_image_path, handle_from_row,
}
use sandbox_platform.Containers.Mounts.{
  require_owned, require_container, require_image, instance_of, replay_mounts,
}
use sandbox_platform.Containers.Create.{
  update_container, insert_overlay, mark_running, lift_outcome,
}

-- The request that every re-creation of a container's instance makes.
abbrev pub request_for : ContainerRow → String → String → CreateRequest
request_for row name image_path = record {
  id = name;
  image_path = image_path;
  cpu = row.cpu;
  memory_mb = row.memory_mb;
  disk_gb = row.disk_gb;
  env = row.env;
  overlay_path = none;
  seed_from_path = none;
  overlay_kind = none;
  mount_dirs = none;
}

-- `row.instance_name!`: every row that `create` makes has a name. What an executor makes of null is
-- not modelled, and counts as a failure.
abbrev pub null_name : AppError
null_name = failure "The instance name is null"

-- persistRunningState(db, id, false)
abbrev pub mark_stopped : ℕ → ContainerRow → ContainerRow
mark_stopped now c = record c { status = Status.stopped; last_stopped_at = some now }

-- status = 'stopped', error_message = ?
abbrev pub mark_restore_failed : AppError → ContainerRow → ContainerRow
mark_restore_failed e c = record c { status = Status.stopped; error_message = some e }

abbrev pub clear_error : ContainerRow → ContainerRow
clear_error c = record c { error_message = none }

abbrev pub clear_auto_stopped : ContainerRow → ContainerRow
clear_auto_stopped c = record c { auto_stopped = false; auto_stopped_at = none }

abbrev pub mark_destroyed : ContainerRow → ContainerRow
mark_destroyed c = record c { status = Status.destroyed }

abbrev pub overlay_of : ℕ → OverlayRow → Bool
overlay_of id o = o.container_id == id

-- UPDATE overlays SET is_current = 0 WHERE container_id = ?
abbrev pub demote_overlays : ℕ → Db → Db
demote_overlays id db = record db {
  overlays =
      with_rows (update_where (overlay_of id) (λ o. record o { is_current = false })) db.overlays;
}

-- The overlay that the snapshot is linked to is one of the container's.
abbrev pub is_linked_to : ℕ → List OverlayRow → SnapshotRow → Bool
is_linked_to id overlays s = elim s.overlay_id [
  | none ↦ false
  | some k ↦ any_where (λ o. overlay_of id o && o.id == k) overlays
]

abbrev pub unlink : SnapshotRow → SnapshotRow
unlink s = record s { overlay_id = none }

-- DELETE FROM overlays WHERE container_id = ?, where snapshots.overlay_id is ON DELETE SET NULL
abbrev pub delete_overlays : ℕ → Db → Db
delete_overlays id db = record db {
  overlays = with_rows (delete_where (overlay_of id)) db.overlays;
  snapshots = with_rows (update_where (is_linked_to id db.overlays.rows) unlink) db.snapshots;
}

abbrev pub snapshot_of : ℕ → SnapshotRow → Bool
snapshot_of id s = elim s.container_id [ none ↦ false | some c ↦ c == id ]

-- What a successful restore writes: the row runs, and its new overlay is the current one.
unfoldable pub record_restored : ℕ → ContainerHandle → ℕ → Db → Db
record_restored id handle size db = insert_overlay id handle.overlay_path size (
    demote_overlays id (update_container id (λ c. clear_error (mark_running handle db.clock c)) db))

module _ {R : Type 0} (host : Host R) where
  open host.executor use {create as executor_create, stop as executor_stop}

  -- The body of the `try`. The bind directories that `_replayMounts` derives are spread into the
  -- request beside its fields, not into `mountDirs`, so the request carries none.
  unfoldable pub restore_overlay : ContainerRow → SnapshotRow → String → Action (World R) (Unit {0})
  unfolding record_restored
  restore_overlay row snap sif_path = do
    path ← lift_outcome host (resolve_image_path host sif_path)
    replay_mounts host row
    name ← or_throw row.instance_name null_name
    handle ← on_host (
        host.executor.restore (record { overlay_path = snap.overlay_path; size_bytes = 0 })
          (request_for row name path))
    set_db (record_restored row.id handle snap.size_bytes)

  unfoldable pub stop_quietly : ContainerRow → Action (World R) (Unit {0})
  stop_quietly row =
      best_effort
        (do handle ← lift_outcome host (handle_from_row row); on_host (executor_stop handle))

  unfoldable pub restore_from_snapshot : ContainerRow → SnapshotRow → Action (World R) (Unit {0})
  unfolding require_image
  restore_from_snapshot row snap = do
    image ← require_image row.image_id
    when (is_running row.status) (stop_quietly row)
    catch (restore_overlay row snap image.sif_path)
        (λ e. do set_db (update_container row.id (mark_restore_failed e)); throw e)

  unfoldable pub restore_snapshot : ℕ → ℕ → ℕ → Bool → Action (World R) ContainerRow
  unfolding require_owned require_container
  restore_snapshot id snapshot_id user_id is_admin = do
    row ← require_owned id user_id is_admin
    snap ←
        or_throw
          (← ask
            (λ db. find_where (λ s. s.id == snapshot_id && snapshot_of id s) db.snapshots.rows))
          not_found
    restore_from_snapshot row snap
    require_container id

  -- name LIKE 'auto-%' ORDER BY id DESC LIMIT 1
  abbrev pub resume_snapshot : ℕ → Db → Option SnapshotRow
  resume_snapshot id db =
      find_last_where (λ s. snapshot_of id s && host.like s.name "auto-%") db.snapshots.rows

  unfoldable pub plain_start : ContainerRow → Action (World R) ContainerRow
  unfolding require_image require_container
  plain_start row = do
    image ← require_image row.image_id
    mounts ← replay_mounts host row
    name ← or_throw row.instance_name null_name
    path ← lift_outcome host (resolve_image_path host image.sif_path)
    handle ← on_host (executor_create (record (request_for row name path) { mount_dirs = mounts }))
    set_db (λ db. update_container row.id (λ c. clear_error (mark_running handle db.clock c)) db)
    require_container row.id

  -- The marker is cleared after the restore, or at once where there is no snapshot to resume from.
  unfoldable pub resume : ContainerRow → Option SnapshotRow → Action (World R) ContainerRow
  unfolding require_container
  resume row none = do set_db (update_container row.id clear_auto_stopped); plain_start row
  resume row (some snap) = do
    restore_from_snapshot row snap
    set_db (update_container row.id clear_auto_stopped)
    require_container row.id

  unfoldable pub start_row : ContainerRow → Action (World R) ContainerRow
  start_row row =
      if is_running row.status
      then pure row
      else if is_destroyed row.status
      then throw invalid_state
      else if row.auto_stopped && is_stopped row.status
      then (do resume row (← ask (resume_snapshot row.id)))
      else plain_start row

  unfoldable pub start : ℕ → ℕ → Bool → Action (World R) ContainerRow
  unfolding require_owned
  start id user_id is_admin = do start_row (← require_owned id user_id is_admin)

  unfoldable pub stop : ℕ → ℕ → Bool → Action (World R) ContainerRow
  unfolding require_owned require_container
  stop id user_id is_admin = do
    row ← require_owned id user_id is_admin
    throw_if (not (is_running row.status)) invalid_state
    handle ← lift_outcome host (handle_from_row row)
    on_host (executor_stop handle)
    set_db (λ db. update_container id (mark_stopped db.clock) db)
    require_container id

  -- The body of the `try`: where the stop fails, the instance is not destroyed.
  unfoldable pub tear_down : ContainerRow → Action (World R) (Unit {0})
  tear_down row = do
    handle ← lift_outcome host (handle_from_row row)
    when (is_running row.status) (on_host (executor_stop handle))
    on_host (host.executor.destroy handle)

  unfoldable pub clean_input : Option String → Action (World R) (Unit {0})
  clean_input none = pure tt
  clean_input (some name) = best_effort (on_host (host.storage.remove_input_dir name))

  unfoldable pub destroy_row : ContainerRow → Action (World R) (Unit {0})
  destroy_row row = do
    best_effort (tear_down row)
    clean_input (instance_of row.instance_name)
    set_db (delete_overlays row.id)
    set_db (update_container row.id mark_destroyed)

  unfoldable pub destroy : ℕ → ℕ → Bool → Action (World R) (Unit {0})
  unfolding require_owned
  destroy id user_id is_admin = do
    row ← require_owned id user_id is_admin
    when (not (is_destroyed row.status)) (destroy_row row)

  unfoldable pub resolve_running_handle :
      ℕ → ℕ → Bool → Action (World R) (ContainerRow × ContainerHandle)
  unfolding require_owned
  resolve_running_handle id user_id is_admin = do
    row ← require_owned id user_id is_admin
    throw_if (not (is_running row.status)) container_not_running
    handle ← lift_outcome host (handle_from_row row)
    pure (row, handle)
