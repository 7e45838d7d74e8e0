-- ===== src/Reaper/Frame.antt =====
-- What a snapshot without a restart leaves alone: the containers, the sessions and the clock.
use sandbox_platform.Prelude.{
  ℕ, ◌≡◌, refl, String, Bool, true, false, Option, none, some, arith, ◌&&◌,
}
use sandbox_platform.Action.{Action, when}
use sandbox_platform.Db.{Db, Table}
use sandbox_platform.Db.Rows.{ContainerRow, OverlayRow, SessionRow}
use sandbox_platform.Db.Queries.{is_running}
use sandbox_platform.Containers.Host.{
  Host, World, on_host, best_effort, ContainerHandle, SnapshotHandle,
}
use sandbox_platform.Containers.Mounts.{require_owned}
use sandbox_platform.Quota.{assert_aggregate_disk, for_user}
use sandbox_platform.Containers.Snapshots.{
  snapshot, admit_snapshot, copy_overlay, record_copy, insert_snapshot, link_overlay, finally,
  restart_after,
}

abbrev pub frame : Db → Table ContainerRow × Table SessionRow × ℕ
frame d = (d.containers, d.sessions, d.clock)

module _ {R : Type 0} (host : Host R) where
  link-frame :
      (id size : ℕ) (o : Option OverlayRow) (d : Db) → frame (link_overlay id size o d) ≡ frame d
  unfolding link_overlay
  link-frame id size none d = refl
  link-frame id size (some o) d = refl

  record_copy-frame :
      (row : ContainerRow) (name : String) (description : Option String) (snap : SnapshotHandle)
      (w : World R)
      → frame ((record_copy host row name description snap w).1).db ≡ frame w.db
  unfolding record_copy insert_snapshot assert_aggregate_disk
  record_copy-frame row name description snap w = ground arith

  copy-frame :
      (row : ContainerRow) (handle : ContainerHandle) (name : String) (description : Option String)
      (w : World R)
      → frame ((copy_overlay host row handle name description w).1).db ≡ frame w.db
  unfolding copy_overlay
  copy-frame row handle name description w =
      grind (arith, record_copy-frame row name description, link-frame)

  admit-world :
      (id user_id : ℕ) (name : String) (is_admin : Bool) (w : World R)
      → (admit_snapshot host id user_id name is_admin w).1 ≡ w
  unfolding admit_snapshot require_owned for_user
  admit-world id user_id name is_admin w = ground arith

  never : (b : Bool) (m : Action (World R) (Unit {0})) (w : World R) → (when (b && false) m w).1 ≡ w
  never true m w = refl
  never false m w = refl

  stops-frame :
      (b : Bool) (handle : ContainerHandle) (w : World R)
      → frame ((when b (best_effort (on_host (host.executor.stop handle))) w).1).db ≡ frame w.db
  stops-frame true handle w = refl
  stops-frame false handle w = refl

  finish-frame :
      (row : ContainerRow) (handle : ContainerHandle) (name : String) (description : Option String)
      (w : World R)
      → frame
          ((finally
              (copy_overlay host row handle name description)
              (when (is_running row.status && false) (restart_after host row handle))
              w).1
            ).db
        ≡ frame w.db
  finish-frame row handle name description w =
      let t = (copy_overlay host row handle name description w).1 in
      rw (never (is_running row.status) (restart_after host row handle) t)
        (copy-frame row handle name description w)

  pub snapshot-frame :
      (id user_id : ℕ) (name : String) (description : Option String) (is_admin : Bool) (w : World R)
      → frame ((snapshot host id user_id name description is_admin false w).1).db ≡ frame w.db
  unfolding snapshot
  snapshot-frame id user_id name description is_admin w = grind (
    arith,
    admit-world id user_id name is_admin,
    stops-frame,
    λ (row : ContainerRow) (handle : ContainerHandle). finish-frame row handle name description,
  )
