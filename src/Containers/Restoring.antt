-- ===== src/Containers/Restoring.antt =====
-- What the restore path and the start of a container leave behind, on every branch.
use sandbox_platform.Prelude.{
  false, true, ℕ, suc, none, some, update_where, ◌==◌, [], ◌∷◌, ◌++◌, String, ◌≡◌, ◌⊎◌, inl, inr,
  arith, Option-cases,
}
use sandbox_platform.Action.{AppError, Outcome, ok, err, Outcome-cases, not_found, when}
use sandbox_platform.Db.{Db}
use sandbox_platform.Db.Rows.{ContainerRow, SnapshotRow, Status}
use sandbox_platform.Db.Queries.{image_by_id, is_running}
use sandbox_platform.Containers.Host.{Host, World, ContainerHandle, resolve_image_path}
use sandbox_platform.Containers.Mounts.{replay_mounts}
use sandbox_platform.Containers.Lifecycle.{
  restore_overlay, restore_from_snapshot, record_restored, stop_quietly, request_for, null_name,
}
use sandbox_platform.Containers.Reads.{replay_mounts-db, stop_quietly-db}

-- The database with the container running on a handle's overlay, without an error; with every
-- overlay of the container demoted, and that one added as the current overlay, of a given size.
abbrev pub restored_db : ℕ → ContainerHandle → ℕ → Db → Db
restored_db id handle size db = record db {
  containers = record db.containers {
    rows =
        update_where (λ c. c.id == id)
          (λ c. record c {
            status = Status.running;
            overlay_path = some handle.overlay_path;
            node = some handle.node;
            last_started_at = some db.clock;
            error_message = none;
          })
          db.containers.rows;
  };
  overlays = record {
    rows =
        update_where (λ o. o.container_id == id) (λ o. record o { is_current = false })
          db.overlays.rows
        ++ record {
          id = db.overlays.next_id;
          container_id = id;
          path = handle.overlay_path;
          is_current = true;
          size_bytes = size;
        }
          ∷ [];
    next_id = suc db.overlays.next_id;
  };
}

-- The database with the container stopped, and with the error.
abbrev pub failed_db : ℕ → AppError → Db → Db
failed_db id e db = record db {
  containers = record db.containers {
    rows =
        update_where (λ c. c.id == id)
          (λ c. record c { status = Status.stopped; error_message = some e }) db.containers.rows;
  };
}

module _ {R : Type 0} (host : Host R) (row : ContainerRow) (snap : SnapshotRow) where
  -- The executor answered with this handle to a request to restore the snapshot's overlay for the
  -- container's instance, with its limits.
  abbrev pub Answered : ContainerHandle → Type 0
  Answered handle =
      (name : String) × (path : String) × (s : R) × (row.instance_name ≡ some name)
      × ((host.executor.restore (record { overlay_path = snap.overlay_path; size_bytes = 0 })
            (record {
              id = name;
              image_path = path;
              cpu = row.cpu;
              memory_mb = row.memory_mb;
              disk_gb = row.disk_gb;
              env = row.env;
              overlay_path = none;
              seed_from_path = none;
              overlay_kind = none;
              mount_dirs = none;
            })
            s).0
          ≡ ok handle)

  abbrev Overlaid : World R → Outcome (Unit {0}) × World R → Type 0
  Overlaid w (r, v) =
      ((r ≡ ok tt)
        × ((handle : ContainerHandle) × Answered handle
            × (v.db ≡ restored_db row.id handle snap.size_bytes w.db)))
      ⊎ ((e : AppError) × (r ≡ err e) × (v.db ≡ w.db))

  -- The executor's answer.
  attempt : String → String → World R → Outcome ContainerHandle × R
  attempt name path w =
      host.executor.restore (record { overlay_path = snap.overlay_path; size_bytes = 0 })
        (request_for row name path) (replay_mounts host row w).1.runtime

  restore_overlay-Overlaid :
      (path : String) (w : World R) → Overlaid w (restore_overlay host row snap path w)
  unfolding restore_overlay attempt record_restored
  restore_overlay-Overlaid path w = elim (Outcome-cases (resolve_image_path host path)) [
    | inr (x, e) ↦ inr (x, ground arith, ground arith)
    | inl (p, e) ↦ elim (Outcome-cases (replay_mounts host row w).0) [
      | inr (x, f) ↦ inr (x, ground arith, ground (arith, replay_mounts-db host row w))
      | inl (dirs, f) ↦ elim (Option-cases row.instance_name) [
        | inl g ↦ inr (null_name, ground arith, ground (arith, replay_mounts-db host row w))
        | inr (name, g) ↦ elim (Outcome-cases (attempt name p w).0) [
          | inr (x, h) ↦ inr (x, ground arith, ground (arith, replay_mounts-db host row w))
          | inl (handle, h) ↦ inl (
            ground arith,
            (
              handle,
              (name, p, (replay_mounts host row w).1.runtime, g, h),
              ground (arith, replay_mounts-db host row w),
            ),
          )
        ]
      ]
    ]
  ]

  -- How the restore path may end: restored; refused since the image is gone; or failed and marked.
  abbrev pub Restored : World R → Outcome (Unit {0}) → World R → Type 0
  Restored w r v =
      ((r ≡ ok tt)
        × ((handle : ContainerHandle) × Answered handle
            × (v.db ≡ restored_db row.id handle snap.size_bytes w.db)))
      ⊎ ((e : AppError) × (r ≡ err e) × ((v.db ≡ w.db) ⊎ (v.db ≡ failed_db row.id e w.db)))

  -- The world once the running instance was told to stop.
  abbrev quiet : World R → World R
  quiet w = (when (is_running row.status) (stop_quietly host row) w).1

  quiet-db : (w : World R) → (quiet w).db ≡ w.db
  quiet-db w = ground (arith, stop_quietly-db host row w)

  quiet_ok : (w : World R) → (when (is_running row.status) (stop_quietly host row) w).0 ≡ ok tt
  unfolding stop_quietly
  quiet_ok w = ground arith

  -- `_restoreFromSnapshot` ends in one of three ways. It returns, the executor answered with a handle
  -- to a request to restore the snapshot's overlay for the container's instance, and the database
  -- differs in that the row of the container runs, without an error, on that handle's overlay and node,
  -- the container's overlays are demoted, and that overlay is added as the current one, with the
  -- snapshot's size. Or it throws, and the database is as it was. Or it throws, and the only change
  -- is that the row is stopped and carries the error.
  pub restore_from_snapshot-Restored :
      (w : World R)
      → Restored w
          (restore_from_snapshot host row snap w).0
          (restore_from_snapshot host row snap w).1
  unfolding restore_from_snapshot
  restore_from_snapshot-Restored w = elim (Option-cases (image_by_id row.image_id w.db)) [
    | inl e ↦ inr (not_found, ground arith, inl (ground arith))
    | inr (image, e) ↦ elim (restore_overlay-Overlaid image.sif_path (quiet w)) [
      | inl (f, (handle, answer, g)) ↦ inl (
        ground (arith, quiet-db w, quiet_ok w),
        (handle, answer, ground (arith, quiet-db w, quiet_ok w)),
      )
      | inr (x, f, g) ↦
          inr (
            x,
            ground (arith, quiet-db w, quiet_ok w),
            inr (ground (arith, quiet-db w, quiet_ok w)),
          )
    ]
  ]
