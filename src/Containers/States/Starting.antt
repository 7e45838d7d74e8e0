-- ===== src/Containers/States/Starting.antt =====
-- What start and stop return: the row as it stands after them, running or stopped.
use sandbox_platform.Prelude.{
  ℕ, ◌≡◌, refl, inl, inr, Bool, true, false, Option, none, some, arith, find_where, update_where,
  find_where-update_self, find_where-holds, Option-cases, Bool-cases, List,
}
use sandbox_platform.Action.{ok, err, AppError, invalid_state, Outcome-cases}
use sandbox_platform.Db.Rows.{ContainerRow, SnapshotRow, Status}
use sandbox_platform.Db.Queries.{container_by_id, image_by_id, is_running}
use sandbox_platform.Containers.Host.{
  Host, World, ContainerHandle, handle_from_row, resolve_image_path,
}
use sandbox_platform.Containers.Mounts.{replay_mounts, is_foreign}
use sandbox_platform.Containers.Create.{has_id, mark_running, update_container}
use sandbox_platform.Containers.Lifecycle.{
  start, stop, start_row, plain_start, resume, resume_snapshot, record_restored, clear_error,
  clear_auto_stopped, mark_stopped,
}
use sandbox_platform.Containers.Writes.{launch}
use sandbox_platform.Containers.Reads.{replay_mounts-db}
use sandbox_platform.Containers.Restoring.{restore_from_snapshot-Restored}

module _ {R : Type 0} (host : Host R) where
  -- The row that an update of its columns leaves.
  found_after :
      (id : ℕ) (f : ContainerRow → ContainerRow) (rows : List ContainerRow) (c : ContainerRow)
      → ((y : ContainerRow) → (f y).id ≡ y.id)
      → find_where (has_id id) rows ≡ some c
      → find_where (has_id id) (update_where (has_id id) f rows) ≡ some (f c)
  found_after id f rows c k e = find_where-update_self (has_id id) f rows c (λ y q. rw (k y) q) e

  plain_start_runs :
      (row c r : ContainerRow) (w : World R)
      → container_by_id row.id w.db ≡ some c
      → (plain_start host row w).0 ≡ ok r
      → r.status ≡ Status.running
  unfolding plain_start launch
  plain_start_runs row c r w h e = elim (Option-cases (image_by_id row.image_id w.db)) [
    | inl f ↦ ground arith
    | inr (image, f) ↦ elim (Outcome-cases (replay_mounts host row w).0) [
      | inr (x, g) ↦ ground arith
      | inl (mounts, g) ↦ elim (Option-cases row.instance_name) [
        | inl i ↦ ground arith
        | inr (name, i) ↦ elim (Outcome-cases (resolve_image_path host image.sif_path)) [
          | inr (x, j) ↦ ground arith
          | inl (path, j) ↦ elim (Outcome-cases (launch host row mounts name path w).0) [
            | inr (x, k) ↦ ground arith
            | inl (handle, k) ↦ ground (arith, replay_mounts-db host row w, again handle)
          ]
        ]
      ]
    ]
  ]
    where
      again :
          (handle : ContainerHandle)
          → find_where (has_id row.id) (
              update_where
                (has_id row.id)
                (λ c. clear_error (mark_running handle w.db.clock c))
                w.db.containers.rows)
            ≡ some (clear_error (mark_running handle w.db.clock c))
      again handle =
          found_after row.id (λ c. clear_error (mark_running handle w.db.clock c))
            w.db.containers.rows c (λ y. refl) h

  resume_runs :
      (row c r : ContainerRow) (o : Option SnapshotRow) (w : World R)
      → container_by_id row.id w.db ≡ some c
      → (resume host row o w).0 ≡ ok r
      → r.status ≡ Status.running
  unfolding resume record_restored
  resume_runs row c r none w h e =
      plain_start_runs row (clear_auto_stopped c) r
        (record w { db = update_container row.id clear_auto_stopped w.db })
        (found_after row.id clear_auto_stopped w.db.containers.rows c (λ y. refl) h) e
  resume_runs row c r (some snap) w h e = elim (restore_from_snapshot-Restored host row snap w) [
    | inr (x, f, k) ↦ ground arith
    | inl (f, (handle, answer, k)) ↦ ground (arith, again handle)
  ]
    where
      again :
          (handle : ContainerHandle)
          → find_where (has_id row.id) (
              update_where (has_id row.id) clear_auto_stopped (
                update_where
                  (has_id row.id)
                  (λ c. clear_error (mark_running handle w.db.clock c))
                  w.db.containers.rows))
            ≡ some (clear_auto_stopped (clear_error (mark_running handle w.db.clock c)))
      again handle =
          found_after row.id clear_auto_stopped _ (clear_error (mark_running handle w.db.clock c))
            (λ y. refl)
            (found_after row.id (λ c. clear_error (mark_running handle w.db.clock c))
              w.db.containers.rows c (λ y. refl) h)

  start_row_runs :
      (row r : ContainerRow) (w : World R)
      → container_by_id row.id w.db ≡ some row
      → (start_row host row w).0 ≡ ok r
      → r.status ≡ Status.running
  unfolding start_row
  start_row_runs row r w h e = ground (
    arith,
    plain_start_runs row row r w h,
    resume_runs row row r (resume_snapshot host row.id w.db) w h,
  )

  -- When start returns, the row that it returns is running.
  pub start_runs :
      (id user_id : ℕ) (is_admin : Bool) (w : World R) (r : ContainerRow)
      → (start host id user_id is_admin w).0 ≡ ok r
      → r.status ≡ Status.running
  unfolding start
  start_runs id user_id is_admin w r e = elim (Option-cases (container_by_id id w.db)) [
    | inl f ↦ ground arith
    | inr (row, f) ↦ elim (Bool-cases (is_foreign row.user_id is_admin user_id)) [
      | inl g ↦ ground arith
      | inr g ↦
          start_row_runs row r w
            (ground (arith, find_where-holds (has_id id) w.db.containers.rows row f)) (ground arith)
    ]
  ]

  -- stop, called by the owner or an admin on a container that is found. It throws INVALID_STATE, and
  -- changes nothing, unless the row runs; where the executor fails to stop the instance it throws
  -- that error and leaves the database as it was; else it returns the row, stopped, with the time
  -- of the stop.
  pub stop_branches :
      (id user_id : ℕ) (is_admin : Bool) (w : World R) (row : ContainerRow)
      (handle : ContainerHandle)
      → container_by_id id w.db ≡ some row
      → is_foreign row.user_id is_admin user_id ≡ false
      → handle_from_row row ≡ ok handle
      → let (r, v) = stop host id user_id is_admin w in
        let (answer, runtime) = host.executor.stop handle w.runtime in
        (is_running row.status ≡ false → (r ≡ err invalid_state) × (v ≡ w))
        × (is_running row.status ≡ true
            → (x : AppError) → answer ≡ err x
            → (r ≡ err x) × (v.db ≡ w.db) × (v.runtime ≡ runtime))
        × (is_running row.status ≡ true
            → answer ≡ ok tt
            → (r ≡ ok (mark_stopped w.db.clock row))
              × (v.runtime ≡ runtime)
              × (container_by_id id v.db ≡ some (mark_stopped w.db.clock row)))
  unfolding stop
  stop_branches id user_id is_admin w row handle h o k = (
    λ e. (ground arith, ground arith),
    λ e x a. (ground arith, ground arith, ground arith),
    λ e a. (ground (arith, again), ground arith, ground (arith, again)),
  )
    where
      again :
          find_where
            (has_id id)
            (update_where (has_id id) (mark_stopped w.db.clock) w.db.containers.rows)
          ≡ some (mark_stopped w.db.clock row)
      again = found_after id (mark_stopped w.db.clock) w.db.containers.rows row (λ y. refl) h
