-- ===== src/Containers/Writes.antt =====
-- The writes to the database that start, stop, destroy and restoreSnapshot are made of. Whatever a
-- method does and however it ends, what it leaves is a chain of these writes for its own container.
use sandbox_platform.Prelude.{
  ℕ, String, ◌≡◌, refl, ◌⊎◌, inl, inr, Bool, false, Option, none, some, arith, Option-cases,
  Bool-cases, find_where, find_where-holds, count_where, count_where-found, ◌<◌, ◌==◌, ◌&&◌,
}
use sandbox_platform.Action.{AppError, Outcome, ok, err, Outcome-cases}
use sandbox_platform.Db.{Db}
use sandbox_platform.Db.Rows.{ContainerRow, SnapshotRow}
use sandbox_platform.Db.Queries.{container_by_id, image_by_id, is_running, is_stopped, is_destroyed}
use sandbox_platform.Containers.Host.{Host, World, ContainerHandle, MountDirs, resolve_image_path}
use sandbox_platform.Containers.Mounts.{replay_mounts, is_foreign}
use sandbox_platform.Containers.Create.{update_container, mark_running, has_id}
use sandbox_platform.Containers.Lifecycle.{
  restore_from_snapshot, record_restored, mark_restore_failed, mark_stopped, mark_destroyed,
  clear_error, clear_auto_stopped, delete_overlays, plain_start, resume, start_row, start, stop,
  destroy_row, destroy, restore_snapshot, request_for, tear_down, clean_input, resume_snapshot,
  snapshot_of,
}
use sandbox_platform.Containers.Reads.{replay_mounts-db}
use sandbox_platform.Containers.Restoring.{restore_from_snapshot-Restored}

-- One write, for the container `id`.
pub data Write (id : ℕ) (d e : Db) : Type 0 where
  ran :
      (handle : ContainerHandle)
      → e ≡ update_container id (λ c. clear_error (mark_running handle d.clock c)) d
      → Write id d e
  restored :
      (handle : ContainerHandle) (size : ℕ)
      → 0 < count_where (has_id id) d.containers.rows
      → e ≡ record_restored id handle size d
      → Write id d e
  restore_failed : (x : AppError) → e ≡ update_container id (mark_restore_failed x) d → Write id d e
  stopped : e ≡ update_container id (mark_stopped d.clock) d → Write id d e
  cleared : e ≡ update_container id clear_auto_stopped d → Write id d e
  torn_down : e ≡ update_container id mark_destroyed (delete_overlays id d) → Write id d e

-- A chain of writes.
pub data Writes (id : ℕ) (d : Db) : Db → Type 0 where
  nothing : (e : Db) → e ≡ d → Writes id d e
  after : (e f : Db) → Writes id d e → Write id e f → Writes id d f

module _ {R : Type 0} (host : Host R) where
  one : (id : ℕ) (d e : Db) → Write id d e → Writes id d e
  one id d e h = after d e (nothing d refl) h

  restore_from_snapshot-Writes :
      (row : ContainerRow) (snap : SnapshotRow) (w : World R)
      → 0 < count_where (has_id row.id) w.db.containers.rows
      → Writes row.id w.db (restore_from_snapshot host row snap w).1.db
  unfolding record_restored
  restore_from_snapshot-Writes row snap w known =
      elim (restore_from_snapshot-Restored host row snap w) [
        | inl (_, (handle, answer, e)) ↦ one row.id _ _ (restored handle snap.size_bytes known e)
        | inr (x, _, inl e) ↦ nothing _ e
        | inr (x, _, inr e) ↦ one row.id _ _ (restore_failed x e)
      ]

  -- The executor's answer to a start.
  unfoldable pub launch :
      ContainerRow → Option MountDirs → String → String → World R → Outcome ContainerHandle × R
  launch row mounts name path w =
      host.executor.create (record (request_for row name path) { mount_dirs = mounts })
        (replay_mounts host row w).1.runtime

  -- A start from the current overlay writes the row once, or not at all.
  pub plain_start-cases :
      (row : ContainerRow) (w : World R)
      → ((plain_start host row w).1.db ≡ w.db)
        ⊎ ((handle : ContainerHandle) × ((plain_start host row w).1.db
              ≡ update_container row.id (λ c. clear_error (mark_running handle w.db.clock c)) w.db))
  unfolding plain_start launch
  plain_start-cases row w = elim (Option-cases (image_by_id row.image_id w.db)) [
    | inl e ↦ inl (ground arith)
    | inr (image, e) ↦ elim (Outcome-cases (replay_mounts host row w).0) [
      | inr (x, f) ↦ inl (ground (arith, replay_mounts-db host row w))
      | inl (mounts, f) ↦ elim (Option-cases row.instance_name) [
        | inl g ↦ inl (ground (arith, replay_mounts-db host row w))
        | inr (name, g) ↦ elim (Outcome-cases (resolve_image_path host image.sif_path)) [
          | inr (x, h) ↦ inl (ground (arith, replay_mounts-db host row w))
          | inl (path, h) ↦ elim (Outcome-cases (launch row mounts name path w).0) [
            | inr (x, k) ↦ inl (ground (arith, replay_mounts-db host row w))
            | inl (handle, k) ↦ inr (handle, ground (arith, replay_mounts-db host row w))
          ]
        ]
      ]
    ]
  ]

  plain_start-Writes :
      (row : ContainerRow) (w : World R) → Writes row.id w.db (plain_start host row w).1.db
  plain_start-Writes row w = elim (plain_start-cases row w) [
    | inl e ↦ nothing _ e
    | inr (handle, e) ↦ one row.id _ _ (ran handle e)
  ]

  chain : (id : ℕ) (d e f : Db) → Writes id d e → Writes id e f → Writes id d f
  chain id d e f h (nothing _ q) = rw q h
  chain id d e f h (after g _ k s) = after g f (chain id d e g h k) s

  resume-Writes :
      (row : ContainerRow) (o : Option SnapshotRow) (w : World R)
      → 0 < count_where (has_id row.id) w.db.containers.rows
      → Writes row.id w.db (resume host row o w).1.db
  unfolding resume
  resume-Writes row none w known =
      chain row.id _ _ _ (one row.id _ _ (cleared refl)) (plain_start-Writes row _)
  resume-Writes row (some snap) w known =
      elim (Outcome-cases (restore_from_snapshot host row snap w).0) [
        | inr (x, e) ↦ rw (resumed_err x e) (restore_from_snapshot-Writes row snap w known)
        | inl (u, e) ↦
            rw (resumed_ok u e)
              (after _ _ (restore_from_snapshot-Writes row snap w known) (cleared refl))
      ]
    where
      resumed_err :
          (x : AppError)
          → (restore_from_snapshot host row snap w).0 ≡ err x
          → (resume host row (some snap) w).1.db ≡ (restore_from_snapshot host row snap w).1.db
      resumed_err x e = ground arith

      resumed_ok :
          (u : Unit {0})
          → (restore_from_snapshot host row snap w).0 ≡ ok u
          → (resume host row (some snap) w).1.db
            ≡ update_container row.id clear_auto_stopped
                (restore_from_snapshot host row snap w).1.db
      resumed_ok u e = ground arith

  start_row-Writes :
      (row : ContainerRow) (w : World R)
      → 0 < count_where (has_id row.id) w.db.containers.rows
      → Writes row.id w.db (start_row host row w).1.db
  unfolding start_row
  start_row-Writes row w known = elim (Bool-cases (is_running row.status)) [
    | inl e ↦ rw e (nothing _ refl)
    | inr e ↦ rw e (elim (Bool-cases (is_destroyed row.status)) [
      | inl f ↦ rw f (nothing _ refl)
      | inr f ↦ rw f (elim (Bool-cases (row.auto_stopped && is_stopped row.status)) [
        | inl g ↦ rw g (resume-Writes row (resume_snapshot host row.id w.db) w known)
        | inr g ↦ rw g (plain_start-Writes row w)
      ])
    ])
  ]

  owned_id :
      (id : ℕ) (w : World R) (row : ContainerRow) → container_by_id id w.db ≡ some row → row.id ≡ id
  owned_id id w row e = ground (arith, find_where-holds (has_id id) w.db.containers.rows row)

  known_id :
      (id : ℕ) (w : World R) (row : ContainerRow)
      → container_by_id id w.db ≡ some row
      → 0 < count_where (has_id row.id) w.db.containers.rows
  known_id id w row e =
      rw (owned_id id w row e) (count_where-found (has_id id) w.db.containers.rows row e)

  -- The snapshot that `restoreSnapshot` and `deleteSnapshot` select.
  abbrev snapshot_at : ℕ → ℕ → Db → Option SnapshotRow
  snapshot_at id snapshot_id db =
      find_where (λ s. s.id == snapshot_id && snapshot_of id s) db.snapshots.rows

  stop_cases :
      (id user_id : ℕ) (is_admin : Bool) (w : World R)
      → ((stop host id user_id is_admin w).1.db ≡ w.db)
        ⊎ ((stop host id user_id is_admin w).1.db
            ≡ update_container id (mark_stopped w.db.clock) w.db)
  unfolding stop
  stop_cases id user_id is_admin w = ground arith

  tear_down-db : (row : ContainerRow) (w : World R) → (tear_down host row w).1.db ≡ w.db
  unfolding tear_down
  tear_down-db row w = ground arith

  destroy_row-db :
      (row : ContainerRow) (w : World R)
      → (destroy_row host row w).1.db
        ≡ update_container row.id mark_destroyed (delete_overlays row.id w.db)
  unfolding destroy_row clean_input
  destroy_row-db row w = ground (arith, tear_down-db row w)

  destroy_cases :
      (id user_id : ℕ) (is_admin : Bool) (w : World R)
      → ((destroy host id user_id is_admin w).1.db ≡ w.db)
        ⊎ ((destroy host id user_id is_admin w).1.db
            ≡ update_container id mark_destroyed (delete_overlays id w.db))
  unfolding destroy
  destroy_cases id user_id is_admin w = grind (arith, destroy_row-db, owned_id)

  start-Writes :
      (id user_id : ℕ) (is_admin : Bool) (w : World R)
      → Writes id w.db (start host id user_id is_admin w).1.db
  unfolding start
  start-Writes id user_id is_admin w = elim (Option-cases (container_by_id id w.db)) [
    | inl e ↦ nothing _ (ground arith)
    | inr (row, e) ↦ elim (Bool-cases (is_foreign row.user_id is_admin user_id)) [
      | inl f ↦ nothing _ (ground arith)
      | inr f ↦
          rw (← same row e f, ← owned_id id w row e) (start_row-Writes row w (known_id id w row e))
    ]
  ]
    where
      same :
          (row : ContainerRow)
          → container_by_id id w.db ≡ some row
          → is_foreign row.user_id is_admin user_id ≡ false
          → (start_row host row w).1.db ≡ (start host id user_id is_admin w).1.db
      same row e f = ground arith

  restore_snapshot-Writes :
      (id snapshot_id user_id : ℕ) (is_admin : Bool) (w : World R)
      → Writes id w.db (restore_snapshot host id snapshot_id user_id is_admin w).1.db
  unfolding restore_snapshot
  restore_snapshot-Writes id snapshot_id user_id is_admin w =
      elim (Option-cases (container_by_id id w.db)) [
        | inl e ↦ nothing _ (ground arith)
        | inr (row, e) ↦ elim (Bool-cases (is_foreign row.user_id is_admin user_id)) [
          | inl f ↦ nothing _ (ground arith)
          | inr f ↦ elim (Option-cases (snapshot_at id snapshot_id w.db)) [
            | inl g ↦ nothing _ (ground arith)
            | inr (snap, g) ↦
                rw (← same row e f snap g, ← owned_id id w row e)
                  (restore_from_snapshot-Writes row snap w (known_id id w row e))
          ]
        ]
      ]
    where
      same :
          (row : ContainerRow)
          → container_by_id id w.db ≡ some row
          → is_foreign row.user_id is_admin user_id ≡ false
          → (snap : SnapshotRow) → snapshot_at id snapshot_id w.db ≡ some snap
          → (restore_from_snapshot host row snap w).1.db
            ≡ (restore_snapshot host id snapshot_id user_id is_admin w).1.db
      same row e f snap g = ground arith

  pub stop-Writes :
      (id user_id : ℕ) (is_admin : Bool) (w : World R)
      → Writes id w.db (stop host id user_id is_admin w).1.db
  stop-Writes id user_id is_admin w = elim (stop_cases id user_id is_admin w) [
    | inl e ↦ nothing _ e
    | inr e ↦ one id _ _ (stopped e)
  ]

  destroy-Writes :
      (id user_id : ℕ) (is_admin : Bool) (w : World R)
      → Writes id w.db (destroy host id user_id is_admin w).1.db
  destroy-Writes id user_id is_admin w = elim (destroy_cases id user_id is_admin w) [
    | inl e ↦ nothing _ e
    | inr e ↦ one id _ _ (torn_down e)
  ]

  -- Whatever start, stop, destroy and restoreSnapshot return or throw, what they leave in the
  -- database is a chain of the writes above for the container that they were called on.
  pub lifecycle-Writes :
      (id snapshot_id user_id : ℕ) (is_admin : Bool) (w : World R)
      → Writes id w.db (start host id user_id is_admin w).1.db
        × Writes id w.db (stop host id user_id is_admin w).1.db
        × Writes id w.db (destroy host id user_id is_admin w).1.db
        × Writes id w.db (restore_snapshot host id snapshot_id user_id is_admin w).1.db
  lifecycle-Writes id snapshot_id user_id is_admin w = (
    start-Writes id user_id is_admin w,
    stop-Writes id user_id is_admin w,
    destroy-Writes id user_id is_admin w,
    restore_snapshot-Writes id snapshot_id user_id is_admin w,
  )
