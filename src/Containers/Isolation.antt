-- ===== src/Containers/Isolation.antt =====
-- What start, stop, destroy and restoreSnapshot leave alone: other containers, and other tables.
use sandbox_platform.Prelude.{
  map, ap, update_where, [], ◌∷◌, Bool-cases, inl, inr, List, ℕ, ◌≡◌, ◌≢◌, ◌∙◌, refl, Bool, true,
  false, ◌==◌, arith, select_where, select_where-update, select_where-delete,
  select_where-append_none, find_where, find_where-update,
}
use sandbox_platform.Db.{Db, Table}
use sandbox_platform.Db.Rows.{ContainerRow, OverlayRow, SnapshotRow}
use sandbox_platform.Db.Queries.{container_by_id}
use sandbox_platform.Containers.Host.{Host, World}
use sandbox_platform.Containers.Create.{has_id, update_container}
use sandbox_platform.Containers.Lifecycle.{
  unlink, is_linked_to, overlay_of, record_restored, start, stop, destroy, restore_snapshot,
}
use sandbox_platform.Containers.Writes.{
  Write, Writes, ran, restored, restore_failed, stopped, cleared, torn_down, nothing, after,
  lifecycle-Writes,
}

-- What the container `other` has in the database, the snapshots but for their links to overlays, and the
-- tables that hold nothing of containers.
pub record Kept (other : ℕ) (d e : Db) : Type 0 where
  pub container : container_by_id other e ≡ container_by_id other d
  pub overlays :
      select_where (overlay_of other) e.overlays.rows
      ≡ select_where (overlay_of other) d.overlays.rows
  pub mounts : e.container_mounts ≡ d.container_mounts
  pub snapshots : map unlink e.snapshots.rows ≡ map unlink d.snapshots.rows
  pub workspaces : e.workspaces ≡ d.workspaces
  pub users : e.users ≡ d.users
  pub quotas : e.resource_quotas ≡ d.resource_quotas
  pub images : e.images ≡ d.images
  pub refresh_tokens : e.refresh_tokens ≡ d.refresh_tokens
  pub api_keys : e.api_keys ≡ d.api_keys

unlinked :
    (p : SnapshotRow → Bool) (rows : List SnapshotRow)
    → map unlink (update_where p unlink rows) ≡ map unlink rows
unlinked p [] = refl
unlinked p (s ∷ rows) = elim (Bool-cases (p s)) [
  | inl e ↦ rw e (ap (λ l. unlink s ∷ l) (unlinked p rows))
  | inr e ↦ rw e (ap (λ l. unlink s ∷ l) (unlinked p rows))
]

not_both : (i id other : ℕ) → other ≢ id → (i == id) ≡ true → (i == other) ≡ false
not_both i id other h e = ground arith

module _ (other id : ℕ) (distinct : other ≢ id) where
  update-kept :
      (f : ContainerRow → ContainerRow) (d : Db)
      → ((c : ContainerRow) → (f c).id ≡ c.id)
      → container_by_id other (update_container id f d) ≡ container_by_id other d
  update-kept f d k =
      find_where-update (has_id id) (has_id other) f d.containers.rows
        (λ c e. not_both c.id id other distinct e)
        (λ c e. rw (k c) (not_both c.id id other distinct e))

  -- A write to the tables of containers and overlays alone, and to the links of snapshots.
  keep :
      (d : Db) (cs : Table ContainerRow) (os : Table OverlayRow) (ss : Table SnapshotRow)
      → find_where (has_id other) cs.rows ≡ container_by_id other d
      → select_where (overlay_of other) os.rows ≡ select_where (overlay_of other) d.overlays.rows
      → map unlink ss.rows ≡ map unlink d.snapshots.rows
      → Kept other d (record d { containers = cs; overlays = os; snapshots = ss })
  keep d cs os ss h k l = record {
    container = h;
    overlays = k;
    mounts = refl;
    snapshots = l;
    workspaces = refl;
    users = refl;
    quotas = refl;
    images = refl;
    refresh_tokens = refl;
    api_keys = refl;
  }

  Write-Kept : (d e : Db) → Write id d e → Kept other d e
  unfolding record_restored
  Write-Kept d e (ran handle q) =
      rw q (keep d _ _ d.snapshots (update-kept _ d (λ c. refl)) refl refl)
  Write-Kept d e (restored handle size k q) = rw q (
      keep d _ _ d.snapshots (update-kept _ d (λ c. refl))
        (select_where-append_none (overlay_of other) _ _
            (not_both id id other distinct (ground arith))
          ∙ select_where-update (overlay_of id) (overlay_of other) _ d.overlays.rows
              (λ o e. not_both o.container_id id other distinct e)
              (λ o e. not_both o.container_id id other distinct e))
        refl)
  Write-Kept d e (restore_failed x q) =
      rw q (keep d _ _ d.snapshots (update-kept _ d (λ c. refl)) refl refl)
  Write-Kept d e (stopped q) = rw q (keep d _ _ d.snapshots (update-kept _ d (λ c. refl)) refl refl)
  Write-Kept d e (cleared q) = rw q (keep d _ _ d.snapshots (update-kept _ d (λ c. refl)) refl refl)
  Write-Kept d e (torn_down q) = rw q (
      keep d _ _ _ (update-kept _ d (λ c. refl))
        (select_where-delete (overlay_of id) (overlay_of other) d.overlays.rows
          (λ o e. not_both o.container_id id other distinct e))
        (unlinked (is_linked_to id d.overlays.rows) d.snapshots.rows))

  Kept-trans : (d e f : Db) → Kept other d e → Kept other e f → Kept other d f
  Kept-trans d e f h k = record {
    container = k.container ∙ h.container;
    overlays = k.overlays ∙ h.overlays;
    mounts = k.mounts ∙ h.mounts;
    snapshots = k.snapshots ∙ h.snapshots;
    workspaces = k.workspaces ∙ h.workspaces;
    users = k.users ∙ h.users;
    quotas = k.quotas ∙ h.quotas;
    images = k.images ∙ h.images;
    refresh_tokens = k.refresh_tokens ∙ h.refresh_tokens;
    api_keys = k.api_keys ∙ h.api_keys;
  }

  Writes-Kept : (d e : Db) → Writes id d e → Kept other d e
  Writes-Kept d e (nothing _ q) = rw q (keep d d.containers d.overlays d.snapshots refl refl refl)
  Writes-Kept d e (after g _ k s) = Kept-trans d g e (Writes-Kept d g k) (Write-Kept g e s)

-- start, stop, destroy and restoreSnapshot of a container leave every other container's row and
-- overlays as they were, the snapshots but for their links to overlays, and the tables of mounts,
-- workspaces, users, quotas, images, refresh tokens and API keys, whatever they return or throw.
pub lifecycle-Kept :
    {R : Type 0} (host : Host R) (id other snapshot_id user_id : ℕ) (is_admin : Bool) (w : World R)
    → other ≢ id
    → Kept other w.db (start host id user_id is_admin w).1.db
      × Kept other w.db (stop host id user_id is_admin w).1.db
      × Kept other w.db (destroy host id user_id is_admin w).1.db
      × Kept other w.db (restore_snapshot host id snapshot_id user_id is_admin w).1.db
lifecycle-Kept host id other snapshot_id user_id is_admin w distinct =
    let (a, b, c, d) = lifecycle-Writes host id snapshot_id user_id is_admin w in
    (
      Writes-Kept other id distinct _ _ a,
      Writes-Kept other id distinct _ _ b,
      Writes-Kept other id distinct _ _ c,
      Writes-Kept other id distinct _ _ d,
    )
