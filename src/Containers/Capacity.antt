-- ===== src/Containers/Capacity.antt =====
-- How many containers a user has: `create` counts against the tier, and the other methods.
use sandbox_platform.Prelude.{
  ℕ, ◌+◌, ◌≤◌, ◌<◌, ◌≡◌, refl, sym, ap, ◌∙◌, ◌⊎◌, inl, inr, Bool, false, some, List, [], ◌∷◌, ◌++◌,
  arith, ◌==◌, if◌then◌else◌, All, count_where, count_where-append, update_where, update_where-none,
  update_where-append,
}
use sandbox_platform.Db.{Db}
use sandbox_platform.Db.Rows.{ContainerRow, QuotaRow}
use sandbox_platform.Db.Queries.{active_containers, is_active_of, is_destroyed}
use sandbox_platform.Quota.{tier_of}
use sandbox_platform.Containers.Host.{Host, World, ContainerHandle}
use sandbox_platform.Containers.Mounts.{MountDraft}
use sandbox_platform.Containers.Create.{
  CreateInput, create, has_id, insert_mounts, record_running, insert_container_row, mark_error,
  mark_running,
}
use sandbox_platform.Containers.Creation.{create-Created}

-- Ids are given in ascending order, and an overlay belongs to a container that was given one.
pub record HasFreshIds (d : Db) : Type 0 where
  pub containers : All (λ c. c.id < d.containers.next_id) d.containers.rows
  pub overlays : All (λ o. o.container_id < d.containers.next_id) d.overlays.rows

pub none_has_id :
    (n m : ℕ) (rows : List ContainerRow)
    → m ≤ n
    → All (λ c. c.id < m) rows
    → count_where (has_id n) rows ≡ 0
none_has_id n m [] h a = refl
none_has_id n m (c ∷ rows) h a = ground (arith, none_has_id n m rows h a.1)

pub insert_mounts-containers :
    (id : ℕ) (ms : List MountDraft) (d : Db)
    → ((insert_mounts id ms d).containers ≡ d.containers)
      × ((insert_mounts id ms d).overlays ≡ d.overlays)
insert_mounts-containers id [] d = (refl, refl)
insert_mounts-containers id (m ∷ ms) d = insert_mounts-containers id ms _

-- A new row that stays its user's, and is not destroyed, adds one to that user's count.
active-new :
    (u n : ℕ) (f : ContainerRow → ContainerRow) (rows : List ContainerRow) (row : ContainerRow)
    → count_where (has_id n) rows ≡ 0
    → row.id ≡ n
    → (f row).user_id ≡ row.user_id
    → is_destroyed (f row).status ≡ false
    → count_where (is_active_of u) (update_where (has_id n) f (rows ++ row ∷ []))
      ≡ count_where (is_active_of u) rows + (if row.user_id == u then 1 else 0)
active-new u n f rows row h i o s =
    rw (update_where-append (has_id n) f rows (row ∷ []), update_where-none (has_id n) f rows h)
      (ground
        (arith, count_where-append (is_active_of u) rows (update_where (has_id n) f (row ∷ []))))

counted :
    (u user_id owner n m : ℕ) (q quota : QuotaRow)
    → m < q.max_containers
    → owner ≡ user_id
    → some q ≡ some quota
    → (u ≡ user_id → m ≡ n)
    → (k : ℕ) → k ≡ n + (if owner == u then 1 else 0)
    → (k ≡ n) ⊎ ((u ≡ user_id) × (k ≡ n + 1) × (n < quota.max_containers))
counted u user_id owner n m q quota h o t c k e = ground arith

module _ {R : Type 0} (host : Host R) where
  -- Where the ids are fresh and the user's tier resolves, `create` leaves the number of containers
  -- of every user (not destroyed, those in error included) as it was, whether it returns or throws;
  -- or it adds one for the calling user, who had fewer than the tier's `max_containers`.
  pub create_within_tier :
      (user_id : ℕ) (input : CreateInput) (is_admin : Bool) (w : World R) (quota : QuotaRow) (u : ℕ)
      → HasFreshIds w.db
      → tier_of user_id w.db ≡ some quota
      → let v = (create host user_id input is_admin w).1 in
        (active_containers u v.db ≡ active_containers u w.db)
        ⊎ ((u ≡ user_id)
            × (active_containers u v.db ≡ active_containers u w.db + 1)
            × (active_containers u w.db < quota.max_containers))
  unfolding record_running
  create_within_tier user_id input is_admin w quota u fresh tier =
      elim (create-Created host user_id input is_admin w) [
        | inl (x, e, f) ↦ inl (ap (active_containers u) f)
        | inr (row, image, q, a, owner, state, from, inl (x, e, f)) ↦
            counted u user_id row.user_id _ _ q quota a.fits.containers owner (cc (tier, a.tier))
              (λ p. ap (λ i. active_containers i w.db) (sym p)) _
              (ap (active_containers u) f
                ∙ active-new u next (mark_error x) rows (record row { id = next }) none_yet refl
                    refl refl)
        | inr (row, image, q, a, owner, state, from, inr (handle, drafts, e, f)) ↦
            counted u user_id row.user_id _ _ q quota a.fits.containers owner (cc (tier, a.tier))
              (λ p. ap (λ i. active_containers i w.db) (sym p)) _
              (ap (active_containers u) f ∙ running_count row handle drafts)
      ]
    where
      next : ℕ
      next = w.db.containers.next_id

      rows : List ContainerRow
      rows = w.db.containers.rows

      none_yet : count_where (has_id next) rows ≡ 0
      none_yet = none_has_id next next rows (omega arith) fresh.containers

      running_count :
          (row : ContainerRow) (handle : ContainerHandle) (drafts : List MountDraft)
          → active_containers u (record_running next handle drafts (insert_container_row row w.db))
            ≡ active_containers u w.db + (if row.user_id == u then 1 else 0)
      running_count row handle drafts =
          ap (λ t. count_where (is_active_of u) t.rows) (insert_mounts-containers next drafts _).0
          ∙ active-new u next (mark_running handle w.db.clock) rows (record row { id = next })
              none_yet refl refl refl
