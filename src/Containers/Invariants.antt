-- ===== src/Containers/Invariants.antt =====
-- What every method keeps: fresh ids, one current overlay for a container, and other containers.
use sandbox_platform.Prelude.{
  Bool-cases, ℕ, suc, ◌≤◌, ◌<◌, ◌≡◌, refl, inl, inr, Bool, false, ◌&&◌, List, [], ◌∷◌, ◌++◌, arith,
  All, All-update, All-delete, All-append, All-mono, count_where, count_where-append,
  count_where-delete_le, update_where,
}
use sandbox_platform.Db.{Db}
use sandbox_platform.Db.Rows.{ContainerRow, OverlayRow}
use sandbox_platform.Containers.Host.{Host, World, ContainerHandle}
use sandbox_platform.Containers.Create.{
  has_id, update_container, mark_error, record_running, insert_container_row, CreateInput, create,
}
use sandbox_platform.Containers.Lifecycle.{
  overlay_of, record_restored, start, stop, destroy, restore_snapshot,
}
use sandbox_platform.Containers.Writes.{
  Write, Writes, ran, restored, restore_failed, stopped, cleared, torn_down, nothing, after,
  lifecycle-Writes,
}
use sandbox_platform.Action.{AppError}
use sandbox_platform.Containers.Mounts.{MountDraft}
use sandbox_platform.Containers.Create.{insert_overlay, mark_running}
use sandbox_platform.Containers.Creation.{create-Created}
use sandbox_platform.Containers.Capacity.{HasFreshIds, insert_mounts-containers}

abbrev pub is_current_of : ℕ → OverlayRow → Bool
is_current_of c o = overlay_of c o && o.is_current

-- Every container has at most one current overlay.
pub record OneCurrent (d : Db) : Type 0 where
  pub at : (c : ℕ) → count_where (is_current_of c) d.overlays.rows ≤ 1

-- A demotion leaves the container no current overlay, and adds none to another.
demoted :
    (c id : ℕ) (rows : List OverlayRow)
    → let rows' = update_where (overlay_of id) (λ o. record o { is_current = false }) rows in
      (count_where (is_current_of c) rows' ≤ count_where (is_current_of c) rows)
      × (c ≡ id → count_where (is_current_of c) rows' ≡ 0)
demoted c id [] = ground arith
demoted c id (o ∷ rows) = ground (arith, demoted c id rows)

-- The current overlay that is inserted after a demotion is the only one.
promoted :
    (c id : ℕ) (rows : List OverlayRow) (o : OverlayRow)
    → o.container_id ≡ id
    → count_where (is_current_of c) rows ≤ 1
    → count_where
        (is_current_of c)
        (update_where (overlay_of id) (λ o. record o { is_current = false }) rows ++ o ∷ [])
      ≤ 1
promoted c id rows o e h =
    rw
      (count_where-append (is_current_of c)
        (update_where (overlay_of id) (λ o. record o { is_current = false }) rows) (o ∷ []))
      (ground (arith, demoted c id rows))

Write-OneCurrent : (id : ℕ) (d e : Db) → Write id d e → OneCurrent d → OneCurrent e
unfolding record_restored
Write-OneCurrent id d e (ran handle q) h = rw q (record { at = h.at })
Write-OneCurrent id d e (restored handle size k q) h =
    rw q (record { at = λ c. promoted c id d.overlays.rows _ refl (h.at c) })
Write-OneCurrent id d e (restore_failed x q) h = rw q (record { at = h.at })
Write-OneCurrent id d e (stopped q) h = rw q (record { at = h.at })
Write-OneCurrent id d e (cleared q) h = rw q (record { at = h.at })
Write-OneCurrent id d e (torn_down q) h = rw q (record {
  at = λ c.
      ground
        (arith, h.at c, count_where-delete_le (overlay_of id) (is_current_of c) d.overlays.rows);
})

known_below :
    (id m : ℕ) (rows : List ContainerRow)
    → 0 < count_where (has_id id) rows
    → All (λ c. c.id < m) rows
    → id < m
known_below id m [] h a = ground arith
known_below id m (c ∷ rows) h a = elim (Bool-cases (has_id id c)) [
  | inl e ↦ ground (arith, a.0)
  | inr e ↦ known_below id m rows (ground arith) a.1
]

Write-HasFreshIds : (id : ℕ) (d e : Db) → Write id d e → HasFreshIds d → HasFreshIds e
unfolding record_restored
Write-HasFreshIds id d e (ran handle q) h = rw q (record {
  containers = All-update _ _ _ d.containers.rows (λ c k. k) h.containers;
  overlays = h.overlays;
})
Write-HasFreshIds id d e (restored handle size k q) h = rw q (record {
  containers = All-update _ _ _ d.containers.rows (λ c k. k) h.containers;
  overlays =
      All-append _
        (update_where (overlay_of id) (λ o. record o { is_current = false }) d.overlays.rows)
        (_ ∷ [])
        (All-update _ (overlay_of id) (λ o. record o { is_current = false }) d.overlays.rows
          (λ o k. k) h.overlays)
        (known_below id d.containers.next_id d.containers.rows k h.containers, tt);
})
Write-HasFreshIds id d e (restore_failed x q) h = rw q (record {
  containers = All-update _ _ _ d.containers.rows (λ c k. k) h.containers;
  overlays = h.overlays;
})
Write-HasFreshIds id d e (stopped q) h = rw q (record {
  containers = All-update _ _ _ d.containers.rows (λ c k. k) h.containers;
  overlays = h.overlays;
})
Write-HasFreshIds id d e (cleared q) h = rw q (record {
  containers = All-update _ _ _ d.containers.rows (λ c k. k) h.containers;
  overlays = h.overlays;
})
Write-HasFreshIds id d e (torn_down q) h = rw q (record {
  containers = All-update _ _ _ d.containers.rows (λ c k. k) h.containers;
  overlays = All-delete _ _ d.overlays.rows h.overlays;
})

-- What the rows of a database have in common: fresh ids, and one current overlay at most.
pub record WellFormed (d : Db) : Type 0 where
  pub fresh : HasFreshIds d
  pub current : OneCurrent d

Writes-WellFormed : (id : ℕ) (d e : Db) → Writes id d e → WellFormed d → WellFormed e
Writes-WellFormed id d e (nothing _ q) h = rw q h
Writes-WellFormed id d e (after g _ k s) h =
    let b = Writes-WellFormed id d g k h in
    record {
      fresh = Write-HasFreshIds id g e s b.fresh;
      current = Write-OneCurrent id g e s b.current;
    }

-- No overlay belongs to an id that is not given yet.
none_current :
    (c m : ℕ) (rows : List OverlayRow)
    → m ≤ c
    → All (λ o. o.container_id < m) rows
    → count_where (is_current_of c) rows ≡ 0
none_current c m [] h a = refl
none_current c m (o ∷ rows) h a = ground (arith, a.0, none_current c m rows h a.1)

one_more :
    (c m : ℕ) (rows : List OverlayRow) (o : OverlayRow)
    → All (λ p. p.container_id < m) rows
    → o.container_id ≡ m
    → count_where (is_current_of c) rows ≤ 1
    → count_where (is_current_of c) (rows ++ o ∷ []) ≤ 1
one_more c m rows o a e h =
    rw (count_where-append (is_current_of c) rows (o ∷ [])) (elim (Bool-cases (is_current_of c o)) [
      | inl q ↦ ground (arith, none_current c m rows (ground arith) a)
      | inr q ↦ ground arith
    ])

below_next :
    (m : ℕ) (rows : List ContainerRow) → All (λ c. c.id < m) rows → All (λ c. c.id < suc m) rows
below_next m rows a = All-mono (λ c. c.id < m) (λ c. c.id < suc m) rows (λ c k. omega arith) a

created_rows :
    (f : ContainerRow → ContainerRow) (row : ContainerRow) (d : Db)
    → ((c : ContainerRow) → (f c).id ≡ c.id)
    → HasFreshIds d
    → All
        (λ c. c.id < suc d.containers.next_id)
        (update_where (has_id d.containers.next_id) f (insert_container_row row d).containers.rows)
created_rows f row d k h =
    All-update (λ c. c.id < suc d.containers.next_id) (has_id d.containers.next_id) f
      (insert_container_row row d).containers.rows (λ c l. rw (k c) l)
      (All-append (λ c. c.id < suc d.containers.next_id) d.containers.rows (_ ∷ [])
        (below_next d.containers.next_id d.containers.rows h.containers) (omega arith, tt))

older :
    (d : Db) → HasFreshIds d → All (λ o. o.container_id < suc d.containers.next_id) d.overlays.rows
older d h = All-mono _ _ d.overlays.rows (λ o k. omega arith) h.overlays

failed-WellFormed :
    (x : AppError) (row : ContainerRow) (d : Db)
    → WellFormed d
    → WellFormed (update_container d.containers.next_id (mark_error x) (insert_container_row row d))
failed-WellFormed x row d h = record {
  fresh = record {
    containers = created_rows (mark_error x) row d (λ c. refl) h.fresh;
    overlays = older d h.fresh;
  };
  current = record { at = h.current.at };
}

running-WellFormed :
    (handle : ContainerHandle) (drafts : List MountDraft) (row : ContainerRow) (d : Db)
    → WellFormed d
    → WellFormed (record_running d.containers.next_id handle drafts (insert_container_row row d))
unfolding record_running
running-WellFormed handle drafts row d h =
    let next = d.containers.next_id in
    let (e, f) = insert_mounts-containers next drafts (
      insert_overlay next handle.overlay_path 0
        (update_container next (mark_running handle d.clock) (insert_container_row row d))) in
    record {
      fresh = record {
        containers = rw e (created_rows (mark_running handle d.clock) row d (λ c. refl) h.fresh);
        overlays =
            rw (e, f) (All-append _ d.overlays.rows (_ ∷ []) (older d h.fresh) (omega arith, tt));
      };
      current = record {
        at = λ c. rw f (one_more c next d.overlays.rows _ h.fresh.overlays refl (h.current.at c));
      };
    }

module _ {R : Type 0} (host : Host R) where
  -- `create` keeps a database well-formed (fresh ids, and at most one current overlay for a
  -- container), whatever it returns or throws and whatever the executor answers.
  pub create-WellFormed :
      (user_id : ℕ) (input : CreateInput) (is_admin : Bool) (w : World R)
      → WellFormed w.db
      → WellFormed (create host user_id input is_admin w).1.db
  create-WellFormed user_id input is_admin w h =
      elim (create-Created host user_id input is_admin w) [
        | inl (x, e, f) ↦ rw f h
        | inr (row, image, q, a, owner, state, from, inl (x, e, f)) ↦
            rw f (failed-WellFormed x row w.db h)
        | inr (row, image, q, a, owner, state, from, inr (handle, drafts, e, f)) ↦
            rw f (running-WellFormed handle drafts row w.db h)
      ]

  -- start, stop, destroy and restoreSnapshot keep a database well-formed (fresh ids, and at most one
  -- current overlay for a container), whatever they return or throw and whatever the executor
  -- answers.
  pub lifecycle-WellFormed :
      (id snapshot_id user_id : ℕ) (is_admin : Bool) (w : World R)
      → WellFormed w.db
      → WellFormed (start host id user_id is_admin w).1.db
        × WellFormed (stop host id user_id is_admin w).1.db
        × WellFormed (destroy host id user_id is_admin w).1.db
        × WellFormed (restore_snapshot host id snapshot_id user_id is_admin w).1.db
  lifecycle-WellFormed id snapshot_id user_id is_admin w h =
      let (a, b, c, d) = lifecycle-Writes host id snapshot_id user_id is_admin w in
      (
        Writes-WellFormed id _ _ a h,
        Writes-WellFormed id _ _ b h,
        Writes-WellFormed id _ _ c h,
        Writes-WellFormed id _ _ d h,
      )
