-- ===== src/Reaper/Tick.antt =====
-- scheduler/reaper.ts: what one sweep does to each container.
use sandbox_platform.Prelude.{
  ℕ, ◌≡◌, ◌⊎◌, inl, inr, refl, ap, ◌∙◌, Bool, true, false, some, List, [], ◌∷◌, arith, All, ◌==◌,
  if◌then◌else◌, find_where, find_where-update_kept, select_where, count_where, Bool-cases,
}
use sandbox_platform.Action.{ok, Outcome-cases}
use sandbox_platform.Db.{Db}
use sandbox_platform.Db.Rows.{ContainerRow}
use sandbox_platform.Db.Queries.{container_by_id, is_running}
use sandbox_platform.Containers.Host.{Host, World, ContainerHandle, handle_from_row}
use sandbox_platform.Containers.Create.{has_id}
use sandbox_platform.AuditLog.{Dialect, purge_audit_logs}
use sandbox_platform.Reaper.{
  ReaperConfig, Reclaimed, is_idle, mark_auto_stopped, runs_as, still_idle, stop_row, release,
  reclaim, visit, visit_all, tick,
}
use sandbox_platform.Reaper.Sweep.{
  view, released-frame, visit-view, is_idle-view, Skipped, visit_all-Skipped,
}

abbrev runs : ContainerRow → Bool
runs c = is_running c.status

select-none :
    (rows : List ContainerRow) (id : ℕ)
    → count_where (has_id id) rows ≡ 0
    → count_where (has_id id) (select_where runs rows) ≡ 0
select-none [] id e = refl
select-none (x ∷ rows) id e = ground (arith, select-none rows id)

module _ {R : Type 0} (host : Host R) (config : ReaperConfig) where
  -- The executor stops the instance of this row, whatever the state it is in.
  pub record Stoppable (row : ContainerRow) : Type 0 where
    pub handle : ContainerHandle
    pub named : handle_from_row row ≡ ok handle
    pub stops : (s : R) → (host.executor.stop handle s).0 ≡ ok tt

  stop_row-hit :
      (row : ContainerRow) (w : World R)
      → container_by_id row.id w.db ≡ some row
      → is_running row.status ≡ true
      → Stoppable row
      → view row.id ((stop_row host config row w).1).db
        ≡ (some (mark_auto_stopped w.db.clock row), w.db.sessions, w.db.clock)
  unfolding stop_row
  stop_row-hit row w found running st = ground (
    arith,
    st.named,
    st.stops w.runtime,
    find_where-update_kept (has_id row.id) (runs_as row.id) (mark_auto_stopped w.db.clock)
        w.db.containers.rows row (λ c. refl) found,
  )

  visit-hit :
      (row : ContainerRow) (w : World R)
      → container_by_id row.id w.db ≡ some row
      → is_running row.status ≡ true
      → is_idle config row w.db ≡ true
      → Stoppable row
      → view row.id ((visit host config row w).1).db
        ≡ (some (mark_auto_stopped w.db.clock row), w.db.sessions, w.db.clock)
  unfolding visit reclaim release still_idle
  visit-hit row w found running idle st =
      grind (arith, stop_row-hit row w found running st, released-frame host config row)

  -- A failure on one container does not end the sweep.
  visit-answers :
      (row : ContainerRow) (w : World R)
      → (l : List Reclaimed) × ((visit host config row w).0 ≡ ok l)
  unfolding visit reclaim
  visit-answers row w = elim (Outcome-cases ((visit host config row w).0)) [
    | inl a ↦ a
    | inr (x, e) ↦ absurd (ground arith)
  ]

  absent-Skipped :
      (rows : List ContainerRow) (other : ℕ) (d : Db)
      → count_where (has_id other) rows ≡ 0
      → All (Skipped host config other d) rows
  absent-Skipped [] other d e = tt
  absent-Skipped (x ∷ rows) other d e =
      (inl (λ h. absurd (ground arith)), absent-Skipped rows other d (ground arith))

  visit_all-hit :
      (rows : List ContainerRow) (row : ContainerRow) (w : World R)
      → find_where (has_id row.id) rows ≡ some row
      → count_where (has_id row.id) rows ≡ 1
      → container_by_id row.id w.db ≡ some row
      → is_running row.status ≡ true
      → is_idle config row w.db ≡ true
      → Stoppable row
      → container_by_id row.id ((visit_all host config rows w).1).db
        ≡ some (mark_auto_stopped w.db.clock row)
  unfolding visit_all
  visit_all-hit [] row w h one found running idle st = absurd (ground arith)
  visit_all-hit (x ∷ rows) row w h one found running idle st = elim (Bool-cases (x.id == row.id)) [
    | inl e ↦ ground (
      arith,
      here e,
      (visit-answers x w).1,
      visit-hit row w found running idle st,
      visit_all-Skipped host config rows row.id v (absent-Skipped rows row.id v.db (ground arith)),
    )
    | inr e ↦ ground (
      arith,
      past e,
      (visit-answers x w).1,
      visit_all-hit rows row v (ground arith) (ground arith) (ground (arith, past e)) running
          (is_idle-view host config row row.id w.db v.db (past e) ∙ idle) st,
    )
  ]
    where
      v : World R
      v = (visit host config x w).1

      here : (x.id == row.id) ≡ true → x ≡ row
      here e = ground arith

      past : (x.id == row.id) ≡ false → view row.id v.db ≡ view row.id w.db
      past e = visit-view host config x row.id w (λ k. absurd (ground arith))

  select-one :
      (rows : List ContainerRow) (row : ContainerRow)
      → find_where (has_id row.id) rows ≡ some row
      → count_where (has_id row.id) rows ≡ 1
      → runs row ≡ true
      → (find_where (has_id row.id) (select_where runs rows) ≡ some row)
        × (count_where (has_id row.id) (select_where runs rows) ≡ 1)
  select-one [] row h one e = absurd (ground arith)
  select-one (x ∷ rows) row h one e = ground (arith, select-one rows row, select-none rows row.id)

  purge-view :
      (other : ℕ) (dialect : Dialect) (days : ℕ) (d : Db)
      → view other ((purge_audit_logs dialect days d).1) ≡ view other d
  unfolding purge_audit_logs
  purge-view other dialect days d = ground arith

  tick-view :
      (other : ℕ) (w : World R)
      → view other ((tick host config w).1).db
        ≡ view other ((visit_all host config (select_where runs w.db.containers.rows) w).1).db
  unfolding tick
  tick-view other w = grind (arith, purge-view other config.dialect config.audit_retention_days)

  -- The head of a selection, where it is selected.
  All-if :
      (P : ContainerRow → Type 0) (b : Bool) (x : ContainerRow) (rest : List ContainerRow)
      → (b ≡ true → P x)
      → All P rest
      → All P (if b then x ∷ rest else rest)
  All-if P true x rest h a = (h refl, a)
  All-if P false x rest h a = a

  kept-Skipped :
      (rows : List ContainerRow) (row : ContainerRow) (d : Db)
      → find_where (has_id row.id) rows ≡ some row
      → count_where (has_id row.id) rows ≡ 1
      → (is_running row.status ≡ false) ⊎ (is_idle config row d ≡ false)
      → All (Skipped host config row.id d) (select_where runs rows)
  kept-Skipped [] row d h one k = tt
  kept-Skipped (x ∷ rows) row d h one k = elim (Bool-cases (x.id == row.id)) [
    | inl e ↦
        All-if (Skipped host config row.id d) (runs x) x (select_where runs rows)
          (λ r. skip (ground arith) r k)
          (absent-Skipped (select_where runs rows) row.id d
            (select-none rows row.id (ground arith)))
    | inr e ↦
        All-if (Skipped host config row.id d) (runs x) x (select_where runs rows)
          (λ r. inl (λ f. absurd (ground arith)))
          (kept-Skipped rows row d (ground arith) (ground arith) k)
  ]
    where
      skip :
          x ≡ row
          → runs x ≡ true
          → (is_running row.status ≡ false) ⊎ (is_idle config row d ≡ false)
          → Skipped host config row.id d x
      skip e r (inl f) = absurd (ground (arith, e))
      skip e r (inr f) = inr (ap (λ c. is_idle config c d) e ∙ f)

  -- A container that is not running, or was active within the threshold, is as it was after a sweep
  -- that no other request interrupts, whichever other containers it stops or fails to stop.
  pub tick-keeps :
      (row : ContainerRow) (w : World R)
      → container_by_id row.id w.db ≡ some row
      → count_where (has_id row.id) w.db.containers.rows ≡ 1
      → (is_running row.status ≡ false) ⊎ (is_idle config row w.db ≡ false)
      → container_by_id row.id ((tick host config w).1).db ≡ some row
  tick-keeps row w found one k = ground (
    arith,
    tick-view row.id w,
    visit_all-Skipped host config (select_where runs w.db.containers.rows) row.id w
        (kept-Skipped w.db.containers.rows row w.db found one k),
  )

  -- A running container that has been idle for the threshold is, after a sweep that no other request
  -- interrupts, stopped and marked as auto-stopped, as long as the executor stops its instance:
  -- whether or not its snapshot succeeds, and whatever fails on other containers.
  pub tick-releases :
      (row : ContainerRow) (w : World R)
      → container_by_id row.id w.db ≡ some row
      → count_where (has_id row.id) w.db.containers.rows ≡ 1
      → is_running row.status ≡ true
      → is_idle config row w.db ≡ true
      → Stoppable row
      → container_by_id row.id ((tick host config w).1).db ≡ some (mark_auto_stopped w.db.clock row)
  tick-releases row w found one running idle st =
      let s = select-one w.db.containers.rows row found one running in
      ground (
        arith,
        tick-view row.id w,
        visit_all-hit (select_where runs w.db.containers.rows) row w s.0 s.1 found running idle st,
      )
