-- ===== src/Reaper/Sweep.antt =====
-- scheduler/reaper.ts: which containers a sweep stops, and that it leaves the others alone.
use sandbox_platform.Prelude.{
  ℕ, ◌≡◌, ◌≢◌, ◌⊎◌, inl, inr, refl, ◌∙◌, String, Bool, true, false, Option, List, [], ◌∷◌, arith,
  All, All-mono, find_where-update,
}
use sandbox_platform.Db.{Db, Table}
use sandbox_platform.Db.Rows.{ContainerRow, SessionRow}
use sandbox_platform.Db.Queries.{container_by_id}
use sandbox_platform.Containers.Host.{Host, World}
use sandbox_platform.Containers.Create.{has_id}
use sandbox_platform.Reaper.{
  ReaperConfig, last_activity_ms, is_idle, mark_auto_stopped, runs_as, stop_row, release,
  auto_snapshot, snapshot_released, reclaim, visit, visit_all,
}
use sandbox_platform.Reaper.Frame.{frame, snapshot-frame}

-- What the sweep reads of one container.
abbrev pub view : ℕ → Db → Option ContainerRow × Table SessionRow × ℕ
view id d = (container_by_id id d, d.sessions, d.clock)

pub view-frame : (id : ℕ) (d e : Db) → frame e ≡ frame d → view id e ≡ view id d
view-frame id d e h = ground (arith, h)

module _ {R : Type 0} (host : Host R) (config : ReaperConfig) where
  auto_snapshot-frame :
      (row : ContainerRow) (w : World R)
      → frame ((auto_snapshot host config row w).1).db ≡ frame w.db
  unfolding auto_snapshot
  auto_snapshot-frame row w = grind (
    arith,
    λ (name : String) (description : Option String).
        snapshot-frame host row.id row.user_id name description false,
  )

  pub released-frame :
      (row : ContainerRow) (b : Bool) (w : World R)
      → frame ((snapshot_released host config row b w).1).db ≡ frame w.db
  unfolding snapshot_released
  released-frame row true w = ground (arith, auto_snapshot-frame row w)
  released-frame row false w = refl

  -- Stopping one container leaves another as it was.
  stop_row-view :
      (row : ContainerRow) (other : ℕ) (w : World R)
      → row.id ≢ other
      → view other ((stop_row host config row w).1).db ≡ view other w.db
  unfolding stop_row
  stop_row-view row other w h = ground (
    arith,
    find_where-update (runs_as row.id) (has_id other) (mark_auto_stopped w.db.clock)
        w.db.containers.rows (λ c e. ground arith) (λ c e. ground arith),
  )

  pub visit-view :
      (row : ContainerRow) (other : ℕ) (w : World R)
      → row.id ≢ other
      → view other ((visit host config row w).1).db ≡ view other w.db
  unfolding visit reclaim release
  visit-view row other w h = grind (arith, stop_row-view row other w h, released-frame row)

  -- Whether a row is idle depends on the sessions and the clock.
  pub is_idle-view :
      (x : ContainerRow) (other : ℕ) (d e : Db)
      → view other e ≡ view other d
      → is_idle config x e ≡ is_idle config x d
  unfolding is_idle last_activity_ms
  is_idle-view x other d e h = ground (arith, h)

  abbrev pub Skipped : ℕ → Db → ContainerRow → Type 0
  Skipped other d x = (x.id ≢ other) ⊎ (is_idle config x d ≡ false)

  visit-Skipped :
      (x : ContainerRow) (other : ℕ) (w : World R)
      → Skipped other w.db x
      → view other ((visit host config x w).1).db ≡ view other w.db
  visit-Skipped x other w (inl h) = visit-view x other w h
  visit-Skipped x other w (inr e) = unfold visit in ground arith

  later-Skipped :
      (other : ℕ) (d e : Db)
      → view other e ≡ view other d
      → (x : ContainerRow) → Skipped other d x
      → Skipped other e x
  later-Skipped other d e h x (inl k) = inl k
  later-Skipped other d e h x (inr k) = inr (is_idle-view x other d e h ∙ k)

  pub visit_all-Skipped :
      (rows : List ContainerRow) (other : ℕ) (w : World R)
      → All (Skipped other w.db) rows
      → view other ((visit_all host config rows w).1).db ≡ view other w.db
  unfolding visit_all
  visit_all-Skipped [] other w h = refl
  visit_all-Skipped (x ∷ rows) other w h = ground (
    arith,
    first,
    visit_all-Skipped rows other v (
        All-mono (Skipped other w.db) (Skipped other v.db) rows
          (later-Skipped other w.db v.db first) h.1),
  )
    where
      v : World R
      v = (visit host config x w).1

      first : view other v.db ≡ view other w.db
      first = visit-Skipped x other w h.0
