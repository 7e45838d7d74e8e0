-- ===== src/Reaper.antt =====
-- scheduler/reaper.ts: the sweep that stops idle containers and purges the audit log. An update is
-- one action; between the read of the running containers and the section under a container's lock
-- other requests may run, so a reclaim takes the row that the sweep read.
pub mod Frame
pub mod Sweep
pub mod Tick
use Prim.Native.String.{◌++◌ as ◌<>◌}
use sandbox_platform.Prelude.{
  ℕ, ◌+◌, ◌*◌, max, String, Bool, true, false, not, ◌&&◌, Option, none, some, or_else, ◌==◌, ltb,
  if◌then◌else◌, List, [], ◌∷◌, select_where, update_where, count_where, ◌++◌, length, ◌++◌,
}
use sandbox_platform.Action.{Action, ◌>>=◌, ◌>>◌, pure, catch}
use sandbox_platform.Db.{Db}
use sandbox_platform.Db.Rows.{ContainerRow, SessionRow}
use sandbox_platform.Db.Queries.{container_by_id, is_running}
use sandbox_platform.Containers.Host.{Host, World, on_host, on_db, set_db, ask, handle_from_row}
use sandbox_platform.Containers.Create.{lift_outcome}
use sandbox_platform.Containers.Lifecycle.{mark_stopped}
use sandbox_platform.Containers.Snapshots.{snapshot}
use sandbox_platform.AuditLog.{Dialect, purge_audit_logs}

-- The configuration; `stamp` is the time as toISOString gives it, cut to minutes and digits, and
-- `iso` is toISOString.
pub record ReaperConfig : Type 0 where
  pub idle_auto_stop_hours : ℕ
  pub interval_minutes : ℕ
  pub auto_stop_snapshot : Bool
  pub snapshot_tier : String
  pub audit_retention_days : ℕ
  pub dialect : Dialect
  pub stamp : ℕ → String
  pub iso : ℕ → String

pub record Reclaimed : Type 0 where
  pub container_id : ℕ
  pub snapshot_id : Option ℕ

pub record ReaperSummary : Type 0 where
  pub scanned : ℕ
  pub reclaimed : List Reclaimed
  pub purged_audit_rows : ℕ

-- A column holds the milliseconds that the code reads from its text.
abbrev pub parse_db_utc : Option ℕ → ℕ
parse_db_utc t = or_else t 0

abbrev pub auto_snapshot_name : ReaperConfig → ℕ → String
auto_snapshot_name config now = config.snapshot_tier <> "-" <> config.stamp now

abbrev pub idle_ms : ReaperConfig → ℕ
idle_ms config = config.idle_auto_stop_hours * 3600 * 1000

-- SELECT MAX(COALESCE(ended_at, started_at)) … WHERE container_id = ?
abbrev pub latest_session : ℕ → List SessionRow → ℕ
latest_session id [] = 0
latest_session id (s ∷ rows) =
    max (if s.container_id == id then or_else s.ended_at s.started_at else 0)
      (latest_session id rows)

unfoldable pub last_activity_ms : ContainerRow → Db → ℕ
last_activity_ms row db =
    max (latest_session row.id db.sessions.rows) (parse_db_utc row.last_started_at)

-- not `Date.now() - (await lastActivityMs(row)) < idleMs`
unfoldable pub is_idle : ReaperConfig → ContainerRow → Db → Bool
unfolding last_activity_ms
is_idle config row db = not (ltb db.clock (idle_ms config + last_activity_ms row db))

-- status = 'stopped', auto_stopped = 1, and the times
abbrev pub mark_auto_stopped : ℕ → ContainerRow → ContainerRow
mark_auto_stopped now c = record (mark_stopped now c) {
  auto_stopped = true;
  auto_stopped_at = some now;
}

-- WHERE id = ? AND status = 'running'
abbrev pub runs_as : ℕ → ContainerRow → Bool
runs_as id c = c.id == id && is_running c.status

-- The row is as the sweep read it: running, since the same start.
unfoldable pub still_idle : ContainerRow → Option ContainerRow → Bool
still_idle row none = false
still_idle row (some fresh) =
    is_running fresh.status
    && parse_db_utc fresh.last_started_at == parse_db_utc row.last_started_at

module _ {R : Type 0} (host : Host R) (config : ReaperConfig) where
  unfoldable pub stop_row : ContainerRow → Action (World R) Bool
  stop_row row = do
    handle ← lift_outcome host (handle_from_row row)
    on_host (host.executor.stop handle)
    changes ← ask (λ db. count_where (runs_as row.id) db.containers.rows)
    set_db (λ db. record db {
      containers = record db.containers {
        rows = update_where (runs_as row.id) (mark_auto_stopped db.clock) db.containers.rows;
      };
    })
    pure (ltb 0 changes)

  -- The section under the lock, and whether it released the container.
  unfoldable pub release : ContainerRow → Action (World R) Bool
  unfolding stop_row
  release row = do
    same ← ask (λ db. still_idle row (container_by_id row.id db))
    if same then stop_row row else pure false

  -- A failure of the snapshot does not block the release.
  unfoldable pub auto_snapshot : ContainerRow → Action (World R) (Option ℕ)
  auto_snapshot row =
      catch
        (do
          now ← ask (λ db. db.clock)
          snap ←
              snapshot host row.id row.user_id (auto_snapshot_name config now)
                (some ("auto-stop at " <> config.iso now)) false false
          pure (some snap.id))
        (λ e. pure none)

  unfoldable pub snapshot_released : ContainerRow → Bool → Action (World R) (List Reclaimed)
  unfolding auto_snapshot
  snapshot_released row false = pure []
  snapshot_released row true = do
    taken ← if config.auto_stop_snapshot then auto_snapshot row else pure none
    pure (record { container_id = row.id; snapshot_id = taken } ∷ [])

  -- One container of the sweep; a failure is logged, and the sweep goes on.
  unfoldable pub reclaim : ContainerRow → Action (World R) (List Reclaimed)
  unfolding release snapshot_released
  reclaim row = catch (do snapshot_released row (← release row)) (λ e. pure [])

  unfoldable pub visit : ContainerRow → Action (World R) (List Reclaimed)
  unfolding reclaim
  visit row = do idle ← ask (is_idle config row); if idle then reclaim row else pure []

  unfoldable pub visit_all : List ContainerRow → Action (World R) (List Reclaimed)
  visit_all [] = pure []
  visit_all (row ∷ rows) = do here ← visit row; others ← visit_all rows; pure (here ++ others)

  unfoldable pub tick : Action (World R) ReaperSummary
  unfolding visit_all
  tick = do
    running ← ask (λ db. select_where (λ c. is_running c.status) db.containers.rows)
    reclaimed ← visit_all running
    purged ← on_db (purge_audit_logs config.dialect config.audit_retention_days)
    pure (record { scanned = length running; reclaimed = reclaimed; purged_audit_rows = purged })

-- The interval timer, by its period in milliseconds.
unfoldable pub start_timer : ReaperConfig → Option ℕ → Option ℕ
start_timer config (some timer) = some timer
start_timer config none = some (max config.interval_minutes 1 * 60 * 1000)

unfoldable pub stop_timer : Option ℕ → Option ℕ
stop_timer timer = none
