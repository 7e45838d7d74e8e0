-- ===== src/Tests/Sweeps.antt =====
-- The reaper on a container that last started an hour and more ago, and on one with a session in the
-- last hour; the audit log through two records and a purge.
use sandbox_platform.Prelude.{
  ℕ, ◌≤◌, ◌≡◌, ◌⊎◌, inr, refl, arith, true, false, some, none, String, map, [], ◌∷◌,
}
use sandbox_platform.Action.{ok}
use sandbox_platform.Db.{Db}
use sandbox_platform.Db.Rows.{Status, ContainerRow, LogEntry, LogStatus}
use sandbox_platform.Db.Queries.{container_by_id}
use sandbox_platform.Containers.Host.{World, handle_from_row}
use sandbox_platform.AuditLog.{
  LogState, LogRun, here, read, finished, purged, passed, begun, and_then, finish_record, Hashing,
  Dialect, record_log, purge_audit_logs, names_user, new_log, insert_log, purge_bound,
}
use sandbox_platform.AuditLog.Integrity.{IsIntact}
use sandbox_platform.AuditLog.Races.{IsRooted, HasOverlap, log-IsRooted}
use sandbox_platform.Reaper.{ReaperConfig, is_idle, mark_auto_stopped, tick}
use sandbox_platform.Reaper.Tick.{Stoppable, tick-keeps, tick-releases}
use sandbox_platform.Tests.{sample_db, sample_container, sample_host, sample_handle}

abbrev hourly : ReaperConfig
hourly = record {
  idle_auto_stop_hours = 1;
  interval_minutes = 30;
  auto_stop_snapshot = true;
  snapshot_tier = "auto";
  audit_retention_days = 0;
  dialect = Dialect.sqlite;
  stamp = λ t. "202608071630";
  iso = λ t. "2026-08-07T16:30:00.000Z";
}

abbrev idle_world : World ℕ
idle_world = record { db = record (sample_db Status.running) { clock = 4000000 }; runtime = 0 }

abbrev used_db : Db
used_db = record (sample_db Status.running) {
  clock = 4000000;
  sessions = record {
    rows =
        record {
          id = 1;
          container_id = 1;
          user_id = 1;
          client_ip = none;
          bytes_in = 0;
          bytes_out = 0;
          started_at = 100;
          ended_at = some 3900000;
        }
        ∷ [];
    next_id = 2;
  };
}

abbrev used_world : World ℕ
used_world = record { db = used_db; runtime = 0 }

abbrev box : ContainerRow
box = sample_container 1 1 Status.running

box-Stoppable : Stoppable sample_host hourly box
unfolding handle_from_row
box-Stoppable = record { handle = sample_handle; named = refl; stops = λ s. refl }

box_idle : is_idle hourly box idle_world.db ≡ true
unfolding is_idle
box_idle = refl

box_used : is_idle hourly box used_db ≡ false
unfolding is_idle
box_used = refl

tick-releases_example :
    container_by_id 1 ((tick sample_host hourly idle_world).1).db
    ≡ some (mark_auto_stopped 4000000 box)
tick-releases_example =
    tick-releases sample_host hourly box idle_world refl refl refl box_idle box-Stoppable

tick-keeps_example : container_by_id 1 ((tick sample_host hourly used_world).1).db ≡ some box
tick-keeps_example = tick-keeps sample_host hourly box used_world refl refl (inr box_used)

-- A digest that keeps its text shows the chain.
abbrev plain_hashing : Hashing
plain_hashing = record { canonical = λ e. e.action; digest = λ s. s }

abbrev entry_of : String → LogEntry
entry_of action = record {
  user_id = some 1;
  action = action;
  resource_type = "container";
  resource_id = some 1;
  detail = none;
  ip = none;
  status = LogStatus.success;
  error_message = none;
}

abbrev log_start : Db
log_start = sample_db Status.running

abbrev one_logged : Db
one_logged = (record_log plain_hashing (entry_of "a") log_start).1

abbrev two_logged : Db
two_logged = (record_log plain_hashing (entry_of "b") one_logged).1

two_hashes : map (λ r. r.hash) two_logged.operation_logs.rows ≡ some "a" ∷ some "ab" ∷ []
unfolding record_log finish_record insert_log names_user new_log
two_hashes = refl

abbrev much_later : Db
much_later = record two_logged { clock = 200000000 }

purged_count : (purge_audit_logs Dialect.postgres 1 much_later).0 ≡ ok 2
unfolding record_log finish_record insert_log names_user new_log purge_audit_logs purge_bound
purged_count = refl

later_enough : two_logged.clock ≤ 200000000
unfolding record_log finish_record insert_log names_user
later_enough = omega arith

abbrev idle : LogState
idle = record { db = log_start; waiting = [] }

-- One call of `record` after the other, and later a purge.
unfoldable in_turn :
    LogRun plain_hashing idle
      (record { db = (purge_audit_logs Dialect.postgres 1 much_later).1; waiting = [] })
unfolding finish_record insert_log names_user new_log record_log
in_turn =
    and_then
      (and_then
        (and_then
          (and_then
            (and_then (and_then begun (read (entry_of "a")))
              (finished (entry_of "a") "" [] (here [])))
            (read (entry_of "b")))
          (finished (entry_of "b") "a" [] (here [])))
        (passed 200000000 later_enough))
      (purged Dialect.postgres 1)

log-IsRooted_example :
    IsRooted plain_hashing [] (purge_audit_logs Dialect.postgres 1 much_later).1.operation_logs.rows
    × (IsIntact plain_hashing (purge_audit_logs Dialect.postgres 1 much_later).1
        ⊎ HasOverlap plain_hashing in_turn)
log-IsRooted_example = log-IsRooted plain_hashing in_turn refl refl

-- Two calls that both read before the first inserts: the second row goes on from no row, beside the first.
abbrev raced : Db
raced =
    (finish_record plain_hashing (entry_of "b") ""
      (finish_record plain_hashing (entry_of "a") "" log_start).1).1

forked : map (λ r. r.prev_hash) raced.operation_logs.rows ≡ some "" ∷ some "" ∷ []
unfolding finish_record insert_log names_user new_log
forked = refl
