-- ===== src/AuditLog.antt =====
-- services/log.service.ts, and the purge of scheduler/reaper.ts: the audit log and its chain of
-- hashes.
pub mod Integrity
pub mod Races
use sandbox_platform.Prelude.{
  ℕ, ◌≤◌, ◌+◌, ◌-◌, ◌*◌, ◌/◌, min, ◌||◌, take, drop, reverse, String, Bool, true, false, not, ◌&&◌,
  Option, none, some, or_else, is_some, ◌==◌, ltb, leb, str_eq, if◌then◌else◌, any_where,
  find_last_where, select_where, count_where, update_where, List, [], ◌∷◌, length,
}
use Prim.Native.String.{◌++◌ as ◌<>◌}
use sandbox_platform.Action.{Action, Outcome, ok, err, failure, catch, gets, ◌>>=◌, AppError}
use sandbox_platform.Db.{Db, Table, insert_row, with_rows}
use sandbox_platform.Db.Rows.{LogEntry, LogRow, LogStatus}

-- `canonical` is JSON.stringify of the array of the entry's fields, and `digest` is SHA-256 of a
-- text, in hexadecimal.
pub record Hashing : Type 0 where
  pub canonical : LogEntry → String
  pub digest : String → String

-- Rows that are hashed and not purged.
abbrev pub is_live : LogRow → Bool
is_live r = is_some r.hash && not (is_some r.purged_at)

-- `last?.hash ?? ""`
abbrev pub last_hash : List LogRow → String
last_hash rows = elim (find_last_where is_live rows) [ none ↦ "" | some r ↦ or_else r.hash "" ]

-- REFERENCES users(id): a user that is not there is refused.
unfoldable pub names_user : Db → Option ℕ → Bool
names_user db none = true
names_user db (some i) = any_where (λ u. u.id == i) db.users.rows

unfoldable pub new_log : Hashing → LogEntry → String → ℕ → ℕ → LogRow
new_log hashing entry prev now id = record {
  id = id;
  entry = entry;
  prev_hash = some prev;
  hash = some (hashing.digest (prev <> hashing.canonical entry));
  purged_at = none;
  created_at = now;
}

-- The SELECT of the last hash, which is awaited: other calls may run before the INSERT.
abbrev pub read_last : Action Db String
read_last = gets (λ db. last_hash db.operation_logs.rows)

abbrev pub inserted : Hashing → LogEntry → String → Db → Db
inserted hashing entry prev db = record db {
  operation_logs = insert_row (new_log hashing entry prev db.clock) db.operation_logs;
}

-- INSERT INTO operation_logs, whether or not the foreign key holds
abbrev pub insert_checked : Hashing → LogEntry → String → Bool → Action Db (Unit {0})
insert_checked hashing entry prev true db = (ok tt, inserted hashing entry prev db)
insert_checked hashing entry prev false db = (err (failure "FOREIGN KEY constraint failed"), db)

unfoldable pub insert_log : Hashing → LogEntry → String → Action Db (Unit {0})
insert_log hashing entry prev db =
    insert_checked hashing entry prev (names_user db entry.user_id) db

-- The rest of `record`, with the hash that was read: a failure is logged, and the request goes on.
unfoldable pub finish_record : Hashing → LogEntry → String → Action Db (Unit {0})
finish_record hashing entry prev = catch (insert_log hashing entry prev) (λ e db. (ok tt, db))

-- A call of `record` with no other between its two statements.
unfoldable pub record_log : Hashing → LogEntry → Action Db (Unit {0})
unfolding finish_record
record_log hashing entry = read_last >>= finish_record hashing entry

-- The database, and the calls of `record` that have read the last hash and not yet inserted.
pub record LogState : Type 0 where
  pub db : Db
  pub waiting : List (LogEntry × String)

-- One of the calls goes on; the others wait.
pub data Taken (x : LogEntry × String)
    : List (LogEntry × String) → List (LogEntry × String) → Type 0 where
  here : (l : List (LogEntry × String)) → Taken x (x ∷ l) l
  there :
      (y : LogEntry × String) (l m : List (LogEntry × String))
      → Taken x l m
      → Taken x (y ∷ l) (y ∷ m)

-- What `list` filters by; `like` is the database's LIKE.
pub record LogQuery : Type 0 where
  pub user_id : Option ℕ
  pub action : Option String
  pub resource_type : Option String
  pub resource_id : Option ℕ
  pub status : Option LogStatus
  pub limit : Option ℕ
  pub offset : Option ℕ

abbrev pub same_id : Option ℕ → Option ℕ → Bool
same_id none column = true
same_id (some i) none = false
same_id (some i) (some j) = j == i

-- `if (text) where.push(…)`: no text and the empty one ask for nothing.
abbrev pub holds_text : (String → Bool) → Option String → Bool
holds_text test none = true
holds_text test (some s) = str_eq s "" || test s

abbrev pub is_success : LogStatus → Bool
is_success LogStatus.success = true
is_success LogStatus.failure = false

abbrev pub same_status : Option LogStatus → LogStatus → Bool
same_status none column = true
same_status (some LogStatus.success) column = is_success column
same_status (some LogStatus.failure) column = not (is_success column)

module _ (like : String → String → Bool) where
  unfoldable pub matches : LogQuery → LogRow → Bool
  matches query r =
      not (is_some r.purged_at)
      && same_id query.user_id r.entry.user_id
      && holds_text (λ s. like r.entry.action ("%" <> s <> "%")) query.action
      && holds_text (str_eq r.entry.resource_type) query.resource_type
      && same_id query.resource_id r.entry.resource_id
      && same_status query.status r.entry.status

  unfoldable pub list_logs : LogQuery → Db → List LogRow × ℕ
  list_logs query db =
      let rows = db.operation_logs.rows in
      let limit = min (or_else query.limit 50) 500 in
      (
        take limit (drop (or_else query.offset 0) (reverse (select_where (matches query) rows))),
        count_where (matches query) rows,
      )

-- The database's dialect, whose timestamps have seconds or milliseconds.
pub data Dialect : Type 0 where
  sqlite postgres : Dialect

-- The cutoff, in milliseconds, in the shape of the column.
unfoldable pub purge_bound : Dialect → ℕ → ℕ → ℕ
purge_bound sqlite days now = (now - days * 86400 * 1000) / 1000 * 1000
purge_bound postgres days now = now - days * 86400 * 1000

abbrev pub is_purgeable : ℕ → LogRow → Bool
is_purgeable bound r = ltb r.created_at bound && not (is_some r.purged_at)

abbrev pub mark_purged : ℕ → LogRow → LogRow
mark_purged now r = record r { purged_at = some now }

-- reaper.ts purgeAuditLogs, and how many rows it marks; no retention time marks none.
unfoldable pub purge_audit_logs : Dialect → ℕ → Action Db ℕ
unfolding purge_bound
purge_audit_logs dialect days db =
    let bound = purge_bound dialect days db.clock in
    if days == 0 then (ok 0, db) else (
      ok (count_where (is_purgeable bound) db.operation_logs.rows),
      record db {
        operation_logs =
            with_rows (update_where (is_purgeable bound) (mark_purged db.clock)) db.operation_logs;
      },
    )

-- What happens to the log, in any order: a call of `record` reads the last hash; one that has read it
-- inserts its row, or fails to; the reaper purges; and the clock goes on.
pub data LogStep (hashing : Hashing) (s : LogState) : LogState → Type 0 where
  read :
      (entry : LogEntry)
      → LogStep hashing s
          (record { db = s.db; waiting = (entry, last_hash s.db.operation_logs.rows) ∷ s.waiting })
  finished :
      (entry : LogEntry) (prev : String) (rest : List (LogEntry × String))
      → Taken (entry, prev) s.waiting rest
      → LogStep hashing s
          (record { db = (finish_record hashing entry prev s.db).1; waiting = rest })
  purged :
      (dialect : Dialect) (days : ℕ)
      → LogStep hashing s
          (record { db = (purge_audit_logs dialect days s.db).1; waiting = s.waiting })
  passed :
      (now : ℕ)
      → s.db.clock ≤ now
      → LogStep hashing s (record { db = record s.db { clock = now }; waiting = s.waiting })

pub data LogRun (hashing : Hashing) (a : LogState) : LogState → Type 0 where
  begun : LogRun hashing a a
  and_then : {b c : LogState} → LogRun hashing a b → LogStep hashing b c → LogRun hashing a c
