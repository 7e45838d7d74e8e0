-- ===== src/Containers/Sessions.antt =====
-- container.service.ts openSession and closeSession: the record of a connection to a container.
use sandbox_platform.Prelude.{
  ℕ, ◌≡◌, String, Bool, Option, none, some, arith, ◌==◌, count_where, find_where, update_where,
  find_where-append_new, find_where-update_self, ==-refl,
}
use sandbox_platform.Action.{ok, Action, ◌>>=◌, ◌>>◌, pure}
use sandbox_platform.Db.{Db, insert_row, with_rows}
use sandbox_platform.Db.Rows.{SessionRow}
use sandbox_platform.World.{World, set_db, ask}

abbrev pub has_session_id : ℕ → SessionRow → Bool
has_session_id id s = s.id == id

abbrev pub new_session : ℕ → ℕ → Option String → ℕ → ℕ → SessionRow
new_session container_id user_id client_ip now id = record {
  id = id;
  container_id = container_id;
  user_id = user_id;
  client_ip = client_ip;
  bytes_in = 0;
  bytes_out = 0;
  started_at = now;
  ended_at = none;
}

abbrev pub end_session : ℕ → ℕ → ℕ → SessionRow → SessionRow
end_session now bytes_in bytes_out s = record s {
  bytes_in = bytes_in;
  bytes_out = bytes_out;
  ended_at = some now;
}

abbrev pub insert_session : ℕ → ℕ → Option String → Db → Db
insert_session container_id user_id client_ip db = record db {
  sessions = insert_row (new_session container_id user_id client_ip db.clock) db.sessions;
}

abbrev pub close_row : ℕ → ℕ → ℕ → Db → Db
close_row id bytes_in bytes_out db = record db {
  sessions =
      with_rows (update_where (has_session_id id) (end_session db.clock bytes_in bytes_out))
        db.sessions;
}

module _ {R : Type 0} where
  unfoldable pub open_session : ℕ → ℕ → Option String → Action (World R) ℕ
  open_session container_id user_id client_ip = do
    id ← ask (λ db. db.sessions.next_id)
    set_db (insert_session container_id user_id client_ip)
    pure id

  unfoldable pub close_session : ℕ → ℕ → ℕ → Action (World R) (Unit {0})
  close_session id bytes_in bytes_out = set_db (close_row id bytes_in bytes_out)

  -- Where the next id is not taken, a session that was opened is found under the id that is given
  -- back, open, and when it is closed it has the byte counts and the time of the closing.
  pub open-close_session :
      (container_id user_id bytes_in bytes_out : ℕ) (client_ip : Option String) (w : World R)
      → count_where (has_session_id w.db.sessions.next_id) w.db.sessions.rows ≡ 0
      → let id = w.db.sessions.next_id in
        let made = new_session container_id user_id client_ip w.db.clock id in
        let (r, v) = open_session container_id user_id client_ip w in
        (r ≡ ok id)
        × (find_where (has_session_id id) v.db.sessions.rows ≡ some made)
        × (find_where (has_session_id id) (close_session id bytes_in bytes_out v).1.db.sessions.rows
            ≡ some (end_session w.db.clock bytes_in bytes_out made))
  unfolding open_session close_session
  open-close_session container_id user_id bytes_in bytes_out client_ip w fresh =
      let id = w.db.sessions.next_id in
      let made = new_session container_id user_id client_ip w.db.clock id in
      let found =
        find_where-append_new (has_session_id id) w.db.sessions.rows made fresh (==-refl id) in
      (
        ground arith,
        ground (arith, found),
        ground (
          arith,
          find_where-update_self (has_session_id id) (end_session w.db.clock bytes_in bytes_out)
              (insert_session container_id user_id client_ip w.db).sessions.rows made (λ s e. e)
              found,
        ),
      )
