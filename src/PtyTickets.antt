-- ===== src/PtyTickets.antt =====
-- services/pty-tickets.ts: the one-time tickets of a terminal connection, in a map from the ticket.
pub mod SingleUse
pub mod Limit
use sandbox_platform.Prelude.{
  ℕ, ◌+◌, ◌*◌, String, Bool, not, ◌&&◌, Option, none, some, List, [], ◌∷◌, ◌==◌, ltb, leb, str_eq,
  if◌then◌else◌, find_where, count_where, delete_where,
}
use sandbox_platform.Action.{AppError, Outcome, ok, err, failure}
use sandbox_platform.Db.Rows.{Role}

pub record PtyTicket : Type 0 where
  pub ticket : String
  pub user_id : ℕ
  pub role : Role
  pub container_id : ℕ
  pub expires_at : ℕ

-- The values of the map, in the order of insertion; each has its key as a field.
abbrev pub Tickets : Type 0
Tickets = List PtyTicket

abbrev pub pty_ticket_ttl_ms : ℕ
pty_ticket_ttl_ms = 60 * 1000

abbrev pub max_outstanding_per_user : ℕ
max_outstanding_per_user = 16

abbrev pub has_ticket : String → PtyTicket → Bool
has_ticket raw t = str_eq t.ticket raw

abbrev pub is_expired : ℕ → PtyTicket → Bool
is_expired now t = leb t.expires_at now

abbrev pub is_outstanding : ℕ → ℕ → PtyTicket → Bool
is_outstanding user_id now t = t.user_id == user_id && ltb now t.expires_at

abbrev pub outstanding : ℕ → ℕ → Tickets → ℕ
outstanding user_id now s = count_where (is_outstanding user_id now) s

-- Map.set: a key that is there keeps its place.
abbrev pub put : PtyTicket → Tickets → Tickets
put t [] = t ∷ []
put t (u ∷ s) = if has_ticket t.ticket u then t ∷ s else u ∷ put t s

-- The sweeper, which runs every 30 seconds.
unfoldable pub sweep : ℕ → Tickets → Tickets
sweep now s = delete_where (is_expired now) s

-- `issuePtyTicket` at the time `now`, where the random source gives `ticket`. The error that it throws
-- is given the fields `status` and `code`, and is no `HttpError`.
unfoldable pub issue_pty_ticket :
    (ticket : String) (now user_id : ℕ) (role : Role) (container_id ttl_ms : ℕ)
    → Tickets
    → Outcome (String × ℕ) × Tickets
issue_pty_ticket ticket now user_id role container_id ttl_ms s =
    if leb max_outstanding_per_user (outstanding user_id now s)
    then (err (failure "Too many outstanding PTY tickets"), s)
    else (
      ok (ticket, now + ttl_ms),
      put
          (record {
            ticket = ticket;
            user_id = user_id;
            role = role;
            container_id = container_id;
            expires_at = now + ttl_ms;
          })
          s,
    )

-- What the ticket that was taken out of the map is worth.
unfoldable pub redeem : ℕ → ℕ → PtyTicket → Option (ℕ × Role)
redeem now container_id t =
    if is_expired now t
    then none
    else if not (t.container_id == container_id)
    then none
    else some (t.user_id, t.role)

-- `consumePtyTicket` at the time `now`.
unfoldable pub consume_pty_ticket : ℕ → Option String → ℕ → Tickets → Option (ℕ × Role) × Tickets
consume_pty_ticket now none container_id s = (none, s)
consume_pty_ticket now (some raw) container_id s =
    if str_eq raw "" then (none, s) else elim (find_where (has_ticket raw) s) [
      | none ↦ (none, s)
      | some t ↦ (redeem now container_id t, delete_where (has_ticket raw) s)
    ]
