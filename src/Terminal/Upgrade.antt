-- ===== src/Terminal/Upgrade.antt =====
-- routes/pty.ts, the "upgrade" handler: who is let in to a terminal.
use sandbox_platform.Prelude.{
  ℕ, String, Bool, true, false, not, Option, none, some, str_eq, leb, if◌then◌else◌,
}
use sandbox_platform.Action.{Outcome, ok, err, status_code, error_code}
use sandbox_platform.Db.Rows.{Role, UserRow, ContainerRow}
use sandbox_platform.Db.Queries.{user_by_id}
use sandbox_platform.Accounts.Users.{is_active}
use sandbox_platform.Containers.Host.{Host, World}
use sandbox_platform.Containers.Lifecycle.{resolve_running_handle}
use sandbox_platform.PtyTickets.{Tickets, consume_pty_ticket}
use sandbox_platform.Terminal.{PtyConfig}
use sandbox_platform.Terminal.Server.{Server, open_count, accept}

-- `container_id` is that of PTY_PATH_RE, none where the path does not match.
pub record UpgradeRequest : Type 0 where
  pub container_id : Option ℕ
  pub token : Option String
  pub ticket : Option String

pub data Reply : Type 0 where
  rejected : ℕ → String → Reply
  accepted : ContainerRow → Reply

pub record Gate (R : Type 0) : Type 0 where
  pub world : World R
  pub tickets : Tickets
  pub server : Server

abbrev pub is_admin : Role → Bool
is_admin Role.admin = true
is_admin Role.user = false

abbrev pub no_container : Reply
no_container = Reply.rejected 404 "NOT_FOUND"

abbrev pub no_claims : Reply
no_claims = Reply.rejected 401 "UNAUTHORIZED"

abbrev pub row_of : {A : Type 0} → Outcome (ContainerRow × A) → Outcome ContainerRow
row_of (ok (row, handle)) = ok row
row_of (err e) = err e

-- `if (legacyToken)`
abbrev pub is_given : Option String → Bool
is_given none = false
is_given (some s) = not (str_eq s "")

module _ {R : Type 0} (host : Host R) (config : PtyConfig) (supports_pty : Bool) (now : ℕ) where
  -- The limit and the executor are looked at and the count is raised with no await between.
  abbrev pub take_slot : ContainerRow → ℕ → Gate R → Reply × Gate R
  take_slot row id g =
      if leb config.max_per_container (open_count id g.server.open_per_container)
      then (Reply.rejected 429 "PTY_LIMIT_REACHED", g)
      else if supports_pty
      then (Reply.accepted row, record g { server = (accept config id g.server).1 })
      else (Reply.rejected 501 "PTY_NOT_SUPPORTED", g)

  abbrev pub reply_to : ℕ → Gate R → Outcome ContainerRow → Reply × Gate R
  reply_to id g (ok row) = take_slot row id g
  reply_to id g (err e) = (Reply.rejected (status_code e) (error_code e), g)

  -- The user is read again; the role of the ticket is not used.
  abbrev pub admit_user : ℕ → Gate R → Option UserRow → Reply × Gate R
  admit_user id g none = (no_claims, g)
  admit_user id g (some user) =
      if not (is_active user.status)
      then (no_claims, g)
      else let (r, w) = resolve_running_handle host id user.id (is_admin user.role) g.world in
        reply_to id (record g { world = w }) (row_of r)

  abbrev pub admit_claims : ℕ → Gate R → Option (ℕ × Role) → Reply × Gate R
  admit_claims id g none = (no_claims, g)
  admit_claims id g (some (user_id, role)) = admit_user id g (user_by_id user_id g.world.db)

  abbrev pub upgrade_at : UpgradeRequest → Gate R → Option ℕ → Reply × Gate R
  upgrade_at req g none = (no_container, g)
  upgrade_at req g (some id) =
      if is_given req.token
      then (Reply.rejected 410 "TOKEN_AUTH_REMOVED", g)
      else let (claims, left) = consume_pty_ticket now req.ticket id g.tickets in
        admit_claims id (record g { tickets = left }) claims

  unfoldable pub upgrade : UpgradeRequest → Gate R → Reply × Gate R
  upgrade req g = upgrade_at req g req.container_id
