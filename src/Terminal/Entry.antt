-- ===== src/Terminal/Entry.antt =====
-- Who is let in to a terminal, by what the tickets, the users and the containers say.
use sandbox_platform.Prelude.{
  ℕ, ◌<◌, ◌≡◌, ◌⊎◌, inl, inr, String, Bool, true, Option, none, some, arith, find_where,
  Option-cases, Bool-cases,
}
use sandbox_platform.Action.{Outcome, ok, err}
use sandbox_platform.Db.Rows.{UserRow, ContainerRow, Role}
use sandbox_platform.Db.Queries.{user_by_id, container_by_id, is_running}
use sandbox_platform.Accounts.Users.{is_active}
use sandbox_platform.Containers.Host.{Host, World, ContainerHandle, handle_from_row}
use sandbox_platform.Containers.Mounts.{require_owned, require_container}
use sandbox_platform.Containers.Lifecycle.{resolve_running_handle}
use sandbox_platform.PtyTickets.{PtyTicket, has_ticket, consume_pty_ticket}
use sandbox_platform.PtyTickets.SingleUse.{consume_bound}
use sandbox_platform.Terminal.{PtyConfig}
use sandbox_platform.Terminal.Server.{open_count}
use sandbox_platform.Terminal.Upgrade.{
  UpgradeRequest, Gate, accepted, is_admin, row_of, reply_to, admit_user, admit_claims, upgrade,
}

-- What entitles to a terminal in the container of the row: a ticket that is in the map, not expired and
-- bound to the container, whose user is active now and owns the container, or is an admin now; and
-- the container runs and has a slot left.
pub record Entitled {R : Type 0} (config : PtyConfig) (now : ℕ) (req : UpgradeRequest) (g : Gate R)
    (row : ContainerRow) : Type 0 where
  pub raw : String
  pub ticket : PtyTicket
  pub user : UserRow
  pub presented : req.ticket ≡ some raw
  pub stored : find_where (has_ticket raw) g.tickets ≡ some ticket
  pub in_time : now < ticket.expires_at
  pub same_container : req.container_id ≡ some ticket.container_id
  pub current_user : user_by_id ticket.user_id g.world.db ≡ some user
  pub active : is_active user.status ≡ true
  pub row_found : container_by_id ticket.container_id g.world.db ≡ some row
  pub runs : is_running row.status ≡ true
  pub may : (is_admin user.role ≡ true) ⊎ (row.user_id ≡ user.id)
  pub slot_left :
      open_count ticket.container_id g.server.open_per_container < config.max_per_container

resolve_lem :
    {R : Type 0} (host : Host R) (id user_id : ℕ) (admin : Bool) (w : World R) (row : ContainerRow)
    (handle : ContainerHandle)
    → (resolve_running_handle host id user_id admin w).0 ≡ ok (row, handle)
    → (container_by_id id w.db ≡ some row)
      × (is_running row.status ≡ true)
      × ((admin ≡ true) ⊎ (row.user_id ≡ user_id))
unfolding resolve_running_handle require_owned require_container handle_from_row
resolve_lem host id user_id admin w row handle e = (ground arith, ground arith, ground arith)

module _ {R : Type 0} (host : Host R) (config : PtyConfig) (supports : Bool) (now : ℕ) where
  reply_lem :
      (id : ℕ) (g : Gate R) (r : Outcome (ContainerRow × ContainerHandle)) (row : ContainerRow)
      → (reply_to host config supports now id g (row_of r)).0 ≡ accepted row
      → (handle : ContainerHandle) × (r ≡ ok (row, handle))
        × (open_count id g.server.open_per_container < config.max_per_container)
  reply_lem id g (ok (found, handle)) row e = (handle, ground arith, ground arith)
  reply_lem id g (err x) row e = absurd (ground arith)

  admit_user_lem :
      (id : ℕ) (g : Gate R) (user : UserRow) (row : ContainerRow)
      → (admit_user host config supports now id g (some user)).0 ≡ accepted row
      → (is_active user.status ≡ true)
        × (container_by_id id g.world.db ≡ some row)
        × (is_running row.status ≡ true)
        × ((is_admin user.role ≡ true) ⊎ (row.user_id ≡ user.id))
        × (open_count id g.server.open_per_container < config.max_per_container)
  admit_user_lem id g user row e = elim (Bool-cases (is_active user.status)) [
    | inl active ↦
        let (r, w) = resolve_running_handle host id user.id (is_admin user.role) g.world in
        let (handle, got, slot) = reply_lem id (record g { world = w }) r row (ground arith) in
        let (found, runs, may) =
          resolve_lem host id user.id (is_admin user.role) g.world row handle got in
        (active, found, runs, may, slot)
    | inr inactive ↦ absurd (ground arith)
  ]

  admit_claims_lem :
      (id : ℕ) (g : Gate R) (claims : Option (ℕ × Role)) (row : ContainerRow)
      → (admit_claims host config supports now id g claims).0 ≡ accepted row
      → (user_id : ℕ) × (role : Role) × (user : UserRow) × (claims ≡ some (user_id, role))
        × (user_by_id user_id g.world.db ≡ some user)
        × ((admit_user host config supports now id g (some user)).0 ≡ accepted row)
  admit_claims_lem id g none row e = absurd (ground arith)
  admit_claims_lem id g (some (user_id, role)) row e =
      elim (Option-cases (user_by_id user_id g.world.db)) [
        | inl missing ↦ absurd (ground arith)
        | inr (user, found) ↦ (user_id, role, user, ground arith, found, ground arith)
      ]

  with_ticket :
      (id : ℕ) (raw : String) (req : UpgradeRequest) (g : Gate R) (row : ContainerRow)
      → req.container_id ≡ some id
      → req.ticket ≡ some raw
      → (let (claims, left) = consume_pty_ticket now (some raw) id g.tickets in
          (admit_claims host config supports now id (record g { tickets = left }) claims).0
          ≡ accepted row)
      → Entitled config now req g row
  with_ticket id raw req g row at given e =
      let (claims, left) = consume_pty_ticket now (some raw) id g.tickets in
      let h : Gate R = record g { tickets = left } in
      let (user_id, role, user, got, found, entered) = admit_claims_lem id h claims row e in
      let (t, stored, named, bound, in_time, owner, same_role) =
        consume_bound raw id now user_id role g.tickets got in
      let (active, row_found, runs, may, slot) = admit_user_lem id h user row entered in
      record {
        raw = raw;
        ticket = t;
        user = user;
        presented = given;
        stored = stored;
        in_time = in_time;
        same_container = ground arith;
        current_user = ground arith;
        active = active;
        row_found = ground arith;
        runs = runs;
        may = may;
        slot_left = ground arith;
      }

  -- Where the "upgrade" handler lets a request in to a container, the request is entitled to it.
  pub upgrade-Entitled :
      (req : UpgradeRequest) (g : Gate R) (row : ContainerRow)
      → (upgrade host config supports now req g).0 ≡ accepted row
      → Entitled config now req g row
  unfolding upgrade
  upgrade-Entitled req g row e = elim (Option-cases req.container_id) [
    | inl missing ↦ absurd (ground arith)
    | inr (id, at) ↦ elim (Option-cases req.ticket) [
      | inl unticketed ↦ absurd (unfold consume_pty_ticket in ground arith)
      | inr (raw, given) ↦ with_ticket id raw req g row at given (ground arith)
    ]
  ]
