-- ===== src/PtyTickets/SingleUse.antt =====
-- A ticket is good for one connection, to its own container and before it expires.
use sandbox_platform.Prelude.{
  ℕ, ◌+◌, ◌<◌, ◌≡◌, refl, true, false, String, Option, none, some, [], ◌∷◌, arith, str_eq, eq_iff,
  count_where, find_where, delete_where, find_where-holds, find_where-delete_self, Option-cases,
  inl, inr,
}
use sandbox_platform.Action.{ok}
use sandbox_platform.Db.Rows.{Role}
use sandbox_platform.PtyTickets.{
  PtyTicket, Tickets, has_ticket, put, issue_pty_ticket, consume_pty_ticket, redeem,
}

-- A ticket is used up by the first attempt, whether that succeeds or not: a second attempt with it,
-- at any time and for any container, gives null.
pub consume_once :
    (raw : Option String) (container other now later : ℕ) (s : Tickets)
    → (consume_pty_ticket later raw other (consume_pty_ticket now raw container s).1).0 ≡ none
unfolding consume_pty_ticket
consume_once none container other now later s = refl
consume_once (some raw) container other now later s =
    ground (arith, find_where-delete_self (has_ticket raw) s)

-- Where a ticket is consumed with success, the map held it under that key, it has not expired, it is
-- bound to this container, and what is given is its user and role.
pub consume_bound :
    (raw : String) (container now user_id : ℕ) (role : Role) (s : Tickets)
    → (consume_pty_ticket now (some raw) container s).0 ≡ some (user_id, role)
    → (t : PtyTicket) × (find_where (has_ticket raw) s ≡ some t)
      × (t.ticket ≡ raw)
      × (t.container_id ≡ container)
      × (now < t.expires_at)
      × (t.user_id ≡ user_id)
      × (t.role ≡ role)
unfolding consume_pty_ticket redeem
consume_bound raw container now user_id role s e =
    elim (Option-cases (find_where (has_ticket raw) s)) [
      | inl f ↦ absurd (ground arith)
      | inr (t, f) ↦ (
        t,
        f,
        (eq_iff t.ticket raw).0 (find_where-holds (has_ticket raw) s t f),
        ground arith,
        ground arith,
        ground arith,
        ground arith,
      )
    ]

found_put :
    (t : PtyTicket) (s : Tickets)
    → str_eq t.ticket t.ticket ≡ true
    → find_where (has_ticket t.ticket) (put t s) ≡ some t
found_put t [] h = ground arith
found_put t (u ∷ s) h = ground (arith, found_put t s h)

deleted_put :
    (t : PtyTicket) (s : Tickets)
    → str_eq t.ticket t.ticket ≡ true
    → count_where (has_ticket t.ticket) s ≡ 0
    → delete_where (has_ticket t.ticket) (put t s) ≡ s
deleted_put t [] h e = ground arith
deleted_put t (u ∷ s) h e = ground (arith, deleted_put t s h)

-- A ticket that was issued, under a key that is not empty and not in the map, is consumed for its
-- container before it expires: it gives the user and the role, and the map is as it was before the issue.
pub issue-consume :
    (ticket : String) (now later user_id : ℕ) (role : Role) (container ttl expires : ℕ)
    (s : Tickets)
    → str_eq ticket "" ≡ false
    → count_where (has_ticket ticket) s ≡ 0
    → (issue_pty_ticket ticket now user_id role container ttl s).0 ≡ ok (ticket, expires)
    → later < expires
    → consume_pty_ticket later
        (some ticket)
        container
        (issue_pty_ticket ticket now user_id role container ttl s).1
      ≡ (some (user_id, role), s)
unfolding consume_pty_ticket issue_pty_ticket redeem
issue-consume ticket now later user_id role container ttl expires s h k e l =
    let t : PtyTicket = record {
      ticket = ticket;
      user_id = user_id;
      role = role;
      container_id = container;
      expires_at = now + ttl;
    } in
    let same = (eq_iff ticket ticket).1 refl in
    ground (arith, found_put t s same, deleted_put t s same k)
