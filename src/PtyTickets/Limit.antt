-- ===== src/PtyTickets/Limit.antt =====
-- How many tickets of a user are outstanding.
use sandbox_platform.Prelude.{
  ℕ, ◌+◌, ◌≤◌, ◌≡◌, Bool, String, Option, none, some, [], ◌∷◌, arith, if◌then◌else◌, ◌==◌,
  count_where, count_where-delete_le, Bool-cases, inl, inr, ap,
}
use sandbox_platform.Db.Rows.{Role}
use sandbox_platform.PtyTickets.{
  PtyTicket, Tickets, has_ticket, is_expired, is_outstanding, outstanding, max_outstanding_per_user,
  put, sweep, issue_pty_ticket, consume_pty_ticket,
}

put-count :
    (p : PtyTicket → Bool) (t : PtyTicket) (s : Tickets)
    → count_where p (put t s) ≤ count_where p s + (if p t then 1 else 0)
put-count p t [] = ground arith
put-count p t (u ∷ s) = ground (arith, put-count p t s)

-- Time only takes tickets out of the count.
outstanding_later :
    (u now later : ℕ) (s : Tickets) → now ≤ later → outstanding u later s ≤ outstanding u now s
outstanding_later u now later [] h = omega arith
outstanding_later u now later (t ∷ s) h = ground (arith, outstanding_later u now later s h)

issued :
    (ticket : String) (now user_id : ℕ) (role : Role) (container ttl : ℕ) (s : Tickets) (u : ℕ)
    → outstanding u now s ≤ max_outstanding_per_user
    → outstanding u now (issue_pty_ticket ticket now user_id role container ttl s).1
      ≤ max_outstanding_per_user
unfolding issue_pty_ticket
issued ticket now user_id role container ttl s u h = elim (Bool-cases (user_id == u)) [
  | inl e ↦ ground (arith, same (ground arith), put-count (is_outstanding u now) mint s)
  | inr e ↦ ground (arith, put-count (is_outstanding u now) mint s)
]
  where
    same : user_id ≡ u → outstanding user_id now s ≡ outstanding u now s
    same p = ap (λ v. outstanding v now s) p

    mint : PtyTicket
    mint = record {
      ticket = ticket;
      user_id = user_id;
      role = role;
      container_id = container;
      expires_at = now + ttl;
    }

consumed :
    (raw : Option String) (container now : ℕ) (s : Tickets) (u : ℕ)
    → outstanding u now (consume_pty_ticket now raw container s).1 ≤ outstanding u now s
unfolding consume_pty_ticket
consumed none container now s u = omega arith
consumed (some raw) container now s u =
    ground (arith, count_where-delete_le (has_ticket raw) (is_outstanding u now) s)

swept : (now : ℕ) (s : Tickets) (u : ℕ) → outstanding u now (sweep now s) ≤ outstanding u now s
unfolding sweep
swept now s u = count_where-delete_le (is_expired now) (is_outstanding u now) s

-- No user has more than 16 outstanding tickets: an issue, a later attempt to consume and a later sweep keep
-- this, whatever they give.
pub outstanding_limit :
    (ticket : String) (now later user_id : ℕ) (role : Role) (container ttl : ℕ)
    (raw : Option String) (s : Tickets) (u : ℕ)
    → outstanding u now s ≤ max_outstanding_per_user
    → now ≤ later
    → (outstanding u now (issue_pty_ticket ticket now user_id role container ttl s).1
        ≤ max_outstanding_per_user)
      × (outstanding u later (consume_pty_ticket later raw container s).1
          ≤ max_outstanding_per_user)
      × (outstanding u later (sweep later s) ≤ max_outstanding_per_user)
outstanding_limit ticket now later user_id role container ttl raw s u h k = (
  issued ticket now user_id role container ttl s u h,
  omega (arith, h, outstanding_later u now later s k, consumed raw container later s u),
  omega (arith, h, outstanding_later u now later s k, swept later s u),
)
