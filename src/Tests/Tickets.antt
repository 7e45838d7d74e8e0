-- ===== src/Tests/Tickets.antt =====
-- The tickets of terminal connections, on a ticket that expires at 60 000.
use sandbox_platform.Prelude.{◌≡◌, refl, arith, some, [], ◌∷◌}
use sandbox_platform.Action.{ok}
use sandbox_platform.Db.Rows.{Role}
use sandbox_platform.PtyTickets.{PtyTicket, Tickets, issue_pty_ticket, consume_pty_ticket, redeem}
use sandbox_platform.PtyTickets.SingleUse.{issue-consume}

abbrev minted : PtyTicket
minted = record {
  ticket = "t1";
  user_id = 1;
  role = Role.user;
  container_id = 4;
  expires_at = 60000;
}

abbrev one_ticket : Tickets
one_ticket = minted ∷ []

redeemed : (consume_pty_ticket 10 (some "t1") 4 one_ticket).0 ≡ some (1, Role.user)
unfolding consume_pty_ticket redeem
redeemed = refl

issued_t2 : (issue_pty_ticket "t2" 10 1 Role.user 4 60000 one_ticket).0 ≡ ok ("t2", 60010)
unfolding issue_pty_ticket
issued_t2 = refl

issue-consume_example :
    consume_pty_ticket 20 (some "t2") 4 (issue_pty_ticket "t2" 10 1 Role.user 4 60000 one_ticket).1
    ≡ (some (1, Role.user), one_ticket)
issue-consume_example =
    issue-consume "t2" 10 20 1 Role.user 4 60000 60010 one_ticket refl refl issued_t2 (omega arith)
