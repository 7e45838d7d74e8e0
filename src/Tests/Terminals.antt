-- ===== src/Tests/Terminals.antt =====
-- Terminals on the small platform.
use sandbox_platform.Prelude.{ℕ, ◌≤◌, ◌≡◌, refl, true, false, none, some, List, [], ◌∷◌}
use sandbox_platform.Db.Rows.{Role, Status, ContainerRow}
use sandbox_platform.Containers.Host.{handle_from_row}
use sandbox_platform.Containers.Mounts.{require_owned, require_container}
use sandbox_platform.Containers.Lifecycle.{resolve_running_handle}
use sandbox_platform.PtyTickets.{PtyTicket, consume_pty_ticket, redeem}
use sandbox_platform.Terminal.{PtyConfig, Phase, Event, Frame, Effect, new_bridge, handle, run}
use sandbox_platform.Terminal.Accounting.{total, written_by, run-within_budget}
use sandbox_platform.Terminal.Server.{Step, no_connections, open_count, serve, accept}
use sandbox_platform.Terminal.Slots.{slots, serve-counts}
use sandbox_platform.Terminal.Upgrade.{UpgradeRequest, Gate, accepted, upgrade}
use sandbox_platform.Terminal.Entry.{Entitled, upgrade-Entitled}
use sandbox_platform.Tests.{sample_world, sample_host, sample_container}

abbrev limits : PtyConfig
limits = record {
  max_per_container = 1;
  idle_timeout_minutes = 30;
  input_bytes_per_second = 8;
  input_bytes_total = 10;
}

-- The second input fits the second, and no more the total.
abbrev typing : List (ℕ × Event)
typing =
    (1, Event.session_opened 4)
    ∷ (2, Event.pty_opened)
    ∷ (3, Event.message (Frame.input (some 6)))
    ∷ (1500, Event.message (Frame.input (some 8)))
    ∷ (1501, Event.client_closed)
    ∷ []

abbrev typed_on : List (ℕ × Event)
typed_on = (1, Event.session_opened 4) ∷ (2, Event.pty_opened) ∷ []

typed : total written_by (run limits typing new_bridge).1 ≡ 6
unfolding run
typed = refl

run-within_budget_example :
    let (b, es) = run limits typing new_bridge in
    (total written_by es ≡ b.bytes_in) × (total written_by es ≤ 10)
run-within_budget_example = run-within_budget limits typing

-- A client that goes while openSession is pending is not noticed: the terminal opens, and its slot is
-- held.
abbrev lost : List (ℕ × Event)
lost = (1, Event.client_closed) ∷ (2, Event.session_opened 4) ∷ (3, Event.pty_opened) ∷ []

lost_close :
    let b = (run limits lost new_bridge).0 in (b.phase ≡ Phase.attached) × (b.settled ≡ false)
unfolding run
lost_close = (refl, refl)

-- The answers to the server's own pings keep a terminal open, with no word from the client.
abbrev silent : List (ℕ × Event)
silent =
    (0, Event.session_opened 4)
    ∷ (0, Event.pty_opened)
    ∷ (1700000, Event.pong)
    ∷ (3400000, Event.pong)
    ∷ (3430000, Event.keepalive)
    ∷ []

silent_kept : (run limits silent new_bridge).0.settled ≡ false
unfolding run
silent_kept = refl

-- The second upgrade is refused, the third comes after the first terminal ended.
abbrev steps : List Step
steps =
    Step.upgrade 1
    ∷ Step.upgrade 1
    ∷ Step.event 0 1 (Event.session_opened 4)
    ∷ Step.event 0 2 Event.pty_failed
    ∷ Step.upgrade 1
    ∷ []

serve-counts_example :
    let s = serve limits steps no_connections in
    (open_count 1 s.open_per_container ≡ slots 1 s.connections)
    × (open_count 1 s.open_per_container ≤ 1)
serve-counts_example = serve-counts limits steps 1

-- The text `null` is an exception that nothing catches.
null_uncaught :
    (handle limits 5 (Event.message Frame.null_value) (run limits typed_on new_bridge).0).1
    ≡ Effect.uncaught ∷ []
unfolding handle run
null_uncaught = refl

abbrev alices : PtyTicket
alices = record {
  ticket = "t1";
  user_id = 1;
  role = Role.user;
  container_id = 1;
  expires_at = 60000;
}

abbrev gate : Gate ℕ
gate = record {
  world = sample_world Status.running;
  tickets = alices ∷ [];
  server = no_connections;
}

abbrev request : UpgradeRequest
request = record { container_id = some 1; token = none; ticket = some "t1" }

abbrev box : ContainerRow
box = sample_container 1 1 Status.running

let_in : (upgrade sample_host limits true 10 request gate).0 ≡ accepted box
unfolding upgrade consume_pty_ticket redeem resolve_running_handle require_owned require_container
    handle_from_row accept
let_in = refl

upgrade-Entitled_example : Entitled limits 10 request gate box
upgrade-Entitled_example = upgrade-Entitled sample_host limits true 10 request gate box let_in
