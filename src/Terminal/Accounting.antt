-- ===== src/Terminal/Accounting.antt =====
-- What a connection does over its whole life: it gives its slot back once, and what it passes on to
-- the shell is what it counts, within the budget.
use sandbox_platform.Prelude.{
  ℕ, ◌+◌, ◌≤◌, ◌≡◌, Bool, true, false, ◌||◌, none, some, List, [], ◌∷◌, ◌++◌, arith, if◌then◌else◌,
  refl,
}
use sandbox_platform.Terminal.{
  PtyConfig, Bridge, Phase, Event, Effect, Frame, new_bridge, handle, handle_in, run,
  while_opening_session, while_opening_pty, while_attached, after_end,
}

abbrev pub released_by : Effect → ℕ
released_by Effect.decrement = 1
released_by _ = 0

abbrev pub closed_by : Effect → ℕ
closed_by (Effect.close_session id bytes_in bytes_out) = 1
closed_by _ = 0

abbrev pub written_by : Effect → ℕ
written_by (Effect.write n) = n
written_by _ = 0

abbrev pub total : (Effect → ℕ) → List Effect → ℕ
total f [] = 0
total f (e ∷ es) = f e + total f es

total-append : (f : Effect → ℕ) (es fs : List Effect) → total f (es ++ fs) ≡ total f es + total f fs
total-append f [] fs = omega arith
total-append f (e ∷ es) fs = omega (arith, total-append f es fs)

-- A connection has its slot until it is settled or has failed.
abbrev pub holds_slot : Bridge → ℕ
holds_slot b = if b.settled || b.failed then 0 else 1

abbrev pub may_close : Bridge → ℕ
may_close b = if b.settled then 0 else 1

-- Before openSession answers nothing is settled, and a connection that failed has ended.
abbrev pub IsSound : Phase → Bool → Bool → Type 0
IsSound Phase.opening_session settled failed = (settled ≡ false) × (failed ≡ false)
IsSound Phase.ended settled failed = (settled || failed) ≡ true
IsSound _ settled failed = failed ≡ false

pub record Balanced (config : PtyConfig) (b c : Bridge) (es : List Effect) : Type 0 where
  pub sound : IsSound c.phase c.settled c.failed
  pub slot : total released_by es + holds_slot c ≡ holds_slot b
  pub closes : total closed_by es + may_close c ≤ may_close b
  pub bytes : b.bytes_in + total written_by es ≡ c.bytes_in
  pub within : b.bytes_in ≤ config.input_bytes_total → c.bytes_in ≤ config.input_bytes_total

opening_session_lem :
    (config : PtyConfig) (now : ℕ) (e : Event) (b : Bridge)
    → b.phase ≡ Phase.opening_session
    → IsSound b.phase b.settled b.failed
    → Balanced config b (while_opening_session now e b).0 (while_opening_session now e b).1
opening_session_lem config now e b at s = ground arith

opening_pty_lem :
    (config : PtyConfig) (now : ℕ) (e : Event) (b : Bridge)
    → b.phase ≡ Phase.opening_pty
    → IsSound b.phase b.settled b.failed
    → Balanced config b (while_opening_pty config now e b).0 (while_opening_pty config now e b).1
opening_pty_lem config now e b at s = ground arith

receive_lem :
    (config : PtyConfig) (now : ℕ) (f : Frame) (b : Bridge)
    → b.phase ≡ Phase.attached
    → IsSound b.phase b.settled b.failed
    → Balanced config b
        (while_attached config now (Event.message f) b).0
        (while_attached config now (Event.message f) b).1
receive_lem config now (Frame.input none) b at s = ground arith
receive_lem config now (Frame.input (some n)) b at s = ground arith
receive_lem config now Frame.binary b at s = ground arith
receive_lem config now Frame.malformed b at s = ground arith
receive_lem config now Frame.null_value b at s = ground arith
receive_lem config now Frame.ping b at s = ground arith
receive_lem config now Frame.unknown b at s = ground arith
receive_lem config now (Frame.resize cols rows) b at s = ground arith

attached_lem :
    (config : PtyConfig) (now : ℕ) (e : Event) (b : Bridge)
    → b.phase ≡ Phase.attached
    → IsSound b.phase b.settled b.failed
    → Balanced config b (while_attached config now e b).0 (while_attached config now e b).1
attached_lem config now (Event.message f) b at s = receive_lem config now f b at s
attached_lem config now (Event.session_opened id) b at s = ground arith
attached_lem config now (Event.pty_output n) b at s = ground arith
attached_lem config now Event.session_failed b at s = ground arith
attached_lem config now Event.pty_opened b at s = ground arith
attached_lem config now Event.pty_failed b at s = ground arith
attached_lem config now Event.client_closed b at s = ground arith
attached_lem config now Event.socket_error b at s = ground arith
attached_lem config now Event.pong b at s = ground arith
attached_lem config now Event.keepalive b at s = ground arith
attached_lem config now Event.pty_exited b at s = ground arith
attached_lem config now Event.exit_timer b at s = ground arith

ended_lem :
    (config : PtyConfig) (e : Event) (b : Bridge)
    → b.phase ≡ Phase.ended
    → IsSound b.phase b.settled b.failed
    → Balanced config b (after_end e b).0 (after_end e b).1
ended_lem config e b at s = ground arith

pub handle_lem :
    (config : PtyConfig) (now : ℕ) (e : Event) (b : Bridge)
    → IsSound b.phase b.settled b.failed
    → Balanced config b (handle config now e b).0 (handle config now e b).1
unfolding handle
handle_lem config now e b s =
    elim b.phase
        as (λ p.
          b.phase ≡ p
          → Balanced config b (handle_in p config now e b).0 (handle_in p config now e b).1) [
            | Phase.opening_session ↦ λ at. opening_session_lem config now e b at s
            | Phase.opening_pty ↦ λ at. opening_pty_lem config now e b at s
            | Phase.attached ↦ λ at. attached_lem config now e b at s
            | Phase.ended ↦ λ at. ended_lem config e b at s
          ]
      refl

run_lem :
    (config : PtyConfig) (es : List (ℕ × Event)) (b : Bridge)
    → IsSound b.phase b.settled b.failed
    → Balanced config b (run config es b).0 (run config es b).1
unfolding run
run_lem config [] b s = ground arith
run_lem config ((now, e) ∷ es) b s =
    let (c, fs) = handle config now e b in
    let first = handle_lem config now e b s in
    let rest = run_lem config es c first.sound in
    let (d, gs) = run config es c in
    record {
      sound = rest.sound;
      slot = omega (arith, first.slot, rest.slot, total-append released_by fs gs);
      closes = omega (arith, first.closes, rest.closes, total-append closed_by fs gs);
      bytes = omega (arith, first.bytes, rest.bytes, total-append written_by fs gs);
      within = λ h. rest.within (first.within h);
    }

-- Over every history of a connection, the slot that it took is given back at most once, and it is
-- given back exactly when the connection is settled or has failed; its session is closed at most once.
pub run-releases_once :
    (config : PtyConfig) (es : List (ℕ × Event))
    → let (b, fs) = run config es new_bridge in
      (total released_by fs ≡ (if b.settled || b.failed then 1 else 0)) × (total closed_by fs ≤ 1)
run-releases_once config es =
    let all = run_lem config es new_bridge (refl, refl) in
    (ground (arith, all.slot), ground (arith, all.closes))

-- Over every history of a connection, the bytes that are written to the shell are those counted in
-- `bytesIn`, and they are within the budget of the connection.
pub run-within_budget :
    (config : PtyConfig) (es : List (ℕ × Event))
    → let (b, fs) = run config es new_bridge in
      (total written_by fs ≡ b.bytes_in) × (total written_by fs ≤ config.input_bytes_total)
run-within_budget config es =
    let all = run_lem config es new_bridge (refl, refl) in
    (omega (arith, all.bytes), omega (arith, all.bytes, all.within (omega arith)))
