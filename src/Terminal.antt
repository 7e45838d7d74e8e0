-- ===== src/Terminal.antt =====
-- routes/pty.ts bridgePty: one terminal connection, from the upgrade to its end, as a machine that
-- is given what its callbacks are given and tells what they do.
pub mod Accounting
pub mod Server
pub mod Slots
pub mod Upgrade
pub mod Entry
use sandbox_platform.Prelude.{
  ℕ, ◌+◌, ◌-◌, ◌*◌, Bool, true, false, not, ◌&&◌, Option, none, some, or_else, List, [], ◌∷◌, ◌++◌,
  ltb, leb, if◌then◌else◌,
}

pub record PtyConfig : Type 0 where
  pub max_per_container : ℕ
  pub idle_timeout_minutes : ℕ
  pub input_bytes_per_second : ℕ
  pub input_bytes_total : ℕ

-- Where `bridgePty` stands: it awaits openSession, it awaits openPty, it has returned with its
-- handlers attached, or it has ended before that.
pub data Phase : Type 0 where
  opening_session opening_pty attached ended : Phase

-- `ws_open` is whether `readyState` is OPEN, `has_pty` whether `pty` is set, and `failed` whether
-- the promise of bridgePty was rejected.
pub record Bridge : Type 0 where
  pub phase : Phase
  pub session_id : Option ℕ
  pub bytes_in : ℕ
  pub bytes_out : ℕ
  pub settled : Bool
  pub failed : Bool
  pub last_activity : ℕ
  pub input_window_start : ℕ
  pub input_window_bytes : ℕ
  pub client_gone : Bool
  pub ws_open : Bool
  pub has_pty : Bool

-- A message of the client; a size is that of the UTF-8 text, none where `data` is no string, and a
-- number of columns or rows is none where it is no integer or negative. `null_value` is the text
-- `null`, whose field `type` cannot be read, so the listener throws.
pub data Frame : Type 0 where
  binary malformed null_value ping unknown : Frame
  input : Option ℕ → Frame
  resize : Option ℕ → Option ℕ → Frame

pub data Event : Type 0 where
  session_opened : ℕ → Event
  session_failed pty_opened pty_failed client_closed socket_error pong keepalive : Event
  pty_output : ℕ → Event
  pty_exited exit_timer : Event
  message : Frame → Event

-- The number of a `ws_close` is the code given to `ws.close`; `uncaught` is an "error" that no listener
-- takes, or an exception of a listener, on which index.ts ends the process.
pub data Effect : Type 0 where
  decrement kill send_ready send_exit send_ping uncaught : Effect
  close_session : Option ℕ → ℕ → ℕ → Effect
  write send_output ws_close : ℕ → Effect
  resize_pty : ℕ → ℕ → Effect

abbrev pub Turn : Type 0
Turn = Bridge × List Effect

abbrev pub new_bridge : Bridge
new_bridge = record {
  phase = Phase.opening_session;
  session_id = none;
  bytes_in = 0;
  bytes_out = 0;
  settled = false;
  failed = false;
  last_activity = 0;
  input_window_start = 0;
  input_window_bytes = 0;
  client_gone = false;
  ws_open = true;
  has_pty = false;
}

abbrev pub settle : Bridge → Turn
settle b = if b.settled then (b, []) else (
  record b { settled = true },
  Effect.decrement ∷ Effect.close_session b.session_id b.bytes_in b.bytes_out ∷ [],
)

abbrev pub kill_pty : Bridge → List Effect
kill_pty b = if b.has_pty then Effect.kill ∷ [] else []

abbrev pub close_ws : ℕ → Bridge → Turn
close_ws code b = (record b { ws_open = false }, Effect.ws_close code ∷ [])

abbrev pub when_open : Bridge → Effect → List Effect
when_open b e = if b.ws_open then e ∷ [] else []

-- One action after the other.
infixl 5 ◌then_do◌
abbrev pub ◌then_do◌ : Turn → (Bridge → Turn) → Turn
t then_do f = let (b, es) = f t.0 in (b, t.1 ++ es)

abbrev pub emit : (Bridge → List Effect) → Bridge → Turn
emit es b = (b, es b)

-- `inputAllowed`: the window starts anew after a second, and counts refused bytes too.
abbrev pub open_window : ℕ → Bridge → Bridge
open_window now b =
    if leb 1000 (now - b.input_window_start)
    then record b { input_window_start = now; input_window_bytes = 0 }
    else b

abbrev pub count_window : ℕ → Bridge → Bridge
count_window n b = record b { input_window_bytes = b.input_window_bytes + n }

abbrev pub input_fits : PtyConfig → ℕ → Bridge → Bool
input_fits config n b =
    leb b.input_window_bytes config.input_bytes_per_second
    && leb (b.bytes_in + n) config.input_bytes_total

abbrev pub accept_input : ℕ → Bridge → Turn
accept_input n b = (record b { bytes_in = b.bytes_in + n }, Effect.write n ∷ [])

abbrev pub take_input : PtyConfig → ℕ → Bridge → Turn
take_input config n b = if input_fits config n b then accept_input n b else close_ws 4429 b

abbrev pub is_extent : ℕ → Bool
is_extent n = ltb 0 n && leb n 1000

abbrev pub resize_to : Option ℕ → Option ℕ → List Effect
resize_to (some cols) (some rows) =
    if is_extent cols && is_extent rows then Effect.resize_pty cols rows ∷ [] else []
resize_to _ _ = []

abbrev pub touch : ℕ → Bridge → Bridge
touch now b = record b { last_activity = now }

-- The handler of "message".
abbrev pub receive : PtyConfig → ℕ → Frame → Bridge → Turn
receive config now Frame.binary b = close_ws 4400 b
receive config now Frame.malformed b = close_ws 4400 b
receive config now Frame.unknown b = close_ws 4400 b
receive config now Frame.null_value b = (b, Effect.uncaught ∷ [])
receive config now Frame.ping b = (b, [])
receive config now (Frame.input none) b = (b, [])
receive config now (Frame.input (some n)) b =
    take_input config n (count_window n (open_window now b))
receive config now (Frame.resize cols rows) b = (b, resize_to cols rows)

abbrev pub is_idle : PtyConfig → ℕ → Bridge → Bool
is_idle config now b = ltb (config.idle_timeout_minutes * 60000) (now - b.last_activity)

-- The interval, which `settle` clears.
abbrev pub beat : PtyConfig → ℕ → Bridge → Turn
beat config now b = (b, when_open b Effect.send_ping) then_do λ c.
    if is_idle config now c then settle c then_do emit kill_pty then_do close_ws 4000 else (c, [])

-- "close" and "error", once the handlers are attached.
abbrev pub hang_up : Bridge → Turn
hang_up b = (b, kill_pty b) then_do settle

abbrev pub attach : Bridge → Turn
attach b =
    if b.client_gone
    then (record b { phase = Phase.ended; has_pty = true }, Effect.kill ∷ []) then_do settle
    else (record b { phase = Phase.attached; has_pty = true }, when_open b Effect.send_ready)

-- While openSession is pending nothing is attached to the socket, so what it tells is lost.
abbrev pub while_opening_session : ℕ → Event → Bridge → Turn
while_opening_session now (Event.session_opened id) b =
    (record b { phase = Phase.opening_pty; session_id = some id; last_activity = now }, [])
while_opening_session now Event.session_failed b =
    (record b { phase = Phase.ended; failed = true }, Effect.decrement ∷ []) then_do close_ws 1011
while_opening_session now Event.client_closed b = (record b { ws_open = false }, [])
while_opening_session now Event.socket_error b = (b, Effect.uncaught ∷ [])
while_opening_session now _ b = (b, [])

abbrev pub while_opening_pty : PtyConfig → ℕ → Event → Bridge → Turn
while_opening_pty config now Event.pty_opened b = attach b
while_opening_pty config now Event.pty_failed b =
    settle (record b { phase = Phase.ended }) then_do close_ws 1011
while_opening_pty config now Event.client_closed b =
    (record b { client_gone = true; ws_open = false }, [])
while_opening_pty config now Event.pong b = (touch now b, [])
while_opening_pty config now Event.keepalive b = if b.settled then (b, []) else beat config now b
while_opening_pty config now Event.socket_error b = (b, Effect.uncaught ∷ [])
while_opening_pty config now _ b = (b, [])

abbrev pub while_attached : PtyConfig → ℕ → Event → Bridge → Turn
while_attached config now (Event.pty_output n) b =
    (record b { bytes_out = b.bytes_out + n }, when_open b (Effect.send_output n))
while_attached config now Event.pty_exited b = (b, when_open b Effect.send_exit) then_do settle
while_attached config now Event.exit_timer b = close_ws 1000 b
while_attached config now (Event.message frame) b = receive config now frame (touch now b)
while_attached config now Event.client_closed b = hang_up (record b { ws_open = false })
while_attached config now Event.socket_error b = hang_up b
while_attached config now Event.pong b = (touch now b, [])
while_attached config now Event.keepalive b = if b.settled then (b, []) else beat config now b
while_attached config now _ b = (b, [])

-- A connection that ended before it was attached has no listeners.
abbrev pub after_end : Event → Bridge → Turn
after_end Event.socket_error b = (b, Effect.uncaught ∷ [])
after_end Event.client_closed b = (record b { ws_open = false }, [])
after_end _ b = (b, [])

abbrev pub handle_in : Phase → PtyConfig → ℕ → Event → Bridge → Turn
handle_in Phase.opening_session config now e b = while_opening_session now e b
handle_in Phase.opening_pty config now e b = while_opening_pty config now e b
handle_in Phase.attached config now e b = while_attached config now e b
handle_in Phase.ended config now e b = after_end e b

unfoldable pub handle : PtyConfig → ℕ → Event → Bridge → Turn
handle config now e b = handle_in b.phase config now e b

-- A history: events with their times.
unfoldable pub run : PtyConfig → List (ℕ × Event) → Bridge → Turn
unfolding handle
run config [] b = (b, [])
run config ((now, e) ∷ es) b = handle config now e b then_do run config es
