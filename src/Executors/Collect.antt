-- ===== src/Executors/Collect.antt =====
-- executors/apptainer-cli-executor.ts runCli and execBuffer: a child process as a machine over the
-- callbacks that are registered on it. What is decoded stays the list of its bytes.
use sandbox_platform.Prelude.{
  ℕ, ◌+◌, ◌-◌, Bool, true, false, Option, none, some, List, [], ◌∷◌, ◌++◌, leb, ltb, if◌then◌else◌,
  length, take,
}
use sandbox_platform.Action.{Outcome, ok, err, AppError, http_error, failure}
use sandbox_platform.Tools.Truncate.{Bytes}
use sandbox_platform.Tools.Files.{ExecResult}

pub data Stream : Type 0 where
  out errors : Stream

-- `close` has no code where a signal ended the process.
pub data ProcessEvent : Type 0 where
  chunk : Stream → Bytes → ProcessEvent
  timeout abort : ProcessEvent
  spawn_error : AppError → ProcessEvent
  close : Option ℕ → ProcessEvent

-- `forwarded` is what onData was given, and `killed` whether SIGKILL was sent.
pub record Process : Type 0 where
  pub stdout : Bytes
  pub stderr : Bytes
  pub output_bytes : ℕ
  pub forwarded : Bytes
  pub timed_out : Bool
  pub output_truncated : Bool
  pub killed : Bool
  pub settled : Option (Outcome ExecResult)

abbrev pub spawned : Process
spawned = record {
  stdout = [];
  stderr = [];
  output_bytes = 0;
  forwarded = [];
  timed_out = false;
  output_truncated = false;
  killed = false;
  settled = none;
}

abbrev pub push_chunk : Stream → Bytes → Process → Process
push_chunk Stream.out d p = record p { stdout = p.stdout ++ d; forwarded = p.forwarded ++ d }
push_chunk Stream.errors d p = record p { stderr = p.stderr ++ d; forwarded = p.forwarded ++ d }

abbrev pub cut_off : Process → Process
cut_off p = record p { output_truncated = true; killed = true }

-- The first settlement of a promise counts.
abbrev pub settle_with : Outcome ExecResult → Process → Process
settle_with r p = elim p.settled [ none ↦ record p { settled = some r } | some q ↦ p ]

abbrev pub count_bytes : ℕ → Process → Process
count_bytes n p = record p { output_bytes = p.output_bytes + n }

-- `maxOutput`: a cap of 0 is none.
abbrev pub positive : Option ℕ → Option ℕ
positive none = none
positive (some n) = if ltb 0 n then some n else none

module _ (repair : Bytes → Bytes) (max_output_bytes : Option ℕ) where
  abbrev pub collect : Stream → Bytes → Process → Process
  collect target d p = elim (positive max_output_bytes) [
    | none ↦ push_chunk target d p
    | some max_output ↦
        let remaining = max_output - p.output_bytes in
        let accepted = if ltb remaining (length d) then take remaining d else d in
        let kept = count_bytes (length accepted) (push_chunk target accepted p) in
        if leb max_output p.output_bytes
        then cut_off p
        else if ltb (length accepted) (length d)
        then cut_off kept
        else kept
  ]

  abbrev pub exec_result : Option ℕ → Process → ExecResult
  exec_result code p = record {
    exit_code = code;
    stdout = repair p.stdout;
    stderr = repair p.stderr;
    timed_out = p.timed_out;
    output_truncated = p.output_truncated;
  }

  unfoldable pub on_event : ProcessEvent → Process → Process
  on_event (ProcessEvent.chunk target d) p = collect target d p
  on_event ProcessEvent.timeout p = record p { timed_out = true; killed = true }
  on_event ProcessEvent.abort p = record p { killed = true }
  on_event (ProcessEvent.spawn_error e) p = settle_with (err e) p
  on_event (ProcessEvent.close code) p = settle_with (ok (exec_result code p)) p

  unfoldable pub run_events : List ProcessEvent → Process → Process
  unfolding on_event
  run_events [] p = p
  run_events (e ∷ es) p = run_events es (on_event e p)

-- execBuffer
pub record Buffering : Type 0 where
  pub chunks : Bytes
  pub received : ℕ
  pub too_large : Bool
  pub killed : Bool
  pub settled : Option (Outcome Bytes)

abbrev pub no_bytes : Buffering
no_bytes = record { chunks = []; received = 0; too_large = false; killed = false; settled = none }

abbrev pub over_cap : Option ℕ → ℕ → Bool
over_cap none received = false
over_cap (some max) received = ltb max received

abbrev pub settle_buffer : Outcome Bytes → Buffering → Buffering
settle_buffer r b = elim b.settled [ none ↦ record b { settled = some r } | some q ↦ b ]

abbrev pub buffer_result : Option ℕ → Buffering → Outcome Bytes
buffer_result code b = if b.too_large then err (http_error 413 "FILE_TOO_LARGE") else elim code [
  | none ↦ err (failure "execBuffer failed")
  | some n ↦ if leb n 0 then ok b.chunks else err (failure "execBuffer failed")
]

module _ (max_bytes : Option ℕ) where
  abbrev pub buffer_chunk : Bytes → Buffering → Buffering
  buffer_chunk d b =
      let received = b.received + length d in
      if b.too_large
      then b
      else if over_cap (positive max_bytes) received
      then record b { chunks = []; received = received; too_large = true; killed = true }
      else record b { chunks = b.chunks ++ d; received = received }

  -- What comes on stderr only goes into a message.
  unfoldable pub on_buffer_event : ProcessEvent → Buffering → Buffering
  on_buffer_event (ProcessEvent.chunk Stream.out d) b = buffer_chunk d b
  on_buffer_event (ProcessEvent.chunk Stream.errors d) b = b
  on_buffer_event ProcessEvent.timeout b = b
  on_buffer_event ProcessEvent.abort b = b
  on_buffer_event (ProcessEvent.spawn_error e) b = settle_buffer (err e) b
  on_buffer_event (ProcessEvent.close code) b = settle_buffer (buffer_result code b) b

  unfoldable pub buffer_events : List ProcessEvent → Buffering → Buffering
  unfolding on_buffer_event
  buffer_events [] b = b
  buffer_events (e ∷ es) b = buffer_events es (on_buffer_event e b)
