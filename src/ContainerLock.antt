-- ===== src/ContainerLock.antt =====
-- services/container-lock.ts: the mutex per container, a chain of promises. A call of
-- withContainerLock is a job; the promises it makes are `run`, which settles when its `fn` does,
-- and `tail`, which settles a microtask later. A step is one turn of the event loop that touches
-- the chain, so a list of steps is an interleaving.
pub mod Steps
pub mod Invariant
pub mod Draining
pub mod Queue
use sandbox_platform.Prelude.{
  ℕ, suc, ◌+◌, Bool, true, false, Option, none, some, ◌==◌, if◌then◌else◌,
}

-- Where a job stands: `prev` has not settled, `fn` is under way, `run` has settled, `tail` has, and
-- the callback on `tail` that cleans the map has run.
pub data Phase : Type 0 where
  waiting running settled released swept : Phase

-- A call of withContainerLock: its container and the job of whose `tail` its `fn` waits, none for
-- `Promise.resolve()`.
pub record Job : Type 0 where
  pub container : ℕ
  pub prev : Option ℕ
  pub phase : Phase

-- The jobs in the order of their calls, of which there are `count`, and `locks`, where a job stands
-- for its `tail`.
pub record Locks : Type 0 where
  pub count : ℕ
  pub jobs : ℕ → Job
  pub tails : ℕ → Option ℕ

abbrev pub no_locks : Locks
no_locks = record {
  count = 0;
  jobs = λ i. record { container = 0; prev = none; phase = Phase.swept };
  tails = λ c. none;
}

-- A finite map or heap with one entry changed.
abbrev pub put {ℓ} : {A : Type ℓ} → ℕ → A → (ℕ → A) → ℕ → A
put k a f x = if x == k then a else f x

-- Whether a `tail` has settled.
abbrev pub is_over : Phase → Bool
is_over Phase.released = true
is_over Phase.swept = true
is_over _ = false

abbrev pub has_started : Phase → Bool
has_started Phase.waiting = false
has_started _ = true

-- The synchronous part of withContainerLock: chain behind the entry, and become the entry.
unfoldable pub with_container_lock : ℕ → Locks → Locks
with_container_lock c s = record {
  count = suc s.count;
  jobs = put s.count (record { container = c; prev = s.tails c; phase = Phase.waiting }) s.jobs;
  tails = put c (some s.count) s.tails;
}

abbrev pub set_phase : ℕ → Phase → Locks → Locks
set_phase i p s = record s { jobs = put i (record (s.jobs i) { phase = p }) s.jobs }

-- Whether `prev` has settled, so that `prev.then(fn, fn)` calls `fn`.
unfoldable pub may_enter : Locks → ℕ → Bool
may_enter s i = elim ((s.jobs i).prev) [ none ↦ true | some p ↦ is_over ((s.jobs p).phase) ]

abbrev pub is_entry : Option ℕ → ℕ → Bool
is_entry none i = false
is_entry (some j) i = j == i

-- `tail.then(() => { if (locks.get(containerId) === tail) locks.delete(containerId) })`
unfoldable pub sweep : ℕ → Locks → Locks
sweep i s =
    let c = (s.jobs i).container in
    let done = set_phase i Phase.swept s in
    if is_entry (s.tails c) i then record done { tails = put c none s.tails } else done
