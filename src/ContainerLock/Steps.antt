-- ===== src/ContainerLock/Steps.antt =====
-- services/container-lock.ts: the turns of the event loop that a chain of promises takes.
use sandbox_platform.Prelude.{ℕ, zero, suc, ◌<◌, ◌≡◌, true}
use sandbox_platform.ContainerLock.{
  Phase, Locks, no_locks, with_container_lock, set_phase, may_enter, sweep,
}

-- A callback that the event loop runs.
pub data Move (s : Locks) : Locks → Type 0 where
  enter :
      (i : ℕ)
      → i < s.count
      → (s.jobs i).phase ≡ Phase.waiting
      → may_enter s i ≡ true
      → Move s (set_phase i Phase.running s)
  settle :
      (i : ℕ)
      → i < s.count
      → (s.jobs i).phase ≡ Phase.running
      → Move s (set_phase i Phase.settled s)
  release :
      (i : ℕ)
      → i < s.count
      → (s.jobs i).phase ≡ Phase.settled
      → Move s (set_phase i Phase.released s)
  clean : (i : ℕ) → i < s.count → (s.jobs i).phase ≡ Phase.released → Move s (sweep i s)

pub data Step (s : Locks) : Locks → Type 0 where
  call : (c : ℕ) → Step s (with_container_lock c s)
  turn : {t : Locks} → Move s t → Step s t

pub data Reach : Locks → Type 0 where
  start : Reach no_locks
  later : {s t : Locks} → Reach s → Step s t → Reach t

-- A run of so many callbacks, with no further call.
pub data Moves (s : Locks) : ℕ → Locks → Type 0 where
  done : Moves s zero s
  more : {n : ℕ} {t u : Locks} → Moves s n t → Move t u → Moves s (suc n) u
