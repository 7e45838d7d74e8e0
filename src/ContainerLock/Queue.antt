-- ===== src/ContainerLock/Queue.antt =====
-- services/container-lock.ts against what a mutex with a queue does.
use sandbox_platform.Prelude.{
  ℕ, zero, suc, ◌<◌, ◌≤◌, ◌≡◌, refl, sym, subst, true, false, not, ◌&&◌, inl, inr, ◌==◌, arith,
  Bool-cases, if◌then◌else◌, List, [], ◌∷◌, ◌++◌,
}
use sandbox_platform.ContainerLock.{
  Phase, Job, Locks, put, is_over, has_started, is_entry, set_phase, sweep, with_container_lock,
}
use sandbox_platform.ContainerLock.Steps.{Step, call, turn, enter, settle, release, clean, Reach}
use sandbox_platform.ContainerLock.Invariant.{Inv, OverBefore, Reach-Inv, moved}

-- The calls on `c` among the first `n` that still hold or await the mutex.
abbrev pub pending : ℕ → (ℕ → Job) → ℕ → List ℕ
pending c jobs zero = []
pending c jobs (suc n) =
    let before = pending c jobs n in
    if (jobs n).container == c && not (is_over ((jobs n).phase)) then before ++ n ∷ [] else before

abbrev pub queue : ℕ → Locks → List ℕ
queue c s = pending c s.jobs s.count

-- A mutex with a queue: a caller joins at the end, and who leaves is the first.
pub data QueueStep (q : List ℕ) : List ℕ → Type 0 where
  join : (i : ℕ) → QueueStep q (q ++ i ∷ [])
  leave : (i : ℕ) {rest : List ℕ} → q ≡ i ∷ rest → QueueStep q rest
  stay : QueueStep q q

pending-beyond :
    (jobs : ℕ → Job) (i : ℕ) (x : Job) (c n : ℕ)
    → n ≤ i
    → pending c (put i x jobs) n ≡ pending c jobs n
pending-beyond jobs i x c zero le = refl
pending-beyond jobs i x c (suc n) le = ground (arith, pending-beyond jobs i x c n)

module _ (jobs : ℕ → Job) (i : ℕ) (q : Phase) (c : ℕ) where
  pending-same :
      (n : ℕ)
      → is_over q ≡ is_over ((jobs i).phase)
      → pending c (moved jobs i q) n ≡ pending c jobs n
  pending-same zero e = refl
  pending-same (suc n) e = ground (arith, pending-same n)

  pending-other :
      (n : ℕ) → ((jobs i).container == c) ≡ false → pending c (moved jobs i q) n ≡ pending c jobs n
  pending-other zero e = refl
  pending-other (suc n) e = ground (arith, pending-other n)

pending-none : (jobs : ℕ → Job) (c n : ℕ) → OverBefore jobs c n → pending c jobs n ≡ []
pending-none jobs c zero h = refl
pending-none jobs c (suc n) h =
    ground (arith, h n, pending-none jobs c n (λ j lt e. grind (arith, h j)))

-- Behind jobs that are over, one that is not is the first, and settling its tail takes it out.
pending-head :
    (jobs : ℕ → Job) (i : ℕ) (q : Phase) (n : ℕ)
    → OverBefore jobs ((jobs i).container) i
    → is_over ((jobs i).phase) ≡ false
    → is_over q ≡ true
    → i < n
    → pending ((jobs i).container) jobs n ≡ i ∷ pending ((jobs i).container) (moved jobs i q) n
pending-head jobs i q zero h e k lt = absurd (omega arith)
pending-head jobs i q (suc n) h e k lt = elim (Bool-cases (n == i)) [
  | inl same ↦ ground (
    arith,
    pending-none jobs ((jobs i).container) i h,
    pending-beyond jobs i (record (jobs i) { phase = q }) ((jobs i).container) i,
  )
  | inr other ↦ ground (arith, pending-head jobs i q n h e k (ground arith))
]

stays : {q r : List ℕ} → r ≡ q → QueueStep q r
stays {q} e = subst (QueueStep q) (sym e) stay

call-QueueStep : (s : Locks) (d c : ℕ) → QueueStep (queue c s) (queue c (with_container_lock d s))
unfolding with_container_lock
call-QueueStep s d c = elim (Bool-cases (d == c)) [
  | inl e ↦ subst (QueueStep (queue c s)) (ground (arith, same)) (join s.count)
  | inr e ↦ stays (ground (arith, same))
]
  where
    same :
        pending c
          (put s.count (record { container = d; prev = s.tails d; phase = Phase.waiting }) s.jobs)
          s.count
        ≡ queue c s
    same =
        pending-beyond s.jobs s.count
          (record { container = d; prev = s.tails d; phase = Phase.waiting }) c s.count
          (omega arith)

release-QueueStep :
    (s : Locks)
    → Inv s
    → (i c : ℕ) → i < s.count
    → (s.jobs i).phase ≡ Phase.settled
    → QueueStep (queue c s) (queue c (set_phase i Phase.released s))
release-QueueStep s inv i c lt e = elim (Bool-cases ((s.jobs i).container == c)) [
  | inl same ↦ leave i (
      ground (
        arith,
        pending-head s.jobs i Phase.released s.count (inv.chain.started i lt (rw e refl))
            (rw e refl) refl lt,
      ))
  | inr other ↦ stays (pending-other s.jobs i Phase.released c s.count other)
]

clean-QueueStep :
    (s : Locks) (i c : ℕ)
    → (s.jobs i).phase ≡ Phase.released
    → QueueStep (queue c s) (queue c (sweep i s))
unfolding sweep
clean-QueueStep s i c e = elim (Bool-cases (is_entry (s.tails ((s.jobs i).container)) i)) [
  | inl f ↦ rw f (stays same)
  | inr f ↦ rw f (stays same)
]
  where
    same : pending c (moved s.jobs i Phase.swept) s.count ≡ queue c s
    same = pending-same s.jobs i Phase.swept c s.count (rw e refl)

-- The promise chains implement one queue per container: on the queue of every container, of its
-- calls whose `tail` has not settled, a turn of the event loop does nothing, adds a call at the end,
-- or takes the first call out.
pub refines : {s t : Locks} → Reach s → Step s t → (c : ℕ) → QueueStep (queue c s) (queue c t)
refines r (call d) c = call-QueueStep _ d c
refines {s} r (turn (enter i lt e m)) c =
    stays (pending-same s.jobs i Phase.running c s.count (rw e refl))
refines {s} r (turn (settle i lt e)) c =
    stays (pending-same s.jobs i Phase.settled c s.count (rw e refl))
refines {s} r (turn (release i lt e)) c = release-QueueStep s (Reach-Inv r) i c lt e
refines {s} r (turn (clean i lt e)) c = clean-QueueStep s i c e

-- Whatever the interleaving, a call whose `fn` has started and whose `tail` has not settled is the
-- first in the queue of its container: `fn` runs in the order of the calls, one at a time.
pub runs_first :
    {s : Locks}
    → Reach s
    → (i : ℕ) → i < s.count
    → has_started ((s.jobs i).phase) ≡ true
    → is_over ((s.jobs i).phase) ≡ false
    → (rest : List ℕ) × (queue ((s.jobs i).container) s ≡ i ∷ rest)
runs_first {s} r i lt st e = (
  pending ((s.jobs i).container) (moved s.jobs i Phase.released) s.count,
  pending-head s.jobs i Phase.released s.count ((Reach-Inv r).chain.started i lt st) e refl lt,
)
