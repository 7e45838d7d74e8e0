-- ===== src/ContainerLock/Invariant.antt =====
-- What holds of the chain of promises of services/container-lock.ts after any steps.
use sandbox_platform.Prelude.{
  ℕ, suc, ◌<◌, ◌≤◌, ◌≡◌, ◌≢◌, refl, inl, inr, true, none, some, ◌==◌, arith, Bool-cases,
  Option-cases,
}
use sandbox_platform.ContainerLock.{
  Phase, Job, Locks, no_locks, put, is_over, has_started, with_container_lock, set_phase, may_enter,
  is_entry, sweep,
}
use sandbox_platform.ContainerLock.Steps.{
  Move, enter, settle, release, clean, call, turn, Reach, start, later, Moves, done, more,
}

-- The jobs on `c` before `n` are over.
abbrev pub OverBefore : (ℕ → Job) → ℕ → ℕ → Type 0
OverBefore jobs c n = (j : ℕ) → j < n → (jobs j).container ≡ c → is_over ((jobs j).phase) ≡ true

-- `p` is the last job on `c` before `n`.
pub record LastBefore (jobs : ℕ → Job) (c n p : ℕ) : Type 0 where
  pub before : p < n
  pub same : (jobs p).container ≡ c
  pub last : (j : ℕ) → j < n → (jobs j).container ≡ c → j ≤ p

-- A job waits for the last one before it on its container, and starts once those before it are over.
pub record Chain (jobs : ℕ → Job) (count : ℕ) : Type 0 where
  pub chained :
      (i p : ℕ) → i < count → (jobs i).prev ≡ some p → LastBefore jobs ((jobs i).container) i p
  pub unchained :
      (i : ℕ) → i < count → (jobs i).prev ≡ none → OverBefore jobs ((jobs i).container) i
  pub started :
      (i : ℕ)
      → i < count
      → has_started ((jobs i).phase) ≡ true
      → OverBefore jobs ((jobs i).container) i

-- The entry of a container is its last job, not yet swept; without one, all its jobs are over.
pub record Inv (s : Locks) : Type 0 where
  pub chain : Chain s.jobs s.count
  pub entry : (c i : ℕ) → s.tails c ≡ some i → LastBefore s.jobs c s.count i
  pub kept : (c i : ℕ) → s.tails c ≡ some i → (s.jobs i).phase ≢ Phase.swept
  pub no_entry : (c : ℕ) → s.tails c ≡ none → OverBefore s.jobs c s.count

Inv-no_locks : Inv no_locks
Inv-no_locks = record {
  chain = record {
    chained = λ i p lt e. absurd (ground arith);
    unchained = λ i lt e. absurd (ground arith);
    started = λ i lt e. absurd (ground arith);
  };
  entry = λ c i e. absurd (ground arith);
  kept = λ c i e. absurd (ground arith);
  no_entry = λ c e j lt k. refl;
}

abbrev pub moved : (ℕ → Job) → ℕ → Phase → ℕ → Job
moved jobs i q = put i (record (jobs i) { phase = q }) jobs

module _ (jobs : ℕ → Job) (i : ℕ) (q : Phase)
    (settles : is_over ((jobs i).phase) ≡ true → is_over q ≡ true) where
  container-moved : (j : ℕ) → (moved jobs i q j).container ≡ (jobs j).container
  container-moved j = ground arith

  -- A phase that does not fall back leaves what is over, over.
  OverBefore-moved : (c n : ℕ) → OverBefore jobs c n → OverBefore (moved jobs i q) c n
  OverBefore-moved c n h j lt e = ground (arith, h j)

  LastBefore-moved : (c n p : ℕ) → LastBefore jobs c n p → LastBefore (moved jobs i q) c n p
  LastBefore-moved c n p h = record {
    before = h.before;
    same = ground (arith, h.same);
    last = λ j lt e. ground (arith, h.last j);
  }

  started-moved :
      (n : ℕ)
      → Chain jobs n
      → (has_started q ≡ true → OverBefore jobs ((jobs i).container) i)
      → (j : ℕ) → j < n
      → has_started ((moved jobs i q j).phase) ≡ true
      → OverBefore jobs ((jobs j).container) j
  started-moved n ch st j lt e k l m = grind (arith, ch.started j, st)

  Chain-moved :
      (n : ℕ)
      → Chain jobs n
      → (has_started q ≡ true → OverBefore jobs ((jobs i).container) i)
      → Chain (moved jobs i q) n
  Chain-moved n ch st = record {
    chained = λ j p lt e.
        rw (container-moved j)
          (LastBefore-moved ((jobs j).container) j p (ch.chained j p lt (ground arith)));
    unchained = λ j lt e.
        rw (container-moved j)
          (OverBefore-moved ((jobs j).container) j (ch.unchained j lt (ground arith)));
    started = λ j lt e.
        rw (container-moved j)
          (OverBefore-moved ((jobs j).container) j (started-moved n ch st j lt e));
  }

module _ (s : Locks) (inv : Inv s) where
  -- A turn that moves one job on, and leaves the entries.
  Inv-set_phase :
      (i : ℕ) (q : Phase)
      → (is_over ((s.jobs i).phase) ≡ true → is_over q ≡ true)
      → q ≢ Phase.swept
      → (has_started q ≡ true → OverBefore s.jobs ((s.jobs i).container) i)
      → Inv (set_phase i q s)
  Inv-set_phase i q settles ns st = record {
    chain = Chain-moved s.jobs i q settles s.count inv.chain st;
    entry = λ c j e. LastBefore-moved s.jobs i q settles c s.count j (inv.entry c j e);
    kept = λ c j e. ground (arith, inv.kept c j e, ns);
    no_entry = λ c e. OverBefore-moved s.jobs i q settles c s.count (inv.no_entry c e);
  }

  -- A job whose `prev` has settled comes after jobs that are all over.
  OverBefore-may_enter :
      (i : ℕ) → i < s.count → may_enter s i ≡ true → OverBefore s.jobs ((s.jobs i).container) i
  unfolding may_enter
  OverBefore-may_enter i lt e = elim (Option-cases ((s.jobs i).prev)) [
    | inl none_left ↦ inv.chain.unchained i lt none_left
    | inr (p, prev) ↦
        let c = inv.chain.chained i p lt prev in
        λ j l m. grind (arith, c.before, c.same, c.last j, inv.chain.started p)
  ]

  Inv-sweep : (i : ℕ) → i < s.count → (s.jobs i).phase ≡ Phase.released → Inv (sweep i s)
  unfolding sweep
  Inv-sweep i lt e = elim (Bool-cases (is_entry (s.tails ((s.jobs i).container)) i)) [
    | inl entry ↦ rw entry (record {
      chain = chain;
      entry = λ c j k.
          LastBefore-moved s.jobs i Phase.swept settles c s.count j (inv.entry c j (ground arith));
      kept = λ c j k f. grind (arith, inv.kept c j, inv.entry c j);
      no_entry = λ c k j l m. grind (arith, inv.no_entry c, inv.entry c i, inv.chain.started i);
    })
    | inr other ↦ rw other (record {
      chain = chain;
      entry = λ c j k. LastBefore-moved s.jobs i Phase.swept settles c s.count j (inv.entry c j k);
      kept = λ c j k f. grind (arith, inv.kept c j, inv.entry c j);
      no_entry = λ c k. OverBefore-moved s.jobs i Phase.swept settles c s.count (inv.no_entry c k);
    })
  ]
    where
      settles : is_over ((s.jobs i).phase) ≡ true → is_over Phase.swept ≡ true
      settles f = refl

      chain : Chain ((set_phase i Phase.swept s).jobs) s.count
      chain =
          Chain-moved s.jobs i Phase.swept settles s.count inv.chain
            (λ f. inv.chain.started i lt (rw e refl))

  module _ (c : ℕ) where
    LastBefore-call :
        (i p : ℕ)
        → i < suc s.count
        → ((with_container_lock c s).jobs i).prev ≡ some p
        → LastBefore
            ((with_container_lock c s).jobs)
            (((with_container_lock c s).jobs i).container)
            i
            p
    unfolding with_container_lock
    LastBefore-call i p lt e = elim (Bool-cases (i == s.count)) [
      | inl new ↦
          let h = inv.entry c p (ground arith) in
          record {
            before = ground (arith, h.before);
            same = ground (arith, h.same, h.before);
            last = λ j l m. ground (arith, h.last j);
          }
      | inr old ↦
          let h = inv.chain.chained i p (ground arith) (ground arith) in
          record {
            before = h.before;
            same = ground (arith, h.same, h.before);
            last = λ j l m. ground (arith, h.last j);
          }
    ]

    entry-call :
        (d i : ℕ)
        → (with_container_lock c s).tails d ≡ some i
        → LastBefore ((with_container_lock c s).jobs) d (suc s.count) i
    unfolding with_container_lock
    entry-call d i e = elim (Bool-cases (d == c)) [
      | inl new ↦ record {
        before = ground arith;
        same = ground arith;
        last = λ j l m. ground arith;
      }
      | inr old ↦
          let h = inv.entry d i (ground arith) in
          record {
            before = ground (arith, h.before);
            same = ground (arith, h.same, h.before);
            last = λ j l m. ground (arith, h.last j);
          }
    ]

  Inv-call : (c : ℕ) → Inv (with_container_lock c s)
  unfolding with_container_lock
  Inv-call c = record {
    chain = record {
      chained = λ i p lt e. LastBefore-call c i p lt e;
      unchained = λ i lt e j l m. grind (arith, inv.no_entry c, inv.chain.unchained i);
      started = λ i lt e j l m. grind (arith, inv.chain.started i);
    };
    entry = λ d i e. entry-call c d i e;
    kept = λ d i e f. grind (arith, inv.kept d i);
    no_entry = λ d e j l m. grind (arith, inv.no_entry d);
  }

Move-Inv : {s t : Locks} → Move s t → Inv s → Inv t
Move-Inv {s} (enter i lt e m) inv =
    Inv-set_phase s inv i Phase.running (λ f. absurd (ground arith)) (λ f. absurd (ground arith))
      (λ f. OverBefore-may_enter s inv i lt m)
Move-Inv {s} (settle i lt e) inv =
    Inv-set_phase s inv i Phase.settled (λ f. absurd (ground arith)) (λ f. absurd (ground arith))
      (λ f. inv.chain.started i lt (rw e refl))
Move-Inv {s} (release i lt e) inv =
    Inv-set_phase s inv i Phase.released (λ f. refl) (λ f. absurd (ground arith))
      (λ f. inv.chain.started i lt (rw e refl))
Move-Inv {s} (clean i lt e) inv = Inv-sweep s inv i lt e

pub Reach-Inv : {s : Locks} → Reach s → Inv s
Reach-Inv start = Inv-no_locks
Reach-Inv (later {s} r (call c)) = Inv-call s (Reach-Inv r) c
Reach-Inv (later r (turn m)) = Move-Inv m (Reach-Inv r)

pub Moves-Reach : {s t : Locks} {n : ℕ} → Reach s → Moves s n t → Reach t
Moves-Reach r done = r
Moves-Reach r (more ms m) = later (Moves-Reach r ms) (turn m)
