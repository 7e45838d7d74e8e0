-- ===== src/ContainerLock/Draining.antt =====
-- services/container-lock.ts: the chain of promises runs to its end, and the map is left empty.
use sandbox_platform.Prelude.{
  ℕ, zero, suc, ◌+◌, ◌*◌, ◌<◌, ◌≤◌, ◌≡◌, refl, true, none, inl, inr, ◌⊎◌, arith, Bool-cases,
  Option-cases,
}
use sandbox_platform.ContainerLock.{Phase, Job, Locks, is_entry, set_phase, may_enter, sweep}
use sandbox_platform.ContainerLock.Steps.{
  Move, enter, settle, release, clean, Reach, Moves, done, more,
}
use sandbox_platform.ContainerLock.Invariant.{Inv, Reach-Inv, Moves-Reach, moved}

-- How many callbacks a job has ahead of it.
abbrev pub remaining : Phase → ℕ
remaining Phase.waiting = 4
remaining Phase.running = 3
remaining Phase.settled = 2
remaining Phase.released = 1
remaining Phase.swept = 0

abbrev pub work : (ℕ → Job) → ℕ → ℕ
work jobs zero = 0
work jobs (suc n) = remaining ((jobs n).phase) + work jobs n

work-bound : (jobs : ℕ → Job) (n : ℕ) → work jobs n ≤ 4 * n
work-bound jobs zero = omega arith
work-bound jobs (suc n) = ground (arith, work-bound jobs n)

work-beyond :
    (jobs : ℕ → Job) (i : ℕ) (q : Phase) (n : ℕ) → n ≤ i → work (moved jobs i q) n ≡ work jobs n
work-beyond jobs i q zero le = refl
work-beyond jobs i q (suc n) le = ground (arith, work-beyond jobs i q n)

work-moved :
    (jobs : ℕ → Job) (i : ℕ) (q : Phase) (n : ℕ)
    → i < n
    → remaining ((jobs i).phase) ≡ suc (remaining q)
    → work jobs n ≡ suc (work (moved jobs i q) n)
work-moved jobs i q zero lt e = absurd (omega arith)
work-moved jobs i q (suc n) lt e = ground (arith, work-moved jobs i q n, work-beyond jobs i q n)

Move-work :
    {s t : Locks}
    → Move s t
    → (t.count ≡ s.count) × (work s.jobs s.count ≡ suc (work t.jobs t.count))
unfolding sweep
Move-work {s} (enter i lt e m) = (refl, work-moved s.jobs i Phase.running s.count lt (rw e refl))
Move-work {s} (settle i lt e) = (refl, work-moved s.jobs i Phase.settled s.count lt (rw e refl))
Move-work {s} (release i lt e) = (refl, work-moved s.jobs i Phase.released s.count lt (rw e refl))
Move-work {s} (clean i lt e) = elim (Bool-cases (is_entry (s.tails ((s.jobs i).container)) i)) [
  | inl e ↦ rw e (refl, w)
  | inr e ↦ rw e (refl, w)
]
  where
    w : work s.jobs s.count ≡ suc (work (moved s.jobs i Phase.swept) s.count)
    w = work-moved s.jobs i Phase.swept s.count lt (rw e refl)

Moves-work :
    {s t : Locks} {n : ℕ}
    → Moves s n t
    → (t.count ≡ s.count) × (work s.jobs s.count ≡ n + work t.jobs t.count)
Moves-work done = (refl, ground arith)
Moves-work (more ms m) = ground (arith, Moves-work ms, Move-work m)

pub Phase-cases :
    (p : Phase)
    → (p ≡ Phase.waiting)
      ⊎ (p ≡ Phase.running)
      ⊎ (p ≡ Phase.settled)
      ⊎ (p ≡ Phase.released)
      ⊎ (p ≡ Phase.swept)
Phase-cases Phase.waiting = inl refl
Phase-cases Phase.running = inr (inl refl)
Phase-cases Phase.settled = inr (inr (inl refl))
Phase-cases Phase.released = inr (inr (inr (inl refl)))
Phase-cases Phase.swept = inr (inr (inr (inr refl)))

abbrev pub SweptBefore : Locks → ℕ → Type 0
SweptBefore s n = (i : ℕ) → i < n → (s.jobs i).phase ≡ Phase.swept

abbrev pub CanMove : Locks → Type 0
CanMove s = (t : Locks) × Move s t

-- A job after swept ones can take its next turn.
next_turn :
    {s : Locks}
    → Inv s
    → (n : ℕ) → n < s.count
    → SweptBefore s n
    → CanMove s ⊎ ((s.jobs n).phase ≡ Phase.swept)
next_turn {s} inv n lt before = elim (Phase-cases ((s.jobs n).phase)) [
  | inl e ↦ inl (set_phase n Phase.running s, enter n lt e free)
  | inr (inl e) ↦ inl (set_phase n Phase.settled s, settle n lt e)
  | inr (inr (inl e)) ↦ inl (set_phase n Phase.released s, release n lt e)
  | inr (inr (inr (inl e))) ↦ inl (sweep n s, clean n lt e)
  | inr (inr (inr (inr e))) ↦ inr e
]
  where
    free : may_enter s n ≡ true
    free = elim (Option-cases ((s.jobs n).prev)) [
      | inl e ↦ unfold may_enter in ground arith
      | inr (p, e) ↦
          unfold may_enter in ground (arith, before p ((inv.chain.chained n p lt e).before))
    ]

some_turn : {s : Locks} → Inv s → (n : ℕ) → n ≤ s.count → CanMove s ⊎ SweptBefore s n
some_turn inv zero le = inr (λ i lt. absurd (omega arith))
some_turn {s} inv (suc n) le = elim (some_turn inv n (omega arith)) [
  | inl m ↦ inl m
  | inr before ↦ elim (next_turn inv n le before) [
    | inl m ↦ inl m
    | inr e ↦ inr (λ i lt. grind (arith, before i))
  ]
]

abbrev pub NoEntry : Locks → Type 0
NoEntry s = (c : ℕ) → s.tails c ≡ none

-- From any state that is reached, the callbacks run out: with no further call at most four run for
-- each call made, and as long as none is left to run, every job is swept and the map is empty.
pub drains :
    {s t : Locks} {n : ℕ}
    → Reach s
    → Moves s n t
    → (n ≤ 4 * s.count) × (CanMove t ⊎ (SweptBefore t t.count × NoEntry t))
drains {s} {t} r ms = (
  ground (arith, Moves-work ms, work-bound s.jobs s.count),
  elim (some_turn inv t.count (omega arith)) [
    | inl m ↦ inl m
    | inr all ↦ inr (
      all,
      λ c. elim (Option-cases (t.tails c)) [
        | inl e ↦ e
        | inr (i, e) ↦ absurd (inv.kept c i e (all i ((inv.entry c i e).before)))
      ],
    )
  ],
)
  where
    inv : Inv t
    inv = Reach-Inv (Moves-Reach r ms)
