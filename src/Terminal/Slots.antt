-- ===== src/Terminal/Slots.antt =====
-- The count of open terminals: it is that of the connections that hold a slot, within the limit.
use sandbox_platform.Prelude.{
  ℕ, zero, suc, ◌+◌, ◌≤◌, ◌≡◌, List, [], ◌∷◌, arith, refl, if◌then◌else◌, ◌==◌,
}
use sandbox_platform.Terminal.{PtyConfig, Event, Effect, handle}
use sandbox_platform.Terminal.Accounting.{holds_slot, total, released_by, IsSound, handle_lem}
use sandbox_platform.Terminal.Server.{
  Server, Counts, Connections, Step, no_connections, open_count, apply_effect, apply_effects,
  accept, deliver, step, serve,
}

-- The slots that the connections of a container hold.
abbrev pub slots : ℕ → Connections → ℕ
slots c [] = 0
slots c ((d, b) ∷ r) = (if c == d then holds_slot b else 0) + slots c r

abbrev pub AllSound : Connections → Type 0
AllSound [] = Unit
AllSound ((d, b) ∷ r) = IsSound b.phase b.settled b.failed × AllSound r

apply_effects_lem :
    (c d : ℕ) (es : List Effect) (counts : Counts)
    → total released_by es ≤ open_count c counts
    → open_count d (apply_effects c es counts) + (if d == c then total released_by es else 0)
      ≡ open_count d counts
apply_effects_lem c d [] counts h = ground arith
apply_effects_lem c d (Effect.decrement ∷ es) counts h =
    ground (arith, apply_effects_lem c d es (apply_effect c Effect.decrement counts))
apply_effects_lem c d (e ∷ es) counts h = ground (arith, apply_effects_lem c d es counts)

-- With `base` the slots of the connections before these.
deliver_lem :
    (config : PtyConfig) (i now : ℕ) (e : Event) (base : ℕ → ℕ) (l : Connections) (counts : Counts)
    → AllSound l
    → ((c : ℕ) → open_count c counts ≡ base c + slots c l)
    → let (m, left) = deliver config i now e l counts in
      AllSound m
      × ((c : ℕ) → open_count c left ≡ base c + slots c m)
      × ((c : ℕ) → slots c m ≤ slots c l)
unfolding deliver
deliver_lem config i now e base [] counts s h = (tt, h, λ c. omega arith)
deliver_lem config zero now e base ((d, b) ∷ r) counts s h =
    let all = handle_lem config now e b s.0 in
    (
      (all.sound, s.1),
      λ c.
          ground
            (arith, h c, h d, all.slot, apply_effects_lem d c (handle config now e b).1 counts),
      λ c. ground (arith, all.slot),
    )
deliver_lem config (suc i) now e base ((d, b) ∷ r) counts s h =
    let rest =
      deliver_lem config i now e (λ c. base c + (if c == d then holds_slot b else 0)) r counts s.1
        (λ c. omega (arith, h c)) in
    ((s.0, rest.0), λ c. omega (arith, rest.1 c), λ c. omega (arith, rest.2 c))

record Counted (config : PtyConfig) (s : Server) : Type 0 where
  sound : AllSound s.connections
  exact : (c : ℕ) → open_count c s.open_per_container ≡ slots c s.connections
  limited : (c : ℕ) → open_count c s.open_per_container ≤ config.max_per_container

step-Counted :
    (config : PtyConfig) (x : Step) (s : Server)
    → Counted config s
    → Counted config (step config x s)
unfolding step accept
step-Counted config (Step.upgrade c) s v = record {
  sound = ground (arith, v.sound);
  exact = λ d. ground (arith, v.exact d, v.exact c);
  limited = λ d. ground (arith, v.limited d);
}
step-Counted config (Step.event i now e) s v =
    let next =
      deliver_lem config i now e (λ c. 0) s.connections s.open_per_container v.sound
        (λ c. omega (arith, v.exact c)) in
    record {
      sound = next.0;
      exact = λ c. omega (arith, next.1 c);
      limited = λ c. omega (arith, next.1 c, next.2 c, v.exact c, v.limited c);
    }

serve_from :
    (config : PtyConfig) (xs : List Step) (s : Server)
    → Counted config s
    → Counted config (serve config xs s)
unfolding serve
serve_from config [] s v = v
serve_from config (x ∷ xs) s v = serve_from config xs (step config x s) (step-Counted config x s v)

-- Whatever upgrades are asked for and whatever happens on the connections, in any order: the count of
-- a container's open terminals is the number of its connections that are neither settled nor failed, and it
-- is within the limit.
pub serve-counts :
    (config : PtyConfig) (xs : List Step) (c : ℕ)
    → let s = serve config xs no_connections in
      (open_count c s.open_per_container ≡ slots c s.connections)
      × (open_count c s.open_per_container ≤ config.max_per_container)
serve-counts config xs c =
    let all =
      serve_from config xs no_connections
        (record { sound = tt; exact = λ d. refl; limited = λ d. omega arith }) in
    (all.exact c, all.limited c)
