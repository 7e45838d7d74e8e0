-- ===== src/Terminal/Server.antt =====
-- routes/pty.ts attachPtyServer: the count of open terminals per container, which an accepted
-- upgrade raises at once, and the connections.
use sandbox_platform.Prelude.{
  ℕ, zero, suc, ◌+◌, ◌-◌, Bool, true, false, Option, none, some, or_else, List, [], ◌∷◌, leb,
  if◌then◌else◌,
}
use sandbox_platform.ContainerLock.{put}
use sandbox_platform.Terminal.{PtyConfig, Bridge, Event, Effect, new_bridge, handle}

-- The keys of the map are the containers; a connection stands with its own.
abbrev pub Counts : Type 0
Counts = ℕ → Option ℕ

abbrev pub Connections : Type 0
Connections = List (ℕ × Bridge)

pub record Server : Type 0 where
  pub open_per_container : Counts
  pub connections : Connections

abbrev pub no_connections : Server
no_connections = record { open_per_container = λ c. none; connections = [] }

abbrev pub open_count : ℕ → Counts → ℕ
open_count c counts = or_else (counts c) 0

abbrev pub increment : ℕ → Counts → Counts
increment c counts = put c (some (or_else (counts c) 0 + 1)) counts

-- An entry that comes to nothing is deleted.
abbrev pub entry_of : ℕ → Option ℕ
entry_of zero = none
entry_of (suc n) = some (suc n)

abbrev pub decrement_count : ℕ → Counts → Counts
decrement_count c counts = put c (entry_of (or_else (counts c) 1 - 1)) counts

abbrev pub apply_effect : ℕ → Effect → Counts → Counts
apply_effect c Effect.decrement counts = decrement_count c counts
apply_effect c _ counts = counts

abbrev pub apply_effects : ℕ → List Effect → Counts → Counts
apply_effects c [] counts = counts
apply_effects c (e ∷ es) counts = apply_effects c es (apply_effect c e counts)

-- The part of the "upgrade" handler that runs without an await: the limit, and the increment.
unfoldable pub accept : PtyConfig → ℕ → Server → Bool × Server
accept config c s =
    if leb config.max_per_container (open_count c s.open_per_container) then (false, s) else (
      true,
      record {
        open_per_container = increment c s.open_per_container;
        connections = (c, new_bridge) ∷ s.connections;
      },
    )

-- An event at the connection with the given place in the list.
unfoldable pub deliver : PtyConfig → ℕ → ℕ → Event → Connections → Counts → Connections × Counts
deliver config i now e [] counts = ([], counts)
deliver config zero now e ((c, b) ∷ r) counts =
    let (next, effects) = handle config now e b in ((c, next) ∷ r, apply_effects c effects counts)
deliver config (suc i) now e (x ∷ r) counts =
    let (rest, left) = deliver config i now e r counts in (x ∷ rest, left)

pub data Step : Type 0 where
  upgrade : ℕ → Step
  event : ℕ → ℕ → Event → Step

unfoldable pub step : PtyConfig → Step → Server → Server
unfolding accept deliver
step config (Step.upgrade c) s = (accept config c s).1
step config (Step.event i now e) s =
    let (connections, counts) = deliver config i now e s.connections s.open_per_container in
    record { open_per_container = counts; connections = connections }

unfoldable pub serve : PtyConfig → List Step → Server → Server
unfolding step
serve config [] s = s
serve config (x ∷ xs) s = serve config xs (step config x s)
