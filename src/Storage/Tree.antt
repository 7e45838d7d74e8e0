-- ===== src/Storage/Tree.antt =====
-- The walks over directory trees of services/container-mounts.ts (duBytes, assertDirHasNoSymlinks)
-- and services/workspace-storage.ts (statWorkspace), on the tree that lstat and readdir show.
pub mod Walks
use sandbox_platform.Prelude.{
  ℕ, suc, ◌+◌, ◌≤◌, ◌<◌, ◌≡◌, refl, Bool, true, false, ◌&&◌, ◌||◌, Option, none, some, ltb, leb,
  if◌then◌else◌, arith, Bool-cases, inl, inr,
}
use sandbox_platform.Action.{
  Outcome, ok, err, bad_request, Action, ◌>>=◌, ◌>>◌, pure, throw, throw_if, modify,
}

-- A file of some size, a symbolic link, or a directory; other kinds (sockets, pipes) count as files.
mutual
  pub data Node : Type 0 where
    file : ℕ → Node
    link : Node
    dir : Entries → Node

  pub data Entries : Type 0 where
    nil : Entries
    entry : Node → Entries → Entries

pub record Walk : Type 0 where
  pub total : ℕ
  pub entries : ℕ

abbrev pub max_walk_entries : ℕ
max_walk_entries = 100000

-- `if (entries++ > maxEntries)` …
abbrev pub count_entry : ℕ → Action Walk Bool
count_entry max s = (ok (ltb max s.entries), record s { entries = suc s.entries })

-- duBytes
unfoldable mutual
  pub du_walk : ℕ → Node → Action Walk (Unit {0})
  du_walk max (file size) = do
    throw_if (← count_entry max) bad_request
    modify (λ s. record s { total = s.total + size })
  du_walk max link = do throw_if (← count_entry max) bad_request; throw bad_request
  du_walk max (dir es) = do throw_if (← count_entry max) bad_request; du_walk_all max es

  pub du_walk_all : ℕ → Entries → Action Walk (Unit {0})
  du_walk_all max nil = pure tt
  du_walk_all max (entry n es) = do du_walk max n; du_walk_all max es

unfoldable pub du_bytes : ℕ → Node → Outcome ℕ
unfolding du_walk
du_bytes max n =
    let (r, s) = du_walk max n (record { total = 0; entries = 0 }) in
    elim r [ ok a ↦ ok s.total | err e ↦ err e ]

-- assertDirHasNoSymlinks: past the bound the walk returns.
unfoldable mutual
  pub guard_node : ℕ → Node → Action Walk (Unit {0})
  guard_node max (file size) = pure tt
  guard_node max link = throw bad_request
  guard_node max (dir es) = guard_walk max es

  pub guard_walk : ℕ → Entries → Action Walk (Unit {0})
  guard_walk max nil = pure tt
  guard_walk max (entry n es) = do
    over ← count_entry max
    if over then pure tt else do guard_node max n; guard_walk max es

unfoldable pub assert_dir_has_no_symlinks : ℕ → Entries → Outcome (Unit {0})
unfolding guard_walk
assert_dir_has_no_symlinks max es = (guard_walk max es (record { total = 0; entries = 0 })).0

-- statWorkspace, as bytes and files
unfoldable mutual
  pub stat_node : Node → ℕ × ℕ → ℕ × ℕ
  stat_node (file size) s = (s.0 + size, suc s.1)
  stat_node link s = s
  stat_node (dir es) s = stat_walk es s

  pub stat_walk : Entries → ℕ × ℕ → ℕ × ℕ
  stat_walk nil s = s
  stat_walk (entry n es) s = stat_walk es (stat_node n s)

unfoldable pub stat_workspace : Entries → ℕ × ℕ
unfolding stat_walk
stat_workspace es = stat_walk es (0, 0)
