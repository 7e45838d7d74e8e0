-- ===== src/Tools/Walk.antt =====
-- services/tools.service.ts walkFiles: the breadth-first walk over a container's files, through an
-- executor that may answer anything.
use sandbox_platform.Prelude.{
  ℕ, zero, suc, ◌+◌, String, Bool, true, false, ◌||◌, Option, none, some, List, [], ◌∷◌, ◌++◌, ltb,
  leb, str_eq, any_where, if◌then◌else◌,
}
use sandbox_platform.Action.{Outcome, ok, err, Action, ◌>>=◌, pure}

-- What the walk reads of `FileStat`.
pub record FileStat : Type 0 where
  pub is_directory : Bool
  pub is_file : Bool
  pub size : ℕ

-- `S` is the state of the world together with what the visitor keeps. `is_late` is whether the clock
-- is past the deadline, and `join` is posixPath.join.
pub record WalkHost (S : Type 0) : Type 0 where
  pub readdir : String → Action S (List String)
  pub stat : String → Action S FileStat
  pub is_late : S → Bool × S
  pub join : String → String → String
  pub walk_max_files : ℕ
  pub walk_max_depth : ℕ

pub record Entry : Type 0 where
  pub dir : String
  pub rel : String
  pub depth : ℕ

-- What is left of a turn of the loop: the walk is over, or goes on with these entries pushed.
pub record Progress : Type 0 where
  pub pushed : List Entry
  pub visited : List String
  pub files : ℕ

abbrev pub is_skipped : String → Bool
is_skipped name = str_eq name ".git" || str_eq name "node_modules"

module _ {S : Type 0} (host : WalkHost S) (visit : String → Action S Bool) where
  abbrev pub child_rel : String → String → String
  child_rel rel name = if str_eq rel "" then name else host.join rel name

  abbrev pub push : Entry → String → String → Progress → Progress
  push e abs name p =
      if leb (e.depth + 1) host.walk_max_depth
      then record p {
        pushed =
            p.pushed ++ record { dir = abs; rel = child_rel e.rel name; depth = e.depth + 1 } ∷ [];
      }
      else p

  -- A file: none where the walk is over.
  abbrev pub see_file : Entry → String → Progress → Action S (Option Progress)
  see_file e name p = if ltb host.walk_max_files (p.files + 1) then pure none else do
    on ← visit (child_rel e.rel name)
    pure (if on then some (record p { files = p.files + 1 }) else none)

  abbrev pub see_stat :
      Entry → String → String → Progress → Outcome FileStat → Action S (Option Progress)
  see_stat e abs name p (err x) = pure (some p)
  see_stat e abs name p (ok st) =
      if st.is_directory then pure (some (push e abs name p)) else see_file e name p

  abbrev pub see_new : Entry → String → String → Progress → Action S (Option Progress)
  see_new e abs name p s = let (r, t) = host.stat abs s in see_stat e abs name p r t

  -- One name of a directory, in time.
  unfoldable pub see_name : Entry → String → Progress → Action S (Option Progress)
  see_name e name p =
      let abs = host.join e.dir name in
      if is_skipped name
      then pure (some p)
      else if any_where (str_eq abs) p.visited
      then pure (some p)
      else see_new e abs name (record p { visited = abs ∷ p.visited })

  abbrev pub go_on :
      (Progress → Action S (Option Progress))
      → Outcome (Option Progress)
      → Action S (Option Progress)
  go_on next (err x) s = (err x, s)
  go_on next (ok none) s = (ok none, s)
  go_on next (ok (some q)) s = next q s

  unfoldable pub see_names : Entry → List String → Progress → Action S (Option Progress)
  see_names e [] p s = (ok (some p), s)
  see_names e (name ∷ names) p s =
      let (late, t) = host.is_late s in
      if late
      then (ok none, t)
      else let (r, u) = see_name e name p t in go_on (see_names e names) r u

  -- A directory that cannot be read is passed over.
  abbrev pub see_dir : Entry → Progress → Outcome (List String) → Action S (Option Progress)
  see_dir e p (err x) = pure (some p)
  see_dir e p (ok names) = see_names e names p

  unfoldable pub turn : Entry → List String → ℕ → Action S (Option Progress)
  unfolding see_names see_name
  turn e visited files s =
      let (late, t) = host.is_late s in
      if late
      then (ok none, t)
      else let (r, u) = host.readdir e.dir t in
        see_dir e (record { pushed = []; visited = visited; files = files }) r u

  abbrev pub loop_on : (Progress → Action S Bool) → Outcome (Option Progress) → Action S Bool
  loop_on next (err x) s = (err x, s)
  loop_on next (ok none) s = (ok true, s)
  loop_on next (ok (some p)) s = next p s

  -- `while (queue.length > 0)`; it gives `false` where the fuel ran out.
  unfoldable pub walk : ℕ → List Entry → List String → ℕ → Action S Bool
  unfolding turn
  walk zero queue visited files s = (ok false, s)
  walk (suc fuel) [] visited files s = (ok true, s)
  walk (suc fuel) (e ∷ queue) visited files s =
      let (r, t) = turn e visited files s in
      loop_on (λ p. walk fuel (queue ++ p.pushed) p.visited p.files) r t

  unfoldable pub walk_files : ℕ → String → Action S Bool
  unfolding walk
  walk_files fuel root = walk fuel (record { dir = root; rel = ""; depth = 0 } ∷ []) [] 0
