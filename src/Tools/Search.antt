-- ===== src/Tools/Search.antt =====
-- services/tools.service.ts, the tools on a tree: find and grep.
use sandbox_platform.Prelude.{
  ℕ, suc, String, Bool, true, false, not, ◌&&◌, ◌||◌, Option, none, some, List, [], ◌∷◌, ◌++◌, ◌==◌,
  ltb, if◌then◌else◌, length, take,
}
use sandbox_platform.Action.{
  Outcome, ok, err, Action, ◌>>=◌, ◌>>◌, pure, throw_if, or_throw, http_error,
}
use sandbox_platform.Containers.Host.{Host, World, ContainerHandle, on_host}
use sandbox_platform.Containers.Lifecycle.{resolve_running_handle}
use sandbox_platform.Storage.Paths.{Chars, chars}
use sandbox_platform.Tools.Truncate.{Bytes, split_lines}
use sandbox_platform.Tools.Walk.{WalkHost, walk_files}
use sandbox_platform.Tools.Glob.{glob_matches}
use sandbox_platform.Tools.Files.{ToolHost, resolve}

-- `past_deadline` is the test on the clock, which is false where there is no limit of time; `lower` is
-- toLowerCase, `includes` String.includes, `compile` `new RegExp` with its `test`, none where it
-- throws, and `safe_regex` the package of that name.
pub record SearchHost (R : Type 0) : Type 0 where
  pub past_deadline : R → Bool × R
  pub join : String → String → String
  pub basename : String → String
  pub lower : Chars → Chars
  pub includes : Chars → Chars → Bool
  pub compile : Chars → Bool → Option (Chars → Bool)
  pub safe_regex : Chars → Bool
  pub walk_max_files : ℕ
  pub walk_max_depth : ℕ
  pub grep_max_pattern_chars : ℕ
  pub grep_max_line_chars : ℕ

-- The world during a walk, with what was found so far.
pub record Search (R A : Type 0) : Type 0 where
  pub world : R
  pub found : List A

pub record Match : Type 0 where
  pub file : String
  pub line_number : ℕ
  pub line : Chars

pub record GrepParams : Type 0 where
  pub pattern : Chars
  pub path : Option String
  pub glob : Option Chars
  pub literal : Bool
  pub ignore_case : Bool
  pub limit : Option ℕ

abbrev pub root_of : Option String → String
root_of none = "."
root_of (some path) = path

abbrev pub limit_of : Option ℕ → ℕ
limit_of none = 100
limit_of (some n) = n

-- Whether a file's name passes the filter; an empty one is none.
abbrev pub passes : Option Chars → String → Bool
passes none rel = true
passes (some []) rel = true
passes (some (c ∷ s)) rel = glob_matches (chars rel) (c ∷ s)

-- `content.split(/\r?\n/)`: a carriage return before a newline goes with it.
abbrev pub drop_return : Chars → Chars
drop_return [] = []
drop_return (c ∷ []) = if c == 13 then [] else c ∷ []
drop_return (c ∷ d ∷ s) = c ∷ drop_return (d ∷ s)

abbrev pub drop_returns : List Chars → List Chars
drop_returns [] = []
drop_returns (l ∷ []) = l ∷ []
drop_returns (l ∷ m ∷ rest) = drop_return l ∷ drop_returns (m ∷ rest)

abbrev pub split_crlf : Chars → List Chars
split_crlf s = drop_returns (split_lines s)

module _ {R A : Type 0} where
  abbrev pub lift : {B : Type 0} → Action R B → Action (Search R A) B
  lift m s = let (r, t) = m s.world in (r, record s { world = t })

  abbrev pub add_found : A → Search R A → Search R A
  add_found a s = record s { found = s.found ++ a ∷ [] }

module _ {R : Type 0} (tools : ToolHost R) (search : SearchHost R) (handle : ContainerHandle) where
  abbrev pub walk_host : {A : Type 0} → WalkHost (Search R A)
  walk_host = record {
    readdir = λ path. lift (tools.readdir handle path);
    stat = λ path. lift (tools.stat handle path);
    is_late = λ s. let (late, t) = search.past_deadline s.world in (late, record s { world = t });
    join = search.join;
    walk_max_files = search.walk_max_files;
    walk_max_depth = search.walk_max_depth;
  }

  abbrev pub is_hit : Chars → String → Bool
  is_hit pattern rel =
      glob_matches (chars (search.basename rel)) pattern || glob_matches (chars rel) pattern

  -- Whether there is room for more.
  abbrev pub has_room : {A : Type 0} → ℕ → Search R A → Bool
  has_room limit s = ltb (length s.found) limit

  abbrev pub go_on_if_room : {A : Type 0} → ℕ → Action (Search R A) Bool
  go_on_if_room limit s = (ok (has_room limit s), s)

  -- The visitor of `find`.
  unfoldable pub find_visit : String → Chars → ℕ → String → Action (Search R String) Bool
  find_visit root pattern limit rel s =
      if has_room limit s
      then if is_hit pattern rel
        then go_on_if_room limit (add_found (search.join root rel) s)
        else (ok true, s)
      else (ok false, s)

  abbrev pub cut_line : Chars → Chars
  cut_line raw =
      if ltb search.grep_max_line_chars (length raw)
      then take search.grep_max_line_chars raw
      else raw

  -- The loop over the lines, from line `i`.
  unfoldable pub scan_lines :
      (Chars → Bool) → ℕ → String → ℕ → List Chars → Action (Search R Match) Bool
  scan_lines matcher limit rel i [] s = (ok true, s)
  scan_lines matcher limit rel i (raw ∷ lines) s =
      let hit : Match = record { file = rel; line_number = i; line = cut_line raw } in
      let with_hit = add_found hit s in
      elim (matcher (cut_line raw)) [
        | false ↦ scan_lines matcher limit rel (suc i) lines s
        | true ↦ elim (has_room limit with_hit) [
          | false ↦ (ok false, with_hit)
          | true ↦ scan_lines matcher limit rel (suc i) lines with_hit
        ]
      ]

  -- A file that cannot be read, and one over the cap, is passed over.
  abbrev pub scan_file : (Chars → Bool) → ℕ → String → Outcome Bytes → Action (Search R Match) Bool
  scan_file matcher limit rel (err e) = pure true
  scan_file matcher limit rel (ok buf) =
      if ltb tools.read_max_bytes (length buf)
      then pure true
      else scan_lines matcher limit rel 1 (split_crlf (tools.decode buf))

  -- The visitor of `grep`.
  unfoldable pub grep_visit :
      (Chars → Bool) → String → Option Chars → ℕ → String → Action (Search R Match) Bool
  unfolding scan_lines
  grep_visit matcher root glob limit rel s =
      if not (has_room limit s)
      then (ok false, s)
      else if not (passes glob rel)
      then (ok true, s)
      else let (r, t) = tools.read_file handle (search.join root rel) s.world in
        scan_file matcher limit rel r (record s { world = t })

  -- What a walk has found; none where the fuel ran out.
  abbrev pub found_by : {A : Type 0} → Action (Search R A) Bool → Action R (Option (List A))
  found_by walk w =
      let (r, s) = walk (record { world = w; found = [] }) in
      elim r [
        | err e ↦ (err e, s.world)
        | ok true ↦ (ok (some s.found), s.world)
        | ok false ↦ (ok none, s.world)
      ]

  unfoldable pub find_in : ℕ → Chars → Option String → Option ℕ → Action R (Option (List String))
  unfolding find_visit
  find_in fuel pattern path limit = found_by (
      walk_files walk_host (find_visit (root_of path) pattern (limit_of limit)) fuel (root_of path))

  -- `buildLineMatcher`
  abbrev pub line_matcher : GrepParams → Option (Chars → Bool)
  line_matcher params =
      if params.literal
      then some (
          if params.ignore_case
          then (λ line. search.includes (search.lower line) (search.lower params.pattern))
          else (λ line. search.includes line params.pattern))
      else search.compile params.pattern params.ignore_case

  abbrev pub check_pattern : GrepParams → Action R (Unit {0})
  check_pattern params = do
    throw_if (ltb search.grep_max_pattern_chars (length params.pattern))
        (http_error 400 "PATTERN_TOO_LONG")
    throw_if (not params.literal && not (search.safe_regex params.pattern))
        (http_error 400 "UNSAFE_PATTERN")

  unfoldable pub grep_in : ℕ → GrepParams → Action R (Option (List Match))
  unfolding grep_visit
  grep_in fuel params = do
    check_pattern params
    matcher ← or_throw (line_matcher params) (http_error 400 "INVALID_PATTERN")
    found_by (
        walk_files walk_host
          (grep_visit matcher (root_of params.path) params.glob (limit_of params.limit)) fuel
          (root_of params.path))

module _ {R : Type 0} (host : Host R) (tools : ToolHost R) (search : SearchHost R) where
  unfoldable pub find :
      ℕ → ℕ → ℕ → Chars → Option String → Option ℕ → Action (World R) (Option (List String))
  unfolding find_in resolve_running_handle
  find fuel cid user_id pattern path limit = do
    handle ← resolve host tools cid user_id
    on_host (find_in tools search handle fuel pattern path limit)

  unfoldable pub grep : ℕ → ℕ → ℕ → GrepParams → Action (World R) (Option (List Match))
  unfolding grep_in resolve_running_handle
  grep fuel cid user_id params = do
    handle ← resolve host tools cid user_id
    on_host (grep_in tools search handle fuel params)
