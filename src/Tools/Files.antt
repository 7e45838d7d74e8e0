-- ===== src/Tools/Files.antt =====
-- services/tools.service.ts, the tools on one file and the shell: read, write, edit, access, stat, ls
-- and bash. A buffer is the list of its bytes, a text the list of its code units.
use sandbox_platform.Prelude.{
  ℕ, String, Bool, true, false, ◌||◌, Option, none, some, List, [], ◌∷◌, ◌++◌, ◌==◌, ltb,
  if◌then◌else◌, length, drop,
}
use sandbox_platform.Action.{
  AppError, Outcome, ok, err, Action, ◌>>=◌, ◌>>◌, pure, throw, throw_if, http_error,
}
use sandbox_platform.Db.Rows.{Env}
use sandbox_platform.Containers.Host.{Host, World, ContainerHandle, on_host}
use sandbox_platform.Containers.Lifecycle.{resolve_running_handle}
use sandbox_platform.Llm.Gateway.{is_http_error}
use sandbox_platform.Storage.Paths.{Chars, begins}
use sandbox_platform.Tools.Truncate.{Bytes, truncate}
use sandbox_platform.Tools.Walk.{FileStat}

-- A process that a signal ended has the exit code -1, which is none.
pub record ExecResult : Type 0 where
  pub exit_code : Option ℕ
  pub stdout : Bytes
  pub stderr : Bytes
  pub timed_out : Bool
  pub output_truncated : Bool

pub record ExecOptions : Type 0 where
  pub cwd : Option String
  pub timeout : Option ℕ
  pub env : Option Env
  pub max_output_bytes : ℕ

-- The executor's file operations and `exec`;
-- `decode` and `encode` are UTF-8 as Buffer does it, `repair` encodes what was decoded, and
-- `child_path` puts a name behind a directory's path.
pub record ToolHost (R : Type 0) : Type 0 where
  pub stat : ContainerHandle → String → Action R FileStat
  pub read_file : ContainerHandle → String → Action R Bytes
  pub write_file : ContainerHandle → String → Bytes → Action R (Unit {0})
  pub access : ContainerHandle → String → Action R (Unit {0})
  pub readdir : ContainerHandle → String → Action R (List String)
  pub exec : ContainerHandle → String → ExecOptions → Action R ExecResult
  pub decode : Bytes → Chars
  pub encode : Chars → Bytes
  pub repair : Bytes → Bytes
  pub child_path : String → String → String
  pub read_max_bytes : ℕ
  pub bash_max_timeout_seconds : ℕ
  pub bash_output_max_bytes : ℕ

pub record EditResult : Type 0 where
  pub applied : Bool
  pub size : ℕ

pub record LsEntry : Type 0 where
  pub name : String
  pub is_directory : Bool
  pub is_file : Bool
  pub size : ℕ

pub record BashResult : Type 0 where
  pub stdout : Bytes
  pub stderr : Bytes
  pub exit_code : Option ℕ
  pub timed_out : Bool
  pub truncated : Bool

abbrev pub too_large_file : AppError
too_large_file = http_error 413 "FILE_TOO_LARGE"

-- What stands before and after the first occurrence of a text.
unfoldable pub split_first : Chars → Chars → Option (Chars × Chars)
split_first old [] = if begins [] old then some ([], []) else none
split_first old (c ∷ s) =
    let rest = split_first old s in
    if begins (c ∷ s) old
    then some ([], drop (length old) (c ∷ s))
    else elim rest [ none ↦ none | some (p, q) ↦ some (c ∷ p, q) ]

abbrev pub dollar : ℕ
dollar = 36

-- What a dollar and the character after it stand for in the replacement of `String.replace`, whose
-- pattern has no groups: a dollar, what was matched, what is before it, what is after it, or none.
abbrev pub special : Chars → Chars → Chars → ℕ → Option Chars
special before old after c =
    if c == dollar
    then some (dollar ∷ [])
    else if c == 38
    then some old
    else if c == 96
    then some before
    else if c == 39
    then some after
    else none

unfoldable pub expand : Chars → Chars → Chars → Chars → Chars
expand before old after [] = []
expand before old after (c ∷ []) = c ∷ []
expand before old after (c ∷ d ∷ s) =
    let on = expand before old after s in
    let past = expand before old after (d ∷ s) in
    if c == dollar
    then elim (special before old after d) [ none ↦ c ∷ past | some t ↦ t ++ on ]
    else c ∷ past

module _ {R : Type 0} (tools : ToolHost R) where
  -- A failure of `stat` that is no HttpError is passed over.
  abbrev pub check_stat : Outcome FileStat → Action R (Unit {0})
  check_stat (ok s) = throw_if (ltb tools.read_max_bytes s.size) too_large_file
  check_stat (err e) = if is_http_error e then throw e else pure tt

  unfoldable pub read_capped : ContainerHandle → String → Action R Bytes
  read_capped handle path s =
      let (found, t) = tools.stat handle path s in
      (do
        check_stat found
        buf ← tools.read_file handle path
        throw_if (ltb tools.read_max_bytes (length buf)) too_large_file
        pure buf)
        t

  abbrev pub updated : Chars → Chars → Chars → Chars → Chars
  updated before old new after = before ++ (expand before old after new ++ after)

  abbrev pub apply_edit : ContainerHandle → String → Chars → Chars → Chars → Action R EditResult
  apply_edit handle path current old new = elim (split_first old current) [
    | none ↦ pure (record { applied = false; size = length current })
    | some (before, after) ↦ do
      tools.write_file handle path (tools.encode (updated before old new after))
      pure (record { applied = true; size = length (updated before old new after) })
  ]

  unfoldable pub edit_file : ContainerHandle → String → Chars → Chars → Action R EditResult
  unfolding read_capped
  edit_file handle path old new = do
    buf ← read_capped handle path
    apply_edit handle path (tools.decode buf) old new

  abbrev pub is_ok : {A : Type 0} → Outcome A → Bool
  is_ok (ok a) = true
  is_ok (err e) = false

  abbrev pub ls_entry : String → Outcome FileStat → LsEntry
  ls_entry name (ok s) = record {
    name = name;
    is_directory = s.is_directory;
    is_file = s.is_file;
    size = s.size;
  }
  ls_entry name (err e) = record { name = name; is_directory = false; is_file = false; size = 0 }

  unfoldable pub ls_entries : ContainerHandle → String → List String → Action R (List LsEntry)
  ls_entries handle path [] s = (ok [], s)
  ls_entries handle path (name ∷ names) s =
      let (found, t) = tools.stat handle (tools.child_path path name) s in
      (do rest ← ls_entries handle path names; pure (ls_entry name found ∷ rest)) t

  -- `assertBashTimeout`
  abbrev pub over_timeout : Option ℕ → Bool
  over_timeout none = false
  over_timeout (some seconds) = ltb tools.bash_max_timeout_seconds seconds

  abbrev pub bash_result : ExecResult → BashResult
  bash_result result =
      let out = truncate tools.repair 50000 2000 result.stdout in
      let errors = truncate tools.repair 50000 2000 result.stderr in
      record {
        stdout = out.content;
        stderr = errors.content;
        exit_code = result.exit_code;
        timed_out = result.timed_out;
        truncated = out.truncated || (errors.truncated || result.output_truncated);
      }

module _ {R : Type 0} (host : Host R) (tools : ToolHost R) where
  abbrev pub resolve : ℕ → ℕ → Action (World R) ContainerHandle
  resolve cid user_id = do found ← resolve_running_handle host cid user_id false; pure found.1

  unfoldable pub read : ℕ → ℕ → String → Action (World R) Bytes
  unfolding read_capped resolve_running_handle
  read cid user_id path = do handle ← resolve cid user_id; on_host (read_capped tools handle path)

  -- The size of what was written.
  unfoldable pub write : ℕ → ℕ → String → Bytes → Action (World R) ℕ
  unfolding resolve_running_handle
  write cid user_id path content = do
    handle ← resolve cid user_id
    on_host (tools.write_file handle path content)
    pure (length content)

  unfoldable pub edit : ℕ → ℕ → String → Chars → Chars → Action (World R) EditResult
  unfolding edit_file resolve_running_handle
  edit cid user_id path old new = do
    handle ← resolve cid user_id
    on_host (edit_file tools handle path old new)

  unfoldable pub access : ℕ → ℕ → String → Action (World R) Bool
  unfolding resolve_running_handle
  access cid user_id path = do
    handle ← resolve cid user_id
    on_host (λ s. let (r, t) = tools.access handle path s in (ok (is_ok tools r), t))

  unfoldable pub stat : ℕ → ℕ → String → Action (World R) FileStat
  unfolding resolve_running_handle
  stat cid user_id path = do handle ← resolve cid user_id; on_host (tools.stat handle path)

  unfoldable pub ls : ℕ → ℕ → String → Action (World R) (List LsEntry)
  unfolding ls_entries resolve_running_handle
  ls cid user_id path = do
    handle ← resolve cid user_id
    names ← on_host (tools.readdir handle path)
    on_host (ls_entries tools handle path names)

  unfoldable pub bash :
      ℕ → ℕ → String → Option String → Option ℕ → Option Env → Action (World R) BashResult
  unfolding resolve_running_handle
  bash cid user_id command cwd timeout env =
      let opts : ExecOptions = record {
        cwd = cwd;
        timeout = timeout;
        env = env;
        max_output_bytes = tools.bash_output_max_bytes;
      } in
      do
        throw_if (over_timeout tools timeout) (http_error 400 "TIMEOUT_TOO_LARGE")
        handle ← resolve cid user_id
        result ← on_host (tools.exec handle command opts)
        pure (bash_result tools result)
