-- ===== src/Executors/Quoting.antt =====
-- executors/shell-quote.ts, envOpts and startInstance of executors/ssh-executor.ts, envArgs of
-- executors/apptainer-cli-executor.ts. A text is the list of its code points.
use sandbox_platform.Prelude.{
  ℕ, Bool, true, false, ◌&&◌, ◌||◌, Option, none, some, List, [], ◌∷◌, ◌++◌, ◌==◌, leb,
  if◌then◌else◌,
}
use sandbox_platform.Storage.Paths.{Chars, chars}

abbrev pub quote_mark : ℕ
quote_mark = 39

abbrev pub backslash : ℕ
backslash = 92

abbrev pub blank : ℕ
blank = 32

-- `s.replace(/'/g, "'\\''")`
abbrev pub escape_quotes : Chars → Chars
escape_quotes [] = []
escape_quotes (c ∷ s) =
    let rest = escape_quotes s in
    if c == quote_mark then quote_mark ∷ backslash ∷ quote_mark ∷ quote_mark ∷ rest else c ∷ rest

unfoldable pub shell_quote : Chars → Chars
shell_quote s = quote_mark ∷ escape_quotes s ++ quote_mark ∷ []

-- A template literal, by its parts.
abbrev pub template : List Chars → Chars
template [] = []
template (p ∷ []) = p
template (p ∷ q ∷ parts) = p ++ template (q ∷ parts)

abbrev pub is_letter : ℕ → Bool
is_letter c = (leb 65 c && leb c 90) || (leb 97 c && leb c 122) || c == 95

abbrev pub is_name_char : ℕ → Bool
is_name_char c = is_letter c || (leb 48 c && leb c 57) || c == 46

abbrev pub all_name_chars : Chars → Bool
all_name_chars [] = true
all_name_chars (c ∷ s) = is_name_char c && all_name_chars s

-- /^[A-Za-z_][A-Za-z0-9_.]*$/
unfoldable pub is_valid_env_name : Chars → Bool
is_valid_env_name [] = false
is_valid_env_name (c ∷ s) = is_letter c && all_name_chars s

-- A variable of the request, and its value.
abbrev pub Variables : Type 0
Variables = List (Chars × Chars)

-- `parts.join(" ")`
abbrev pub join_blank : List Chars → Chars
join_blank [] = []
join_blank (p ∷ []) = p
join_blank (p ∷ q ∷ parts) = p ++ blank ∷ join_blank (q ∷ parts)

-- The parts of envOpts; a name that is not valid is passed over.
unfoldable pub env_parts : Variables → List Chars
unfolding shell_quote
env_parts [] = []
env_parts ((k, v) ∷ env) =
    let rest = env_parts env in
    if is_valid_env_name k
    then template (chars "--env " ∷ k ∷ chars "=" ∷ shell_quote v ∷ []) ∷ rest
    else rest

-- envOpts of the SSH executor; no environment counts as an empty one.
unfoldable pub env_opts : Variables → Chars
env_opts env = join_blank (env_parts env)

-- envArgs of the Apptainer executor, which starts the process without a shell.
unfoldable pub env_args : Variables → List Chars
env_args [] = []
env_args ((k, v) ∷ env) =
    let rest = env_args env in
    if is_valid_env_name k then chars "--env" ∷ template (k ∷ chars "=" ∷ v ∷ []) ∷ rest else rest

-- `--bind <seed>:/workspace` of `create`, or nothing
unfoldable pub bind_opt : Option Chars → Chars
unfolding shell_quote
bind_opt none = []
bind_opt (some seed) = template (chars "--bind " ∷ shell_quote seed ∷ chars ":/workspace" ∷ [])

-- A limit that is given, as an option with its number in decimal; 0 and no number give none, and so
-- do limits that are switched off.
abbrev pub limit_opt : Chars → Option Chars → Chars → Chars
limit_opt option none suffix = []
limit_opt option (some digits) suffix = template (option ∷ digits ∷ suffix ∷ [])

-- The command of startInstance.
unfoldable pub start_command :
    Option Chars → Option Chars → Variables → Chars → Option Chars → Chars → Chars → Chars
unfolding env_opts bind_opt shell_quote
start_command cpu memory env overlay_path seed image_path id = template (
    chars "apptainer instance start --contain --no-mount hostfs,cwd "
    ∷ limit_opt (chars "--cpus ") cpu []
    ∷ chars " "
    ∷ limit_opt (chars "--memory ") memory (chars "M")
    ∷ chars " "
    ∷ env_opts env
    ∷ chars " --overlay "
    ∷ shell_quote overlay_path
    ∷ chars " "
    ∷ bind_opt seed
    ∷ chars " "
    ∷ shell_quote image_path
    ∷ chars " "
    ∷ shell_quote id
    ∷ [])

-- access, readdir and stat
unfoldable pub test_command : Chars → Chars → Chars
unfolding shell_quote
test_command id path = template (
    chars "apptainer exec instance://" ∷ shell_quote id ∷ chars " test -e " ∷ shell_quote path ∷ [])

unfoldable pub list_command : Chars → Chars → Chars
unfolding shell_quote
list_command id path =
    template (
      chars "apptainer exec instance://" ∷ shell_quote id ∷ chars " ls -1 " ∷ shell_quote path ∷ [])

unfoldable pub stat_command : Chars → Chars → Chars
unfolding shell_quote
stat_command id path = template (
    chars "apptainer exec instance://"
    ∷ shell_quote id
    ∷ chars " stat -c '%F %s %Y' "
    ∷ shell_quote path
    ∷ [])

-- The inner command of writeFile, for the parent directory of the path and the content in base64.
unfoldable pub write_inner : Chars → Chars → Chars → Chars
unfolding shell_quote
write_inner parent content path = template (
    chars "mkdir -p "
    ∷ shell_quote parent
    ∷ chars " && echo "
    ∷ shell_quote content
    ∷ chars " | base64 -d > "
    ∷ shell_quote path
    ∷ [])

-- writeFile
unfoldable pub write_command : Chars → Chars → Chars → Chars → Chars
unfolding write_inner shell_quote
write_command id parent content path = template (
    chars "apptainer exec instance://"
    ∷ shell_quote id
    ∷ chars " sh -c "
    ∷ shell_quote (write_inner parent content path)
    ∷ [])
