-- ===== src/Storage/Paths.antt =====
-- services/workspace-storage.ts base to resolveInWorkspace, with what node:path does on POSIX. A
-- text is the list of its code points, and an absolute path the list of its segments.
use Prim.Native.Char.{code}
use Prim.Native.String.{String}
use sandbox_platform.Prelude.{
  ℕ, Bool, true, false, not, ◌&&◌, ◌||◌, List, [], ◌∷◌, ◌++◌, ◌==◌, if◌then◌else◌,
}
use sandbox_platform.Action.{Outcome, ok, err, bad_request}

abbrev pub Chars : Type 0
Chars = List ℕ

abbrev pub chars : String → Chars
chars String.[] = []
chars (String.◌∷◌ c s) = code c ∷ chars s

abbrev pub slash : ℕ
slash = 47

abbrev pub dot : ℕ
dot = 46

abbrev pub same : Chars → Chars → Bool
same [] [] = true
same [] (d ∷ t) = false
same (c ∷ s) [] = false
same (c ∷ s) (d ∷ t) = c == d && same s t

-- `s.startsWith(t)`
abbrev pub begins : Chars → Chars → Bool
begins s [] = true
begins [] (d ∷ t) = false
begins (c ∷ s) (d ∷ t) = c == d && begins s t

-- `s.endsWith("/")`
abbrev pub ends_in_slash : Chars → Bool
ends_in_slash [] = false
ends_in_slash (c ∷ []) = c == slash
ends_in_slash (c ∷ d ∷ s) = ends_in_slash (d ∷ s)

abbrev pub has : ℕ → Chars → Bool
has c [] = false
has c (d ∷ s) = d == c || has c s

-- `s.replace(/^\/+/, "")`
abbrev pub strip_slashes : Chars → Chars
strip_slashes [] = []
strip_slashes (c ∷ s) = let rest = strip_slashes s in if c == slash then rest else c ∷ s

abbrev pub push_head : ℕ → List Chars → List Chars
push_head c [] = (c ∷ []) ∷ []
push_head c (s ∷ rest) = (c ∷ s) ∷ rest

-- `s.split("/")`
abbrev pub split_slash : Chars → List Chars
split_slash [] = [] ∷ []
split_slash (c ∷ s) = let rest = split_slash s in if c == slash then [] ∷ rest else push_head c rest

abbrev pub text : List Chars → Chars
text [] = []
text (s ∷ path) = slash ∷ s ++ text path

-- The text of an absolute path.
unfoldable pub render : List Chars → Chars
render [] = slash ∷ []
render (s ∷ path) = text (s ∷ path)

-- The path without its last segment; that of the root is the root.
abbrev pub parent : List Chars → List Chars
parent [] = []
parent (s ∷ []) = []
parent (s ∷ t ∷ path) = s ∷ parent (t ∷ path)

-- One segment of a relative path, in `path.resolve`.
unfoldable pub enter : List Chars → Chars → List Chars
enter path s =
    if same s [] || same s (dot ∷ [])
    then path
    else if same s (dot ∷ dot ∷ [])
    then parent path
    else path ++ s ∷ []

abbrev pub enter_all : List Chars → List Chars → List Chars
enter_all path [] = path
enter_all path (s ∷ rest) = enter_all (enter path s) rest

-- `resolve(root, rel)`, where `rel` does not begin with a slash
unfoldable pub resolve : List Chars → Chars → List Chars
resolve root rel = enter_all root (split_slash rel)

-- `user-<userId>` under the base directory; `decimal` is what a template makes of a number.
abbrev pub user_root : (ℕ → Chars) → List Chars → ℕ → List Chars
user_root decimal base user_id = base ++ (chars "user-" ++ decimal user_id) ∷ []

abbrev pub workspace_dir : (ℕ → Chars) → List Chars → ℕ → ℕ → List Chars
workspace_dir decimal base user_id ws_id =
    user_root decimal base user_id ++ (chars "ws-" ++ decimal ws_id) ∷ []

-- The text that a path under `root` begins with.
abbrev pub prefix_of : List Chars → Chars
prefix_of root = let s = render root in if ends_in_slash s then s else s ++ slash ∷ []

unfoldable pub escapes : List Chars → List Chars → Bool
unfolding render
escapes root abs =
    not (same (render abs) (render root)) && not (begins (render abs) (prefix_of root))

-- resolveInWorkspace, for the directory `root` of the workspace
unfoldable pub resolve_in_workspace : List Chars → Chars → Outcome (List Chars)
unfolding resolve escapes
resolve_in_workspace root rel =
    let cleaned = strip_slashes rel in
    let abs = resolve root cleaned in
    if same cleaned [] || same cleaned (dot ∷ [])
    then ok root
    else if has 0 cleaned
    then err bad_request
    else if escapes root abs
    then err bad_request
    else ok abs
