-- ===== src/Storage/Names.antt =====
-- services/container-mounts.ts: the names of staging entries, and the staging directory of a
-- container, by the names of its entries with what they hold.
pub mod Staging
use sandbox_platform.Prelude.{
  ℕ, zero, suc, ◌+◌, ◌-◌, Bool, true, false, not, ◌&&◌, ◌||◌, Option, none, some, is_some, List, [],
  ◌∷◌, ◌++◌, ◌==◌, ltb, if◌then◌else◌, take, drop, length, delete_where, find_where,
}
use sandbox_platform.Action.{Outcome, ok, err, Action, bad_request, pure, throw}
use sandbox_platform.Storage.Paths.{Chars, same, slash, dot, chars}

-- `\s` of a regular expression, or NUL, or a separator
abbrev pub is_hostile : ℕ → Bool
is_hostile c =
    c == 92
    || c == slash
    || c == 0
    || (ltb 8 c && ltb c 14)
    || c == 32
    || c == 160
    || c == 5760
    || (ltb 8191 c && ltb c 8203)
    || c == 8232
    || c == 8233
    || c == 8239
    || c == 8287
    || c == 12288
    || c == 65279

abbrev pub underscore : ℕ
underscore = 95

abbrev pub replace_hostile : Chars → Chars
replace_hostile [] = []
replace_hostile (c ∷ s) = (if is_hostile c then underscore else c) ∷ replace_hostile s

-- `.replace(/^\.+/, "")`
abbrev pub strip_dots : Chars → Chars
strip_dots [] = []
strip_dots (c ∷ s) = let rest = strip_dots s in if c == dot then rest else c ∷ s

-- sanitizeMountName; there is no whitespace left for `trim` to take off. Text is UTF-16 in the
-- source: `slice` counts code units, which are the characters here up to U+FFFF.
unfoldable pub sanitize_mount_name : Chars → Chars
sanitize_mount_name name = take 120 (strip_dots (replace_hostile name))

-- outputRelDir
unfoldable pub output_rel_dir : Chars → Chars
unfolding sanitize_mount_name
output_rel_dir name =
    let s = sanitize_mount_name name in
    chars "outputs/" ++ (if same s [] then chars "container" else s)

-- `name.lastIndexOf(".")`
abbrev pub last_dot : Chars → Option ℕ
last_dot [] = none
last_dot (c ∷ s) =
    let later = last_dot s in
    elim later [ none ↦ if c == dot then some 0 else none | some i ↦ some (suc i) ]

-- The i-th name that materializeInput tries after the name itself; `decimal` is what a template makes
-- of a number.
unfoldable pub numbered : (ℕ → Chars) → Chars → ℕ → Chars
numbered decimal name i = elim (last_dot name) [
  | none ↦ name ++ chars "-" ++ decimal i
  | some k ↦
      if ltb 0 k
      then take k name ++ chars "-" ++ decimal i ++ drop k name
      else name ++ chars "-" ++ decimal i
]

module _ {C : Type 0} where
  abbrev pub is_entry : Chars → Chars × C → Bool
  is_entry name e = same name e.0

  abbrev pub exists : Chars → List (Chars × C) → Bool
  exists name entries = is_some (find_where (is_entry name) entries)

  -- The loop of materializeInput from its i-th round on, `rounds` before the one that throws; the
  -- round tries the name that the last one made.
  unfoldable pub free_name : (ℕ → Chars) → Chars → ℕ → ℕ → Chars → List (Chars × C) → Outcome Chars
  free_name decimal name zero i candidate entries =
      if exists candidate entries then err bad_request else ok candidate
  free_name decimal name (suc rounds) i candidate entries =
      let rest = free_name decimal name rounds (suc i) (numbered decimal name i) entries in
      if exists candidate entries then rest else ok candidate

  -- materializeInput: the copy of the item under a name that is free.
  unfoldable pub materialize_input : (ℕ → Chars) → C → Chars → Action (List (Chars × C)) Chars
  unfolding free_name
  materialize_input decimal item name entries = elim (free_name decimal name 64 1 name entries) [
    | ok chosen ↦ (ok chosen, entries ++ (chosen, item) ∷ [])
    | err e ↦ (err e, entries)
  ]

  -- removeStagingEntry
  unfoldable pub remove_staging_entry : Chars → List (Chars × C) → List (Chars × C)
  unfolding sanitize_mount_name
  remove_staging_entry name entries =
      let safe = sanitize_mount_name name in
      if same safe [] then entries else delete_where (is_entry safe) entries
