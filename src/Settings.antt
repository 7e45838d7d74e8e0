-- ===== src/Settings.antt =====
-- services/runtime-settings.ts: the override of the upload cap in data/runtime-settings.json, with
-- the cache of the last reading. JSON and the environment's cap are parameters.
pub mod Cap
use sandbox_platform.Prelude.{
  ℕ, suc, ◌*◌, String, Bool, true, false, ◌||◌, Option, none, some, or_else, is_some, ◌==◌, ltb,
  if◌then◌else◌,
}
use sandbox_platform.Action.{
  AppError, Action, ◌>>=◌, ◌>>◌, throw_if, modify, gets, ok, err, bad_request,
}

-- `parse` is the integer under `workspaceUploadMaxBytes` of the parsed text, where there is one that
-- is not negative; `stringify` is the text of an object with that entry, or of {}.
pub record SettingsFormat : Type 0 where
  pub parse : String → Option ℕ
  pub stringify : Option ℕ → String

pub record SettingsFile : Type 0 where
  pub mtime : ℕ
  pub text : String

pub record Cached : Type 0 where
  pub mtime : ℕ
  pub content : Option ℕ

-- `clock` is the time that a write gives the file, and `write_error` what a write would throw.
pub record Settings : Type 0 where
  pub file : Option SettingsFile
  pub cached : Option Cached
  pub clock : ℕ
  pub write_error : Option AppError

abbrev pub upload_max_min_bytes : ℕ
upload_max_min_bytes = 1048576

abbrev pub upload_max_ceiling_bytes : ℕ
upload_max_ceiling_bytes = 68719476736

abbrev pub out_of_bounds : ℕ → Bool
out_of_bounds bytes = ltb bytes upload_max_min_bytes || ltb upload_max_ceiling_bytes bytes

abbrev pub parse_settings : Option ℕ → Option ℕ
parse_settings none = none
parse_settings (some value) = if out_of_bounds value then none else some value

abbrev pub is_rejected : Option ℕ → Bool
is_rejected none = false
is_rejected (some bytes) = out_of_bounds bytes

-- The cached data, where it was read from a file of that time.
abbrev pub cached_at : ℕ → Option Cached → Option (Option ℕ)
cached_at mtime none = none
cached_at mtime (some c) = if c.mtime == mtime then some c.content else none

-- An empty object is not written where there is no file.
abbrev pub skips_write : Option ℕ → Option SettingsFile → Bool
skips_write none none = true
skips_write _ _ = false

module _ (format : SettingsFormat) where
  -- `cached = …; return data`
  abbrev pub read_and_cache : SettingsFile → Settings → Option ℕ × Settings
  read_and_cache f s =
      let content = parse_settings (format.parse f.text) in
      (content, record s { cached = some (record { mtime = f.mtime; content = content }) })

  abbrev pub read_file : SettingsFile → Settings → Option ℕ × Settings
  read_file f s = elim (cached_at f.mtime s.cached) [
    | none ↦ read_and_cache f s
    | some content ↦ (content, s)
  ]

  unfoldable pub read_runtime_settings : Settings → Option ℕ × Settings
  read_runtime_settings s = elim s.file [ none ↦ (none, s) | some f ↦ read_file f s ]

  unfoldable pub effective_workspace_upload_max_bytes : ℕ → Settings → ℕ × Settings
  unfolding read_runtime_settings
  effective_workspace_upload_max_bytes env_default s =
      let (override, t) = read_runtime_settings s in (or_else override env_default, t)

  -- The file written and put in place, and the cache dropped.
  abbrev pub write_settings : Option ℕ → Settings → Settings
  write_settings bytes s = record s {
    file = some (record { mtime = s.clock; text = format.stringify bytes });
    cached = none;
    clock = suc s.clock;
  }

  -- `write_settings`, or the error of the file system
  abbrev pub persist : Bool → Option ℕ → Action Settings (Option ℕ)
  persist true bytes s = (ok bytes, record s { cached = none })
  persist false bytes s = elim s.write_error [
    | none ↦ (ok bytes, write_settings bytes s)
    | some e ↦ (err e, s)
  ]

  unfoldable pub set_workspace_upload_max_bytes : Option ℕ → Action Settings (Option ℕ)
  unfolding read_runtime_settings
  set_workspace_upload_max_bytes bytes = do
    throw_if (is_rejected bytes) bad_request
    modify (λ s. (read_runtime_settings s).1)
    skip ← gets (λ s. skips_write bytes s.file)
    persist skip bytes
