-- ===== src/Settings/Cap.antt =====
-- What the effective upload cap is, and that an override is read back.
use sandbox_platform.Prelude.{
  ℕ, ◌≤◌, ◌≡◌, ◌⊎◌, Bool, true, inl, inr, refl, arith, false, Option, none, some, or_else,
  Bool-cases, Option-cases,
}
use sandbox_platform.Action.{ok}
use sandbox_platform.Settings.{
  SettingsFormat, Settings, Cached, parse_settings, upload_max_min_bytes, upload_max_ceiling_bytes,
  is_rejected, skips_write, persist, effective_workspace_upload_max_bytes, read_runtime_settings,
  set_workspace_upload_max_bytes,
}

module _ (format : SettingsFormat)
    (parse-stringify : (v : Option ℕ) → format.parse (format.stringify v) ≡ v) where
  -- Where the file can be written, an override within the bounds, or null, is accepted, and the
  -- effective cap is then the override, or the environment's for null.
  pub set-effective :
      (bytes : Option ℕ) (env_default : ℕ) (s : Settings)
      → is_rejected bytes ≡ false
      → s.write_error ≡ none
      → let (r, t) = set_workspace_upload_max_bytes format bytes s in
        (r ≡ ok bytes)
        × ((effective_workspace_upload_max_bytes format env_default t).0
            ≡ or_else bytes env_default)
  unfolding set_workspace_upload_max_bytes effective_workspace_upload_max_bytes
      read_runtime_settings
  set-effective none env_default s accepted writable =
      (ground (arith, parse-stringify none), ground (arith, parse-stringify none))
  set-effective (some b) env_default s accepted writable =
      (ground (arith, parse-stringify (some b)), ground (arith, parse-stringify (some b)))

abbrev held : Option Cached → Option ℕ
held none = none
held (some c) = c.content

-- What the cache holds is null or within the bounds.
abbrev pub IsBounded : Settings → Type 0
IsBounded s = is_rejected (held s.cached) ≡ false

parse_settings-within : (value : Option ℕ) → is_rejected (parse_settings value) ≡ false
parse_settings-within none = refl
parse_settings-within (some n) = ground arith

module _ (format : SettingsFormat) where
  read-IsBounded :
      (s : Settings)
      → IsBounded s
      → (is_rejected (read_runtime_settings format s).0 ≡ false)
        × IsBounded (read_runtime_settings format s).1
  unfolding read_runtime_settings
  read-IsBounded s bounded = elim (Option-cases s.file) [
    | inl missing ↦ (ground arith, ground arith)
    | inr (f, there) ↦
        let parsed = parse_settings-within (format.parse f.text) in
        (ground (arith, parsed), ground (arith, parsed))
  ]

  written-IsBounded :
      (skip : Bool) (bytes : Option ℕ) (s : Settings)
      → is_rejected bytes ≡ false
      → IsBounded s
      → IsBounded (persist format skip bytes s).1
  written-IsBounded true bytes s accepted bounded = refl
  written-IsBounded false bytes s accepted bounded = ground arith

  within :
      (override : Option ℕ) (env_default : ℕ)
      → is_rejected override ≡ false
      → (or_else override env_default ≡ env_default)
        ⊎ ((upload_max_min_bytes ≤ or_else override env_default)
            × (or_else override env_default ≤ upload_max_ceiling_bytes))
  within none env_default accepted = inl refl
  within (some n) env_default accepted = inr (ground arith, ground arith)

  -- Where the cache holds null or a value within the bounds, whatever text the file has: the effective
  -- cap is the environment's or within the bounds, and after a reading or a write, a refused one
  -- included, the cache is again null or within them.
  pub effective-IsBounded :
      (env_default : ℕ) (bytes : Option ℕ) (s : Settings)
      → IsBounded s
      → let (cap, t) = effective_workspace_upload_max_bytes format env_default s in
        ((cap ≡ env_default) ⊎ ((upload_max_min_bytes ≤ cap) × (cap ≤ upload_max_ceiling_bytes)))
        × IsBounded t
        × IsBounded (set_workspace_upload_max_bytes format bytes s).1
  unfolding set_workspace_upload_max_bytes effective_workspace_upload_max_bytes
  effective-IsBounded env_default bytes s bounded = (
    within (read_runtime_settings format s).0 env_default (read-IsBounded s bounded).0,
    (read-IsBounded s bounded).1,
    elim (Bool-cases (is_rejected bytes)) [
      | inl refused ↦ ground arith
      | inr accepted ↦
          let read = (read_runtime_settings format s).1 in
          let kept =
            written-IsBounded (skips_write bytes read.file) bytes read accepted
              (read-IsBounded s bounded).1 in
          ground (arith, kept)
    ],
  )
