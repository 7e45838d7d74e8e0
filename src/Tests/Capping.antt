-- ===== src/Tests/Capping.antt =====
-- The override of the upload cap, on a file that was changed by hand behind the cache.
use sandbox_platform.Prelude.{◌≤◌, ◌≡◌, ◌⊎◌, refl, none, some, str_eq, if◌then◌else◌}
use sandbox_platform.Settings.{
  SettingsFormat, SettingsFile, Settings, upload_max_min_bytes, upload_max_ceiling_bytes,
  effective_workspace_upload_max_bytes, read_runtime_settings, set_workspace_upload_max_bytes,
}
use sandbox_platform.Settings.Cap.{IsBounded, effective-IsBounded}

abbrev format : SettingsFormat
format = record {
  parse = λ text. if str_eq text "small" then some 5 else some 2097152;
  stringify = λ bytes. elim bytes [ none ↦ "{}" | some b ↦ "large" ];
}

abbrev small : SettingsFile
small = record { mtime = 7; text = "small" }

abbrev stale : Settings
stale = record {
  file = some small;
  cached = some (record { mtime = 3; content = some 2097152 });
  clock = 9;
  write_error = none;
}

-- The value of the file is below the bounds, so the default of the environment is in force.
small_ignored : (effective_workspace_upload_max_bytes format 1000 stale).0 ≡ 1000
unfolding effective_workspace_upload_max_bytes read_runtime_settings
small_ignored = refl

effective-IsBounded_example :
    let (cap, t) = effective_workspace_upload_max_bytes format 1000 stale in
    ((cap ≡ 1000) ⊎ ((upload_max_min_bytes ≤ cap) × (cap ≤ upload_max_ceiling_bytes)))
    × IsBounded t
    × IsBounded (set_workspace_upload_max_bytes format (some 2097152) stale).1
effective-IsBounded_example = effective-IsBounded format 1000 (some 2097152) stale refl
