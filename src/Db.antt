-- ===== src/Db.antt =====
-- The database that the services share: db/migrations/0001_baseline.ts, 0002_token_version.ts and
-- 0004_container_mounts.ts. Of the columns `created_at` and `updated_at`, and of those that no
-- modelled method reads, there is no field.
pub mod Rows
pub mod Queries
use sandbox_platform.Prelude.{ℕ, suc, ◌+◌, List, [], ◌∷◌, ◌++◌}
use Rows.{
  UserRow, QuotaRow, ImageRow, ContainerRow, OverlayRow, SnapshotRow, MountRow, WorkspaceRow,
  RefreshTokenRow, ApiKeyRow, SessionRow, LogRow, LlmBindingRow, LlmVirtualKeyRow,
}

-- The rows in the order of their ids, and the next id: a key is AUTOINCREMENT (or SERIAL), so it is
-- never used again.
pub record Table (Row : Type 0) : Type 0 where
  pub rows : List Row
  pub next_id : ℕ

-- `clock` is what CURRENT_TIMESTAMP and `new Date()` give while a method runs.
pub record Db : Type 0 where
  pub users : Table UserRow
  pub resource_quotas : Table QuotaRow
  pub images : Table ImageRow
  pub containers : Table ContainerRow
  pub overlays : Table OverlayRow
  pub snapshots : Table SnapshotRow
  pub container_mounts : Table MountRow
  pub workspaces : Table WorkspaceRow
  pub refresh_tokens : Table RefreshTokenRow
  pub api_keys : Table ApiKeyRow
  pub sessions : Table SessionRow
  pub operation_logs : Table LogRow
  pub llm_user_bindings : Table LlmBindingRow
  pub llm_virtual_keys : Table LlmVirtualKeyRow
  pub clock : ℕ

module _ {Row : Type 0} where
  abbrev pub empty_table : Table Row
  empty_table = record { rows = []; next_id = 1 }

  -- INSERT; the row is given its id
  abbrev pub insert_row : (ℕ → Row) → Table Row → Table Row
  insert_row make t = record { rows = t.rows ++ make t.next_id ∷ []; next_id = suc t.next_id }

  abbrev pub with_rows : (List Row → List Row) → Table Row → Table Row
  with_rows f t = record t { rows = f t.rows }
