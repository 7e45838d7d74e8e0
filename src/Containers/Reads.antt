-- ===== src/Containers/Reads.antt =====
-- The parts of the methods that write nothing to the database, though they act on the outside world.
use sandbox_platform.Prelude.{ℕ, String, ◌≡◌, refl, Bool, Option, none, some, List, [], ◌∷◌, arith}
use sandbox_platform.Db.Rows.{ContainerRow, MountRow}
use sandbox_platform.Quota.{assert_can_create, assert_image_allowed, assert_image_instance_limit}
use sandbox_platform.Containers.Host.{Host, World}
use sandbox_platform.Containers.Mounts.{
  InputItem, MountsInput, stage_inputs, stage_output, prepare_some, prepare_mounts, replay_output,
  replay_rows, replay_mounts,
}
use sandbox_platform.Containers.Create.{CreateInput, admit, llm_env, seed_path, plan}
use sandbox_platform.Containers.Lifecycle.{stop_quietly}

module _ {R : Type 0} (host : Host R) where
  stage_inputs-db :
      (user_id : ℕ) (staging : String) (total : ℕ) (items : List InputItem) (w : World R)
      → (stage_inputs host user_id staging total items w).1.db ≡ w.db
  unfolding stage_inputs
  stage_inputs-db user_id staging total [] w = refl
  stage_inputs-db user_id staging total (item ∷ items) w =
      grind (arith, λ (t : ℕ) (v : World R). stage_inputs-db user_id staging t items v)

  stage_output-db :
      (user_id : ℕ) (name : String) (output : Option ℕ) (w : World R)
      → (stage_output host user_id name output w).1.db ≡ w.db
  unfolding stage_output
  stage_output-db user_id name none w = refl
  stage_output-db user_id name (some id) w = ground arith

  prepare_some-db :
      (user_id : ℕ) (instance_name name : String) (mounts : MountsInput) (w : World R)
      → (prepare_some host user_id instance_name name mounts w).1.db ≡ w.db
  unfolding prepare_some
  prepare_some-db user_id instance_name name mounts w =
      grind (arith, stage_inputs-db, stage_output-db)

  -- `_prepareMounts` stages files, and writes no row.
  pub prepare_mounts-db :
      (user_id : ℕ) (instance_name name : String) (mounts : Option MountsInput) (w : World R)
      → (prepare_mounts host user_id instance_name name mounts w).1.db ≡ w.db
  unfolding prepare_mounts
  prepare_mounts-db user_id instance_name name none w = refl
  prepare_mounts-db user_id instance_name name (some mounts) w =
      ground (arith, prepare_some-db user_id instance_name name mounts w)

  replay_output-db :
      (row : ContainerRow) (input : String) (m : Option MountRow) (w : World R)
      → (replay_output host row input m w).1.db ≡ w.db
  unfolding replay_output
  replay_output-db row input none w = refl
  replay_output-db row input (some m) w = ground arith

  replay_rows-db :
      (row : ContainerRow) (ms : List MountRow) (w : World R)
      → (replay_rows host row ms w).1.db ≡ w.db
  unfolding replay_rows
  replay_rows-db row [] w = refl
  replay_rows-db row (m ∷ ms) w = grind (arith, replay_output-db)

  -- `_replayMounts` writes no row either.
  pub replay_mounts-db : (row : ContainerRow) (w : World R) → (replay_mounts host row w).1.db ≡ w.db
  unfolding replay_mounts
  replay_mounts-db row w = grind (arith, replay_rows-db)

  pub seed_path-db :
      (user_id : ℕ) (workspace_id : Option ℕ) (w : World R)
      → (seed_path host user_id workspace_id w).1.db ≡ w.db
  unfolding seed_path
  seed_path-db user_id none w = refl
  seed_path-db user_id (some id) w = ground arith

  pub admit-reads :
      (user_id : ℕ) (input : CreateInput) (is_admin : Bool) (w : World R)
      → (admit host user_id input is_admin w).1 ≡ w
  unfolding admit assert_image_allowed assert_can_create assert_image_instance_limit
  admit-reads user_id input is_admin w = ground arith

  pub stop_quietly-db : (row : ContainerRow) (w : World R) → (stop_quietly host row w).1.db ≡ w.db
  unfolding stop_quietly
  stop_quietly-db row w = ground arith

  pub llm_env-db : (user_id : ℕ) (w : World R) → (llm_env host user_id w).1.db ≡ w.db
  unfolding llm_env
  llm_env-db user_id w = ground arith

  -- Nothing is written before the row of a new container.
  pub plan-db :
      (user_id : ℕ) (input : CreateInput) (is_admin : Bool) (w : World R)
      → (plan host user_id input is_admin w).1.db ≡ w.db
  unfolding plan
  plan-db user_id input is_admin w =
      grind (arith, admit-reads, llm_env-db, seed_path-db, prepare_mounts-db)
