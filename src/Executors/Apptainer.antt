-- ===== src/Executors/Apptainer.antt =====
-- executors/apptainer-cli-executor.ts, the life of an instance: create, stop, destroy, restore and
-- removePath. A path and an argument is the list of its characters, and so is what a process writes.
use sandbox_platform.Prelude.{
  ℕ, ◌*◌, max, String, Bool, true, false, not, ◌&&◌, ◌||◌, Option, none, some, List, [], ◌∷◌, ◌++◌,
  ◌==◌, ◌+◌, leb, ltb, str_eq, if◌then◌else◌, any_where, map,
}
use Prim.Native.String.{◌++◌ as ◌<>◌}
use sandbox_platform.Action.{
  ok, err, Action, ◌>>=◌, ◌>>◌, pure, throw, throw_if, catch, when, failure,
}
use sandbox_platform.Db.Rows.{Env, OverlayKind}
use sandbox_platform.Containers.Host.{CreateRequest, MountDirs, ContainerHandle, SnapshotHandle}
use sandbox_platform.Storage.Paths.{Chars, chars, begins}
use sandbox_platform.Tools.Truncate.{split_lines}
use sandbox_platform.Tools.Files.{ExecResult}
use sandbox_platform.Executors.Quoting.{Variables, env_args}

-- node's file system, the processes that are spawned (`run_cli` is the Apptainer binary, `run_util`
-- another one, which throws where its exit code is not 0), path.dirname, and String of a number.
pub record ApptainerHost (R : Type 0) : Type 0 where
  pub exists : Chars → Action R Bool
  pub stat : Chars → Action R (Unit {0})
  pub mkdir : Chars → Action R (Unit {0})
  pub remove : Chars → Action R (Unit {0})
  pub copy : Chars → Chars → Action R (Unit {0})
  pub rename : Chars → Chars → Action R (Unit {0})
  pub run_cli : List Chars → Action R ExecResult
  pub run_util : List Chars → Action R (Unit {0})
  pub dirname : Chars → Chars
  pub decimal : ℕ → Chars
  pub overlay_base : String
  pub resource_limits : Bool
  pub has_resolv_conf : Bool

abbrev pub isolation_flags : List Chars
isolation_flags = chars "--contain" ∷ chars "--no-mount" ∷ chars "hostfs,cwd" ∷ []

abbrev pub lower : ℕ → ℕ
lower c = if leb 65 c && leb c 90 then c + 32 else c

abbrev pub occurs : Chars → Chars → Bool
occurs t [] = begins [] t
occurs t (c ∷ s) = begins (c ∷ s) t || occurs t s

-- INSTANCE_NOT_FOUND_RE
abbrev pub says_not_found : Chars → Bool
says_not_found s =
    any_where (λ t. occurs t (map lower s))
      (chars "no instance"
        ∷ chars "not found"
        ∷ chars "does not exist"
        ∷ chars "no such instance"
        ∷ [])

-- What String.trim takes off.
abbrev pub is_white : ℕ → Bool
is_white c =
    (leb 9 c && leb c 13)
    || (leb 8192 c && leb c 8202)
    || any_where (λ d. c == d) (32 ∷ 160 ∷ 5760 ∷ 8232 ∷ 8233 ∷ 8239 ∷ 8287 ∷ 12288 ∷ 65279 ∷ [])

abbrev pub has_text : Chars → Bool
has_text line = any_where (λ c. not (is_white c)) line

-- The rows of `instance list` below its heading.
abbrev pub is_listed : List Chars → Bool
is_listed [] = false
is_listed (heading ∷ rows) = any_where has_text rows

abbrev pub is_success : ExecResult → Bool
is_success r = elim r.exit_code [ none ↦ false | some n ↦ n == 0 ]

abbrev pub is_path : Option String → Bool
is_path none = false
is_path (some p) = not (str_eq p "")

abbrev pub path_of : Option String → Chars
path_of none = []
path_of (some p) = chars p

abbrev pub variables : Option Env → Variables
variables none = []
variables (some env) = map (λ e. (chars e.0, chars e.1)) env

abbrev pub instance_url : String → Chars
instance_url id = chars "instance://" ++ chars id

abbrev pub tmp_of : Chars → Chars
tmp_of overlay = overlay ++ chars ".restore-tmp"

abbrev pub old_of : Chars → Chars
old_of overlay = overlay ++ chars ".restore-old"

abbrev pub sparse_copy : Chars → Chars → List Chars
sparse_copy from to = chars "cp" ∷ chars "-a" ∷ chars "--sparse=always" ∷ from ∷ to ∷ []

module _ {R : Type 0} (host : ApptainerHost R) where
  abbrev pub overlay_path_for : String → String
  overlay_path_for id = host.overlay_base <> "/" <> id

  abbrev pub dns_flags : List Chars
  dns_flags = if host.has_resolv_conf then [] else chars "--dns" ∷ chars "127.0.0.1" ∷ []

  abbrev pub limit_flag : Chars → ℕ → Chars → List Chars
  limit_flag option n suffix =
      if host.resource_limits && ltb 0 n then option ∷ (host.decimal n ++ suffix) ∷ [] else []

  abbrev pub common_args : CreateRequest → List Chars
  common_args req =
      chars "instance" ∷ chars "start" ∷ isolation_flags
      ++ (dns_flags
          ++ (limit_flag (chars "--cpus") req.cpu []
              ++ (limit_flag (chars "--memory") req.memory_mb (chars "M")
                  ++ env_args (variables req.env))))

  abbrev pub overlay_args : Chars → CreateRequest → List Chars
  overlay_args overlay req = chars "--overlay" ∷ overlay ∷ chars req.image_path ∷ chars req.id ∷ []

  abbrev pub bind_args : Option MountDirs → List Chars
  bind_args none = []
  bind_args (some dirs) =
      chars "--bind"
      ∷ (chars dirs.input_dir ++ chars ":/input:ro")
      ∷ (if is_path dirs.output_dir
          then chars "--bind" ∷ (path_of dirs.output_dir ++ chars ":/output") ∷ []
          else [])

  unfoldable pub run_lifecycle : List Chars → Action R (Unit {0})
  run_lifecycle args = do
    r ← host.run_cli args
    throw_if (not (is_success r)) (failure "instance start failed")

  -- ensureWorkspaceDir: a failure is passed over.
  abbrev pub ensure_workspace_dir : String → Action R (Unit {0})
  ensure_workspace_dir id =
      catch
        (do
          host.run_cli (
              chars "exec" ∷ instance_url id ∷ chars "mkdir" ∷ chars "-p" ∷ chars "/workspace" ∷ [])
          pure tt)
        (λ e. pure tt)

  abbrev pub is_dir_overlay : Option OverlayKind → Bool
  is_dir_overlay none = false
  is_dir_overlay (some OverlayKind.ext3) = false
  is_dir_overlay (some OverlayKind.dir) = true

  -- Where the overlay is missing.
  abbrev pub make_overlay : Chars → ℕ → Option OverlayKind → Action R (Unit {0})
  make_overlay overlay disk_gb kind = do
    host.mkdir (host.dirname overlay)
    if not (is_dir_overlay kind) && ltb 0 disk_gb
        then (do
          created ← host.run_cli (
              chars "overlay"
              ∷ chars "create"
              ∷ chars "--size"
              ∷ host.decimal (max 1 (disk_gb * 1024))
              ∷ overlay
              ∷ [])
          when (not (is_success created)) (host.mkdir overlay))
        else host.mkdir overlay

  unfoldable pub ensure_overlay : Chars → ℕ → Option OverlayKind → Action R (Unit {0})
  ensure_overlay overlay disk_gb kind =
      catch (host.stat overlay) (λ e. make_overlay overlay disk_gb kind)

  -- The copy of a workspace into a new overlay; a failure is passed over.
  abbrev pub seed_overlay : Chars → Option String → Action R (Unit {0})
  seed_overlay overlay seed = when (is_path seed) (
      catch
        (do
          host.mkdir (overlay ++ chars "/workspace")
          host.copy (path_of seed) (overlay ++ chars "/workspace"))
        (λ e. pure tt))

  abbrev pub local_handle : CreateRequest → ContainerHandle
  local_handle req = record {
    id = req.id;
    node = "local";
    overlay_path = overlay_path_for req.id;
    running = true;
  }

  unfoldable pub create : CreateRequest → Action R ContainerHandle
  unfolding ensure_overlay run_lifecycle
  create req =
      let overlay = chars (overlay_path_for req.id) in
      do
        found ← host.exists (chars req.image_path)
        throw_if (not found) (failure "the image file does not exist")
        ensure_overlay overlay req.disk_gb req.overlay_kind
        seed_overlay overlay req.seed_from_path
        run_lifecycle (common_args req ++ (bind_args req.mount_dirs ++ overlay_args overlay req))
        ensure_workspace_dir req.id
        pure (local_handle req)

  abbrev pub check_stopped : ExecResult → Action R (Unit {0})
  check_stopped r =
      throw_if (not (is_success r) && not (says_not_found (r.stderr ++ 10 ∷ r.stdout)))
        (failure "instance stop failed")

  -- A process that cannot be started counts as a stop. The handle that is marked is the caller's own.
  unfoldable pub stop : ContainerHandle → Action R (Unit {0})
  stop handle s =
      let (r, t) = host.run_cli (chars "instance" ∷ chars "stop" ∷ chars handle.id ∷ []) s in
      elim r [ err e ↦ (ok tt, t) | ok result ↦ check_stopped result t ]

  unfoldable pub remove_path : String → Action R (Unit {0})
  remove_path path = host.remove (chars path)

  unfoldable pub destroy : ContainerHandle → Action R (Unit {0})
  destroy handle = do
    catch (do host.run_cli (chars "instance" ∷ chars "stop" ∷ chars handle.id ∷ []); pure tt)
        (λ e. pure tt)
    listed ← host.run_cli (chars "instance" ∷ chars "list" ∷ chars handle.id ∷ [])
    throw_if (is_success listed && is_listed (split_lines listed.stdout))
        (failure "the instance did not stop")
    host.remove (chars handle.overlay_path)

  -- The `try` block of `restore`: the copy beside the overlay, and the swap.
  abbrev pub copy_and_swap : Chars → Chars → Action R (Unit {0})
  copy_and_swap from overlay = do
    host.run_util (sparse_copy from (tmp_of overlay))
    catch (host.rename overlay (old_of overlay)) (λ e. pure tt)
    host.rename (tmp_of overlay) overlay

  abbrev pub try_swap : Chars → Chars → Action R (Unit {0})
  try_swap from overlay =
      catch (copy_and_swap from overlay) (λ e. throw (failure "snapshot copy failed"))

  -- `restore` before the instance is started
  unfoldable pub swap_overlay : Chars → Chars → Action R (Unit {0})
  swap_overlay from overlay = do
    host.remove (tmp_of overlay)
    host.remove (old_of overlay)
    try_swap from overlay

  unfoldable pub restore : SnapshotHandle → CreateRequest → Action R ContainerHandle
  unfolding swap_overlay run_lifecycle
  restore snapshot req =
      let overlay = chars (overlay_path_for req.id) in
      do
        swap_overlay (chars snapshot.overlay_path) overlay
        host.remove (old_of overlay)
        run_lifecycle (common_args req ++ overlay_args overlay req)
        ensure_workspace_dir req.id
        pure (local_handle req)
