-- ===== src/Executors/Choice.antt =====
-- executors/factory.ts, and executors/safe-env.ts: which executor runs, and what of the process's
-- environment a shell on the host is given.
use sandbox_platform.Prelude.{
  String, ◌≡◌, ◌≢◌, ◌⊎◌, refl, inl, inr, Bool, true, false, Option, none, some, List, [], ◌∷◌,
  if◌then◌else◌, arith, Option-cases,
}
use sandbox_platform.Action.{Outcome, ok, err, failure}

pub data ExecutorKind : Type 0 where
  mock ssh apptainer_cli : ExecutorKind

pub data ExecutorSetting : Type 0 where
  auto : ExecutorSetting
  only : ExecutorKind → ExecutorSetting

-- Whether an SSH host is configured decides the order under `auto`.
unfoldable pub resolve_order : ExecutorSetting → Bool → List ExecutorKind
resolve_order (only kind) has_ssh_host = kind ∷ []
resolve_order auto has_ssh_host =
    if has_ssh_host then ssh ∷ apptainer_cli ∷ [] else apptainer_cli ∷ []

-- `isAvailable`, which answers or throws
abbrev pub Probe : Type 0
Probe = ExecutorKind → Outcome Bool

abbrev pub is_usable : Outcome Bool → Bool
is_usable (ok b) = b
is_usable (err e) = false

abbrev pub first_usable : Probe → List ExecutorKind → Option ExecutorKind
first_usable probe [] = none
first_usable probe (kind ∷ kinds) =
    let later = first_usable probe kinds in if is_usable (probe kind) then some kind else later

-- getExecutor: what it returns or throws, and the executor that is cached from then on.
unfoldable pub get_executor :
    Probe
    → ExecutorSetting
    → Bool
    → Option ExecutorKind
    → Outcome ExecutorKind × Option ExecutorKind
unfolding resolve_order
get_executor probe setting has_ssh_host (some kind) = (ok kind, some kind)
get_executor probe setting has_ssh_host none =
    elim (first_usable probe (resolve_order setting has_ssh_host)) [
      | none ↦ (err (failure "no sandbox executor is available"), none)
      | some kind ↦ (ok kind, some kind)
    ]

first_usable-usable :
    (probe : Probe) (kinds : List ExecutorKind) (kind : ExecutorKind)
    → first_usable probe kinds ≡ some kind
    → is_usable (probe kind) ≡ true
first_usable-usable probe [] kind e = absurd (ground arith)
first_usable-usable probe (k ∷ kinds) kind e = ground (arith, first_usable-usable probe kinds kind)

usable-ok : (r : Outcome Bool) → is_usable r ≡ true → r ≡ ok true
usable-ok (ok b) e = ground arith
usable-ok (err x) e = absurd (ground arith)

chosen :
    (probe : Probe) (setting : ExecutorSetting) (has_ssh_host : Bool) (kind : ExecutorKind)
    → (get_executor probe setting has_ssh_host none).0 ≡ ok kind
    → first_usable probe (resolve_order setting has_ssh_host) ≡ some kind
unfolding get_executor
chosen probe setting has_ssh_host kind e =
    elim (Option-cases (first_usable probe (resolve_order setting has_ssh_host))) [
      | inl f ↦ absurd (ground arith)
      | inr (k, f) ↦ ground arith
    ]

real_or_named :
    (probe : Probe) (setting : ExecutorSetting) (has_ssh_host : Bool) (kind : ExecutorKind)
    → first_usable probe (resolve_order setting has_ssh_host) ≡ some kind
    → (kind ≢ mock) ⊎ (setting ≡ only mock)
unfolding resolve_order
real_or_named probe auto true kind e = inl (λ k. absurd (ground arith))
real_or_named probe auto false kind e = inl (λ k. absurd (ground arith))
real_or_named probe (only mock) has_ssh_host kind e = inr refl
real_or_named probe (only ssh) has_ssh_host kind e = inl (λ k. absurd (ground arith))
real_or_named probe (only apptainer_cli) has_ssh_host kind e = inl (λ k. absurd (ground arith))

-- Without an executor set before, getExecutor returns only an executor whose probe answered that it
-- is available, and the mock, which runs commands on the host, only where the setting names it.
pub get_executor-fail_closed :
    (probe : Probe) (setting : ExecutorSetting) (has_ssh_host : Bool) (kind : ExecutorKind)
    → (get_executor probe setting has_ssh_host none).0 ≡ ok kind
    → (probe kind ≡ ok true) × ((kind ≢ mock) ⊎ (setting ≡ only mock))
get_executor-fail_closed probe setting has_ssh_host kind e =
    let f = chosen probe setting has_ssh_host kind e in
    (
      usable-ok (probe kind)
          (first_usable-usable probe (resolve_order setting has_ssh_host) kind f),
      real_or_named probe setting has_ssh_host kind f,
    )

-- process.env
abbrev pub ProcessEnv : Type 0
ProcessEnv = String → Option String

abbrev pub safe_env_keys : List String
safe_env_keys =
    "PATH" ∷ "HOME" ∷ "TMP" ∷ "TEMP" ∷ "TMPDIR" ∷ "LANG" ∷ "LC_ALL" ∷ "LC_CTYPE" ∷ "TZ" ∷ "TERM"
    ∷ "USER" ∷ "USERNAME" ∷ "USERPROFILE" ∷ "SystemRoot" ∷ "SYSTEMROOT" ∷ "SystemDrive"
    ∷ "SYSTEMDRIVE" ∷ "ComSpec" ∷ "COMSPEC" ∷ "windir" ∷ "WINDIR" ∷ "PATHEXT"
    ∷ "NUMBER_OF_PROCESSORS" ∷ "PROCESSOR_ARCHITECTURE" ∷ "XDG_RUNTIME_DIR" ∷ []

abbrev pub picked : List String → ProcessEnv → List (String × String)
picked [] env = []
picked (key ∷ keys) env =
    let rest = picked keys env in elim (env key) [ none ↦ rest | some value ↦ (key, value) ∷ rest ]

-- safeProcessEnvForHost
unfoldable pub safe_process_env_for_host : ProcessEnv → List (String × String)
safe_process_env_for_host env = picked safe_env_keys env
