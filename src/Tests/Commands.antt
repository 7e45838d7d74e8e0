-- ===== src/Tests/Commands.antt =====
-- Commands for a remote shell with values that try to break out, and the choice of an executor.
use sandbox_platform.Prelude.{◌≡◌, ◌≢◌, ◌⊎◌, refl, true, some, none, [], ◌∷◌}
use sandbox_platform.Action.{ok, err, failure}
use sandbox_platform.Storage.Paths.{Chars, chars}
use sandbox_platform.Executors.Quoting.{
  Variables, shell_quote, is_valid_env_name, env_args, start_command,
}
use sandbox_platform.Executors.Shell.{words, argv}
use sandbox_platform.Executors.Commands.{start_args, argv-start_command}
use sandbox_platform.Executors.Choice.{
  mock, ssh, apptainer_cli, auto, only, Probe, get_executor, get_executor-fail_closed,
}

abbrev hostile : Chars
hostile = chars "x'; rm -rf / #"

abbrev hostile_env : Variables
hostile_env = (chars "KEY", hostile) ∷ (chars "A;B", chars "v") ∷ []

quoted : shell_quote (chars "a'b") ≡ chars "'a'\\''b'"
unfolding shell_quote
quoted = refl

unquoted_refused : argv (chars "echo x; reboot") ≡ none
unfolding argv words
unquoted_refused = refl

bad_name_dropped : env_args hostile_env ≡ chars "--env" ∷ chars "KEY=x'; rm -rf / #" ∷ []
unfolding env_args is_valid_env_name
bad_name_dropped = refl

argv-start_command_example :
    argv (
      start_command
        (some (chars "2"))
        none
        hostile_env
        hostile
        (some hostile)
        (chars "/i.sif")
        (chars "sb-1"))
    ≡ some (
        start_args
          (some (chars "2"))
          none
          hostile_env
          hostile
          (some hostile)
          (chars "/i.sif")
          (chars "sb-1"))
argv-start_command_example =
    argv-start_command (some (chars "2")) none hostile_env hostile (some hostile) (chars "/i.sif")
      (chars "sb-1") refl refl

-- SSH throws, Apptainer answers, and so would the mock.
abbrev probe : Probe
probe mock = ok true
probe ssh = err (failure "no route")
probe apptainer_cli = ok true

chosen : (get_executor probe auto true none).0 ≡ ok apptainer_cli
unfolding get_executor
chosen = refl

get_executor-fail_closed_example :
    (probe apptainer_cli ≡ ok true) × ((apptainer_cli ≢ mock) ⊎ (auto ≡ only mock))
get_executor-fail_closed_example = get_executor-fail_closed probe auto true apptainer_cli chosen
