-- ===== src/Executors/ExecCommands.antt =====
-- executors/ssh-executor.ts: the commands run in an instance.
use sandbox_platform.Prelude.{◌≡◌, ap, ◌∙◌, Option, none, some, List, [], ◌∷◌, ◌++◌}
use sandbox_platform.Storage.Paths.{Chars, chars}
use sandbox_platform.Executors.Quoting.{
  blank, shell_quote, test_command, list_command, stat_command, write_inner, write_command,
}
use sandbox_platform.Executors.Shell.{Mode, prepend, words, argv}
use sandbox_platform.Executors.Arguments.{words-shell_quote, prepend_all}
use sandbox_platform.Executors.Commands.{last_word}

-- The name of an instance goes on the word that begins with its scheme.
instance_word :
    (id rest : Chars)
    → words Mode.bare (some (chars "instance://")) (shell_quote id ++ blank ∷ rest)
      ≡ prepend (chars "instance://" ++ id) (words Mode.bare none rest)
unfolding words
instance_word id rest = words-shell_quote (chars "instance://") id (blank ∷ rest)

abbrev exec_args : Chars → List Chars → Option (List Chars)
exec_args id args = some (chars "apptainer" ∷ chars "exec" ∷ (chars "instance://" ++ id) ∷ args)

module _ (id path : Chars) where
  exec_words :
      (tail : Chars) (args : List Chars)
      → words Mode.bare none tail ≡ some args
      → argv (chars "apptainer exec instance://" ++ (shell_quote id ++ blank ∷ tail))
        ≡ exec_args id args
  unfolding argv words
  exec_words tail args e =
      ap (prepend_all (chars "apptainer" ∷ chars "exec" ∷ []))
        (instance_word id tail ∙ ap (prepend (chars "instance://" ++ id)) e)

  -- Whatever the instance is called and whatever the path holds, access, readdir, stat and writeFile
  -- run their programs with the path as one argument, writeFile the inner command as one.
  pub argv-exec_commands :
      (parent content : Chars)
      → (argv (test_command id path) ≡ exec_args id (chars "test" ∷ chars "-e" ∷ path ∷ []))
        × (argv (list_command id path) ≡ exec_args id (chars "ls" ∷ chars "-1" ∷ path ∷ []))
        × (argv (stat_command id path)
            ≡ exec_args id (chars "stat" ∷ chars "-c" ∷ chars "%F %s %Y" ∷ path ∷ []))
        × (argv (write_command id parent content path)
            ≡ exec_args id (chars "sh" ∷ chars "-c" ∷ write_inner parent content path ∷ []))
  unfolding test_command list_command stat_command write_command
  argv-exec_commands parent content = (
    exec_words (chars "test -e " ++ shell_quote path) (chars "test" ∷ chars "-e" ∷ path ∷ [])
        (unfold words in ap (prepend_all (chars "test" ∷ chars "-e" ∷ [])) (last_word path)),
    exec_words (chars "ls -1 " ++ shell_quote path) (chars "ls" ∷ chars "-1" ∷ path ∷ [])
        (unfold words in ap (prepend_all (chars "ls" ∷ chars "-1" ∷ [])) (last_word path)),
    exec_words (chars "stat -c '%F %s %Y' " ++ shell_quote path)
        (chars "stat" ∷ chars "-c" ∷ chars "%F %s %Y" ∷ path ∷ [])
        (unfold words in
          ap (prepend_all (chars "stat" ∷ chars "-c" ∷ chars "%F %s %Y" ∷ [])) (last_word path)),
    exec_words (chars "sh -c " ++ shell_quote (write_inner parent content path))
        (chars "sh" ∷ chars "-c" ∷ write_inner parent content path ∷ [])
        (unfold words in
          ap (prepend_all (chars "sh" ∷ chars "-c" ∷ []))
            (last_word (write_inner parent content path))),
  )
