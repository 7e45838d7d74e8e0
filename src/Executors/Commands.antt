-- ===== src/Executors/Commands.antt =====
-- executors/ssh-executor.ts envOpts and startInstance: the words of the command.
use sandbox_platform.Prelude.{
  append_assoc, ℕ, ◌≡◌, refl, ap, sym, ◌∙◌, append_nil, inl, inr, Bool, true, false, ◌&&◌, leb,
  Option, none, some, List, [], ◌∷◌, ◌++◌, arith, Bool-cases,
}
use sandbox_platform.Storage.Paths.{Chars, chars}
use sandbox_platform.Executors.Quoting.{
  blank, template, shell_quote, is_valid_env_name, Variables, env_parts, env_opts, join_blank,
  env_args, bind_opt, limit_opt, start_command,
}
use sandbox_platform.Executors.Shell.{Mode, prepend, words, argv}
use sandbox_platform.Executors.Arguments.{
  is_plain, words-shell_quote, words-quoted_word, words-plain, words-plain_word, prepend_all, Takes,
  Takes-nil, Takes-shell_quote, Takes-option, all_name_chars-plain, name_char-plain,
}

valid_name-plain : (k : Chars) → is_valid_env_name k ≡ true → is_plain k ≡ true
unfolding is_valid_env_name
valid_name-plain [] e = absurd (ground arith)
valid_name-plain (c ∷ s) e = ground (arith, name_char-plain c, all_name_chars-plain s)

-- NAME='value' is one word.
words-assignment :
    (k v rest : Chars)
    → is_valid_env_name k ≡ true
    → words Mode.bare none (template (k ∷ chars "=" ∷ shell_quote v ∷ []) ++ blank ∷ rest)
      ≡ prepend (template (k ∷ chars "=" ∷ v ∷ [])) (words Mode.bare none rest)
unfolding is_valid_env_name words
words-assignment [] v rest e = absurd (ground arith)
words-assignment (c ∷ s) v rest e =
    ap (words Mode.bare none) (append_assoc (c ∷ s) (chars "=" ++ shell_quote v) (blank ∷ rest))
    ∙ words-plain_word c s ((chars "=" ++ shell_quote v) ++ blank ∷ rest)
        (valid_name-plain (c ∷ s) e)
    ∙ words-shell_quote ((c ∷ s) ++ chars "=") v (blank ∷ rest)
    ∙ ap (λ l. prepend l (words Mode.bare none rest)) (append_assoc (c ∷ s) (chars "=") v)

Takes-join :
    (p : Chars) (parts : List Chars) (ws vs : List Chars)
    → Takes p ws
    → Takes (join_blank parts) vs
    → (rest : Chars)
    → words Mode.bare none (join_blank (p ∷ parts) ++ blank ∷ rest)
      ≡ prepend_all ws (prepend_all vs (words Mode.bare none rest))
unfolding words
Takes-join p [] ws vs h k rest = h.taken rest ∙ ap (prepend_all ws) (k.taken rest)
Takes-join p (q ∷ parts) ws vs h k rest =
    ap (words Mode.bare none) (append_assoc p (blank ∷ join_blank (q ∷ parts)) (blank ∷ rest))
    ∙ h.taken (join_blank (q ∷ parts) ++ blank ∷ rest)
    ∙ ap (prepend_all ws) (k.taken rest)

Takes-assignment :
    (k v : Chars)
    → is_valid_env_name k ≡ true
    → Takes
        (template (chars "--env " ∷ k ∷ chars "=" ∷ shell_quote v ∷ []))
        (chars "--env" ∷ template (k ∷ chars "=" ∷ v ∷ []) ∷ [])
Takes-assignment k v e =
    Takes-option 45 (chars "-env") (template (k ∷ chars "=" ∷ shell_quote v ∷ []))
      (template (k ∷ chars "=" ∷ v ∷ [])) refl (λ rest. words-assignment k v rest e)

-- The flags of envOpts come out as the arguments of envArgs.
pub Takes-env : (env : Variables) → Takes (env_opts env) (env_args env)
unfolding env_opts env_parts env_args
Takes-env [] = Takes-nil
Takes-env ((k, v) ∷ env) = elim (Bool-cases (is_valid_env_name k)) [
  | inl e ↦ rw e (record {
    taken =
        Takes-join (template (chars "--env " ∷ k ∷ chars "=" ∷ shell_quote v ∷ [])) (env_parts env)
          (chars "--env" ∷ template (k ∷ chars "=" ∷ v ∷ []) ∷ []) (env_args env)
          (Takes-assignment k v e) (Takes-env env);
  })
  | inr e ↦ rw e (Takes-env env)
]

abbrev pub all_digits : Chars → Bool
all_digits [] = true
all_digits (c ∷ s) = leb 48 c && leb c 57 && all_digits s

-- A limit is a number in decimal, or there is none.
abbrev pub is_limit : Option Chars → Bool
is_limit none = true
is_limit (some []) = false
is_limit (some (c ∷ s)) = all_digits (c ∷ s)

abbrev pub limit_args : Chars → Option Chars → Chars → List Chars
limit_args option none suffix = []
limit_args option (some digits) suffix = option ∷ (digits ++ suffix) ∷ []

abbrev pub bind_args : Option Chars → List Chars
bind_args none = []
bind_args (some seed) = chars "--bind" ∷ (seed ++ chars ":/workspace") ∷ []

digit-plain : (c : ℕ) → (leb 48 c && leb c 57) ≡ true → is_plain (c ∷ []) ≡ true
digit-plain c e = ground arith

all_digits-plain :
    (s suffix : Chars)
    → all_digits s ≡ true
    → is_plain suffix ≡ true
    → is_plain (s ++ suffix) ≡ true
all_digits-plain [] suffix e f = f
all_digits-plain (c ∷ s) suffix e f = ground (arith, digit-plain c, all_digits-plain s suffix)

Takes-limit :
    (c : ℕ) (o : Chars) (limit : Option Chars) (suffix : Chars)
    → is_plain (c ∷ o) ≡ true
    → is_plain suffix ≡ true
    → is_limit limit ≡ true
    → Takes (limit_opt ((c ∷ o) ++ blank ∷ []) limit suffix) (limit_args (c ∷ o) limit suffix)
Takes-limit c o none suffix e f h = Takes-nil
Takes-limit c o (some []) suffix e f h = absurd (ground arith)
Takes-limit c o (some (d ∷ digits)) suffix e f h = record {
  taken = λ rest.
      ap (λ l. words Mode.bare none (l ++ blank ∷ rest))
        (append_assoc (c ∷ o) (blank ∷ []) ((d ∷ digits) ++ suffix))
      ∙ (Takes-option c o ((d ∷ digits) ++ suffix) ((d ∷ digits) ++ suffix) e plain_word).taken
          rest;
}
  where
    plain_word :
        (rest : Chars)
        → words Mode.bare none (((d ∷ digits) ++ suffix) ++ blank ∷ rest)
          ≡ prepend ((d ∷ digits) ++ suffix) (words Mode.bare none rest)
    plain_word rest =
        words-plain_word d (digits ++ suffix) (blank ∷ rest)
          (all_digits-plain (d ∷ digits) suffix h f)
        ∙ (unfold words in refl)

Takes-bind : (seed : Option Chars) → Takes (bind_opt seed) (bind_args seed)
unfolding bind_opt
Takes-bind none = Takes-nil
Takes-bind (some seed) =
    Takes-option 45 (chars "-bind") (shell_quote seed ++ chars ":/workspace")
      (seed ++ chars ":/workspace") refl bound
  where
    bound :
        (rest : Chars)
        → words Mode.bare none ((shell_quote seed ++ chars ":/workspace") ++ blank ∷ rest)
          ≡ prepend (seed ++ chars ":/workspace") (words Mode.bare none rest)
    bound rest =
        ap (words Mode.bare none)
          (append_assoc (shell_quote seed) (chars ":/workspace") (blank ∷ rest))
        ∙ words-quoted_word seed (chars ":/workspace" ++ blank ∷ rest)
        ∙ words-plain seed (chars ":/workspace") (blank ∷ rest) refl
        ∙ (unfold words in refl)

prepend_all-some : (ws vs : List Chars) → prepend_all ws (some vs) ≡ some (ws ++ vs)
prepend_all-some [] vs = refl
prepend_all-some (w ∷ ws) vs = ap (prepend w) (prepend_all-some ws vs)

before :
    (p : Chars) (ws vs : List Chars) (r : Chars)
    → Takes p ws
    → words Mode.bare none r ≡ some vs
    → words Mode.bare none (p ++ blank ∷ r) ≡ some (ws ++ vs)
before p ws vs r h e = h.taken r ∙ ap (prepend_all ws) e ∙ prepend_all-some ws vs

pub last_word : (s : Chars) → words Mode.bare none (shell_quote s) ≡ some (s ∷ [])
last_word s =
    ap (words Mode.bare none) (sym (append_nil (shell_quote s)))
    ∙ words-quoted_word s []
    ∙ (unfold words in refl)

-- The arguments that startInstance means to give.
abbrev pub start_args :
    Option Chars → Option Chars → Variables → Chars → Option Chars → Chars → Chars → List Chars
start_args cpu memory env overlay_path seed image_path id =
    chars "apptainer"
    ∷ chars "instance"
    ∷ chars "start"
    ∷ chars "--contain"
    ∷ chars "--no-mount"
    ∷ chars "hostfs,cwd"
    ∷ (limit_args (chars "--cpus") cpu []
        ++ (limit_args (chars "--memory") memory (chars "M")
            ++ (env_args env
                ++ (chars "--overlay"
                    ∷ overlay_path
                    ∷ (bind_args seed ++ (image_path ∷ id ∷ []))))))

-- Whatever the paths, the name of the instance and the values of the environment hold, quotes,
-- blanks and characters of the shell included, the command of startInstance is a simple command
-- whose words are the arguments that are meant: no value breaks out of its word.
pub argv-start_command :
    (cpu memory : Option Chars) (env : Variables) (overlay_path : Chars) (seed : Option Chars)
    (image_path id : Chars)
    → is_limit cpu ≡ true
    → is_limit memory ≡ true
    → argv (start_command cpu memory env overlay_path seed image_path id)
      ≡ some (start_args cpu memory env overlay_path seed image_path id)
unfolding argv start_command words
argv-start_command cpu memory env overlay_path seed image_path id hc hm =
    ap
      (prepend_all (
        chars "apptainer"
        ∷ chars "instance"
        ∷ chars "start"
        ∷ chars "--contain"
        ∷ chars "--no-mount"
        ∷ chars "hostfs,cwd"
        ∷ []))
      (before (limit_opt (chars "--cpus ") cpu []) (limit_args (chars "--cpus") cpu []) _ _
        (Takes-limit 45 (chars "-cpus") cpu [] refl refl hc)
        (before (limit_opt (chars "--memory ") memory (chars "M"))
          (limit_args (chars "--memory") memory (chars "M")) _ _
          (Takes-limit 45 (chars "-memory") memory (chars "M") refl refl hm)
          (before (env_opts env) (env_args env) _ _ (Takes-env env) (
            ap (prepend (chars "--overlay")) (
              before (shell_quote overlay_path) (overlay_path ∷ []) _ _
                (Takes-shell_quote overlay_path)
                (before (bind_opt seed) (bind_args seed) _ _ (Takes-bind seed) (
                  before (shell_quote image_path) (image_path ∷ []) _ _
                    (Takes-shell_quote image_path) (last_word id))))))))
