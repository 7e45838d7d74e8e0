-- ===== src/Executors/Arguments.antt =====
-- executors/shell-quote.ts and the commands of executors/ssh-executor.ts: the words that the remote
-- shell makes of a command are the arguments that were meant.
use sandbox_platform.Prelude.{
  append_assoc, ℕ, ◌≡◌, refl, ap, subst, ◌∙◌, inl, inr, Bool, true, false, ◌&&◌, Option, none, some,
  List, [], ◌∷◌, ◌++◌, ◌==◌, arith, Bool-cases, append_nil,
}
use sandbox_platform.Storage.Paths.{Chars}
use sandbox_platform.Executors.Quoting.{
  quote_mark, blank, escape_quotes, shell_quote, is_name_char, all_name_chars,
}
use sandbox_platform.Executors.Shell.{Class, class_of, Mode, prepend, words}

words-literal :
    (w : Chars) (c : ℕ) (s : Chars)
    → (c == quote_mark) ≡ false
    → words Mode.quoted (some w) (c ∷ s) ≡ words Mode.quoted (some (w ++ c ∷ [])) s
unfolding words
words-literal w c s e = ground arith

words-ordinary :
    (w : Chars) (c : ℕ) (s : Chars)
    → class_of c ≡ Class.plain
    → words Mode.bare (some w) (c ∷ s) ≡ words Mode.bare (some (w ++ c ∷ [])) s
unfolding words
words-ordinary w c s e = ground (arith, e)

-- Inside quotes, an escaped text is taken as the text.
words-escaped :
    (w s rest : Chars)
    → words Mode.quoted (some w) (escape_quotes s ++ quote_mark ∷ rest)
      ≡ words Mode.bare (some (w ++ s)) rest
unfolding words
words-escaped w [] rest = rw (append_nil w) refl
words-escaped w (c ∷ s) rest =
    let go =
      words-escaped (w ++ c ∷ []) s rest
      ∙ ap (λ l. words Mode.bare (some l) rest) (append_assoc w (c ∷ []) s) in
    elim (Bool-cases (c == quote_mark)) [
      | inl e ↦ rw e (
          subst
            (λ d.
              words Mode.quoted (some (w ++ d ∷ [])) (escape_quotes s ++ quote_mark ∷ rest)
              ≡ words Mode.bare (some (w ++ c ∷ s)) rest)
            (is_mark e) go)
      | inr e ↦ rw e (words-literal w c (escape_quotes s ++ quote_mark ∷ rest) e ∙ go)
    ]
  where
    is_mark : (c == quote_mark) ≡ true → c ≡ quote_mark
    is_mark e = ground arith

-- A quoted text goes on the word that is under way, whatever it is.
pub words-shell_quote :
    (w s rest : Chars)
    → words Mode.bare (some w) (shell_quote s ++ rest) ≡ words Mode.bare (some (w ++ s)) rest
unfolding words shell_quote
words-shell_quote w s rest =
    ap (words Mode.quoted (some w)) (append_assoc (escape_quotes s) (quote_mark ∷ []) rest)
    ∙ words-escaped w s rest

pub words-quoted_word :
    (s rest : Chars) → words Mode.bare none (shell_quote s ++ rest) ≡ words Mode.bare (some s) rest
unfolding words shell_quote
words-quoted_word s rest =
    ap (words Mode.quoted (some [])) (append_assoc (escape_quotes s) (quote_mark ∷ []) rest)
    ∙ words-escaped [] s rest

abbrev is_plain_class : Class → Bool
is_plain_class Class.plain = true
is_plain_class _ = false

abbrev pub is_plain : Chars → Bool
is_plain [] = true
is_plain (c ∷ s) = is_plain_class (class_of c) && is_plain s

plain-Class : (k : Class) → is_plain_class k ≡ true → k ≡ Class.plain
plain-Class Class.between e = absurd (ground arith)
plain-Class Class.quote e = absurd (ground arith)
plain-Class Class.escape e = absurd (ground arith)
plain-Class Class.special e = absurd (ground arith)
plain-Class Class.plain e = refl

both : (a b : Bool) → (a && b) ≡ true → (a ≡ true) × (b ≡ true)
both a b e = (ground arith, ground arith)

-- So does a text of plain characters.
pub words-plain :
    (w s rest : Chars)
    → is_plain s ≡ true
    → words Mode.bare (some w) (s ++ rest) ≡ words Mode.bare (some (w ++ s)) rest
unfolding words
words-plain w [] rest e = rw (append_nil w) refl
words-plain w (c ∷ s) rest e =
    let h = both (is_plain_class (class_of c)) (is_plain s) e in
    words-ordinary w c (s ++ rest) (plain-Class (class_of c) h.0)
    ∙ words-plain (w ++ c ∷ []) s rest h.1
    ∙ ap (λ l. words Mode.bare (some l) rest) (append_assoc w (c ∷ []) s)

pub words-plain_word :
    (c : ℕ) (s rest : Chars)
    → is_plain (c ∷ s) ≡ true
    → words Mode.bare none (c ∷ s ++ rest) ≡ words Mode.bare (some (c ∷ s)) rest
unfolding words
words-plain_word c s rest e =
    let h = both (is_plain_class (class_of c)) (is_plain s) e in
    opening (plain-Class (class_of c) h.0) ∙ words-plain (c ∷ []) s rest h.1
  where
    opening :
        class_of c ≡ Class.plain
        → words Mode.bare none (c ∷ s ++ rest) ≡ words Mode.bare (some (c ∷ [])) (s ++ rest)
    opening f = unfold words in ground (arith, f)

abbrev pub prepend_all : List Chars → Option (List Chars) → Option (List Chars)
prepend_all [] o = o
prepend_all (w ∷ ws) o = prepend w (prepend_all ws o)

-- A text that stands for so many words, before a blank.
pub record Takes (p : Chars) (ws : List Chars) : Type 0 where
  pub taken :
      (rest : Chars)
      → words Mode.bare none (p ++ blank ∷ rest) ≡ prepend_all ws (words Mode.bare none rest)

pub Takes-nil : Takes [] []
unfolding words
Takes-nil = record { taken = λ rest. refl }

pub Takes-shell_quote : (s : Chars) → Takes (shell_quote s) (s ∷ [])
unfolding words
Takes-shell_quote s = record { taken = λ rest. words-quoted_word s (blank ∷ rest) }

-- An option of one plain word, and its argument.
pub Takes-option :
    (c : ℕ) (o p w : Chars)
    → is_plain (c ∷ o) ≡ true
    → ((rest : Chars)
        → words Mode.bare none (p ++ blank ∷ rest) ≡ prepend w (words Mode.bare none rest))
    → Takes ((c ∷ o) ++ blank ∷ p) ((c ∷ o) ∷ w ∷ [])
unfolding words
Takes-option c o p w e h = record {
  taken = λ rest.
      ap (words Mode.bare none) (append_assoc (c ∷ o) (blank ∷ p) (blank ∷ rest))
      ∙ words-plain_word c o (blank ∷ p ++ blank ∷ rest) e
      ∙ ap (prepend (c ∷ o)) (h rest);
}

pub name_char-plain : (c : ℕ) → is_name_char c ≡ true → is_plain_class (class_of c) ≡ true
name_char-plain c e = ground arith

pub all_name_chars-plain : (s : Chars) → all_name_chars s ≡ true → is_plain s ≡ true
all_name_chars-plain [] e = refl
all_name_chars-plain (c ∷ s) e = ground (arith, name_char-plain c, all_name_chars-plain s)
