-- ===== src/Executors/Shell.antt =====
-- How a POSIX shell splits a simple command into words: blanks, single quotes and backslashes. A
-- command with a character that means more to the shell, outside quotes, is no simple command.
use sandbox_platform.Prelude.{
  ℕ, Bool, true, false, ◌&&◌, ◌||◌, Option, none, some, List, [], ◌∷◌, ◌++◌, ◌==◌, leb,
  if◌then◌else◌,
}
use sandbox_platform.Storage.Paths.{Chars}
use sandbox_platform.Executors.Quoting.{quote_mark, backslash, blank}

abbrev pub is_blank : ℕ → Bool
is_blank c = c == blank || c == 9

-- Control characters, and ! " # $ & ( ) * ; < > ? [ ] ^ ` { | } ~
abbrev pub is_special : ℕ → Bool
is_special c =
    leb c 31
    || (leb 33 c && leb c 36)
    || c == 38
    || (leb 40 c && leb c 42)
    || c == 59
    || c == 60
    || c == 62
    || c == 63
    || c == 91
    || (leb 93 c && leb c 94)
    || c == 96
    || leb 123 c

-- What a character is to the shell outside quotes.
pub data Class : Type 0 where
  between quote escape special plain : Class

abbrev pub class_of : ℕ → Class
class_of c =
    if is_blank c
    then Class.between
    else if c == quote_mark
    then Class.quote
    else if c == backslash
    then Class.escape
    else if is_special c
    then Class.special
    else Class.plain

pub data Mode : Type 0 where
  bare quoted escaped : Mode

abbrev pub grown : Option Chars → ℕ → Option Chars
grown none c = some (c ∷ [])
grown (some w) c = some (w ++ c ∷ [])

abbrev pub begun : Option Chars → Option Chars
begun none = some []
begun (some w) = some w

abbrev pub prepend : Chars → Option (List Chars) → Option (List Chars)
prepend w none = none
prepend w (some ws) = some (w ∷ ws)

-- The words of the rest of a command, with the word that is under way.
unfoldable pub words : Mode → Option Chars → Chars → Option (List Chars)
words Mode.bare none [] = some []
words Mode.bare (some w) [] = some (w ∷ [])
words Mode.quoted cur [] = none
words Mode.escaped cur [] = none
words Mode.escaped cur (c ∷ s) = words Mode.bare (grown cur c) s
words Mode.quoted cur (c ∷ s) = elim (c == quote_mark) [
  | true ↦ words Mode.bare cur s
  | false ↦ words Mode.quoted (grown cur c) s
]
words Mode.bare cur (c ∷ s) = elim (class_of c) [
  | Class.between ↦ elim cur [
    | none ↦ words Mode.bare none s
    | some w ↦ prepend w (words Mode.bare none s)
  ]
  | Class.quote ↦ words Mode.quoted (begun cur) s
  | Class.escape ↦ words Mode.escaped cur s
  | Class.special ↦ none
  | Class.plain ↦ words Mode.bare (grown cur c) s
]

unfoldable pub argv : Chars → Option (List Chars)
unfolding words
argv command = words Mode.bare none command
