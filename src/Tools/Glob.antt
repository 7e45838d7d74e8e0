-- ===== src/Tools/Glob.antt =====
-- services/tools.service.ts globMatches, and what its regular expression matches. A text is the list
-- of its code units.
use sandbox_platform.Prelude.{
  ℕ, ◌≡◌, refl, arith, Bool, true, false, not, ◌&&◌, ◌||◌, List, [], ◌∷◌, ◌==◌, if◌then◌else◌, All,
}
use sandbox_platform.Storage.Paths.{Chars, slash, same}

-- `.*`, `[^/]*`, `[^/]` and a character that is escaped where it must be
pub data Token : Type 0 where
  globstar star one : Token
  literal : ℕ → Token

abbrev pub asterisk : ℕ
asterisk = 42

abbrev pub question : ℕ
question = 63

-- A character in the class `.`
abbrev pub in_line : ℕ → Bool
in_line c = not (c == 10 || (c == 13 || (c == 8232 || c == 8233)))

abbrev pub in_segment : ℕ → Bool
in_segment c = not (c == slash)

abbrev pub single : ℕ → Token
single c =
    if c == asterisk then Token.star else if c == question then Token.one else Token.literal c

-- Two asterisks are read together, from the left.
unfoldable pub tokens : Chars → List Token
tokens [] = []
tokens (c ∷ []) = single c ∷ []
tokens (c ∷ d ∷ s) =
    let after_two = tokens s in
    let after_one = tokens (d ∷ s) in
    if c == asterisk && d == asterisk then Token.globstar ∷ after_two else single c ∷ after_one

-- Any number of characters that pass the test, and then the rest.
unfoldable pub spans : (ℕ → Bool) → (Chars → Bool) → Chars → Bool
spans pass rest [] = rest []
spans pass rest (c ∷ s) = let on = spans pass rest s in rest (c ∷ s) || (pass c && on)

abbrev pub next_is : (ℕ → Bool) → (Chars → Bool) → Chars → Bool
next_is pass rest [] = false
next_is pass rest (c ∷ s) = pass c && rest s

unfoldable pub matches : List Token → Chars → Bool
unfolding spans
matches [] [] = true
matches [] (c ∷ s) = false
matches (Token.globstar ∷ ts) s = spans in_line (matches ts) s
matches (Token.star ∷ ts) s = spans in_segment (matches ts) s
matches (Token.one ∷ ts) s = next_is in_segment (matches ts) s
matches (Token.literal c ∷ ts) s = next_is (λ d. d == c) (matches ts) s

unfoldable pub glob_matches : Chars → Chars → Bool
unfolding matches tokens
glob_matches s pattern = matches (tokens pattern) s

abbrev IsPlain : Chars → Type 0
IsPlain s = All (λ c. ((c == asterisk) ≡ false) × ((c == question) ≡ false)) s

-- A pattern with no asterisk and no question mark matches itself alone.
pub glob_matches-plain :
    (s pattern : Chars) → IsPlain pattern → glob_matches s pattern ≡ same s pattern
unfolding glob_matches matches tokens
glob_matches-plain [] [] p = refl
glob_matches-plain (d ∷ s) [] p = refl
glob_matches-plain [] (c ∷ []) p = ground (arith, p.0)
glob_matches-plain (d ∷ []) (c ∷ []) p = ground (arith, p.0)
glob_matches-plain (d ∷ e ∷ s) (c ∷ []) p = ground (arith, p.0)
glob_matches-plain [] (c ∷ b ∷ pattern) p = ground (arith, p.0)
glob_matches-plain (d ∷ s) (c ∷ b ∷ pattern) p =
    ground (arith, p.0, glob_matches-plain s (b ∷ pattern) p.1)
