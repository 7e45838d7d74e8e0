-- ===== src/Tools/Output.antt =====
-- What the truncation of a tool's output guarantees.
use sandbox_platform.Prelude.{
  ℕ, zero, suc, ◌+◌, ◌-◌, ◌≤◌, ◌<◌, ◌≡◌, refl, ap, sym, subst, ◌∙◌, ◌⊎◌, inl, inr, arith, false,
  List, [], ◌∷◌, ◌++◌, ◌==◌, if◌then◌else◌, length, take, All, if_keeps,
}
use sandbox_platform.Tools.Truncate.{Bytes, newline, push_byte, split_lines, join_lines, truncate}

abbrev pub newlines : Bytes → ℕ
newlines [] = 0
newlines (c ∷ s) = (if c == newline then 1 else 0) + newlines s

length-take : (n : ℕ) (s : Bytes) → length (take n s) ≤ n
length-take zero s = omega arith
length-take (suc n) [] = omega arith
length-take (suc n) (c ∷ s) = omega (arith, length-take n s)

newlines-take : (n : ℕ) (s : Bytes) → newlines (take n s) ≤ newlines s
newlines-take zero s = omega arith
newlines-take (suc n) [] = omega arith
newlines-take (suc n) (c ∷ s) = omega (arith, newlines-take n s)

newlines-append : (s t : Bytes) → newlines (s ++ t) ≡ newlines s + newlines t
newlines-append [] t = omega arith
newlines-append (c ∷ s) t = omega (arith, newlines-append s t)

abbrev Plain : Bytes → Type 0
Plain l = newlines l ≡ 0

push_byte-Plain :
    (c : ℕ) (lines : List Bytes)
    → (c == newline) ≡ false
    → All Plain lines
    → All Plain (push_byte c lines)
push_byte-Plain c [] ne a = (ground arith, tt)
push_byte-Plain c (l ∷ rest) ne a = (ground (arith, a.0), a.1)

split_lines-Plain : (s : Bytes) → All Plain (split_lines s)
unfolding split_lines
split_lines-Plain [] = (refl, tt)
split_lines-Plain (c ∷ s) =
    if_keeps (All Plain) (c == newline) ([] ∷ split_lines s) (push_byte c (split_lines s))
      (λ e. (refl, split_lines-Plain s))
      (λ ne. push_byte-Plain c (split_lines s) ne (split_lines-Plain s))

length-push_byte :
    (c : ℕ) (lines : List Bytes) → 0 < length lines → length (push_byte c lines) ≡ length lines
length-push_byte c [] h = omega arith
length-push_byte c (l ∷ rest) h = refl

length-split : (s : Bytes) → length (split_lines s) ≡ newlines s + 1
unfolding split_lines
length-split [] = omega arith
length-split (c ∷ s) = ground (arith, length-split s, length-push_byte c (split_lines s))

take-Plain : (n : ℕ) (lines : List Bytes) → All Plain lines → All Plain (take n lines)
take-Plain zero lines a = tt
take-Plain (suc n) [] a = tt
take-Plain (suc n) (l ∷ lines) a = (a.0, take-Plain n lines a.1)

length-take_lines : (n : ℕ) (lines : List Bytes) → length (take n lines) ≤ n
length-take_lines zero lines = omega arith
length-take_lines (suc n) [] = omega arith
length-take_lines (suc n) (l ∷ lines) = omega (arith, length-take_lines n lines)

-- Joined lines have a newline less than there are lines.
newlines-join :
    (lines : List Bytes) → All Plain lines → newlines (join_lines lines) ≤ length lines - 1
unfolding join_lines
newlines-join [] a = omega arith
newlines-join (l ∷ []) a = omega (arith, a.0)
newlines-join (l ∷ m ∷ rest) a =
    omega (
      arith,
      a.0,
      newlines-append l (newline ∷ join_lines (m ∷ rest)),
      newlines-join (m ∷ rest) a.1,
    )

-- A byte of a character after the first.
abbrev IsTail : ℕ → Type 0
IsTail b = (128 ≤ b) × (b < 192)

-- Well-formed UTF-8: no overlong form, no surrogate, and nothing after U+10FFFF.
pub data IsUtf8 : Bytes → Type 0 where
  empty : IsUtf8 []
  one : (a : ℕ) (s : Bytes) → a < 128 → IsUtf8 s → IsUtf8 (a ∷ s)
  two : (a b : ℕ) (s : Bytes) → 194 ≤ a → a < 224 → IsTail b → IsUtf8 s → IsUtf8 (a ∷ b ∷ s)
  three :
      (a b c : ℕ) (s : Bytes)
      → 224 ≤ a
      → a < 240
      → (a ≡ 224 → 160 ≤ b)
      → (a ≡ 237 → b < 160)
      → IsTail b
      → IsTail c
      → IsUtf8 s
      → IsUtf8 (a ∷ b ∷ c ∷ s)
  four :
      (a b c d : ℕ) (s : Bytes)
      → 240 ≤ a
      → a < 245
      → (a ≡ 240 → 144 ≤ b)
      → (a ≡ 244 → b < 144)
      → IsTail b
      → IsTail c
      → IsTail d
      → IsUtf8 s
      → IsUtf8 (a ∷ b ∷ c ∷ d ∷ s)

-- U+FFFD
abbrev pub replacement : Bytes
replacement = 239 ∷ 191 ∷ 189 ∷ []

-- What decoding makes of a text that is cut: it stays where the cut is between characters; else what is
-- left of the last character, a byte at least, becomes one U+FFFD.
abbrev pub Repaired : Bytes → Bytes → Type 0
Repaired s r =
    (r ≡ s)
    ⊎ ((whole : Bytes) × (rest : Bytes) × (s ≡ whole ++ rest)
        × (0 < length rest)
        × (r ≡ whole ++ replacement))

length-append : (s t : Bytes) → length (s ++ t) ≡ length s + length t
length-append [] t = omega arith
length-append (c ∷ s) t = omega (arith, length-append s t)

length-Repaired : (s r : Bytes) → Repaired s r → length r ≤ length s + 2
length-Repaired s r (inl e) = ground (arith, ap length e)
length-Repaired s r (inr (whole, rest, e, some_rest, f)) = omega (
  arith,
  some_rest,
  ap length e,
  ap length f,
  length-append whole rest,
  length-append whole replacement,
)

newlines-Repaired : (s r : Bytes) → Repaired s r → newlines r ≤ newlines s
newlines-Repaired s r (inl e) = ground (arith, ap newlines e)
newlines-Repaired s r (inr (whole, rest, e, some_rest, f)) = ground (
  arith,
  ap newlines e,
  ap newlines f,
  newlines-append whole rest,
  newlines-append whole replacement,
)

take-take : (m n : ℕ) (s : Bytes) → (k : ℕ) × (take m (take n s) ≡ take k s)
take-take zero n s = (0, refl)
take-take (suc m) zero s = (0, refl)
take-take (suc m) (suc n) [] = (0, refl)
take-take (suc m) (suc n) (c ∷ s) = let (k, e) = take-take m n s in (suc k, ap (λ l. c ∷ l) e)

join-push :
    (c n : ℕ) (lines : List Bytes)
    → 0 < length lines
    → join_lines (take (suc n) (push_byte c lines)) ≡ c ∷ join_lines (take (suc n) lines)
unfolding join_lines
join-push c n [] h = absurd (omega arith)
join-push c n (l ∷ rest) h = on (take n rest)
  where
    on : (rest : List Bytes) → join_lines ((c ∷ l) ∷ rest) ≡ c ∷ join_lines (l ∷ rest)
    on [] = refl
    on (m ∷ rest) = refl

join_empty_first :
    (n : ℕ) (lines : List Bytes)
    → 0 < length lines
    → join_lines ([] ∷ take (suc n) lines) ≡ newline ∷ join_lines (take (suc n) lines)
unfolding join_lines
join_empty_first n [] h = absurd (omega arith)
join_empty_first n (l ∷ rest) h = refl

some_line : (s : Bytes) → 0 < length (split_lines s)
some_line s = omega (arith, length-split s)

Beginning : Bytes → ℕ → List Bytes → Type 0
Beginning s n lines = (k : ℕ) × (join_lines (take n lines) ≡ take k s)

-- The first lines of a text are a beginning of it.
lines_beginning : (n : ℕ) (s : Bytes) → (k : ℕ) × (join_lines (take n (split_lines s)) ≡ take k s)
unfolding join_lines split_lines Beginning
lines_beginning zero s = (0, refl)
lines_beginning (suc zero) [] = (0, refl)
lines_beginning (suc (suc n)) [] = (0, refl)
lines_beginning (suc zero) (c ∷ s) =
    if_keeps (Beginning (c ∷ s) 1) (c == newline) ([] ∷ split_lines s) (push_byte c (split_lines s))
      (λ e. (0, refl))
      (λ ne.
        let (k, e) = lines_beginning 1 s in
        (suc k, join-push c 0 (split_lines s) (some_line s) ∙ ap (λ l. c ∷ l) e))
lines_beginning (suc (suc n)) (c ∷ s) =
    if_keeps (Beginning (c ∷ s) (suc (suc n))) (c == newline) ([] ∷ split_lines s)
      (push_byte c (split_lines s))
      (λ is_newline.
        let (k, e) = lines_beginning (suc n) s in
        let same : newline ≡ c = ground (arith, is_newline) in
        (
          suc k,
          join_empty_first n (split_lines s) (some_line s)
              ∙ ap (λ l. newline ∷ l) e
              ∙ ap (λ x. x ∷ take k s) same,
        ))
      (λ ne.
        let (k, e) = lines_beginning (suc (suc n)) s in
        (suc k, join-push c (suc n) (split_lines s) (some_line s) ∙ ap (λ l. c ∷ l) e))

module _ (repair : Bytes → Bytes) (max_bytes max_lines : ℕ) where
  -- What is cut is a beginning of the input, and stays or is repaired.
  cut-Repaired :
      (input : Bytes)
      → ((s : Bytes) (n : ℕ) → IsUtf8 s → Repaired (take n s) (repair (take n s)))
      → IsUtf8 input
      → Repaired
          (take max_bytes (join_lines (take max_lines (split_lines input))))
          (repair (take max_bytes (join_lines (take max_lines (split_lines input)))))
  cut-Repaired input decodes valid =
      let (n, e) = lines_beginning max_lines input in
      let (k, f) = take-take max_bytes n input in
      subst (λ t. Repaired t (repair t)) (sym (ap (take max_bytes) e ∙ f)) (decodes input k valid)

  -- For a decoder that turns a beginning of well-formed UTF-8 into itself, or into its whole characters and
  -- one U+FFFD for what is left of the last one, for an input in UTF-8, and with at least one line
  -- allowed: the content has at most two bytes over the limit of bytes, and no more lines than allowed;
  -- the counts are those of the input; and the input is given back whole exactly when it is said not to be
  -- truncated, which is when it is within both limits.
  pub truncate-bounded :
      (input : Bytes)
      → ((s : Bytes) (n : ℕ) → IsUtf8 s → Repaired (take n s) (repair (take n s)))
      → IsUtf8 input
      → 0 < max_lines
      → let r = truncate repair max_bytes max_lines input in
        (length r.content ≤ max_bytes + 2)
        × (newlines r.content < max_lines)
        × (r.total_bytes ≡ length input)
        × (r.total_lines ≡ newlines input + 1)
        × (r.truncated ≡ false
            → (r.content ≡ input) × (length input ≤ max_bytes) × (newlines input < max_lines))
        × (length input ≤ max_bytes → newlines input < max_lines → r.truncated ≡ false)
  unfolding truncate
  truncate-bounded input decodes valid some_lines =
      let lines = split_lines input in
      let head = join_lines (take max_lines lines) in
      let cut = take max_bytes head in
      let repaired = cut-Repaired input decodes valid in
      let facts =
        newlines-join (take max_lines lines)
          (take-Plain max_lines lines (split_lines-Plain input)) in
      (
        ground (arith, length-Repaired cut (repair cut) repaired, length-take max_bytes head),
        ground (
          arith,
          newlines-Repaired cut (repair cut) repaired,
          newlines-take max_bytes head,
          facts,
          length-take_lines max_lines lines,
          length-split input,
        ),
        ground arith,
        ground (arith, length-split input),
        ground (arith, length-split input),
        ground (arith, length-split input),
      )
