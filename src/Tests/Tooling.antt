-- ===== src/Tests/Tooling.antt =====
-- The tools on an executor whose tree has one file, and no depth that the walk could come to the end of.
use sandbox_platform.Prelude.{
  zero, sym, ap, subst, inl, inr, ltb, take, some, ℕ, suc, ◌+◌, ◌≤◌, ◌<◌, ◌≡◌, ◌≢◌, ◌⊎◌, refl,
  arith, String, Bool, true, false, [], ◌∷◌, ◌++◌, length, str_eq, if◌then◌else◌,
}
use sandbox_platform.Action.{ok, Action}
use sandbox_platform.Storage.Paths.{Chars, chars}
use sandbox_platform.Tools.Truncate.{Bytes, truncate, split_lines, join_lines}
use sandbox_platform.Tools.Output.{
  newlines, IsUtf8, empty, one, two, three, four, Repaired, replacement, truncate-bounded,
}
use sandbox_platform.Tools.Walk.{FileStat, WalkHost, walk_files, walk, turn, see_names, see_name}
use sandbox_platform.Tools.Termination.{add, walk_files-ends}
use sandbox_platform.Tools.Glob.{glob_matches, matches, tokens, spans}
use sandbox_platform.Tools.Files.{ToolHost, expand, read_capped, updated, edit_file}
use sandbox_platform.Tools.Editing.{HasNoDollar, edit_file-writes}
use sandbox_platform.Tests.{sample_handle}

abbrev a_stat : Bool → FileStat
a_stat dir = record { is_directory = dir; is_file = false; size = 3 }

-- Each directory holds "f" and, once more, itself. The state is the number of the visitor's calls.
abbrev endless : WalkHost ℕ
endless = record {
  readdir = λ path n. (ok ("f" ∷ "d" ∷ []), n);
  stat = λ path n. (ok (a_stat (str_eq path "dd")), n);
  is_late = λ n. (false, n);
  join = λ dir name. if str_eq name "d" then "dd" else dir;
  walk_max_files = 10;
  walk_max_depth = 3;
}

abbrev counting : String → Action ℕ Bool
counting rel n = (ok true, suc n)

walked : walk_files endless counting 5 "." 0 ≡ (ok true, 1)
unfolding walk_files walk turn see_names see_name
walked = refl

walk_files-ends_example :
    (fuel : ℕ) × ((walk_files endless counting fuel "." 0).0 ≢ ok false)
    × ((more : ℕ)
        → walk_files endless counting (add more fuel) "." 0
          ≡ walk_files endless counting fuel "." 0)
walk_files-ends_example = walk_files-ends endless counting "." 0

-- A decoder for what begins a text in UTF-8.
unfoldable decoded : Bytes → Bytes
decoded [] = []
decoded (a ∷ []) = if ltb a 128 then a ∷ [] else replacement
decoded (a ∷ b ∷ []) =
    let after_one = decoded (b ∷ []) in
    if ltb a 128 then a ∷ after_one else if ltb a 224 then a ∷ b ∷ [] else replacement
decoded (a ∷ b ∷ c ∷ []) =
    let after_one = decoded (b ∷ c ∷ []) in
    let after_two = decoded (c ∷ []) in
    if ltb a 128
    then a ∷ after_one
    else if ltb a 224
    then a ∷ b ∷ after_two
    else if ltb a 240
    then a ∷ b ∷ c ∷ []
    else replacement
decoded (a ∷ b ∷ c ∷ d ∷ s) =
    let after_one = decoded (b ∷ c ∷ d ∷ s) in
    let after_two = decoded (c ∷ d ∷ s) in
    let after_three = decoded (d ∷ s) in
    let after_four = decoded s in
    if ltb a 128
    then a ∷ after_one
    else if ltb a 224
    then a ∷ b ∷ after_two
    else if ltb a 240
    then a ∷ b ∷ c ∷ after_three
    else a ∷ b ∷ c ∷ d ∷ after_four

decoded_one : (a : ℕ) (s : Bytes) → a < 128 → decoded (a ∷ s) ≡ a ∷ decoded s
unfolding decoded
decoded_one a [] h = ground arith
decoded_one a (b ∷ []) h = ground arith
decoded_one a (b ∷ c ∷ []) h = ground arith
decoded_one a (b ∷ c ∷ d ∷ s) h = ground arith

decoded_two : (a b : ℕ) (s : Bytes) → 194 ≤ a → a < 224 → decoded (a ∷ b ∷ s) ≡ a ∷ b ∷ decoded s
unfolding decoded
decoded_two a b [] h k = ground arith
decoded_two a b (c ∷ []) h k = ground arith
decoded_two a b (c ∷ d ∷ s) h k = ground arith

decoded_three :
    (a b c : ℕ) (s : Bytes) → 224 ≤ a → a < 240 → decoded (a ∷ b ∷ c ∷ s) ≡ a ∷ b ∷ c ∷ decoded s
unfolding decoded
decoded_three a b c [] h k = ground arith
decoded_three a b c (d ∷ s) h k = ground arith

decoded_four :
    (a b c d : ℕ) (s : Bytes) → 240 ≤ a → decoded (a ∷ b ∷ c ∷ d ∷ s) ≡ a ∷ b ∷ c ∷ d ∷ decoded s
unfolding decoded
decoded_four a b c d s h = ground arith

Repaired-cons : (c : ℕ) (s r : Bytes) → Repaired s r → Repaired (c ∷ s) (c ∷ r)
Repaired-cons c s r (inl e) = inl (ap (λ l. c ∷ l) e)
Repaired-cons c s r (inr (whole, rest, e, h, f)) =
    inr (c ∷ whole, rest, ap (λ l. c ∷ l) e, h, ap (λ l. c ∷ l) f)

-- The part of a character.
part-Repaired :
    (a : ℕ) (s : Bytes) → decoded (a ∷ s) ≡ replacement → Repaired (a ∷ s) (decoded (a ∷ s))
part-Repaired a s e = inr ([], a ∷ s, refl, omega arith, e)

decoded-Repaired : (s : Bytes) (n : ℕ) → IsUtf8 s → Repaired (take n s) (decoded (take n s))
unfolding decoded
decoded-Repaired s zero v = inl refl
decoded-Repaired _ (suc n) empty = inl refl
decoded-Repaired _ (suc n) (one a s h v) =
    subst (Repaired (a ∷ take n s)) (sym (decoded_one a (take n s) h))
      (Repaired-cons a (take n s) (decoded (take n s)) (decoded-Repaired s n v))
decoded-Repaired _ (suc zero) (two a b s h k t v) = part-Repaired a [] (ground arith)
decoded-Repaired _ (suc (suc n)) (two a b s h k t v) =
    subst (Repaired (a ∷ b ∷ take n s)) (sym (decoded_two a b (take n s) h k)) (
      Repaired-cons a _ _
        (Repaired-cons b (take n s) (decoded (take n s)) (decoded-Repaired s n v)))
decoded-Repaired _ (suc zero) (three a b c s h k x y t u v) = part-Repaired a [] (ground arith)
decoded-Repaired _ (suc (suc zero)) (three a b c s h k x y t u v) =
    part-Repaired a (b ∷ []) (ground arith)
decoded-Repaired _ (suc (suc (suc n))) (three a b c s h k x y t u v) =
    subst (Repaired (a ∷ b ∷ c ∷ take n s)) (sym (decoded_three a b c (take n s) h k)) (
      Repaired-cons a _ _ (
        Repaired-cons b _ _
          (Repaired-cons c (take n s) (decoded (take n s)) (decoded-Repaired s n v))))
decoded-Repaired _ (suc zero) (four a b c d s h k x y t u w v) = part-Repaired a [] (ground arith)
decoded-Repaired _ (suc (suc zero)) (four a b c d s h k x y t u w v) =
    part-Repaired a (b ∷ []) (ground arith)
decoded-Repaired _ (suc (suc (suc zero))) (four a b c d s h k x y t u w v) =
    part-Repaired a (b ∷ c ∷ []) (ground arith)
decoded-Repaired _ (suc (suc (suc (suc n)))) (four a b c d s h k x y t u w v) =
    subst (Repaired (a ∷ b ∷ c ∷ d ∷ take n s)) (sym (decoded_four a b c d (take n s) h)) (
      Repaired-cons a _ _ (
        Repaired-cons b _ _ (
          Repaired-cons c _ _
            (Repaired-cons d (take n s) (decoded (take n s)) (decoded-Repaired s n v)))))

-- "h", a letter of two bytes, and a second line
abbrev two_lines : Bytes
two_lines = 104 ∷ 195 ∷ 169 ∷ 10 ∷ 111 ∷ []

two_lines-IsUtf8 : IsUtf8 two_lines
two_lines-IsUtf8 = one 104 _ (omega arith) (
    two 195 169 _ (omega arith) (omega arith) (omega arith, omega arith)
      (one 10 _ (omega arith) (one 111 _ (omega arith) empty)))

-- The cut is within the letter, and the content is longer than the limit.
cut_letter : (truncate decoded 2 1 two_lines).content ≡ 104 ∷ 239 ∷ 191 ∷ 189 ∷ []
unfolding truncate decoded split_lines join_lines
cut_letter = refl

truncate-bounded_example :
    let r = truncate decoded 2 1 two_lines in
    (length r.content ≤ 4)
    × (newlines r.content < 1)
    × (r.total_bytes ≡ length two_lines)
    × (r.total_lines ≡ newlines two_lines + 1)
    × (r.truncated ≡ false
        → (r.content ≡ two_lines) × (length two_lines ≤ 2) × (newlines two_lines < 1))
    × (length two_lines ≤ 2 → newlines two_lines < 1 → r.truncated ≡ false)
truncate-bounded_example =
    truncate-bounded decoded 2 1 two_lines decoded-Repaired two_lines-IsUtf8 (omega arith)

globbed : glob_matches (chars "src/a.ts") (chars "**.ts") ≡ true
unfolding glob_matches matches tokens spans
globbed = refl

not_across : glob_matches (chars "src/a.ts") (chars "*.ts") ≡ false
unfolding glob_matches matches tokens spans
not_across = refl

-- Two dollars in the new text become one.
dollars_lost : expand [] [] [] (chars "a$$b") ≡ chars "a$b"
unfolding expand
dollars_lost = refl

-- The state is the content of the file.
abbrev disk : ToolHost Bytes
disk = record {
  stat = λ handle path s. (ok (a_stat false), s);
  read_file = λ handle path s. (ok s, s);
  write_file = λ handle path content s. (ok tt, content);
  access = λ handle path s. (ok tt, s);
  readdir = λ handle path s. (ok [], s);
  exec = λ handle command opts s. (
    ok (record {
      exit_code = some 0;
      stdout = [];
      stderr = [];
      timed_out = false;
      output_truncated = false;
    }),
    s,
  );
  decode = λ s. s;
  encode = λ s. s;
  repair = λ s. s;
  child_path = λ dir name. name;
  read_max_bytes = 100;
  bash_max_timeout_seconds = 60;
  bash_output_max_bytes = 1000;
}

abbrev letter : Bytes
letter = chars "dear x, bye x"

read_whole : read_capped disk sample_handle "letter" letter ≡ (ok letter, letter)
unfolding read_capped
read_whole = refl

edit_file-writes_example :
    (((before after : Chars) → letter ≢ before ++ (chars "x" ++ after))
      × (edit_file disk sample_handle "letter" (chars "x") (chars "you") letter
          ≡ (ok (record { applied = false; size = 13 }), letter)))
    ⊎ ((before : Chars) × (after : Chars) × (letter ≡ before ++ (chars "x" ++ after))
        × (HasNoDollar (chars "you")
            → updated disk before (chars "x") (chars "you") after
              ≡ before ++ (chars "you" ++ after))
        × ((edit_file disk sample_handle "letter" (chars "x") (chars "you") letter).1
            ≡ updated disk before (chars "x") (chars "you") after))
edit_file-writes_example =
    edit_file-writes disk sample_handle "letter" (chars "x") (chars "you") letter letter letter
      read_whole
