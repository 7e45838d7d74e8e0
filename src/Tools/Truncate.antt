-- ===== src/Tools/Truncate.antt =====
-- utils/truncate.ts: the cap on a tool's output. A text is the list of its UTF-8 bytes.
use sandbox_platform.Prelude.{
  ℕ, Bool, true, false, ◌&&◌, List, [], ◌∷◌, ◌++◌, ◌==◌, leb, ltb, if◌then◌else◌, length, take,
}

abbrev pub Bytes : Type 0
Bytes = List ℕ

abbrev pub newline : ℕ
newline = 10

pub record TruncateResult : Type 0 where
  pub content : Bytes
  pub truncated : Bool
  pub total_lines : ℕ
  pub total_bytes : ℕ

abbrev pub push_byte : ℕ → List Bytes → List Bytes
push_byte c [] = (c ∷ []) ∷ []
push_byte c (l ∷ rest) = (c ∷ l) ∷ rest

-- `input.split("\n")`
unfoldable pub split_lines : Bytes → List Bytes
split_lines [] = [] ∷ []
split_lines (c ∷ s) =
    let rest = split_lines s in if c == newline then [] ∷ rest else push_byte c rest

-- `lines.join("\n")`
unfoldable pub join_lines : List Bytes → Bytes
join_lines [] = []
join_lines (l ∷ []) = l
join_lines (l ∷ m ∷ rest) = l ++ newline ∷ join_lines (m ∷ rest)

-- `repair` is what decoding and encoding make of bytes that end within a character.
module _ (repair : Bytes → Bytes) where
  abbrev pub cut_bytes : ℕ → Bytes → Bytes
  cut_bytes max_bytes s = if ltb max_bytes (length s) then repair (take max_bytes s) else s

  unfoldable pub truncate : ℕ → ℕ → Bytes → TruncateResult
  truncate max_bytes max_lines input =
      let lines = split_lines input in
      if leb (length input) max_bytes && leb (length lines) max_lines
      then record {
        content = input;
        truncated = false;
        total_lines = length lines;
        total_bytes = length input;
      }
      else record {
        content = cut_bytes max_bytes (join_lines (take max_lines lines));
        truncated = true;
        total_lines = length lines;
        total_bytes = length input;
      }
