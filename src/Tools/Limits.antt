-- ===== src/Tools/Limits.antt =====
-- How much a search gives back.
use sandbox_platform.Prelude.{
  ℕ, suc, ◌+◌, ◌≤◌, ◌<◌, ◌≡◌, ◌⊎◌, inl, inr, arith, String, Bool, true, false, Option, none, some,
  List, [], ◌∷◌, ◌++◌, ltb, if_keeps, length, Bool-cases, Option-cases,
}
use sandbox_platform.Action.{Outcome, ok, err, Action, pure}
use sandbox_platform.Containers.Host.{ContainerHandle}
use sandbox_platform.Storage.Paths.{Chars}
use sandbox_platform.Tools.Truncate.{Bytes}
use sandbox_platform.Tools.Walk.{walk_files}
use sandbox_platform.Tools.Files.{ToolHost}
use sandbox_platform.Tools.Preservation.{walk_files-keeps}
use sandbox_platform.Tools.Search.{
  SearchHost, Search, split_crlf, Match, GrepParams, add_found, has_room, cut_line, find_visit,
  scan_lines, scan_file, grep_visit, found_by, find_in, grep_in, walk_host, root_of, limit_of,
  line_matcher,
}

length-snoc {ℓ} : {A : Type ℓ} (xs : List A) (x : A) → length (xs ++ x ∷ []) ≡ length xs + 1
length-snoc [] x = omega arith
length-snoc (y ∷ xs) x = omega (arith, length-snoc xs x)

-- No more than the limit is found so far.
abbrev Within : {R A : Type 0} → ℕ → Search R A → Type 0
Within limit s = length s.found ≤ limit

module _ {R : Type 0} (tools : ToolHost R) (search : SearchHost R) (handle : ContainerHandle) where
  find_visit-Within :
      (root : String) (pattern : Chars) (limit : ℕ) (rel : String) (s : Search R String)
      → Within limit s
      → Within limit (find_visit tools search handle root pattern limit rel s).1
  unfolding find_visit
  find_visit-Within root pattern limit rel s h =
      ground (arith, length-snoc s.found (search.join root rel))

  scan_lines-Within :
      (matcher : Chars → Bool) (limit : ℕ) (rel : String) (i : ℕ) (lines : List Chars)
      (s : Search R Match)
      → length s.found < limit
      → Within limit (scan_lines tools search handle matcher limit rel i lines s).1
  unfolding scan_lines
  scan_lines-Within matcher limit rel i [] s h = omega arith
  scan_lines-Within matcher limit rel i (raw ∷ lines) s h =
      let hit : Match = record {
        file = rel;
        line_number = i;
        line = cut_line tools search handle raw;
      } in
      ground (
        arith,
        length-snoc s.found hit,
        scan_lines-Within matcher limit rel (suc i) lines s,
        scan_lines-Within matcher limit rel (suc i) lines (add_found hit s),
      )

  scan_file-Within :
      (matcher : Chars → Bool) (limit : ℕ) (rel : String) (r : Outcome Bytes) (s : Search R Match)
      → length s.found < limit
      → Within limit (scan_file tools search handle matcher limit rel r s).1
  scan_file-Within matcher limit rel (err e) s h = omega arith
  scan_file-Within matcher limit rel (ok buf) s h =
      if_keeps (λ (m : Action (Search R Match) Bool). Within limit (m s).1)
        (ltb tools.read_max_bytes (length buf)) (pure true)
        (scan_lines tools search handle matcher limit rel 1 (split_crlf (tools.decode buf)))
        (λ large. omega arith)
        (λ fits. scan_lines-Within matcher limit rel 1 (split_crlf (tools.decode buf)) s h)

  grep_visit-Within :
      (matcher : Chars → Bool) (root : String) (glob : Option Chars) (limit : ℕ) (rel : String)
      (s : Search R Match)
      → Within limit s
      → Within limit (grep_visit tools search handle matcher root glob limit rel s).1
  unfolding grep_visit
  grep_visit-Within matcher root glob limit rel s h =
      let (r, t) = tools.read_file handle (search.join root rel) s.world in
      let opened : Search R Match = record s { world = t } in
      elim (Bool-cases (has_room tools search handle limit s)) [
        | inr full ↦ ground arith
        | inl room ↦
            let scanned = scan_file-Within matcher limit rel r opened (ground arith) in
            ground (arith, scanned)
      ]

  found_by_lem :
      {A : Type 0} (limit : ℕ) (r : Outcome Bool) (s : Search R A) (l : List A)
      → Within limit s
      → (elim r as (λ x. Outcome (Option (List A)) × R) [
        | ok b ↦ elim b as (λ x. Outcome (Option (List A)) × R) [
          | true ↦ (ok (some s.found), s.world)
          | false ↦ (ok none, s.world)
        ]
        | err e ↦ (err e, s.world)
      ]).0
        ≡ ok (some l)
      → length l ≤ limit
  found_by_lem limit (ok true) s l h e = ground arith
  found_by_lem limit (ok false) s l h e = absurd (ground arith)
  found_by_lem limit (err x) s l h e = absurd (ground arith)

  -- What `find` gives back is no longer than its limit, 100 where none is given, whatever the fuel and the
  -- executor.
  pub find_in-limit :
      (fuel : ℕ) (pattern : Chars) (path : Option String) (limit : Option ℕ) (w : R)
      (l : List String)
      → (find_in tools search handle fuel pattern path limit w).0 ≡ ok (some l)
      → length l ≤ limit_of limit
  unfolding find_in
  find_in-limit fuel pattern path limit w l e =
      let n = limit_of limit in
      let visit = find_visit tools search handle (root_of path) pattern n in
      let start : Search R String = record { world = w; found = [] } in
      let (r, s) = walk_files (walk_host tools search handle) visit fuel (root_of path) start in
      let kept =
        walk_files-keeps (walk_host tools search handle) visit (Within n) (λ path s h. h)
          (λ path s h. h) (λ s h. h) (find_visit-Within (root_of path) pattern n) fuel
          (root_of path) start (omega arith) in
      found_by_lem n r s l kept e

  grep_with-limit :
      (matcher : Chars → Bool) (fuel : ℕ) (params : GrepParams) (w : R) (l : List Match)
      → (found_by tools search handle
          (walk_files
            (walk_host tools search handle)
            (grep_visit tools search handle matcher
              (root_of params.path)
              params.glob
              (limit_of params.limit))
            fuel
            (root_of params.path))
          w).0
        ≡ ok (some l)
      → length l ≤ limit_of params.limit
  grep_with-limit matcher fuel params w l e =
      let n = limit_of params.limit in
      let root = root_of params.path in
      let visit = grep_visit tools search handle matcher root params.glob n in
      let start : Search R Match = record { world = w; found = [] } in
      let (r, s) = walk_files (walk_host tools search handle) visit fuel root start in
      let kept =
        walk_files-keeps (walk_host tools search handle) visit (Within n) (λ path s h. h)
          (λ path s h. h) (λ s h. h) (grep_visit-Within matcher root params.glob n) fuel root start
          (omega arith) in
      found_by_lem n r s l kept e

  -- So it is with `grep` and its lines; a pattern over its length, an unsafe one that is no literal, and
  -- one that does not compile give none.
  pub grep_in-limit :
      (fuel : ℕ) (params : GrepParams) (w : R) (l : List Match)
      → (grep_in tools search handle fuel params w).0 ≡ ok (some l)
      → (length l ≤ limit_of params.limit)
        × (length params.pattern ≤ search.grep_max_pattern_chars)
        × ((params.literal ≡ true) ⊎ (search.safe_regex params.pattern ≡ true))
  unfolding grep_in
  grep_in-limit fuel params w l e = elim (Option-cases (line_matcher tools search handle params)) [
    | inl broken ↦ absurd (ground arith)
    | inr (matcher, compiled) ↦
        (grep_with-limit matcher fuel params w l (ground arith), ground arith, ground arith)
  ]
