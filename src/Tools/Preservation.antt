-- ===== src/Tools/Preservation.antt =====
-- What every step of the walk keeps, the walk keeps.
use sandbox_platform.Prelude.{
  ℕ, zero, suc, ◌+◌, String, Bool, Option, none, some, List, [], ◌∷◌, ◌++◌, ltb, str_eq, any_where,
  if◌then◌else◌, if_keeps,
}
use sandbox_platform.Action.{Outcome, ok, err, Action, ◌>>=◌, pure}
use sandbox_platform.Tools.Walk.{
  FileStat, WalkHost, Entry, Progress, is_skipped, push, child_rel, see_file, see_stat, see_new,
  see_name, go_on, see_names, see_dir, turn, loop_on, walk, walk_files,
}

-- What the host and the visitor keep, the walk keeps.
module _ {S : Type 0} (host : WalkHost S) (visit : String → Action S Bool) (P : S → Type 0)
    (readdir-keeps : (path : String) (s : S) → P s → P (host.readdir path s).1)
    (stat-keeps : (path : String) (s : S) → P s → P (host.stat path s).1)
    (clock-keeps : (s : S) → P s → P (host.is_late s).1)
    (visit-keeps : (rel : String) (s : S) → P s → P (visit rel s).1) where
  visited_file :
      (p : Progress) (r : Outcome Bool) (s : S)
      → P s
      → P
          (elim r as (λ x. Outcome (Option Progress) × S) [
            | ok on ↦ (ok (if on then some (record p { files = p.files + 1 }) else none), s)
            | err x ↦ (err x, s)
          ]).1
  visited_file p (ok on) s h = h
  visited_file p (err x) s h = h

  see_file-keeps :
      (e : Entry) (name : String) (p : Progress) (s : S)
      → P s
      → P (see_file host visit e name p s).1
  see_file-keeps e name p s h =
      let rel = child_rel host visit e.rel name in
      if_keeps (λ (m : Action S (Option Progress)). P (m s).1)
        (ltb host.walk_max_files (p.files + 1)) (pure none)
        (do on ← visit rel; pure (if on then some (record p { files = p.files + 1 }) else none))
        (λ full. h) (λ room. visited_file p (visit rel s).0 (visit rel s).1 (visit-keeps rel s h))

  see_stat-keeps :
      (e : Entry) (abs name : String) (p : Progress) (r : Outcome FileStat) (s : S)
      → P s
      → P (see_stat host visit e abs name p r s).1
  see_stat-keeps e abs name p (err x) s h = h
  see_stat-keeps e abs name p (ok st) s h =
      if_keeps (λ (m : Action S (Option Progress)). P (m s).1) st.is_directory
        (pure (some (push host visit e abs name p))) (see_file host visit e name p) (λ dir. h)
        (λ file. see_file-keeps e name p s h)

  see_name-keeps :
      (e : Entry) (name : String) (p : Progress) (s : S)
      → P s
      → P (see_name host visit e name p s).1
  unfolding see_name
  see_name-keeps e name p s h =
      let abs = host.join e.dir name in
      let q : Progress = record p { visited = abs ∷ p.visited } in
      let (r, t) = host.stat abs s in
      let Q = λ (m : Action S (Option Progress)). P (m s).1 in
      if_keeps Q (is_skipped name) (pure (some p))
        (if any_where (str_eq abs) p.visited
          then pure (some p)
          else see_new host visit e abs name q)
        (λ skipped. h)
        (λ kept.
          if_keeps Q (any_where (str_eq abs) p.visited) (pure (some p))
            (see_new host visit e abs name q) (λ again. h)
            (λ new. see_stat-keeps e abs name q r t (stat-keeps abs s h)))

  go_on-keeps :
      (next : Progress → Action S (Option Progress)) (r : Outcome (Option Progress)) (s : S)
      → P s
      → ((q : Progress) → P (next q s).1)
      → P (go_on host visit next r s).1
  go_on-keeps next (err x) s h k = h
  go_on-keeps next (ok none) s h k = h
  go_on-keeps next (ok (some q)) s h k = k q

  see_names-keeps :
      (e : Entry) (names : List String) (p : Progress) (s : S)
      → P s
      → P (see_names host visit e names p s).1
  unfolding see_names
  see_names-keeps e [] p s h = h
  see_names-keeps e (name ∷ names) p s h =
      let (late, t) = host.is_late s in
      let (r, u) = see_name host visit e name p t in
      let kept = see_name-keeps e name p t (clock-keeps s h) in
      if_keeps (λ (o : Outcome (Option Progress) × S). P o.1) late (ok none, t)
        (go_on host visit (see_names host visit e names) r u) (λ over. clock-keeps s h)
        (λ on.
          go_on-keeps (see_names host visit e names) r u kept
            (λ q. see_names-keeps e names q u kept))

  see_dir-keeps :
      (e : Entry) (p : Progress) (r : Outcome (List String)) (s : S)
      → P s
      → P (see_dir host visit e p r s).1
  see_dir-keeps e p (err x) s h = h
  see_dir-keeps e p (ok names) s h = see_names-keeps e names p s h

  turn-keeps :
      (e : Entry) (visited : List String) (files : ℕ) (s : S)
      → P s
      → P (turn host visit e visited files s).1
  unfolding turn
  turn-keeps e visited files s h =
      let (late, t) = host.is_late s in
      let (r, u) = host.readdir e.dir t in
      let p : Progress = record { pushed = []; visited = visited; files = files } in
      if_keeps (λ (o : Outcome (Option Progress) × S). P o.1) late (ok none, t)
        (see_dir host visit e p r u) (λ over. clock-keeps s h)
        (λ on. see_dir-keeps e p r u (readdir-keeps e.dir t (clock-keeps s h)))

  loop_on-keeps :
      (next : Progress → Action S Bool) (r : Outcome (Option Progress)) (s : S)
      → P s
      → ((q : Progress) → P (next q s).1)
      → P (loop_on host visit next r s).1
  loop_on-keeps next (err x) s h k = h
  loop_on-keeps next (ok none) s h k = h
  loop_on-keeps next (ok (some q)) s h k = k q

  walk-keeps :
      (fuel : ℕ) (queue : List Entry) (visited : List String) (files : ℕ) (s : S)
      → P s
      → P (walk host visit fuel queue visited files s).1
  unfolding walk
  walk-keeps zero queue visited files s h = h
  walk-keeps (suc fuel) [] visited files s h = h
  walk-keeps (suc fuel) (e ∷ queue) visited files s h =
      let (r, t) = turn host visit e visited files s in
      let kept = turn-keeps e visited files s h in
      loop_on-keeps (λ p. walk host visit fuel (queue ++ p.pushed) p.visited p.files) r t kept
        (λ p. walk-keeps fuel (queue ++ p.pushed) p.visited p.files t kept)

  pub walk_files-keeps :
      (fuel : ℕ) (root : String) (s : S) → P s → P (walk_files host visit fuel root s).1
  unfolding walk_files
  walk_files-keeps fuel root s h =
      walk-keeps fuel (record { dir = root; rel = ""; depth = 0 } ∷ []) [] 0 s h
