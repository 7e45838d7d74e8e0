-- ===== src/Tools/Termination.antt =====
-- The walk ends, whatever the executor answers: it goes breadth first and no deeper than the limit, so
-- each level of entries is used up before the next, and there are finitely many levels.
use sandbox_platform.Prelude.{
  ℕ, zero, suc, ◌+◌, ◌≤◌, ◌<◌, ◌≡◌, ◌≢◌, refl, sym, subst, arith, String, Bool, true, false, Option,
  none, some, List, [], ◌∷◌, ◌++◌, All, append_assoc, append_nil, if_keeps, if◌then◌else◌, ltb, leb,
  str_eq, any_where, if_keeps, if◌then◌else◌, ltb, leb, str_eq, any_where,
}
use sandbox_platform.Action.{Outcome, ok, err, Action, pure, ◌>>=◌}
use sandbox_platform.Tools.Walk.{
  FileStat, WalkHost, Entry, Progress, child_rel, push, is_skipped, see_file, see_new, see_stat,
  go_on, loop_on, see_dir, see_name, see_names, turn, walk, walk_files,
}

-- The entries of one level, which is within the limit.
abbrev pub AtDepth : ℕ → ℕ → List Entry → Type 0
AtDepth limit d l = All (λ e. (e.depth ≡ d) × (d ≤ limit)) l

append-AtDepth :
    (limit d : ℕ) (k l : List Entry)
    → AtDepth limit d k
    → AtDepth limit d l
    → AtDepth limit d (k ++ l)
append-AtDepth limit d [] l a b = b
append-AtDepth limit d (e ∷ k) l a b = (a.0, append-AtDepth limit d k l a.1 b)

-- `more + fuel`, by which a walk with more fuel starts with the same turns.
abbrev pub add : ℕ → ℕ → ℕ
add more zero = more
add more (suc fuel) = suc (add more fuel)

module _ {S : Type 0} (host : WalkHost S) (visit : String → Action S Bool) where
  -- What is pushed is one level below.
  abbrev Below : ℕ → Option Progress → Type 0
  Below d none = Unit
  Below d (some p) = AtDepth host.walk_max_depth (suc d) p.pushed

  abbrev Pushes : ℕ → Outcome (Option Progress) → Type 0
  Pushes d (ok r) = Below d r
  Pushes d (err x) = Unit

  push-Below :
      (e : Entry) (abs name : String) (p : Progress)
      → Below e.depth (some p)
      → Below e.depth (some (push host visit e abs name p))
  push-Below e abs name p h =
      let child : Entry = record {
        dir = abs;
        rel = child_rel host visit e.rel name;
        depth = e.depth + 1;
      } in
      if_keeps (λ q. Below e.depth (some q)) (leb (e.depth + 1) host.walk_max_depth)
        (record p { pushed = p.pushed ++ child ∷ [] }) p
        (λ within.
          append-AtDepth host.walk_max_depth (suc e.depth) p.pushed (child ∷ []) h
            ((omega arith, ground arith), tt))
        (λ deep. h)

  on_or_over :
      (d : ℕ) (p : Progress) (on : Bool)
      → Below d (some p)
      → Below d (if on then some (record p { files = p.files + 1 }) else none)
  on_or_over d p true h = h
  on_or_over d p false h = tt

  visited-Pushes :
      (d : ℕ) (p : Progress) (r : Outcome Bool) (s : S)
      → Below d (some p)
      → Pushes d
          (elim r as (λ x. Outcome (Option Progress) × S) [
            | ok on ↦ (ok (if on then some (record p { files = p.files + 1 }) else none), s)
            | err x ↦ (err x, s)
          ]).0
  visited-Pushes d p (ok on) s h = on_or_over d p on h
  visited-Pushes d p (err x) s h = tt

  see_file-Pushes :
      (e : Entry) (name : String) (p : Progress) (s : S)
      → Below e.depth (some p)
      → Pushes e.depth (see_file host visit e name p s).0
  see_file-Pushes e name p s h =
      let (r, t) = visit (child_rel host visit e.rel name) s in
      if_keeps (λ (m : Action S (Option Progress)). Pushes e.depth (m s).0)
        (ltb host.walk_max_files (p.files + 1)) (pure none)
        (do
          on ← visit (child_rel host visit e.rel name)
          pure (if on then some (record p { files = p.files + 1 }) else none))
        (λ full. tt) (λ room. visited-Pushes e.depth p r t h)

  see_stat-Pushes :
      (e : Entry) (abs name : String) (p : Progress) (r : Outcome FileStat) (s : S)
      → Below e.depth (some p)
      → Pushes e.depth (see_stat host visit e abs name p r s).0
  see_stat-Pushes e abs name p (err x) s h = h
  see_stat-Pushes e abs name p (ok st) s h =
      if_keeps (λ (m : Action S (Option Progress)). Pushes e.depth (m s).0) st.is_directory
        (pure (some (push host visit e abs name p))) (see_file host visit e name p)
        (λ dir. push-Below e abs name p h) (λ file. see_file-Pushes e name p s h)

  see_name-Pushes :
      (e : Entry) (name : String) (p : Progress) (s : S)
      → Below e.depth (some p)
      → Pushes e.depth (see_name host visit e name p s).0
  unfolding see_name
  see_name-Pushes e name p s h =
      let abs = host.join e.dir name in
      let q : Progress = record p { visited = abs ∷ p.visited } in
      let (r, t) = host.stat abs s in
      let P = λ (m : Action S (Option Progress)). Pushes e.depth (m s).0 in
      if_keeps P (is_skipped name) (pure (some p))
        (if any_where (str_eq abs) p.visited
          then pure (some p)
          else see_new host visit e abs name q)
        (λ skipped. h)
        (λ kept.
          if_keeps P (any_where (str_eq abs) p.visited) (pure (some p))
            (see_new host visit e abs name q) (λ again. h)
            (λ new. see_stat-Pushes e abs name q r t h))

  go_on-Pushes :
      (d : ℕ) (next : Progress → Action S (Option Progress)) (r : Outcome (Option Progress)) (s : S)
      → Pushes d r
      → ((q : Progress) (t : S) → Below d (some q) → Pushes d (next q t).0)
      → Pushes d (go_on host visit next r s).0
  go_on-Pushes d next (err x) s h k = tt
  go_on-Pushes d next (ok none) s h k = tt
  go_on-Pushes d next (ok (some q)) s h k = k q s h

  see_names-Pushes :
      (e : Entry) (names : List String) (p : Progress) (s : S)
      → Below e.depth (some p)
      → Pushes e.depth (see_names host visit e names p s).0
  unfolding see_names
  see_names-Pushes e [] p s h = h
  see_names-Pushes e (name ∷ names) p s h =
      let (late, t) = host.is_late s in
      let (r, u) = see_name host visit e name p t in
      if_keeps (λ (o : Outcome (Option Progress) × S). Pushes e.depth o.0) late (ok none, t)
        (go_on host visit (see_names host visit e names) r u) (λ over. tt)
        (λ on.
          go_on-Pushes e.depth (see_names host visit e names) r u (see_name-Pushes e name p t h)
            (λ q v. see_names-Pushes e names q v))

  see_dir-Pushes :
      (e : Entry) (p : Progress) (r : Outcome (List String)) (s : S)
      → Below e.depth (some p)
      → Pushes e.depth (see_dir host visit e p r s).0
  see_dir-Pushes e p (err x) s h = h
  see_dir-Pushes e p (ok names) s h = see_names-Pushes e names p s h

  turn-Pushes :
      (e : Entry) (visited : List String) (files : ℕ) (s : S)
      → Pushes e.depth (turn host visit e visited files s).0
  unfolding turn
  turn-Pushes e visited files s =
      let (late, t) = host.is_late s in
      let (r, u) = host.readdir e.dir t in
      let p : Progress = record { pushed = []; visited = visited; files = files } in
      if_keeps (λ (o : Outcome (Option Progress) × S). Pushes e.depth o.0) late (ok none, t)
        (see_dir host visit e p r u) (λ over. tt) (λ on. see_dir-Pushes e p r u tt)

  abbrev Ends : List Entry → List String → ℕ → S → Type 0
  Ends queue visited files s =
      (fuel : ℕ) × ((walk host visit fuel queue visited files s).0 ≢ ok false)

  abbrev EndsAll : List Entry → Type 0
  EndsAll queue = (visited : List String) (files : ℕ) (s : S) → Ends queue visited files s

  loop_on-Ends :
      (e : Entry) (queue : List Entry) (visited : List String) (files : ℕ) (s : S)
      (r : Outcome (Option Progress)) (t : S)
      → turn host visit e visited files s ≡ (r, t)
      → Pushes e.depth r
      → ((p : Progress)
          → AtDepth host.walk_max_depth (suc e.depth) p.pushed
          → Ends (queue ++ p.pushed) p.visited p.files t)
      → Ends (e ∷ queue) visited files s
  unfolding walk
  loop_on-Ends e queue visited files s (err x) t same h k = (1, rw same (λ q. cc))
  loop_on-Ends e queue visited files s (ok none) t same h k = (1, rw same (λ q. cc))
  loop_on-Ends e queue visited files s (ok (some p)) t same h k =
      let (fuel, ends) = k p h in (suc fuel, rw same ends)

  level-Ends :
      (d : ℕ) (now later : List Entry)
      → AtDepth host.walk_max_depth d now
      → AtDepth host.walk_max_depth (suc d) later
      → ((m : List Entry) → AtDepth host.walk_max_depth (suc d) m → EndsAll m)
      → EndsAll (now ++ later)
  level-Ends d [] later a b next = next later b
  level-Ends d (e ∷ now) later a b next = λ visited files s.
      let (r, t) = turn host visit e visited files s in
      loop_on-Ends e (now ++ later) visited files s r t refl (turn-Pushes e visited files s)
        (λ p below.
          let at : AtDepth host.walk_max_depth (suc d) p.pushed =
            subst (λ n. AtDepth host.walk_max_depth (suc n) p.pushed) a.0.0 below in
          subst (λ q. Ends q p.visited p.files t) (sym (append_assoc now later p.pushed))
            (level-Ends d now (later ++ p.pushed) a.1
              (append-AtDepth host.walk_max_depth (suc d) later p.pushed b at) next p.visited
              p.files t))

  levels-Ends :
      (k d : ℕ) (m : List Entry)
      → host.walk_max_depth < d + k
      → AtDepth host.walk_max_depth d m
      → EndsAll m
  unfolding walk
  levels-Ends k d [] h a = λ visited files s. (1, λ q. cc)
  levels-Ends zero d (e ∷ m) h a = absurd (omega (arith, a.0.1))
  levels-Ends (suc k) d (e ∷ m) h a =
      subst EndsAll (append_nil (e ∷ m))
        (level-Ends d (e ∷ m) [] a tt (λ n b. levels-Ends k (suc d) n (omega arith) b))

  loop_on-more :
      (next again : Progress → Action S Bool) (r : Outcome (Option Progress)) (s : S)
      → ((p : Progress) → (next p s).0 ≢ ok false → again p s ≡ next p s)
      → (loop_on host visit next r s).0 ≢ ok false
      → loop_on host visit again r s ≡ loop_on host visit next r s
  loop_on-more next again (err x) s h k = refl
  loop_on-more next again (ok none) s h k = refl
  loop_on-more next again (ok (some p)) s h k = h p k

  -- More fuel changes nothing where the fuel was enough.
  walk-more :
      (fuel more : ℕ) (queue : List Entry) (visited : List String) (files : ℕ) (s : S)
      → (walk host visit fuel queue visited files s).0 ≢ ok false
      → walk host visit (add more fuel) queue visited files s
        ≡ walk host visit fuel queue visited files s
  unfolding walk
  walk-more zero more queue visited files s h = absurd (h refl)
  walk-more (suc fuel) more [] visited files s h = refl
  walk-more (suc fuel) more (e ∷ queue) visited files s h =
      let (r, t) = turn host visit e visited files s in
      loop_on-more (λ p. walk host visit fuel (queue ++ p.pushed) p.visited p.files)
        (λ p. walk host visit (add more fuel) (queue ++ p.pushed) p.visited p.files) r t
        (λ p. walk-more fuel more (queue ++ p.pushed) p.visited p.files t) h

  -- `walkFiles` ends for every executor, clock and visitor, from every state: some fuel is enough, and
  -- with any more the result is the same.
  pub walk_files-ends :
      (root : String) (s : S)
      → (fuel : ℕ) × ((walk_files host visit fuel root s).0 ≢ ok false)
        × ((more : ℕ)
            → walk_files host visit (add more fuel) root s ≡ walk_files host visit fuel root s)
  unfolding walk_files
  walk_files-ends root s =
      let queue : List Entry = record { dir = root; rel = ""; depth = 0 } ∷ [] in
      let (fuel, ends) =
        levels-Ends (suc host.walk_max_depth) 0 queue (omega arith) ((refl, omega arith), tt) [] 0
          s in
      (fuel, ends, λ more. walk-more fuel more queue [] 0 s ends)
