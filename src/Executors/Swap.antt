-- ===== src/Executors/Swap.antt =====
-- The swap of an overlay in `restore` loses no data, whatever fails in it.
use sandbox_platform.Prelude.{
  Bool, false, Option, none, append_assoc, ℕ, ◌≡◌, ◌≢◌, ◌⊎◌, inl, inr, refl, sym, ap, arith, [],
  ◌∷◌, ◌++◌, ◌∙◌,
}
use sandbox_platform.Action.{Outcome, ok, err, AppError, Action, ◌>>◌, pure, throw, catch, failure}
use sandbox_platform.Storage.Paths.{Chars, chars, begins, slash}
use sandbox_platform.Executors.Apptainer.{
  ApptainerHost, tmp_of, old_of, sparse_copy, copy_and_swap, try_swap, swap_overlay,
}

-- A path that is under another one.
abbrev pub is_under : Chars → Chars → Bool
is_under p q = begins q (p ++ slash ∷ [])

-- Neither path is the other, or under it: what is done at one leaves the other's tree alone.
abbrev pub Apart : Chars → Chars → Type 0
Apart p q = (p ≢ q) × (is_under p q ≡ false) × (is_under q p ≡ false)

Apart-sym : (p q : Chars) → Apart p q → Apart q p
Apart-sym p q a = (λ e. a.0 (sym e), a.2, a.1)

longer_lem : (s : Chars) (c : ℕ) (t : Chars) → s ++ c ∷ t ≢ s
longer_lem [] c t e = cc
longer_lem (d ∷ s) c t e = longer_lem s c t (ground arith)

append_cancel : (s t u : Chars) → s ++ t ≡ s ++ u → t ≡ u
append_cancel [] t u e = e
append_cancel (d ∷ s) t u e = append_cancel s t u (ground arith)

begins-append : (s t u : Chars) → begins (s ++ t) (s ++ u) ≡ begins t u
begins-append [] t u = refl
begins-append (d ∷ s) t u = ground (arith, begins-append s t u)

begins_longer : (s : Chars) (c : ℕ) (t : Chars) → begins s (s ++ c ∷ t) ≡ false
begins_longer [] c t = refl
begins_longer (d ∷ s) c t = ground (arith, begins_longer s c t)

-- What is not under a path whose name goes on.
begins_further : (s t u v : Chars) → begins (s ++ t) ((s ++ u) ++ v) ≡ begins t (u ++ v)
begins_further [] t u v = refl
begins_further (d ∷ s) t u v = ground (arith, begins_further s t u v)

tmp-Apart : (overlay : Chars) → Apart (tmp_of overlay) overlay
tmp-Apart overlay = (
  longer_lem overlay _ _,
  rw (append_assoc overlay (chars ".restore-tmp") (slash ∷ [])) (begins_longer overlay _ _),
  begins-append overlay (chars ".restore-tmp") (slash ∷ []),
)

old-Apart : (overlay : Chars) → Apart (old_of overlay) overlay
old-Apart overlay = (
  longer_lem overlay _ _,
  rw (append_assoc overlay (chars ".restore-old") (slash ∷ [])) (begins_longer overlay _ _),
  begins-append overlay (chars ".restore-old") (slash ∷ []),
)

tmp_old-Apart : (overlay : Chars) → Apart (tmp_of overlay) (old_of overlay)
tmp_old-Apart overlay = (
  λ e. ground (
    arith,
    ap (λ x. begins x (chars ".restore-t"))
        (append_cancel overlay (chars ".restore-tmp") (chars ".restore-old") e),
  ),
  begins_further overlay (chars ".restore-old") (chars ".restore-tmp") (slash ∷ []),
  begins_further overlay (chars ".restore-tmp") (chars ".restore-old") (slash ∷ []),
)

-- What the file system does: `content` is the tree that stands at a path, if there is one.
-- `rm -r` of a path touches that tree alone, and where it succeeds nothing stands there. `cp -a` touches the
-- tree of its target alone, and where it succeeds onto a path at which nothing stood, the target is a copy;
-- onto a directory it would copy into it, of which nothing is said. A rename that succeeds moves the tree,
-- and leaves nothing behind; one that fails, as onto a directory that is not empty, does nothing.
pub record Disk {R : Type 0} (host : ApptainerHost R) (X : Type 0) (content : Chars → R → Option X)
    : Type 0 where
  pub removing : (p q : Chars) (s : R) → Apart p q → content q (host.remove p s).1 ≡ content q s
  pub removed : (p : Chars) (s t : R) → host.remove p s ≡ (ok tt, t) → content p t ≡ none
  pub copying :
      (from to q : Chars) (s : R)
      → Apart to q
      → content q (host.run_util (sparse_copy from to) s).1 ≡ content q s
  pub copied :
      (from to : Chars) (s t : R)
      → Apart to from
      → content to s ≡ none
      → host.run_util (sparse_copy from to) s ≡ (ok tt, t)
      → content to t ≡ content from s
  pub moving :
      (from to q : Chars) (s : R)
      → Apart from q
      → Apart to q
      → content q (host.rename from to s).1 ≡ content q s
  pub moved :
      (from to : Chars) (s t : R)
      → Apart from to
      → host.rename from to s ≡ (ok tt, t)
      → (content to t ≡ content from s) × (content from t ≡ none)
  pub unmoved :
      (from to q : Chars) (s t : R) (e : AppError)
      → host.rename from to s ≡ (err e, t)
      → content q t ≡ content q s

module _ {R X : Type 0} (host : ApptainerHost R) (content : Chars → R → Option X)
    (disk : Disk host X content) where
  -- What is where after the swap, for what was at the overlay and at the snapshot before: where it
  -- succeeds, nothing stale is left beside the overlay either.
  abbrev pub IsSafe : Chars → Option X → Option X → Outcome (Unit {0}) × R → Type 0
  IsSafe overlay before new (ok u, t) =
      (content overlay t ≡ new)
      × (content (tmp_of overlay) t ≡ none)
      × ((content (old_of overlay) t ≡ before) ⊎ (content (old_of overlay) t ≡ none))
  IsSafe overlay before new (err e, t) =
      (content overlay t ≡ before) ⊎ (content (old_of overlay) t ≡ before)

  -- The former overlay was moved aside, or is where it was with nothing aside; and the copy is made.
  abbrev Ready : Chars → Option X → Option X → R → Type 0
  Ready overlay before new t =
      ((content (old_of overlay) t ≡ before)
        ⊎ ((content overlay t ≡ before) × (content (old_of overlay) t ≡ none)))
      × (content (tmp_of overlay) t ≡ new)

  last-IsSafe :
      (overlay : Chars) (before new : Option X) (t : R)
      → Ready overlay before new t
      → IsSafe overlay before new (host.rename (tmp_of overlay) overlay t)
  last-IsSafe overlay before new t (kept, ready) =
      let v = (host.rename (tmp_of overlay) overlay t).1 in
      let aside =
        disk.moving (tmp_of overlay) overlay (old_of overlay) t (tmp_old-Apart overlay)
          (Apart-sym (old_of overlay) overlay (old-Apart overlay)) in
      elim (host.rename (tmp_of overlay) overlay t).0
          as (λ x.
            host.rename (tmp_of overlay) overlay t ≡ (x, v) → IsSafe overlay before new (x, v)) [
              | ok u ↦ λ e.
                  let m = disk.moved (tmp_of overlay) overlay t v (tmp-Apart overlay) e in
                  (
                    m.0 ∙ ready,
                    m.1,
                    elim kept [
                      | inl there ↦ inl (aside ∙ there)
                      | inr (here, gone) ↦ inr (aside ∙ gone)
                    ],
                  )
              | err x ↦ λ e. elim kept [
                | inl there ↦ inr (aside ∙ there)
                | inr (here, gone) ↦
                    inl (disk.unmoved (tmp_of overlay) overlay overlay t v x e ∙ here)
              ]
            ]
        refl

  swap-IsSafe :
      (overlay : Chars) (before new : Option X) (t : R)
      → content overlay t ≡ before
      → content (old_of overlay) t ≡ none
      → content (tmp_of overlay) t ≡ new
      → IsSafe overlay before new (
          (catch (host.rename overlay (old_of overlay)) (λ e. pure tt)
              >> host.rename (tmp_of overlay) overlay)
            t)
  swap-IsSafe overlay before new t here gone ready =
      let o = Apart-sym (old_of overlay) overlay (old-Apart overlay) in
      let beside =
        disk.moving overlay (old_of overlay) (tmp_of overlay) t
          (Apart-sym (tmp_of overlay) overlay (tmp-Apart overlay))
          (Apart-sym (tmp_of overlay) (old_of overlay) (tmp_old-Apart overlay))
        ∙ ready in
      let v = (host.rename overlay (old_of overlay) t).1 in
      elim (host.rename overlay (old_of overlay) t).0
          as (λ x.
            host.rename overlay (old_of overlay) t ≡ (x, v)
            → IsSafe overlay before new
                ((catch (λ _. (x, v)) (λ e. pure tt) >> host.rename (tmp_of overlay) overlay) t)) [
                  | ok u ↦ λ e.
                      last-IsSafe overlay before new v
                        (inl ((disk.moved overlay (old_of overlay) t v o e).0 ∙ here), beside)
                  | err x ↦ λ e. last-IsSafe overlay before new v (
                    inr (
                      disk.unmoved overlay (old_of overlay) overlay t v x e ∙ here,
                      disk.unmoved overlay (old_of overlay) (old_of overlay) t v x e ∙ gone,
                    ),
                    beside,
                  )
                ]
        refl

  copy-IsSafe :
      (from overlay : Chars) (before new : Option X) (t : R)
      → Apart (tmp_of overlay) from
      → content overlay t ≡ before
      → content (old_of overlay) t ≡ none
      → content (tmp_of overlay) t ≡ none
      → content from t ≡ new
      → IsSafe overlay before new (copy_and_swap host from overlay t)
  copy-IsSafe from overlay before new t apart here gone free source =
      let kept = disk.copying from (tmp_of overlay) overlay t (tmp-Apart overlay) ∙ here in
      let aside =
        disk.copying from (tmp_of overlay) (old_of overlay) t (tmp_old-Apart overlay) ∙ gone in
      let v = (host.run_util (sparse_copy from (tmp_of overlay)) t).1 in
      elim (host.run_util (sparse_copy from (tmp_of overlay)) t).0
          as (λ x.
            host.run_util (sparse_copy from (tmp_of overlay)) t ≡ (x, v)
            → IsSafe overlay before new (
                ((λ _. (x, v))
                    >> (catch (host.rename overlay (old_of overlay)) (λ e. pure tt)
                        >> host.rename (tmp_of overlay) overlay))
                  t)) [
                    | ok u ↦ λ e.
                        swap-IsSafe overlay before new v kept aside
                          (disk.copied from (tmp_of overlay) t v apart free e ∙ source)
                    | err x ↦ λ e. inl kept
                  ]
        refl

  -- The error of a failure gets another message.
  renamed-IsSafe :
      (overlay : Chars) (before new : Option X) (e : AppError) (m : Action R (Unit {0})) (t : R)
      → IsSafe overlay before new (m t)
      → IsSafe overlay before new (catch m (λ x. throw e) t)
  renamed-IsSafe overlay before new e m t =
      elim (m t).0
        as (λ x.
          IsSafe overlay before new (x, (m t).1)
          → IsSafe overlay before new (catch (λ _. (x, (m t).1)) (λ x. throw e) t)) [
            | ok u ↦ λ safe. safe
            | err x ↦ λ safe. safe
          ]

  -- A removal that fails ends the swap with the overlay as it was; after one that succeeds nothing is there.
  removal-IsSafe :
      (overlay : Chars) (before new : Option X) (p : Chars) (m : Action R (Unit {0})) (t : R)
      → content overlay (host.remove p t).1 ≡ before
      → (content p (host.remove p t).1 ≡ none → IsSafe overlay before new (m (host.remove p t).1))
      → IsSafe overlay before new ((host.remove p >> m) t)
  removal-IsSafe overlay before new p m t kept on =
      let v = (host.remove p t).1 in
      elim (host.remove p t).0
          as (λ x. host.remove p t ≡ (x, v) → IsSafe overlay before new (((λ _. (x, v)) >> m) t)) [
            | ok u ↦ λ e. on (disk.removed p t v e)
            | err x ↦ λ e. inl kept
          ]
        refl

  -- On a file system that does what `Disk` says, for a snapshot apart from the two paths beside the overlay: where the swap succeeds, the overlay is the
  -- snapshot's copy, nothing is left at the first of them, and at the second there is the former overlay
  -- or nothing; where it fails, at whatever step, the former overlay is where it was, or at the
  -- second path, which the error names.
  pub swap_overlay-IsSafe :
      (from overlay : Chars) (s : R)
      → Apart (tmp_of overlay) from
      → Apart (old_of overlay) from
      → IsSafe overlay (content overlay s) (content from s) (swap_overlay host from overlay s)
  unfolding swap_overlay
  swap_overlay-IsSafe from overlay s ft fo =
      let before = content overlay s in
      let new = content from s in
      let t = (host.remove (tmp_of overlay) s).1 in
      let u = (host.remove (old_of overlay) t).1 in
      let first = disk.removing (tmp_of overlay) overlay s (tmp-Apart overlay) in
      let second = disk.removing (old_of overlay) overlay t (old-Apart overlay) ∙ first in
      let source =
        disk.removing (old_of overlay) from t fo ∙ disk.removing (tmp_of overlay) from s ft in
      let still =
        disk.removing (old_of overlay) (tmp_of overlay) t
          (Apart-sym (tmp_of overlay) (old_of overlay) (tmp_old-Apart overlay)) in
      removal-IsSafe overlay before new (tmp_of overlay)
        (host.remove (old_of overlay) >> try_swap host from overlay) s first
        (λ free.
          removal-IsSafe overlay before new (old_of overlay) (try_swap host from overlay) t second
            (λ gone.
              renamed-IsSafe overlay before new (failure "snapshot copy failed")
                (copy_and_swap host from overlay) u
                (copy-IsSafe from overlay before new u ft second gone (still ∙ free) source)))
