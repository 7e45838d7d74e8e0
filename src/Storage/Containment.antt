-- ===== src/Storage/Containment.antt =====
-- services/workspace-storage.ts resolveInWorkspace: the test on the texts is the test on the paths.
use sandbox_platform.Prelude.{
  ℕ, ◌≡◌, ◌≢◌, refl, sym, subst, inl, inr, Bool, true, false, not, ◌&&◌, ◌||◌, List, [], ◌∷◌, ◌++◌,
  ◌==◌, if◌then◌else◌, arith, All, All-append, Bool-cases,
}
use sandbox_platform.Action.{Outcome, ok, err, bad_request}
use sandbox_platform.Storage.Paths.{
  Chars, slash, dot, same, begins, ends_in_slash, has, strip_slashes, push_head, split_slash, text,
  parent, enter, enter_all, resolve, escapes, resolve_in_workspace,
}

-- A segment: not empty, and without a slash.
pub record IsSegment (s : Chars) : Type 0 where
  pub full : s ≢ []
  pub plain : has slash s ≡ false

-- Whether a path is that of `root` or of something under it, segment by segment.
abbrev pub is_within : List Chars → List Chars → Bool
is_within [] path = true
is_within (r ∷ root) [] = false
is_within (r ∷ root) (s ∷ path) = same s r && is_within root path

-- The test of the code on two texts.
abbrev reaches : Chars → Chars → Bool
reaches s t = same s t || begins s (t ++ slash ∷ [])

-- Up to the first slash the two texts agree as their first segments do.
reaches-segment :
    (a b : Chars) (p q : List Chars)
    → has slash a ≡ false
    → has slash b ≡ false
    → reaches (a ++ text p) (b ++ text q) ≡ (same a b && reaches (text p) (text q))
reaches-segment [] [] p q h k = refl
reaches-segment [] (d ∷ b) [] q h k = refl
reaches-segment [] (d ∷ b) (s ∷ p) q h k = ground arith
reaches-segment (c ∷ a) [] p [] h k = ground arith
reaches-segment (c ∷ a) [] p (s ∷ q) h k = ground arith
reaches-segment (c ∷ a) (d ∷ b) p q h k = ground (arith, reaches-segment a b p q)

reaches-text :
    (path root : List Chars)
    → All IsSegment path
    → All IsSegment root
    → reaches (text path) (text root) ≡ is_within root path
reaches-text [] [] h k = refl
reaches-text (s ∷ path) [] h k = refl
reaches-text [] (r ∷ root) h k = refl
reaches-text (s ∷ path) (r ∷ root) h k =
    ground
      (arith, reaches-segment s r path root h.0.plain k.0.plain, reaches-text path root h.1 k.1)

ends_in_slash-segment :
    (c : ℕ) (s : Chars) (path : List Chars)
    → has slash (c ∷ s) ≡ false
    → ends_in_slash (text path) ≡ false
    → ends_in_slash (c ∷ s ++ text path) ≡ false
ends_in_slash-segment c [] [] h k = ground arith
ends_in_slash-segment c [] (t ∷ path) h k = ground arith
ends_in_slash-segment c (d ∷ s) path h k = ground (arith, ends_in_slash-segment d s path)

ends_in_slash-text : (path : List Chars) → All IsSegment path → ends_in_slash (text path) ≡ false
ends_in_slash-text [] h = refl
ends_in_slash-text ([] ∷ path) h = absurd (h.0.full refl)
ends_in_slash-text ((c ∷ s) ∷ path) h =
    ends_in_slash-segment c s path h.0.plain (ends_in_slash-text path h.1)

abbrev IsPlain : Chars → Type 0
IsPlain s = has slash s ≡ false

push_head-IsPlain :
    (c : ℕ) (parts : List Chars)
    → (c == slash) ≡ false
    → All IsPlain parts
    → All IsPlain (push_head c parts)
push_head-IsPlain c [] e h = (ground arith, tt)
push_head-IsPlain c (s ∷ parts) e h = (ground (arith, h.0), h.1)

split_slash-IsPlain : (s : Chars) → All IsPlain (split_slash s)
split_slash-IsPlain [] = (refl, tt)
split_slash-IsPlain (c ∷ s) = elim (Bool-cases (c == slash)) [
  | inl e ↦ rw e (refl, split_slash-IsPlain s)
  | inr e ↦ rw e (push_head-IsPlain c (split_slash s) e (split_slash-IsPlain s))
]

parent-IsSegment : (path : List Chars) → All IsSegment path → All IsSegment (parent path)
parent-IsSegment [] h = tt
parent-IsSegment (s ∷ []) h = tt
parent-IsSegment (s ∷ t ∷ path) h = (h.0, parent-IsSegment (t ∷ path) h.1)

enter-IsSegment :
    (path : List Chars) (s : Chars) → IsPlain s → All IsSegment path → All IsSegment (enter path s)
unfolding enter
enter-IsSegment path s plain h = elim (Bool-cases (same s [] || same s (dot ∷ []))) [
  | inl e ↦ rw e h
  | inr e ↦ rw e (elim (Bool-cases (same s (dot ∷ dot ∷ []))) [
    | inl f ↦ rw f (parent-IsSegment path h)
    | inr f ↦ rw f (
        All-append IsSegment path (s ∷ []) h
          (record { full = λ k. absurd (full e k); plain = plain }, tt))
  ])
]
  where
    full : (same s [] || same s (dot ∷ [])) ≡ false → s ≢ []
    full e k = ground (arith, k)

enter_all-IsSegment :
    (path parts : List Chars)
    → All IsPlain parts
    → All IsSegment path
    → All IsSegment (enter_all path parts)
enter_all-IsSegment path [] h k = k
enter_all-IsSegment path (s ∷ parts) h k =
    enter_all-IsSegment (enter path s) parts h.1 (enter-IsSegment path s h.0 k)

-- The test of the code: the path leaves the root exactly if it does not lie within it.
escapes-is_within :
    (root abs : List Chars)
    → All IsSegment root
    → All IsSegment abs
    → escapes root abs ≡ not (is_within root abs)
unfolding escapes
escapes-is_within [] [] h k = refl
escapes-is_within [] (s ∷ abs) h k = ground arith
escapes-is_within ([] ∷ root) [] h k = absurd (h.0.full refl)
escapes-is_within ((c ∷ r) ∷ root) [] h k = ground (arith, ends_in_slash-text ((c ∷ r) ∷ root) h)
escapes-is_within (r ∷ root) (s ∷ abs) h k =
    ground (arith, ends_in_slash-text (r ∷ root) h, reaches-text (s ∷ abs) (r ∷ root) k h)

pub same_refl : (s : Chars) → same s s ≡ true
same_refl [] = refl
same_refl (c ∷ s) = ground (arith, same_refl s)

pub same_sound : (s t : Chars) → same s t ≡ true → s ≡ t
same_sound [] [] e = refl
same_sound [] (d ∷ t) e = absurd (ground arith)
same_sound (c ∷ s) [] e = absurd (ground arith)
same_sound (c ∷ s) (d ∷ t) e = ground (arith, same_sound s t)

is_within_refl : (root : List Chars) → is_within root root ≡ true
is_within_refl [] = refl
is_within_refl (r ∷ root) = ground (arith, same_refl r, is_within_refl root)

-- The reference: the path that node:path resolves, where it has no NUL and lies within the root.
abbrev pub contained : List Chars → Chars → Outcome (List Chars)
contained root cleaned =
    if has 0 cleaned || not (is_within root (resolve root cleaned))
    then err bad_request
    else ok (resolve root cleaned)

contained-root :
    (root : List Chars) (cleaned : Chars)
    → (same cleaned [] || same cleaned (dot ∷ [])) ≡ true
    → contained root cleaned ≡ ok root
unfolding resolve enter
contained-root root [] e = rw (is_within_refl root) refl
contained-root root (c ∷ s) e =
    subst (λ t. contained root t ≡ ok root) (sym (same_sound (c ∷ s) (dot ∷ []) e))
      (rw (is_within_refl root) refl)

resolve-IsSegment :
    (root : List Chars) (cleaned : Chars)
    → All IsSegment root
    → All IsSegment (resolve root cleaned)
unfolding resolve
resolve-IsSegment root cleaned h =
    enter_all-IsSegment root (split_slash cleaned) (split_slash-IsPlain cleaned) h

-- For a root of proper segments and any path that a client sends, resolveInWorkspace gives what the
-- path resolves to if that is the root or lies under it, segment by segment, and has no NUL, and
-- throws BAD_REQUEST otherwise: its test on the texts neither admits a path outside, such as that of
-- a directory whose name begins like the root's, nor refuses one within.
pub resolve_in_workspace-contained :
    (root : List Chars) (rel : Chars)
    → All IsSegment root
    → resolve_in_workspace root rel ≡ contained root (strip_slashes rel)
unfolding resolve_in_workspace
resolve_in_workspace-contained root rel h =
    elim (Bool-cases (same (strip_slashes rel) [] || same (strip_slashes rel) (dot ∷ []))) [
      | inl e ↦ ground (arith, contained-root root (strip_slashes rel) e)
      | inr e ↦ ground (
        arith,
        escapes-is_within root (resolve root (strip_slashes rel)) h
            (resolve-IsSegment root (strip_slashes rel) h),
      )
    ]
