-- ===== src/Storage/Names/Staging.antt =====
-- services/container-mounts.ts: a staging name is one segment, and mounting never overwrites.
use sandbox_platform.Prelude.{
  ℕ, zero, suc, ◌≡◌, ◌≢◌, ◌⊎◌, refl, subst, ◌∙◌, inl, inr, Bool, true, false, none, List, [], ◌∷◌,
  ◌++◌, ◌==◌, if◌then◌else◌, take, arith, Bool-cases, delete_where-none, delete_where-append,
  count_where-none, append_nil, find_where,
}
use sandbox_platform.Action.{ok, Outcome-cases}
use sandbox_platform.Storage.Paths.{Chars, same, slash, dot, has, enter}
use sandbox_platform.Storage.Containment.{IsSegment, same_refl}
use sandbox_platform.Storage.Names.{
  is_hostile, underscore, replace_hostile, strip_dots, sanitize_mount_name, numbered, is_entry,
  exists, free_name, materialize_input, remove_staging_entry,
}

replaced-plain : (c : ℕ) → ((if is_hostile c then underscore else c) == slash) ≡ false
replaced-plain c = elim (Bool-cases (c == slash)) [
  | inl e ↦
      subst (λ d. ((if is_hostile d then underscore else d) == slash) ≡ false) (at_slash e) refl
  | inr e ↦ elim (Bool-cases (is_hostile c)) [ inl h ↦ rw h refl | inr h ↦ rw h e ]
]
  where
    at_slash : (c == slash) ≡ true → slash ≡ c
    at_slash e = ground arith

replace_hostile-plain : (s : Chars) → has slash (replace_hostile s) ≡ false
replace_hostile-plain [] = refl
replace_hostile-plain (c ∷ s) = ground (arith, replaced-plain c, replace_hostile-plain s)

strip_dots-plain : (s : Chars) → has slash s ≡ false → has slash (strip_dots s) ≡ false
strip_dots-plain [] h = refl
strip_dots-plain (c ∷ s) h = ground (arith, strip_dots-plain s)

take-plain : (n : ℕ) (s : Chars) → has slash s ≡ false → has slash (take n s) ≡ false
take-plain zero s h = refl
take-plain (suc n) [] h = refl
take-plain (suc n) (c ∷ s) h = ground (arith, take-plain n s)

-- No name begins with a dot.
abbrev starts_dot : Chars → Bool
starts_dot [] = false
starts_dot (c ∷ s) = c == dot

strip_dots-starts_dot : (s : Chars) → starts_dot (strip_dots s) ≡ false
strip_dots-starts_dot [] = refl
strip_dots-starts_dot (c ∷ s) = ground (arith, strip_dots-starts_dot s)

take-starts_dot : (n : ℕ) (s : Chars) → starts_dot s ≡ false → starts_dot (take n s) ≡ false
take-starts_dot zero s h = refl
take-starts_dot (suc n) [] h = refl
take-starts_dot (suc n) (c ∷ s) h = h

enter-name :
    (name : Chars)
    → has slash name ≡ false
    → starts_dot name ≡ false
    → (name ≡ []) ⊎ (IsSegment name × ((path : List Chars) → enter path name ≡ path ++ name ∷ []))
unfolding enter
enter-name [] h k = inl refl
enter-name (c ∷ s) h k =
    inr (record { full = λ e. absurd (ground arith); plain = h }, λ path. ground arith)

-- A name that sanitizeMountName leaves is empty, or one segment that path.join puts right under any
-- directory: it has no slash, and is neither "." nor "..".
pub sanitize_mount_name-IsSegment :
    (name : Chars)
    → (sanitize_mount_name name ≡ [])
      ⊎ (IsSegment (sanitize_mount_name name)
          × ((path : List Chars)
              → enter path (sanitize_mount_name name) ≡ path ++ sanitize_mount_name name ∷ []))
unfolding sanitize_mount_name
sanitize_mount_name-IsSegment name =
    let s = strip_dots (replace_hostile name) in
    enter-name (take 120 s)
      (take-plain 120 s (strip_dots-plain (replace_hostile name) (replace_hostile-plain name)))
      (take-starts_dot 120 s (strip_dots-starts_dot (replace_hostile name)))

not_empty : (s : Chars) → s ≢ [] → same s [] ≡ false
not_empty [] h = absurd (h refl)
not_empty (c ∷ s) h = refl

module _ {C : Type 0} (decimal : ℕ → Chars) where
  -- A name that is found is not in use.
  free_name-unused :
      (name : Chars) (rounds i : ℕ) (candidate : Chars) (entries : List (Chars × C))
      (chosen : Chars)
      → free_name decimal name rounds i candidate entries ≡ ok chosen
      → exists chosen entries ≡ false
  unfolding free_name
  free_name-unused name zero i candidate entries chosen e = ground arith
  free_name-unused name (suc rounds) i candidate entries chosen e =
      ground (arith, free_name-unused name rounds (suc i) (numbered decimal name i) entries chosen)

  absent :
      (chosen : Chars) (entries : List (Chars × C))
      → exists chosen entries ≡ false
      → find_where (is_entry chosen) entries ≡ none
  absent chosen entries e = ground arith

  -- What materializeInput adds stands under a name that was free.
  materialize_input-cases :
      (item : C) (name : Chars) (entries : List (Chars × C)) (chosen : Chars)
      → (materialize_input decimal item name entries).0 ≡ ok chosen
      → ((materialize_input decimal item name entries).1 ≡ entries ++ (chosen, item) ∷ [])
        × (find_where (is_entry chosen) entries ≡ none)
  unfolding materialize_input
  materialize_input-cases item name entries chosen e =
      elim (Outcome-cases (free_name decimal name 64 1 name entries)) [
        | inl (c, f) ↦
            let free = free_name-unused name 64 1 name entries chosen in
            (ground arith, absent chosen entries (ground (arith, free)))
        | inr (x, f) ↦ absurd (ground arith)
      ]

  -- An item that materializeInput put into the staging directory, whatever is in it, is what
  -- removeStagingEntry takes out by the name that was returned, and the rest is as it was, where that
  -- name is not changed by sanitizing it once more.
  pub materialize-remove :
      (item : C) (name : Chars) (entries : List (Chars × C)) (chosen : Chars)
      → (materialize_input decimal item name entries).0 ≡ ok chosen
      → sanitize_mount_name chosen ≡ chosen
      → chosen ≢ []
      → remove_staging_entry chosen ((materialize_input decimal item name entries).1) ≡ entries
  unfolding remove_staging_entry
  materialize-remove item name entries chosen e clean full =
      let m = materialize_input-cases item name entries chosen e in
      rw (clean, m.0, not_empty chosen full)
        (delete_where-append (is_entry chosen) entries ((chosen, item) ∷ [])
          ∙ rw
              (
                same_refl chosen,
                delete_where-none (is_entry chosen) entries
                    (count_where-none (is_entry chosen) entries m.1),
              )
              (append_nil entries))
