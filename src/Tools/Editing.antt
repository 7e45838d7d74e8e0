-- ===== src/Tools/Editing.antt =====
-- What an edit writes.
use sandbox_platform.Prelude.{
  ◌≡◌, ◌≢◌, ◌⊎◌, inl, inr, refl, ap, sym, subst, arith, String, true, false, none, some, [], ◌∷◌,
  ◌++◌, ◌==◌, All, length, drop, Bool-cases, Option-cases,
}
use sandbox_platform.Action.{ok}
use sandbox_platform.Containers.Host.{ContainerHandle}
use sandbox_platform.Storage.Paths.{Chars, begins}
use sandbox_platform.Tools.Truncate.{Bytes}
use sandbox_platform.Tools.Files.{
  ToolHost, split_first, dollar, expand, read_capped, updated, edit_file,
}

begins-drop : (s t : Chars) → begins s t ≡ true → s ≡ t ++ drop (length t) s
begins-drop s [] e = refl
begins-drop [] (d ∷ t) e = cc
begins-drop (c ∷ s) (d ∷ t) e = ground (arith, begins-drop s t)

begins_append : (t q : Chars) → begins (t ++ q) t ≡ true
begins_append [] q = refl
begins_append (c ∷ t) q = ground (arith, begins_append t q)

-- Where a text is split, it is put together again from the parts and the text between.
pub split_first-join :
    (old s before after : Chars)
    → split_first old s ≡ some (before, after)
    → s ≡ before ++ (old ++ after)
unfolding split_first
split_first-join [] [] before after e = ground arith
split_first-join (o ∷ old) [] before after e = absurd (ground arith)
split_first-join old (c ∷ s) before after e = elim (Bool-cases (begins (c ∷ s) old)) [
  | inl here ↦ ground (arith, begins-drop (c ∷ s) old here)
  | inr later ↦ elim (Option-cases (split_first old s)) [
    | inl none_left ↦ absurd (ground arith)
    | inr ((p, q), found) ↦ ground (arith, split_first-join old s p q found)
  ]
]

pub split_first-absent :
    (old s : Chars)
    → split_first old s ≡ none
    → (before after : Chars) → s ≢ before ++ (old ++ after)
unfolding split_first
split_first-absent old [] e [] after = λ h.
    let here : begins [] old ≡ true =
      subst (λ x. begins x old ≡ true) (sym h) (begins_append old after) in
    ground arith
split_first-absent old [] e (b ∷ before) after = λ h. cc
split_first-absent old (c ∷ s) e [] after = λ h.
    let here : begins (c ∷ s) old ≡ true =
      subst (λ x. begins x old ≡ true) (sym h) (begins_append old after) in
    ground arith
split_first-absent old (c ∷ s) e (b ∷ before) after = λ h. elim (Option-cases (split_first old s)) [
  | inl left ↦ split_first-absent old s left before after (ground arith)
  | inr ((p, q), found) ↦ ground arith
]

abbrev pub HasNoDollar : Chars → Type 0
HasNoDollar s = All (λ c. (c == dollar) ≡ false) s

expand-plain : (before old after s : Chars) → HasNoDollar s → expand before old after s ≡ s
unfolding expand
expand-plain before old after [] h = refl
expand-plain before old after (c ∷ []) h = refl
expand-plain before old after (c ∷ d ∷ s) h =
    ground (arith, h.0, expand-plain before old after (d ∷ s) h.1)

module _ {R : Type 0} (tools : ToolHost R) where
  -- For a file that can be read within the cap: where its text does not contain the old text, `edit`
  -- says so and the world is as the reading left it; where it does, what is written is the text with
  -- the expanded new text in place of an occurrence, which is the new text itself where that has no dollar.
  pub edit_file-writes :
      (handle : ContainerHandle) (path : String) (old new : Chars) (s t : R) (buf : Bytes)
      → read_capped tools handle path s ≡ (ok buf, t)
      → let current = tools.decode buf in
        (((before after : Chars) → current ≢ before ++ (old ++ after))
          × (edit_file tools handle path old new s
              ≡ (ok (record { applied = false; size = length current }), t)))
        ⊎ ((before : Chars) × (after : Chars) × (current ≡ before ++ (old ++ after))
            × (HasNoDollar new → updated tools before old new after ≡ before ++ (new ++ after))
            × ((edit_file tools handle path old new s).1
                ≡ (tools.write_file handle path
                    (tools.encode (updated tools before old new after))
                    t).1))
  unfolding edit_file
  edit_file-writes handle path old new s t buf got =
      let current = tools.decode buf in
      elim (Option-cases (split_first old current)) [
        | inl absent ↦ inl (split_first-absent old current absent, ground arith)
        | inr ((before, after), found) ↦ inr (
          before,
          after,
          split_first-join old current before after found,
          λ plain. ap (λ x. before ++ (x ++ after)) (expand-plain before old after new plain),
          ground arith,
        )
      ]
