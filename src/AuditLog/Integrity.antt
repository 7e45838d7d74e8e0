-- ===== src/AuditLog/Integrity.antt =====
-- services/log.service.ts: the chain of hashes over the audit log, under records and purges.
use sandbox_platform.Prelude.{
  ℕ, ◌≤◌, ◌≡◌, ◌⊎◌, inl, inr, refl, ap, true, false, none, some, or_else, is_some, List, [], ◌∷◌,
  ◌++◌, String, arith, if◌then◌else◌, find_last_where, update_where, Bool-cases, ◌==◌,
}
use Prim.Native.String.{◌++◌ as ◌<>◌}
use sandbox_platform.Db.{Db}
use sandbox_platform.Db.Rows.{LogEntry, LogRow}
use sandbox_platform.AuditLog.{
  Hashing, is_live, last_hash, new_log, Dialect, purge_bound, is_purgeable, mark_purged,
  purge_audit_logs,
}

module _ (hashing : Hashing) where
  -- The hash of a row is that of the hash before it and of what it says.
  abbrev pub IsHashed : LogRow → Type 0
  IsHashed r = r.hash ≡ some (hashing.digest (or_else r.prev_hash "" <> hashing.canonical r.entry))

  -- A row goes on from the one before it; where that one is purged it may also start a new chain.
  pub record Follows (p r : LogRow) : Type 0 where
    pub link : (r.prev_hash ≡ p.hash) ⊎ ((is_some p.purged_at ≡ true) × (r.prev_hash ≡ some ""))
    pub later : p.created_at ≤ r.created_at
    pub purged_first : is_some p.purged_at ≡ false → is_some r.purged_at ≡ false

  abbrev pub ChainFrom : LogRow → List LogRow → Type 0
  ChainFrom p [] = Unit
  ChainFrom p (r ∷ rs) = IsHashed r × Follows p r × ChainFrom r rs

  abbrev pub last_from : LogRow → List LogRow → LogRow
  last_from p [] = p
  last_from p (r ∷ rs) = last_from r rs

  abbrev pub ChainOf : ℕ → List LogRow → Type 0
  ChainOf now [] = Unit
  ChainOf now (r ∷ rs) =
      (r.prev_hash ≡ some "") × IsHashed r × ChainFrom r rs × ((last_from r rs).created_at ≤ now)

  -- The log is one chain, in the order of its rows.
  abbrev pub IsIntact : Db → Type 0
  IsIntact db = ChainOf db.clock db.operation_logs.rows

  last-IsHashed :
      (p : LogRow) (rs : List LogRow) → IsHashed p → ChainFrom p rs → IsHashed (last_from p rs)
  last-IsHashed p [] h c = h
  last-IsHashed p (r ∷ rs) h c = last-IsHashed r rs c.0 c.2

  last-purged :
      (p : LogRow) (rs : List LogRow)
      → ChainFrom p rs
      → is_some ((last_from p rs).purged_at) ≡ true
      → is_some p.purged_at ≡ true
  last-purged p [] c e = e
  last-purged p (r ∷ rs) c e = ground (arith, last-purged r rs c.2 e, c.1.purged_first)

  -- The newest row that is not purged is the last row, or there is none.
  newest-last :
      (p : LogRow) (rs : List LogRow)
      → IsHashed p
      → ChainFrom p rs
      → find_last_where is_live (p ∷ rs)
        ≡ (if is_some ((last_from p rs).purged_at) then none else some (last_from p rs))
  newest-last p [] h c = ground (arith, h)
  newest-last p (r ∷ rs) h c = ground (arith, newest-last r rs c.0 c.2, h, last-purged p (r ∷ rs) c)

  append-ChainFrom :
      (p : LogRow) (rs : List LogRow) (x : LogRow)
      → ChainFrom p rs
      → IsHashed x
      → Follows (last_from p rs) x
      → ChainFrom p (rs ++ x ∷ [])
  append-ChainFrom p [] x c h f = (h, f, tt)
  append-ChainFrom p (r ∷ rs) x c h f = (c.0, c.1, append-ChainFrom r rs x c.2 h f)

  last-append : (p : LogRow) (rs : List LogRow) (x : LogRow) → last_from p (rs ++ x ∷ []) ≡ x
  last-append p [] x = refl
  last-append p (r ∷ rs) x = last-append r rs x

  pub new-IsHashed :
      (entry : LogEntry) (prev : String) (now id : ℕ) → IsHashed (new_log hashing entry prev now id)
  unfolding new_log
  new-IsHashed entry prev now id = refl

  -- A hash that a row may go on from: that of the last row, or the empty one where there is none or
  -- that row is purged.
  abbrev pub Links : List LogRow → String → Type 0
  Links [] prev = prev ≡ ""
  Links (r ∷ rs) prev =
      (some prev ≡ (last_from r rs).hash)
      ⊎ ((is_some ((last_from r rs).purged_at) ≡ true) × (prev ≡ ""))

  pub last_hash-Links :
      (now : ℕ) (rows : List LogRow) → ChainOf now rows → Links rows (last_hash rows)
  last_hash-Links now [] c = refl
  last_hash-Links now (r ∷ rs) c =
      ground (arith, newest-last r rs c.1 c.2, last-IsHashed r rs c.1 c.2)

  -- A row with such a hash goes on from the last one, or starts a chain where that one is purged.
  pub insert-ChainOf :
      (now : ℕ) (rows : List LogRow) (entry : LogEntry) (prev : String) (id : ℕ)
      → Links rows prev
      → ChainOf now rows
      → ChainOf now (rows ++ new_log hashing entry prev now id ∷ [])
  unfolding new_log
  insert-ChainOf now [] entry prev id l c = (ap some l, refl, tt, omega arith)
  insert-ChainOf now (r ∷ rs) entry prev id l c = (
    c.0,
    c.1,
    append-ChainFrom r rs x c.2 (new-IsHashed entry prev now id) follows,
    rw (last-append r rs x) (omega arith),
  )
    where
      x : LogRow
      x = new_log hashing entry prev now id

      follows : Follows (last_from r rs) x
      follows = record { link = ground (arith, l); later = c.3; purged_first = λ e. refl }

  purge-Follows :
      (bound now : ℕ) (p r : LogRow)
      → Follows p r
      → Follows
          (if is_purgeable bound p then mark_purged now p else p)
          (if is_purgeable bound r then mark_purged now r else r)
  purge-Follows bound now p r f = record {
    link = ground (arith, f.link);
    later = ground (arith, f.later);
    purged_first = ground (arith, f.later, f.purged_first);
  }

  purge-ChainFrom :
      (bound now : ℕ) (p : LogRow) (rs : List LogRow)
      → ChainFrom p rs
      → ChainFrom
          (if is_purgeable bound p then mark_purged now p else p)
          (update_where (is_purgeable bound) (mark_purged now) rs)
  purge-ChainFrom bound now p [] c = tt
  purge-ChainFrom bound now p (r ∷ rs) c =
      (ground (arith, c.0), purge-Follows bound now p r c.1, purge-ChainFrom bound now r rs c.2)

  last-purge :
      (bound now : ℕ) (p : LogRow) (rs : List LogRow)
      → (last_from
          (if is_purgeable bound p then mark_purged now p else p)
          (update_where (is_purgeable bound) (mark_purged now) rs)).created_at
        ≡ (last_from p rs).created_at
  last-purge bound now p [] = ground arith
  last-purge bound now p (r ∷ rs) = last-purge bound now r rs

  pub purge-ChainOf :
      (bound now : ℕ) (rows : List LogRow)
      → ChainOf now rows
      → ChainOf now (update_where (is_purgeable bound) (mark_purged now) rows)
  purge-ChainOf bound now [] c = tt
  purge-ChainOf bound now (r ∷ rs) c = (
    ground (arith, c.0),
    ground (arith, c.1),
    purge-ChainFrom bound now r rs c.2,
    rw (last-purge bound now r rs) c.3,
  )

  last_from-purge :
      (bound now : ℕ) (p : LogRow) (rs : List LogRow)
      → last_from
          (if is_purgeable bound p then mark_purged now p else p)
          (update_where (is_purgeable bound) (mark_purged now) rs)
        ≡ (if is_purgeable bound (last_from p rs)
            then mark_purged now (last_from p rs)
            else last_from p rs)
  last_from-purge bound now p [] = refl
  last_from-purge bound now p (r ∷ rs) = last_from-purge bound now r rs

  -- A purge does not take the last hash away from one who has read it.
  pub purge-Links :
      (bound now : ℕ) (rows : List LogRow) (prev : String)
      → Links rows prev
      → Links (update_where (is_purgeable bound) (mark_purged now) rows) prev
  purge-Links bound now [] prev l = l
  purge-Links bound now (r ∷ rs) prev l = ground (arith, last_from-purge bound now r rs, l)

  pub later-ChainOf :
      (now later_now : ℕ) (rows : List LogRow)
      → now ≤ later_now
      → ChainOf now rows
      → ChainOf later_now rows
  later-ChainOf now later_now [] le c = tt
  later-ChainOf now later_now (r ∷ rs) le c = (c.0, c.1, c.2, omega (arith, c.3))

  pub purged-IsIntact :
      (a : Db) (dialect : Dialect) (days : ℕ)
      → IsIntact a
      → IsIntact ((purge_audit_logs dialect days a).1)
  unfolding purge_audit_logs
  purged-IsIntact a dialect days c = elim (Bool-cases (days == 0)) [
    | inl e ↦ rw e c
    | inr e ↦
        rw e (purge-ChainOf (purge_bound dialect days a.clock) a.clock a.operation_logs.rows c)
  ]
