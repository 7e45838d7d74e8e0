-- ===== src/AuditLog/Races.antt =====
-- services/log.service.ts: the hashes of the audit log when calls of `record` overlap.
use sandbox_platform.Prelude.{
  ℕ, ◌≡◌, ◌≢◌, ◌⊎◌, inl, inr, refl, sym, subst, arith, Bool, true, false, some, Option, List, [],
  ◌∷◌, ◌++◌, String, find_last_where, update_where, Bool-cases, Option-cases, ◌==◌,
}
use sandbox_platform.Action.{ok, catch}
use sandbox_platform.Db.{Db}
use sandbox_platform.Db.Rows.{LogEntry, LogRow}
use sandbox_platform.AuditLog.{
  Hashing, is_live, last_hash, names_user, new_log, insert_checked, insert_log, finish_record,
  purge_bound, is_purgeable, mark_purged, purge_audit_logs, Dialect, LogState, Taken, here, there,
  LogStep, read, finished, purged, passed, LogRun, begun, and_then,
}
use sandbox_platform.AuditLog.Integrity.{
  IsHashed, IsIntact, ChainOf, purge-ChainOf, Links, last_hash-Links, insert-ChainOf, purge-Links,
  later-ChainOf, new-IsHashed,
}

-- One of the rows has the hash.
abbrev pub HasHash : List LogRow → Option String → Type 0
HasHash [] h = ⊥
HasHash (r ∷ rs) h = (r.hash ≡ h) ⊎ HasHash rs h

-- A hash that a row may go on from: the empty one, or that of a row.
abbrev pub IsKnown : List LogRow → Option String → Type 0
IsKnown rows h = (h ≡ some "") ⊎ HasHash rows h

module _ (hashing : Hashing) where
  -- Each row has the hash of what it says and of the hash before it, and that one is known from the
  -- rows before, the `earlier` ones among them.
  abbrev pub IsRooted : List LogRow → List LogRow → Type 0
  IsRooted earlier [] = Unit
  IsRooted earlier (r ∷ rs) =
      IsHashed hashing r × IsKnown earlier r.prev_hash × IsRooted (r ∷ earlier) rs

  abbrev AllKnown : List LogRow → List (LogEntry × String) → Type 0
  AllKnown rows [] = Unit
  AllKnown rows (w ∷ ws) = IsKnown rows (some w.1) × AllKnown rows ws

  -- At most one call waits, and what it read is still the last hash.
  abbrev IsSerial : List LogRow → List (LogEntry × String) → Type 0
  IsSerial rows [] = Unit
  IsSerial rows (w ∷ []) = Links hashing rows w.1
  IsSerial rows (w ∷ x ∷ ws) = ⊥

  -- In a run: a call read the last hash while another one had read it and not inserted.
  abbrev IsOverlap : {s t : LogState} → LogStep hashing s t → Type 0
  IsOverlap {s} (read entry) =
      (w : LogEntry × String) × (ws : List (LogEntry × String)) × (s.waiting ≡ w ∷ ws)
  IsOverlap (finished entry prev rest t) = ⊥
  IsOverlap (purged dialect days) = ⊥
  IsOverlap (passed now le) = ⊥

  abbrev pub HasOverlap : {a b : LogState} → LogRun hashing a b → Type 0
  HasOverlap begun = ⊥
  HasOverlap (and_then r st) = HasOverlap r ⊎ IsOverlap st

  found-HasHash :
      (rows : List LogRow) (r : LogRow)
      → find_last_where is_live rows ≡ some r
      → HasHash rows r.hash
  found-HasHash [] r e = absurd (ground arith)
  found-HasHash (x ∷ xs) r e = elim (Option-cases (find_last_where is_live xs)) [
    | inl none_later ↦ inl (ground arith)
    | inr (y, later) ↦ inr (found-HasHash xs r (ground arith))
  ]

  found-is_live :
      (rows : List LogRow) (r : LogRow) → find_last_where is_live rows ≡ some r → is_live r ≡ true
  found-is_live [] r e = absurd (ground arith)
  found-is_live (x ∷ xs) r e = ground (arith, found-is_live xs r)

  last_hash-IsKnown : (rows : List LogRow) → IsKnown rows (some (last_hash rows))
  last_hash-IsKnown rows = elim (Option-cases (find_last_where is_live rows)) [
    | inl e ↦ inl (ground arith)
    | inr (r, e) ↦ elim (Option-cases r.hash) [
      | inl no_hash ↦ absurd (ground (arith, found-is_live rows r e))
      | inr (h, f) ↦ inr (subst (HasHash rows) (ground arith) (found-HasHash rows r e))
    ]
  ]

  grown-HasHash :
      (rows : List LogRow) (x : LogRow) (h : Option String)
      → HasHash rows h
      → HasHash (rows ++ x ∷ []) h
  grown-HasHash [] x h l = elim l [ ]
  grown-HasHash (r ∷ rs) x h (inl e) = inl e
  grown-HasHash (r ∷ rs) x h (inr l) = inr (grown-HasHash rs x h l)

  grown-AllKnown :
      (rows : List LogRow) (x : LogRow) (ws : List (LogEntry × String))
      → AllKnown rows ws
      → AllKnown (rows ++ x ∷ []) ws
  grown-AllKnown rows x [] k = tt
  grown-AllKnown rows x (w ∷ ws) (inl e, k) = (inl e, grown-AllKnown rows x ws k)
  grown-AllKnown rows x (w ∷ ws) (inr l, k) =
      (inr (grown-HasHash rows x (some w.1) l), grown-AllKnown rows x ws k)

  insert-IsRooted :
      (earlier rows : List LogRow) (x : LogRow)
      → IsHashed hashing x
      → IsKnown earlier x.prev_hash ⊎ HasHash rows x.prev_hash
      → IsRooted earlier rows
      → IsRooted earlier (rows ++ x ∷ [])
  insert-IsRooted earlier [] x h (inl k) c = (h, k, tt)
  insert-IsRooted earlier [] x h (inr l) c = elim l [ ]
  insert-IsRooted earlier (r ∷ rs) x h (inl (inl e)) c =
      (c.0, c.1, insert-IsRooted (r ∷ earlier) rs x h (inl (inl e)) c.2)
  insert-IsRooted earlier (r ∷ rs) x h (inl (inr l)) c =
      (c.0, c.1, insert-IsRooted (r ∷ earlier) rs x h (inl (inr (inr l))) c.2)
  insert-IsRooted earlier (r ∷ rs) x h (inr (inl e)) c =
      (c.0, c.1, insert-IsRooted (r ∷ earlier) rs x h (inl (inr (inl e))) c.2)
  insert-IsRooted earlier (r ∷ rs) x h (inr (inr l)) c =
      (c.0, c.1, insert-IsRooted (r ∷ earlier) rs x h (inr l) c.2)

  purge-HasHash :
      (bound now : ℕ) (rows : List LogRow) (h : Option String)
      → HasHash rows h
      → HasHash (update_where (is_purgeable bound) (mark_purged now) rows) h
  purge-HasHash bound now [] h l = elim l [ ]
  purge-HasHash bound now (r ∷ rs) h (inl e) = inl (ground arith)
  purge-HasHash bound now (r ∷ rs) h (inr l) = inr (purge-HasHash bound now rs h l)

  purge-IsKnown :
      (bound now : ℕ) (rows : List LogRow) (h : Option String)
      → IsKnown rows h
      → IsKnown (update_where (is_purgeable bound) (mark_purged now) rows) h
  purge-IsKnown bound now rows h (inl e) = inl e
  purge-IsKnown bound now rows h (inr l) = inr (purge-HasHash bound now rows h l)

  purge-AllKnown :
      (bound now : ℕ) (rows : List LogRow) (ws : List (LogEntry × String))
      → AllKnown rows ws
      → AllKnown (update_where (is_purgeable bound) (mark_purged now) rows) ws
  purge-AllKnown bound now rows [] k = tt
  purge-AllKnown bound now rows (w ∷ ws) k =
      (purge-IsKnown bound now rows (some w.1) k.0, purge-AllKnown bound now rows ws k.1)

  purge-IsRooted :
      (bound now : ℕ) (earlier rows : List LogRow)
      → IsRooted earlier rows
      → IsRooted
          (update_where (is_purgeable bound) (mark_purged now) earlier)
          (update_where (is_purgeable bound) (mark_purged now) rows)
  purge-IsRooted bound now earlier [] c = tt
  purge-IsRooted bound now earlier (r ∷ rs) c = (
    ground (arith, c.0),
    subst (IsKnown (update_where (is_purgeable bound) (mark_purged now) earlier)) (ground arith)
        (purge-IsKnown bound now earlier r.prev_hash c.1),
    purge-IsRooted bound now (r ∷ earlier) rs c.2,
  )

  Taken-AllKnown :
      (rows : List LogRow) (x : LogEntry × String) (ws rest : List (LogEntry × String))
      → Taken x ws rest
      → AllKnown rows ws
      → IsKnown rows (some x.1) × AllKnown rows rest
  Taken-AllKnown rows x _ _ (here l) k = k
  Taken-AllKnown rows x _ _ (there y l m t) k =
      let (a, b) = Taken-AllKnown rows x l m t k.1 in (a, (k.0, b))

  Taken-some :
      (x : LogEntry × String) (ws rest : List (LogEntry × String)) → Taken x ws rest → ws ≢ []
  Taken-some x _ _ (here l) = λ e. cc
  Taken-some x _ _ (there y l m t) = λ e. cc

  Taken-IsSerial :
      (rows : List LogRow) (x : LogEntry × String) (ws rest : List (LogEntry × String))
      → Taken x ws rest
      → IsSerial rows ws
      → Links hashing rows x.1 × (rest ≡ [])
  Taken-IsSerial rows x _ _ (here []) k = (k, refl)
  Taken-IsSerial rows x _ _ (here (y ∷ l)) k = elim k [ ]
  Taken-IsSerial rows x _ _ (there y [] m t) k = absurd (Taken-some x [] m t refl)
  Taken-IsSerial rows x _ _ (there y (z ∷ l) m t) k = elim k [ ]

  purge-IsSerial :
      (bound now : ℕ) (rows : List LogRow) (ws : List (LogEntry × String))
      → IsSerial rows ws
      → IsSerial (update_where (is_purgeable bound) (mark_purged now) rows) ws
  purge-IsSerial bound now rows [] k = tt
  purge-IsSerial bound now rows (w ∷ []) k = purge-Links hashing bound now rows w.1 k
  purge-IsSerial bound now rows (w ∷ x ∷ ws) k = k

  -- What holds after a run that had an overlap where `O` holds.
  record Sound (O : Type 0) (s : LogState) : Type 0 where
    rooted : IsRooted [] s.db.operation_logs.rows
    known : AllKnown s.db.operation_logs.rows s.waiting
    order : (IsIntact hashing s.db × IsSerial s.db.operation_logs.rows s.waiting) ⊎ O

  in_rows :
      (rows : List LogRow) (h : Option String) → IsKnown rows h → IsKnown [] h ⊎ HasHash rows h
  in_rows rows h (inl e) = inl (inl e)
  in_rows rows h (inr l) = inr l

  -- An insert, or a refused one.
  insert-Sound :
      (O : Type 0) (db : Db) (ws rest : List (LogEntry × String)) (entry : LogEntry) (prev : String)
      (names : Bool)
      → Taken (entry, prev) ws rest
      → Sound O (record { db = db; waiting = ws })
      → Sound O (record {
        db = (catch (insert_checked hashing entry prev names) (λ e d. (ok tt, d)) db).1;
        waiting = rest;
      })
  unfolding new_log
  insert-Sound O db ws rest entry prev true t i =
      let rows = db.operation_logs.rows in
      let x = new_log hashing entry prev db.clock db.operation_logs.next_id in
      let (a, b) = Taken-AllKnown rows (entry, prev) ws rest t i.known in
      record {
        rooted =
            insert-IsRooted [] rows x
              (new-IsHashed hashing entry prev db.clock db.operation_logs.next_id)
              (in_rows rows (some prev) a) i.rooted;
        known = grown-AllKnown rows x rest b;
        order = elim i.order [
          | inr o ↦ inr o
          | inl (intact, serial) ↦ inl (
              let (l, e) = Taken-IsSerial rows (entry, prev) ws rest t serial in
              (
                insert-ChainOf hashing db.clock rows entry prev db.operation_logs.next_id l intact,
                subst (IsSerial (rows ++ x ∷ [])) (sym e) tt,
              ))
        ];
      }
  insert-Sound O db ws rest entry prev false t i =
      let rows = db.operation_logs.rows in
      let (a, b) = Taken-AllKnown rows (entry, prev) ws rest t i.known in
      record {
        rooted = i.rooted;
        known = b;
        order = elim i.order [
          | inr o ↦ inr o
          | inl (intact, serial) ↦ inl (
            intact,
            subst (IsSerial rows) (sym (Taken-IsSerial rows (entry, prev) ws rest t serial).1) tt,
          )
        ];
      }

  purge-Sound :
      (O : Type 0) (s : LogState) (dialect : Dialect) (days : ℕ)
      → Sound O s
      → Sound O (record { db = (purge_audit_logs dialect days s.db).1; waiting = s.waiting })
  unfolding purge_audit_logs
  purge-Sound O s dialect days i =
      let bound = purge_bound dialect days s.db.clock in
      let now = s.db.clock in
      let rows = s.db.operation_logs.rows in
      elim (Bool-cases (days == 0)) [
        | inl e ↦ rw e (record { rooted = i.rooted; known = i.known; order = i.order })
        | inr e ↦ rw e (record {
          rooted = purge-IsRooted bound now [] rows i.rooted;
          known = purge-AllKnown bound now rows s.waiting i.known;
          order = elim i.order [
            | inr o ↦ inr o
            | inl (intact, serial) ↦ inl (
              purge-ChainOf hashing bound now rows intact,
              purge-IsSerial bound now rows s.waiting serial,
            )
          ];
        })
      ]

  wider : (O P : Type 0) (s : LogState) → Sound O s → Sound (O ⊎ P) s
  wider O P s i = record {
    rooted = i.rooted;
    known = i.known;
    order = elim i.order [ inl k ↦ inl k | inr o ↦ inr (inl o) ];
  }

  -- A further call reads: alone, or while another one waits.
  read_order :
      (O : Type 0) (db : Db) (ws : List (LogEntry × String)) (entry : LogEntry)
      → (IsIntact hashing db × IsSerial db.operation_logs.rows ws) ⊎ O
      → (IsIntact hashing db
          × IsSerial db.operation_logs.rows ((entry, last_hash db.operation_logs.rows) ∷ ws))
        ⊎ (O ⊎ ((w : LogEntry × String) × (rest : List (LogEntry × String)) × (ws ≡ w ∷ rest)))
  read_order O db ws entry (inr o) = inr (inl o)
  read_order O db [] entry (inl (intact, serial)) =
      inl (intact, last_hash-Links hashing db.clock db.operation_logs.rows intact)
  read_order O db (w ∷ ws) entry (inl (intact, serial)) = inr (inr (w, ws, refl))

  step-Sound :
      (O : Type 0) {s t : LogState} (st : LogStep hashing s t)
      → Sound O s
      → Sound (O ⊎ IsOverlap st) t
  unfolding finish_record insert_log
  step-Sound O {s} (read entry) i = record {
    rooted = i.rooted;
    known = (last_hash-IsKnown s.db.operation_logs.rows, i.known);
    order = read_order O s.db s.waiting entry i.order;
  }
  step-Sound O {s} (finished entry prev rest t) i =
      wider O ⊥ _
        (insert-Sound O s.db s.waiting rest entry prev (names_user s.db entry.user_id) t i)
  step-Sound O {s} (purged dialect days) i = wider O ⊥ _ (purge-Sound O s dialect days i)
  step-Sound O {s} (passed now le) i = wider O ⊥ _ (record {
    rooted = i.rooted;
    known = i.known;
    order = elim i.order [
      | inr o ↦ inr o
      | inl (intact, serial) ↦
          inl (later-ChainOf hashing s.db.clock now s.db.operation_logs.rows le intact, serial)
    ];
  })

  run-Sound : {a b : LogState} (r : LogRun hashing a b) → Sound ⊥ a → Sound (HasOverlap r) b
  run-Sound begun i = i
  run-Sound (and_then r st) i = step-Sound (HasOverlap r) st (run-Sound r i)

-- From an empty log, for any run in which calls of `record` read and insert in any order, and the log is
-- purged and time passes between: each row has the hash of what it says and of the hash before it, which
-- is empty or that of a row before it; and the rows are one chain, each going on from the one just
-- before it, or starting anew where that one is purged, with purged rows before the others, unless
-- some call read the last hash while another one had read it and not yet inserted.
pub log-IsRooted :
    (hashing : Hashing) {a b : LogState} (r : LogRun hashing a b)
    → a.db.operation_logs.rows ≡ []
    → a.waiting ≡ []
    → IsRooted hashing [] b.db.operation_logs.rows × (IsIntact hashing b.db ⊎ HasOverlap hashing r)
log-IsRooted hashing {a} r empty idle =
    let i = run-Sound hashing r (record {
      rooted = subst (IsRooted hashing []) (sym empty) tt;
      known = subst (AllKnown hashing a.db.operation_logs.rows) (sym idle) tt;
      order = inl (
        subst (ChainOf hashing a.db.clock) (sym empty) tt,
        subst (IsSerial hashing a.db.operation_logs.rows) (sym idle) tt,
      );
    }) in
    (i.rooted, elim i.order [ inl (intact, serial) ↦ inl intact | inr o ↦ inr o ])
