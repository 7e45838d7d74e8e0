-- ===== src/Executors/Caps.antt =====
-- What the caps on the output of a child process guarantee.
use sandbox_platform.Prelude.{
  ℕ, zero, suc, ◌+◌, ◌-◌, ◌≤◌, ◌<◌, ◌≡◌, refl, ap, sym, arith, Bool, true, false, none, some, List,
  [], ◌∷◌, ◌++◌, leb, ltb, length, take, drop, append_assoc, append_nil, Bool-cases, ◌∙◌, inl, inr,
  subst,
}
use sandbox_platform.Action.{Outcome, ok, err}
use sandbox_platform.Tools.Truncate.{Bytes}
use sandbox_platform.Tools.Files.{ExecResult}
use sandbox_platform.Executors.Collect.{
  Stream, ProcessEvent, Process, spawned, push_chunk, cut_off, count_bytes, settle_with, collect,
  exec_result, on_event, run_events,
}

take-drop : (n : ℕ) (d : Bytes) → d ≡ take n d ++ drop n d
take-drop zero d = refl
take-drop (suc n) [] = refl
take-drop (suc n) (c ∷ d) = ap (λ l. c ∷ l) (take-drop n d)

length-take_lt : (n : ℕ) (d : Bytes) → n < length d → length (take n d) ≡ n
length-take_lt zero d h = refl
length-take_lt (suc n) [] h = absurd (omega arith)
length-take_lt (suc n) (c ∷ d) h = omega (arith, length-take_lt n d (omega arith))

length-append : (s t : Bytes) → length (s ++ t) ≡ length s + length t
length-append [] t = omega arith
length-append (c ∷ s) t = omega (arith, length-append s t)

-- What the process sent on a stream.
abbrev pub sent : Stream → List ProcessEvent → Bytes
sent target [] = []
sent Stream.out (ProcessEvent.chunk Stream.out d ∷ es) = d ++ sent Stream.out es
sent Stream.errors (ProcessEvent.chunk Stream.errors d ∷ es) = d ++ sent Stream.errors es
sent target (_ ∷ es) = sent target es

-- What is kept is what was sent but for a last part, which is empty where nothing is cut off.
abbrev Kept : Bool → Bytes → Bytes → Type 0
Kept cut kept whole = (lost : Bytes) × (whole ≡ kept ++ lost) × (cut ≡ false → lost ≡ [])

Kept-more : (cut : Bool) (kept whole d : Bytes) → Kept cut kept whole → Kept true kept (whole ++ d)
Kept-more cut kept whole d (lost, e, h) =
    (lost ++ d, ap (λ x. x ++ d) e ∙ append_assoc kept lost d, λ no. cc)

Kept-cut : (cut : Bool) (kept whole : Bytes) → Kept cut kept whole → Kept true kept whole
Kept-cut cut kept whole (lost, e, h) = (lost, e, λ no. cc)

Kept-push :
    (cut : Bool) (kept whole a : Bytes)
    → cut ≡ false
    → Kept cut kept whole
    → Kept cut (kept ++ a) (whole ++ a)
Kept-push cut kept whole a open_still (lost, e, h) =
    let same : whole ≡ kept = e ∙ ap (λ x. kept ++ x) (h open_still) ∙ append_nil kept in
    ([], ap (λ x. x ++ a) same ∙ sym (append_nil (kept ++ a)), λ no. refl)

pub record Capped (m : ℕ) (whole_out whole_errors : Bytes) (p : Process) : Type 0 where
  pub counted : length p.stdout + length p.stderr ≡ p.output_bytes
  pub passed_on : length p.forwarded ≡ p.output_bytes
  pub within : p.output_bytes ≤ m
  pub out_kept : Kept p.output_truncated p.stdout whole_out
  pub errors_kept : Kept p.output_truncated p.stderr whole_errors
  pub cut_at_cap : p.output_truncated ≡ true → (p.output_bytes ≡ m) × (p.killed ≡ true)

-- What was sent on each stream with one chunk more.
abbrev grown_out : Stream → Bytes → Bytes → Bytes
grown_out Stream.out d whole = whole ++ d
grown_out Stream.errors d whole = whole

abbrev grown_errors : Stream → Bytes → Bytes → Bytes
grown_errors Stream.out d whole = whole
grown_errors Stream.errors d whole = whole ++ d

-- A chunk, or its part up to the cap, is kept.
push-Capped :
    (m : ℕ) (target : Stream) (wo we a : Bytes) (p : Process)
    → p.output_truncated ≡ false
    → p.output_bytes + length a ≤ m
    → Capped m wo we p
    → Capped m
        (grown_out target a wo)
        (grown_errors target a we)
        (count_bytes (length a) (push_chunk target a p))
push-Capped m Stream.out wo we a p whole fits c = record {
  counted = omega (arith, c.counted, length-append p.stdout a);
  passed_on = omega (arith, c.passed_on, length-append p.forwarded a);
  within = fits;
  out_kept = Kept-push p.output_truncated p.stdout wo a whole c.out_kept;
  errors_kept = c.errors_kept;
  cut_at_cap = λ yes. cc;
}
push-Capped m Stream.errors wo we a p whole fits c = record {
  counted = omega (arith, c.counted, length-append p.stderr a);
  passed_on = omega (arith, c.passed_on, length-append p.forwarded a);
  within = fits;
  out_kept = c.out_kept;
  errors_kept = Kept-push p.output_truncated p.stderr we a whole c.errors_kept;
  cut_at_cap = λ yes. cc;
}

-- At the cap the rest of a chunk is lost, and the process killed.
cut-Capped :
    (m : ℕ) (target : Stream) (wo we b : Bytes) (p : Process)
    → m ≤ p.output_bytes
    → Capped m wo we p
    → Capped m (grown_out target b wo) (grown_errors target b we) (cut_off p)
cut-Capped m Stream.out wo we b p full c = record {
  counted = c.counted;
  passed_on = c.passed_on;
  within = c.within;
  out_kept = Kept-more p.output_truncated p.stdout wo b c.out_kept;
  errors_kept = Kept-cut p.output_truncated p.stderr we c.errors_kept;
  cut_at_cap = λ yes. (omega (arith, c.within), refl);
}
cut-Capped m Stream.errors wo we b p full c = record {
  counted = c.counted;
  passed_on = c.passed_on;
  within = c.within;
  out_kept = Kept-cut p.output_truncated p.stdout wo c.out_kept;
  errors_kept = Kept-more p.output_truncated p.stderr we b c.errors_kept;
  cut_at_cap = λ yes. (omega (arith, c.within), refl);
}

module _ (repair : Bytes → Bytes) (m : ℕ) where
  collect_full :
      (target : Stream) (d : Bytes) (p : Process)
      → 0 < m
      → leb m p.output_bytes ≡ true
      → collect repair (some m) target d p ≡ cut_off p
  collect_full target d p pos full = ground arith

  collect_over :
      (target : Stream) (d : Bytes) (p : Process)
      → 0 < m
      → leb m p.output_bytes ≡ false
      → ltb (m - p.output_bytes) (length d) ≡ true
      → let a = take (m - p.output_bytes) d in
        (length a ≡ m - p.output_bytes)
        × (collect repair (some m) target d p
            ≡ cut_off (count_bytes (length a) (push_chunk target a p)))
  collect_over target d p pos room over =
      let l = length-take_lt (m - p.output_bytes) d (ground arith) in (l, ground (arith, l))

  collect_whole :
      (target : Stream) (d : Bytes) (p : Process)
      → 0 < m
      → leb m p.output_bytes ≡ false
      → ltb (m - p.output_bytes) (length d) ≡ false
      → collect repair (some m) target d p ≡ count_bytes (length d) (push_chunk target d p)
  collect_whole target d p pos room fits = ground arith

  still_whole :
      (wo we : Bytes) (p : Process)
      → leb m p.output_bytes ≡ false
      → Capped m wo we p
      → p.output_truncated ≡ false
  still_whole wo we p room c = elim (Bool-cases p.output_truncated) [
    | inl cut ↦ absurd (ground (arith, c.cut_at_cap cut))
    | inr whole ↦ whole
  ]

  -- A chunk of which the part `a` is kept, up to the cap, and the part `b` is lost.
  part-Capped :
      (target : Stream) (wo we a b : Bytes) (p : Process)
      → p.output_truncated ≡ false
      → p.output_bytes + length a ≡ m
      → Capped m wo we p
      → Capped m
          (grown_out target (a ++ b) wo)
          (grown_errors target (a ++ b) we)
          (cut_off (count_bytes (length a) (push_chunk target a p)))
  part-Capped Stream.out wo we a b p whole full c =
      subst (λ w. Capped m w we (cut_off (count_bytes (length a) (push_chunk Stream.out a p))))
        (append_assoc wo a b)
        (cut-Capped m Stream.out (wo ++ a) we b (count_bytes (length a) (push_chunk Stream.out a p))
          (omega (arith, full)) (push-Capped m Stream.out wo we a p whole (omega (arith, full)) c))
  part-Capped Stream.errors wo we a b p whole full c =
      subst (λ w. Capped m wo w (cut_off (count_bytes (length a) (push_chunk Stream.errors a p))))
        (append_assoc we a b)
        (cut-Capped m Stream.errors wo (we ++ a) b
          (count_bytes (length a) (push_chunk Stream.errors a p)) (omega (arith, full))
          (push-Capped m Stream.errors wo we a p whole (omega (arith, full)) c))

  collect-Capped :
      (target : Stream) (wo we d : Bytes) (p : Process)
      → 0 < m
      → Capped m wo we p
      → Capped m
          (grown_out target d wo)
          (grown_errors target d we)
          (collect repair (some m) target d p)
  collect-Capped target wo we d p pos c = elim (Bool-cases (leb m p.output_bytes)) [
    | inl full ↦
        subst (λ q. Capped m (grown_out target d wo) (grown_errors target d we) q)
          (sym (collect_full target d p pos full)) (cut-Capped m target wo we d p (ground arith) c)
    | inr room ↦ elim (Bool-cases (ltb (m - p.output_bytes) (length d))) [
      | inr fits ↦
          subst (λ q. Capped m (grown_out target d wo) (grown_errors target d we) q)
            (sym (collect_whole target d p pos room fits))
            (push-Capped m target wo we d p (still_whole wo we p room c) (ground arith) c)
      | inl over ↦
          let (size, eq) = collect_over target d p pos room over in
          let a = take (m - p.output_bytes) d in
          let b = drop (m - p.output_bytes) d in
          subst (λ q. Capped m (grown_out target d wo) (grown_errors target d we) q) (sym eq)
            (subst
              (λ e.
                Capped m (grown_out target e wo) (grown_errors target e we)
                  (cut_off (count_bytes (length a) (push_chunk target a p))))
              (sym (take-drop (m - p.output_bytes) d))
              (part-Capped target wo we a b p (still_whole wo we p room c) (ground (arith, size))
                c))
    ]
  ]

  killed-Capped :
      (wo we : Bytes) (timed_out : Bool) (p : Process)
      → Capped m wo we p
      → Capped m wo we (record p { timed_out = timed_out; killed = true })
  killed-Capped wo we timed_out p c = record {
    counted = c.counted;
    passed_on = c.passed_on;
    within = c.within;
    out_kept = c.out_kept;
    errors_kept = c.errors_kept;
    cut_at_cap = λ cut. ((c.cut_at_cap cut).0, refl);
  }

  settled-Capped :
      (wo we : Bytes) (r : Outcome ExecResult) (p : Process)
      → Capped m wo we p
      → Capped m wo we (settle_with r p)
  settled-Capped wo we r p c =
      elim p.settled
        as (λ o. Capped m wo we (elim o [ none ↦ record p { settled = some r } | some q ↦ p ])) [
          | none ↦ record {
            counted = c.counted;
            passed_on = c.passed_on;
            within = c.within;
            out_kept = c.out_kept;
            errors_kept = c.errors_kept;
            cut_at_cap = c.cut_at_cap;
          }
          | some q ↦ c
        ]

  run_events-Capped :
      (es : List ProcessEvent) (wo we : Bytes) (p : Process)
      → 0 < m
      → Capped m wo we p
      → Capped m
          (wo ++ sent Stream.out es)
          (we ++ sent Stream.errors es)
          (run_events repair (some m) es p)
  unfolding run_events on_event
  run_events-Capped [] wo we p pos c =
      subst (λ w. Capped m w (we ++ []) p) (sym (append_nil wo))
        (subst (λ w. Capped m wo w p) (sym (append_nil we)) c)
  run_events-Capped (ProcessEvent.chunk Stream.out d ∷ es) wo we p pos c =
      subst
        (λ w.
          Capped m w (we ++ sent Stream.errors es)
            (run_events repair (some m) es (collect repair (some m) Stream.out d p)))
        (append_assoc wo d (sent Stream.out es))
        (run_events-Capped es (wo ++ d) we (collect repair (some m) Stream.out d p) pos
          (collect-Capped Stream.out wo we d p pos c))
  run_events-Capped (ProcessEvent.chunk Stream.errors d ∷ es) wo we p pos c =
      subst
        (λ w.
          Capped m (wo ++ sent Stream.out es) w
            (run_events repair (some m) es (collect repair (some m) Stream.errors d p)))
        (append_assoc we d (sent Stream.errors es))
        (run_events-Capped es wo (we ++ d) (collect repair (some m) Stream.errors d p) pos
          (collect-Capped Stream.errors wo we d p pos c))
  run_events-Capped (ProcessEvent.timeout ∷ es) wo we p pos c =
      run_events-Capped es wo we (record p { timed_out = true; killed = true }) pos
        (killed-Capped wo we true p c)
  run_events-Capped (ProcessEvent.abort ∷ es) wo we p pos c =
      run_events-Capped es wo we (record p { killed = true }) pos
        (killed-Capped wo we p.timed_out p c)
  run_events-Capped (ProcessEvent.spawn_error x ∷ es) wo we p pos c =
      run_events-Capped es wo we (settle_with (err x) p) pos (settled-Capped wo we (err x) p c)
  run_events-Capped (ProcessEvent.close code ∷ es) wo we p pos c =
      run_events-Capped es wo we (settle_with (ok (exec_result repair (some m) code p)) p) pos
        (settled-Capped wo we (ok (exec_result repair (some m) code p)) p c)

  -- For a cap that is not 0, after any events: the two streams that are kept together are within the cap,
  -- and as many bytes were passed on; each is what was sent but for a last part; where no truncation is
  -- reported nothing was lost, and where one is, the cap is reached and the process was killed.
  pub run_events-capped :
      (es : List ProcessEvent)
      → 0 < m
      → let p = run_events repair (some m) es spawned in
        (length p.stdout + length p.stderr ≤ m)
        × (length p.forwarded ≡ length p.stdout + length p.stderr)
        × ((lost : Bytes) × (sent Stream.out es ≡ p.stdout ++ lost)
            × (p.output_truncated ≡ false → lost ≡ []))
        × ((lost : Bytes) × (sent Stream.errors es ≡ p.stderr ++ lost)
            × (p.output_truncated ≡ false → lost ≡ []))
        × (p.output_truncated ≡ true → (length p.stdout + length p.stderr ≡ m) × (p.killed ≡ true))
  run_events-capped es pos =
      let c = run_events-Capped es [] [] spawned pos (record {
        counted = refl;
        passed_on = refl;
        within = omega arith;
        out_kept = ([], refl, λ no. refl);
        errors_kept = ([], refl, λ no. refl);
        cut_at_cap = λ cut. cc;
      }) in
      (
        omega (arith, c.counted, c.within),
        omega (arith, c.counted, c.passed_on),
        c.out_kept,
        c.errors_kept,
        λ cut. (omega (arith, c.counted, (c.cut_at_cap cut).0), (c.cut_at_cap cut).1),
      )
