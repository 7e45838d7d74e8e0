-- ===== src/Tests/Overlays.antt =====
-- The Apptainer executor on a disk that is a function of the path, and a process over its cap.
use sandbox_platform.Prelude.{
  not, is_some, ◌||◌, Bool, ℕ, ◌≡◌, ◌≢◌, ◌∙◌, sym, ap, ◌+◌, ◌≤◌, length, refl, arith, true, false,
  Bool-cases, inl, inr, Option, none, some, List, [], ◌∷◌, ◌++◌, if◌then◌else◌,
}
use sandbox_platform.Action.{Action, AppError, Outcome, ok, err, failure}
use sandbox_platform.Storage.Paths.{Chars, chars, same}
use sandbox_platform.Storage.Containment.{same_refl, same_sound}
use sandbox_platform.Tools.Truncate.{Bytes}
use sandbox_platform.Executors.Collect.{Stream, ProcessEvent, run_events, spawned}
use sandbox_platform.Executors.Caps.{run_events-capped, sent}
use sandbox_platform.Executors.Apptainer.{ApptainerHost, swap_overlay}
use sandbox_platform.Executors.Swap.{Disk, Apart, IsSafe, swap_overlay-IsSafe}

abbrev Store : Type 0
Store = Chars → Option ℕ

apart : (s t : Chars) → s ≢ t → same s t ≡ false
apart s t h = elim (Bool-cases (same s t)) [ inl e ↦ absurd (h (same_sound s t e)) | inr e ↦ e ]

abbrev put : Chars → Option ℕ → Store → Store
put p x store q = if same q p then x else store q

-- An operation that may fail, and does nothing then.
abbrev attempt : Bool → Store → Store → Outcome (Unit {0}) × Store
attempt true next store = (ok tt, next)
attempt false next store = (err (failure "busy"), store)

attempt-ok : (b : Bool) (next s t : Store) → attempt b next s ≡ (ok tt, t) → t ≡ next
attempt-ok true next s t e = sym (ap (λ x. x.1) e)
attempt-ok false next s t e = absurd (ground (arith, ap (λ x. x.0) e))

attempt-err : (b : Bool) (next s t : Store) (x : AppError) → attempt b next s ≡ (err x, t) → t ≡ s
attempt-err true next s t x e = absurd (ground (arith, ap (λ x. x.0) e))
attempt-err false next s t x e = sym (ap (λ x. x.1) e)

-- Where what is done is nothing to a path, so is the attempt.
attempt_other :
    (b : Bool) (next s : Store) (q : Chars) → next q ≡ s q → (attempt b next s).1 q ≡ s q
attempt_other true next s q e = e
attempt_other false next s q e = refl

-- A copy onto what is there already fails.
abbrev run_copy : List Chars → Action Store (Unit {0})
run_copy (a ∷ b ∷ c ∷ from ∷ to ∷ []) s = attempt (not (is_some (s to))) (put to (s from) s) s
run_copy _ s = attempt false s s

-- No rename onto what is there already, and none of the copy: the last step of the swap fails.
abbrev may_move : Chars → Chars → Store → Bool
may_move from to store = not (same from (chars "/o/a.restore-tmp") || is_some (store to))

abbrev move : Chars → Chars → Store → Store
move from to store = put from none (put to (store from) store)

-- A process that is spawned answers nothing.
abbrev machine : ApptainerHost Store
machine = record {
  exists = λ p s. (ok true, s);
  stat = λ p s. (ok tt, s);
  mkdir = λ p s. (ok tt, s);
  remove = λ p s. (ok tt, put p none s);
  copy = λ from to s. (ok tt, put to (s from) s);
  rename = λ from to s. attempt (may_move from to s) (move from to s) s;
  run_cli = λ args s. (
    ok (record {
      exit_code = some 0;
      stdout = [];
      stderr = [];
      timed_out = false;
      output_truncated = false;
    }),
    s,
  );
  run_util = run_copy;
  dirname = λ p. p;
  decimal = λ n. [];
  overlay_base = "/o";
  resource_limits = false;
  has_resolv_conf = true;
}

abbrev look : Chars → Store → Option ℕ
look p s = s p

same_path : (p q : Chars) → Apart p q → same q p ≡ false
same_path p q a = apart q p (λ e. a.0 (sym e))

move_target : (from to : Chars) (s : Store) → Apart from to → move from to s to ≡ s from
move_target from to s a = ground (arith, same_path from to a, same_refl to)

move_source : (from to : Chars) (s : Store) → move from to s from ≡ none
move_source from to s = ground (arith, same_refl from)

move_other : (from to q : Chars) (s : Store) → Apart from q → Apart to q → move from to s q ≡ s q
move_other from to q s a b = ground (arith, same_path from q a, same_path to q b)

machine-Disk : Disk machine ℕ look
machine-Disk = record {
  removing = λ p q s a. ground (arith, same_path p q a);
  removed = λ p s t e. sym (ap (λ x. x.1 p) e) ∙ ground (arith, same_refl p);
  copying = λ from to q s a.
      attempt_other (not (is_some (s to))) (put to (s from) s) s q
        (ground (arith, same_path to q a));
  copied = λ from to s t a free e.
      ap (λ x. x to) (attempt-ok (not (is_some (s to))) (put to (s from) s) s t e)
      ∙ ground (arith, same_refl to);
  moving = λ from to q s a b.
      attempt_other (may_move from to s) (move from to s) s q (move_other from to q s a b);
  moved = λ from to s t a e.
      let after = attempt-ok (may_move from to s) (move from to s) s t e in
      (
        ap (λ x. x to) after ∙ move_target from to s a,
        ap (λ x. x from) after ∙ move_source from to s,
      );
  unmoved = λ from to q s t x e.
      ap (λ y. y q) (attempt-err (may_move from to s) (move from to s) s t x e);
}

abbrev base_overlay : Chars
base_overlay = chars "/o/a"

abbrev base_snapshot : Chars
base_snapshot = chars "/s/a"

abbrev start_store : Store
start_store = put base_overlay (some 1) (put base_snapshot (some 2) (λ p. none))

-- The last rename fails, and the former overlay is at the second path.
swap_fails :
    (swap_overlay machine base_snapshot base_overlay start_store).0
    ≡ err (failure "snapshot copy failed")
unfolding swap_overlay
swap_fails = refl

swap_overlay-IsSafe_example :
    IsSafe machine look machine-Disk base_overlay
      (some 1)
      (some 2)
      (swap_overlay machine base_snapshot base_overlay start_store)
swap_overlay-IsSafe_example =
    swap_overlay-IsSafe machine look machine-Disk base_snapshot base_overlay start_store
      (λ e. ground (arith, e), refl, refl) (λ e. ground (arith, e), refl, refl)

-- Two streams whose chunks together go over a cap of 5.
abbrev flood : List ProcessEvent
flood =
    ProcessEvent.chunk Stream.out (1 ∷ 2 ∷ 3 ∷ [])
    ∷ ProcessEvent.chunk Stream.errors (4 ∷ 5 ∷ 6 ∷ [])
    ∷ ProcessEvent.chunk Stream.out (7 ∷ [])
    ∷ ProcessEvent.close none
    ∷ []

flood_cut : (run_events (λ s. s) (some 5) flood spawned).stderr ≡ 4 ∷ 5 ∷ []
unfolding run_events
flood_cut = refl

run_events-capped_example :
    let p = run_events (λ s. s) (some 5) flood spawned in
    (length p.stdout + length p.stderr ≤ 5)
    × (length p.forwarded ≡ length p.stdout + length p.stderr)
    × ((lost : Bytes) × (sent Stream.out flood ≡ p.stdout ++ lost)
        × (p.output_truncated ≡ false → lost ≡ []))
    × ((lost : Bytes) × (sent Stream.errors flood ≡ p.stderr ++ lost)
        × (p.output_truncated ≡ false → lost ≡ []))
    × (p.output_truncated ≡ true → (length p.stdout + length p.stderr ≡ 5) × (p.killed ≡ true))
run_events-capped_example = run_events-capped (λ s. s) 5 flood (omega arith)
