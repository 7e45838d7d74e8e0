-- ===== src/World.antt =====
-- The state that a service method works on: the database, and `R`, the world outside it.
use sandbox_platform.Prelude.{◌≡◌, refl}
use sandbox_platform.Action.{Outcome, ok, err, Action, ◌>>=◌}
use sandbox_platform.Db.{Db}

pub record World (R : Type 0) : Type 0 where
  pub db : Db
  pub runtime : R

module _ {R : Type 0} where
  abbrev pub on_db : {A : Type 0} → Action Db A → Action (World R) A
  on_db m w = let (r, d) = m w.db in (r, record w { db = d })

  abbrev pub on_host : {A : Type 0} → Action R A → Action (World R) A
  on_host m w = let (r, t) = m w.runtime in (r, record w { runtime = t })

  abbrev pub set_db : (Db → Db) → Action (World R) (Unit {0})
  set_db f w = (ok tt, record w { db = f w.db })

  abbrev pub ask : {A : Type 0} → (Db → A) → Action (World R) A
  ask f w = (ok (f w.db), w)

  -- A failure that the code logs and passes over.
  abbrev pub best_effort : {A : Type 0} → Action (World R) A → Action (World R) (Unit {0})
  best_effort m w = (ok tt, (m w).1)

-- What holds of the database after one action, and is kept by what follows its result, holds after
-- both.
module _ {R A B : Type 0} (P : Db → Type 0) (f : A → Action (World R) B) where
  follow :
      (r : Outcome A) (t : World R)
      → P t.db
      → ((a : A) → r ≡ ok a → P (f a t).1.db)
      → P (elim r as (λ x. Outcome B × World R) [ ok a ↦ f a t | err e ↦ (err e, t) ]).1.db
  follow (ok a) t h k = k a refl
  follow (err e) t h k = h

  pub bind_keeps :
      (m : Action (World R) A) (w : World R)
      → P (m w).1.db
      → ((a : A) → (m w).0 ≡ ok a → P (f a (m w).1).1.db)
      → P ((m >>= f) w).1.db
  bind_keeps m w h k = follow (m w).0 (m w).1 h k
