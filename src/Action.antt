-- ===== src/Action.antt =====
-- utils/errors.ts, and what an `async` service method is: it reads and writes a state and returns or
-- throws. What was written before a throw stays written, since no service method opens a
-- transaction.
use sandbox_platform.Prelude.{
  ℕ, String, ◌≡◌, refl, ◌⊎◌, inl, inr, Bool, Option, none, some, if◌then◌else◌,
}

-- The subclasses of `HttpError` that carry a fixed status and code, an `HttpError` with its own, and
-- any other `Error` with its message. The message and details of the former are not modelled.
pub data AppError : Type 0 where
  bad_request unauthorized forbidden not_found conflict quota_exceeded invalid_state : AppError
  container_not_running account_pending password_change_required weak_password : AppError
  image_not_allowed : AppError
  http_error : ℕ → String → AppError
  failure : String → AppError

unfoldable pub status_code : AppError → ℕ
status_code bad_request = 400
status_code unauthorized = 401
status_code forbidden = 403
status_code not_found = 404
status_code conflict = 409
status_code quota_exceeded = 422
status_code invalid_state = 409
status_code container_not_running = 409
status_code account_pending = 403
status_code password_change_required = 403
status_code weak_password = 400
status_code image_not_allowed = 403
status_code (http_error status code) = status
status_code (failure message) = 500

unfoldable pub error_code : AppError → String
error_code bad_request = "BAD_REQUEST"
error_code unauthorized = "UNAUTHORIZED"
error_code forbidden = "FORBIDDEN"
error_code not_found = "NOT_FOUND"
error_code conflict = "CONFLICT"
error_code quota_exceeded = "QUOTA_EXCEEDED"
error_code invalid_state = "INVALID_STATE"
error_code container_not_running = "CONTAINER_NOT_RUNNING"
error_code account_pending = "ACCOUNT_PENDING"
error_code password_change_required = "PASSWORD_CHANGE_REQUIRED"
error_code weak_password = "WEAK_PASSWORD"
error_code image_not_allowed = "IMAGE_NOT_ALLOWED"
error_code (http_error status code) = code
error_code (failure message) = "INTERNAL_ERROR"

pub data Outcome {ℓ} (A : Type ℓ) : Type ℓ where
  ok : A → Outcome A
  err : AppError → Outcome A

abbrev pub Action : Type 0 → Type 0 → Type 0
Action S A = S → Outcome A × S

module _ {S : Type 0} where
  abbrev pub pure : {A : Type 0} → A → Action S A
  pure a s = (ok a, s)

  abbrev pub throw : {A : Type 0} → AppError → Action S A
  throw e s = (err e, s)

  abbrev pub gets : {A : Type 0} → (S → A) → Action S A
  gets f s = (ok (f s), s)

  abbrev pub modify : (S → S) → Action S (Unit {0})
  modify f s = (ok tt, f s)

  -- `if (b) throw e`
  abbrev pub throw_if : Bool → AppError → Action S (Unit {0})
  throw_if b e s = (if b then err e else ok tt, s)

  -- `if (!o) throw e`
  abbrev pub or_throw : {A : Type 0} → Option A → AppError → Action S A
  or_throw o e s = (elim o [ none ↦ err e | some a ↦ ok a ], s)

  infixl 5 ◌>>=◌ ◌>>◌
  abbrev pub ◌>>=◌ : {A B : Type 0} → Action S A → (A → Action S B) → Action S B
  ◌>>=◌ m f s = let (r, t) = m s in elim r [ ok a ↦ f a t | err e ↦ (err e, t) ]

  abbrev pub ◌>>◌ : {A B : Type 0} → Action S A → Action S B → Action S B
  m >> k = m >>= λ _. k

  -- `try { m } catch (err) { f(err) }`
  abbrev pub catch : {A : Type 0} → Action S A → (AppError → Action S A) → Action S A
  catch m f s = let (r, t) = m s in elim r [ ok a ↦ (ok a, t) | err e ↦ f e t ]

  -- `if (b) m`
  abbrev pub when : Bool → Action S (Unit {0}) → Action S (Unit {0})
  when b m = if b then m else pure tt

pub Outcome-cases {ℓ} :
    {A : Type ℓ} (r : Outcome A) → ((a : A) × (r ≡ ok a)) ⊎ ((e : AppError) × (r ≡ err e))
Outcome-cases (ok a) = inl (a, refl)
Outcome-cases (err e) = inr (e, refl)
