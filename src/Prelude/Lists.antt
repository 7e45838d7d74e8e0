-- ===== src/Prelude/Lists.antt =====
-- The queries and updates that the services run on a table, over its list of rows in the order of
-- their ids.
use Prim.Native.Nat.{ℕ, zero, suc, ◌+◌, ◌≤◌, ◌<◌}
use mathlib.Core.Logic.{inl, inr}
use mathlib.Core.Path.{◌≡◌, refl, ap}
use mathlib.Core.Bool.{Bool, true, false, ◌||◌}
use mathlib.Core.List.{List, [], ◌∷◌, ◌++◌}
use mathlib.Core.Option.{Option, none, some}
use native.Mathlib.Omega.{arith}
use sandbox_platform.Prelude.Tests.{if◌then◌else◌, Bool-cases}

-- What holds of every element.
abbrev pub All {ℓ κ} : {A : Type ℓ} → (A → Type κ) → List A → Type κ
All P [] = Unit
All P (x ∷ xs) = P x × All P xs

module _ {ℓ} {A : Type ℓ} where
  -- SELECT … WHERE p, the first row
  abbrev pub find_where : (A → Bool) → List A → Option A
  find_where p [] = none
  find_where p (x ∷ xs) = if p x then some x else find_where p xs

  -- SELECT … WHERE p
  abbrev pub select_where : (A → Bool) → List A → List A
  select_where p [] = []
  select_where p (x ∷ xs) = let rest = select_where p xs in if p x then x ∷ rest else rest

  -- SELECT COUNT(*) … WHERE p
  abbrev pub count_where : (A → Bool) → List A → ℕ
  count_where p [] = 0
  count_where p (x ∷ xs) = (if p x then 1 else 0) + count_where p xs

  -- UPDATE … SET f WHERE p
  abbrev pub update_where : (A → Bool) → (A → A) → List A → List A
  update_where p f [] = []
  update_where p f (x ∷ xs) = (if p x then f x else x) ∷ update_where p f xs

  -- DELETE … WHERE p
  abbrev pub delete_where : (A → Bool) → List A → List A
  delete_where p [] = []
  delete_where p (x ∷ xs) = let rest = delete_where p xs in if p x then rest else x ∷ rest

  -- SELECT … WHERE p ORDER BY id DESC LIMIT 1
  abbrev pub find_last_where : (A → Bool) → List A → Option A
  find_last_where p [] = none
  find_last_where p (x ∷ xs) =
      let later = find_last_where p xs in
      elim later [ none ↦ if p x then some x else none | some y ↦ some y ]

  -- SELECT COALESCE(SUM(f), 0) … WHERE p
  abbrev pub sum_where : (A → Bool) → (A → ℕ) → List A → ℕ
  sum_where p f [] = 0
  sum_where p f (x ∷ xs) = (if p x then f x else 0) + sum_where p f xs

  abbrev pub any_where : (A → Bool) → List A → Bool
  any_where p [] = false
  any_where p (x ∷ xs) = p x || any_where p xs

  abbrev pub length : List A → ℕ
  length [] = 0
  length (x ∷ xs) = suc (length xs)

  -- LIMIT n
  abbrev pub take : ℕ → List A → List A
  take zero xs = []
  take (suc n) [] = []
  take (suc n) (x ∷ xs) = x ∷ take n xs

  -- OFFSET n
  abbrev pub drop : ℕ → List A → List A
  drop zero xs = xs
  drop (suc n) [] = []
  drop (suc n) (x ∷ xs) = drop n xs

  -- ORDER BY id DESC
  abbrev pub reverse : List A → List A
  reverse [] = []
  reverse (x ∷ xs) = reverse xs ++ x ∷ []

  pub append_assoc : (xs ys zs : List A) → (xs ++ ys) ++ zs ≡ xs ++ (ys ++ zs)
  append_assoc [] ys zs = refl
  append_assoc (x ∷ xs) ys zs = ap (λ l. x ∷ l) (append_assoc xs ys zs)

  pub append_nil : (xs : List A) → xs ++ [] ≡ xs
  append_nil [] = refl
  append_nil (x ∷ xs) = ground (arith, append_nil xs)

  pub count_where-append :
      (p : A → Bool) (xs ys : List A)
      → count_where p (xs ++ ys) ≡ count_where p xs + count_where p ys
  count_where-append p [] ys = omega arith
  count_where-append p (x ∷ xs) ys = omega (arith, count_where-append p xs ys)

  pub find_where-holds :
      (p : A → Bool) (xs : List A) (x : A) → find_where p xs ≡ some x → p x ≡ true
  find_where-holds p [] x e = cc
  find_where-holds p (y ∷ xs) x e = ground (arith, find_where-holds p xs x)

  -- A row that was there is found before one that is appended.
  pub find_where-append :
      (p : A → Bool) (xs ys : List A) (x : A)
      → find_where p xs ≡ some x
      → find_where p (xs ++ ys) ≡ some x
  find_where-append p [] ys x e = cc
  find_where-append p (y ∷ xs) ys x e = ground (arith, find_where-append p xs ys x)

  -- An update that does not move rows in or out of `q` leaves the count of `q`.
  pub count_where-update :
      (p q : A → Bool) (f : A → A) (xs : List A)
      → ((x : A) → p x ≡ true → q (f x) ≡ q x)
      → count_where q (update_where p f xs) ≡ count_where q xs
  count_where-update p q f [] h = refl
  count_where-update p q f (x ∷ xs) h = ground (arith, h x, count_where-update p q f xs h)

  -- An update that moves no row into `q` does not raise the count of `q`.
  pub count_where-update_le :
      (p q : A → Bool) (f : A → A) (xs : List A)
      → ((x : A) → p x ≡ true → q (f x) ≡ true → q x ≡ true)
      → count_where q (update_where p f xs) ≤ count_where q xs
  count_where-update_le p q f [] h = omega arith
  count_where-update_le p q f (x ∷ xs) h = ground (arith, h x, count_where-update_le p q f xs h)

  pub count_where-delete_le :
      (p q : A → Bool) (xs : List A) → count_where q (delete_where p xs) ≤ count_where q xs
  count_where-delete_le p q [] = omega arith
  count_where-delete_le p q (x ∷ xs) = ground (arith, count_where-delete_le p q xs)

  -- The rows that an update on `p` leaves out of `q` are found as before.
  pub find_where-update :
      (p q : A → Bool) (f : A → A) (xs : List A)
      → ((x : A) → p x ≡ true → q x ≡ false)
      → ((x : A) → p x ≡ true → q (f x) ≡ false)
      → find_where q (update_where p f xs) ≡ find_where q xs
  find_where-update p q f [] h k = refl
  find_where-update p q f (x ∷ xs) h k = ground (arith, h x, k x, find_where-update p q f xs h k)

  -- The first row of `p`, when an update keeps the rows of `p` in `p`.
  pub find_where-update_self :
      (p : A → Bool) (f : A → A) (xs : List A) (x : A)
      → ((y : A) → p y ≡ true → p (f y) ≡ true)
      → find_where p xs ≡ some x
      → find_where p (update_where p f xs) ≡ some (f x)
  find_where-update_self p f [] x h e = cc
  find_where-update_self p f (y ∷ xs) x h e = ground (arith, h y, find_where-update_self p f xs x h)

  pub find_where-delete_self :
      (p : A → Bool) (xs : List A) → find_where p (delete_where p xs) ≡ none
  find_where-delete_self p [] = refl
  find_where-delete_self p (x ∷ xs) = ground (arith, find_where-delete_self p xs)

  pub count_where-update_none :
      (p : A → Bool) (f : A → A) (xs : List A)
      → ((x : A) → p (f x) ≡ false)
      → count_where p (update_where p f xs) ≡ 0
  count_where-update_none p f [] h = refl
  count_where-update_none p f (x ∷ xs) h = ground (arith, h x, count_where-update_none p f xs h)

  -- A row of `q` that is found, and that an update takes out of `q`, is one less in `q`.
  pub count_where-update_lt :
      (o p q : A → Bool) (f : A → A) (xs : List A) (x : A)
      → find_where o xs ≡ some x
      → p x ≡ true
      → q x ≡ true
      → ((y : A) → q (f y) ≡ false)
      → count_where q (update_where p f xs) < count_where q xs
  count_where-update_lt o p q f [] x e a b h = cc
  count_where-update_lt o p q f (y ∷ xs) x e a b h = ground (
    arith,
    h y,
    count_where-update_le p q f xs (λ z i j. ground (arith, h z)),
    count_where-update_lt o p q f xs x,
  )

  -- An update that keeps rows in `p` and out of it: the first row of `p` is the same one, updated or not.
  pub find_where-update_kept :
      (p q : A → Bool) (f : A → A) (xs : List A) (x : A)
      → ((y : A) → p (f y) ≡ p y)
      → find_where p xs ≡ some x
      → find_where p (update_where q f xs) ≡ some (if q x then f x else x)
  find_where-update_kept p q f [] x h e = cc
  find_where-update_kept p q f (y ∷ xs) x h e =
      ground (arith, h y, find_where-update_kept p q f xs x h)

  pub update_where-none :
      (p : A → Bool) (f : A → A) (xs : List A) → count_where p xs ≡ 0 → update_where p f xs ≡ xs
  update_where-none p f [] h = refl
  update_where-none p f (x ∷ xs) h = ground (arith, update_where-none p f xs)

  pub update_where-append :
      (p : A → Bool) (f : A → A) (xs ys : List A)
      → update_where p f (xs ++ ys) ≡ update_where p f xs ++ update_where p f ys
  update_where-append p f [] ys = refl
  update_where-append p f (x ∷ xs) ys = ground (arith, update_where-append p f xs ys)

  pub delete_where-none :
      (p : A → Bool) (xs : List A) → count_where p xs ≡ 0 → delete_where p xs ≡ xs
  delete_where-none p [] h = refl
  delete_where-none p (x ∷ xs) h = ground (arith, delete_where-none p xs)

  pub delete_where-append :
      (p : A → Bool) (xs ys : List A)
      → delete_where p (xs ++ ys) ≡ delete_where p xs ++ delete_where p ys
  delete_where-append p [] ys = refl
  delete_where-append p (x ∷ xs) ys = ground (arith, delete_where-append p xs ys)

  pub count_where-none :
      (p : A → Bool) (xs : List A) → find_where p xs ≡ none → count_where p xs ≡ 0
  count_where-none p [] h = refl
  count_where-none p (x ∷ xs) h = ground (arith, count_where-none p xs)

  -- An appended row is the one found where no row before it fits.
  pub find_where-append_new :
      (p : A → Bool) (xs : List A) (y : A)
      → count_where p xs ≡ 0
      → p y ≡ true
      → find_where p (xs ++ y ∷ []) ≡ some y
  find_where-append_new p [] y h e = ground arith
  find_where-append_new p (x ∷ xs) y h e = ground (arith, find_where-append_new p xs y)

  pub count_where-found :
      (p : A → Bool) (xs : List A) (x : A) → find_where p xs ≡ some x → 0 < count_where p xs
  count_where-found p [] x e = cc
  count_where-found p (y ∷ xs) x e = ground (arith, count_where-found p xs x)

  -- The rows of `q` are the same where the update, or the deletion, is of other rows.
  pub select_where-update :
      (p q : A → Bool) (f : A → A) (xs : List A)
      → ((x : A) → p x ≡ true → q x ≡ false)
      → ((x : A) → p x ≡ true → q (f x) ≡ false)
      → select_where q (update_where p f xs) ≡ select_where q xs
  select_where-update p q f [] h k = refl
  select_where-update p q f (x ∷ xs) h k =
      ground (arith, h x, k x, select_where-update p q f xs h k)

  pub select_where-delete :
      (p q : A → Bool) (xs : List A)
      → ((x : A) → p x ≡ true → q x ≡ false)
      → select_where q (delete_where p xs) ≡ select_where q xs
  select_where-delete p q [] h = refl
  select_where-delete p q (x ∷ xs) h = ground (arith, h x, select_where-delete p q xs h)

  pub select_where-append_none :
      (q : A → Bool) (xs : List A) (y : A)
      → q y ≡ false
      → select_where q (xs ++ y ∷ []) ≡ select_where q xs
  select_where-append_none q [] y h = ground arith
  select_where-append_none q (x ∷ xs) y h = ground (arith, select_where-append_none q xs y h)

  pub All-update {κ} :
      (P : A → Type κ) (p : A → Bool) (f : A → A) (xs : List A)
      → ((x : A) → P x → P (f x))
      → All P xs
      → All P (update_where p f xs)
  All-update P p f [] h a = tt
  All-update P p f (x ∷ xs) h a = elim (Bool-cases (p x)) [
    | inl e ↦ rw e (h x a.0, All-update P p f xs h a.1)
    | inr e ↦ rw e (a.0, All-update P p f xs h a.1)
  ]

  pub All-delete {κ} :
      (P : A → Type κ) (p : A → Bool) (xs : List A) → All P xs → All P (delete_where p xs)
  All-delete P p [] a = tt
  All-delete P p (x ∷ xs) a = elim (Bool-cases (p x)) [
    | inl e ↦ rw e (All-delete P p xs a.1)
    | inr e ↦ rw e (a.0, All-delete P p xs a.1)
  ]

  pub All-append {κ} : (P : A → Type κ) (xs ys : List A) → All P xs → All P ys → All P (xs ++ ys)
  All-append P [] ys a b = b
  All-append P (x ∷ xs) ys a b = (a.0, All-append P xs ys a.1 b)

  pub All-mono {κ μ} :
      (P : A → Type κ) (Q : A → Type μ) (xs : List A) → ((x : A) → P x → Q x) → All P xs → All Q xs
  All-mono P Q [] h a = tt
  All-mono P Q (x ∷ xs) h a = (h x a.0, All-mono P Q xs h a.1)
