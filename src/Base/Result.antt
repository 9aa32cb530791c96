-- ===== src/Base/Result.antt =====
-- Rust's `Result`, with `?` as the bind, and the loop `for x in xs { acc = f(acc, x)?; }`.
use mathlib.Core.Path.{◌≡◌, refl, subst}
use mathlib.Core.Logic.{◌⊎◌, inl, inr}
use mathlib.Core.Bool.{Bool, false, ◌||◌}
use mathlib.Core.Option.{Option, none, some}
use mathlib.Core.List.{List, [], ◌∷◌}
use native.Mathlib.Omega.{arith}

pub data Result {ℓ} (E A : Type ℓ) : Type ℓ where
  ok : A → Result E A
  err : E → Result E A

pub Result-cases {ℓ} :
    {E A : Type ℓ} (r : Result E A) → ((a : A) × (r ≡ ok a)) ⊎ ((e : E) × (r ≡ err e))
Result-cases (ok a) = inl (a, refl)
Result-cases (err e) = inr (e, refl)

infixl 5 ◌>>=◌
abbrev pub ◌>>=◌ {ℓ} : {E A B : Type ℓ} → Result E A → (A → Result E B) → Result E B
ok a >>= f = f a
err e >>= f = err e

module _ {ℓ} {E A B : Type ℓ} where
  unfoldable pub for_each : (A → B → Result E A) → A → List B → Result E A
  for_each f acc [] = ok acc
  for_each f acc (x ∷ xs) = f acc x >>= λ a. for_each f a xs

-- The error of a result, if it is one.
abbrev pub error_of {ℓ} : {E A : Type ℓ} → Result E A → Option E
error_of (ok a) = none
error_of (err e) = some e

abbrev pub any_of {ℓ} : {B : Type ℓ} → (B → Bool) → List B → Bool
any_of p [] = false
any_of p (x ∷ xs) = p x || any_of p xs

abbrev pub first_error {ℓ} : {E B : Type ℓ} → (B → Option E) → List B → Option E
first_error check [] = none
first_error check (x ∷ xs) = elim (check x) [ some e ↦ some e | none ↦ first_error check xs ]

module _ {ℓ} {E A B : Type ℓ} (f : A → B → Result E A) where
  -- An invariant of the body is one of the loop.
  pub for_each-inv {κ} :
      (P : A → Type κ)
      → ((a : A) (x : B) (a' : A) → P a → f a x ≡ ok a' → P a')
      → (acc : A) (xs : List B) (r : A) → P acc
      → for_each f acc xs ≡ ok r
      → P r
  unfolding for_each
  for_each-inv P keep acc [] r h e = ground (arith, subst P {x = acc} {y = r})
  for_each-inv P keep acc (x ∷ xs) r h e = elim (Result-cases (f acc x)) [
    | inl (a, p) ↦ for_each-inv P keep a xs r (keep acc x a h p) (rw p at e)
    | inr (_, p) ↦ absurd (cc (rw p at e))
  ]

  -- A view that each round extends by the item's share.
  pub for_each-view :
      (view : A → Bool) (share : B → Bool)
      → ((a : A) (x : B) (a' : A) → f a x ≡ ok a' → view a' ≡ (view a || share x))
      → (acc : A) (xs : List B) (r : A) → for_each f acc xs ≡ ok r
      → view r ≡ (view acc || any_of share xs)
  unfolding for_each
  for_each-view view share step acc [] r e = ground arith
  for_each-view view share step acc (x ∷ xs) r e = elim (Result-cases (f acc x)) [
    | inl (a, p) ↦ ground (arith, for_each-view view share step a xs r (rw p at e), step acc x a p)
    | inr (_, p) ↦ absurd (cc (rw p at e))
  ]

  -- Where the errors of the body depend on the item only, the loop's is the first.
  pub for_each-error :
      (check : B → Option E)
      → ((a : A) (x : B) → error_of (f a x) ≡ check x)
      → (acc : A) (xs : List B) → error_of (for_each f acc xs) ≡ first_error check xs
  unfolding for_each
  for_each-error check step acc [] = refl
  for_each-error check step acc (x ∷ xs) = elim (Result-cases (f acc x)) [
    | inl (a, p) ↦ rw p (ground (arith, step acc x, for_each-error check step a xs, p))
    | inr (_, p) ↦ rw p (ground (arith, step acc x, p))
  ]
