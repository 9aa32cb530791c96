-- ===== src/Base/Sort.antt =====
-- `slice::sort_by`: a stable sort, as insertion from the back, and what it keeps.
use Prim.Native.Nat.{ℕ, ◌+◌}
use mathlib.Core.Path.{◌≡◌, refl, ◌∙◌, ap}
use mathlib.Core.Logic.{inl, inr}
use mathlib.Core.Bool.{Bool, true, false}
use mathlib.Core.List.{List, [], ◌∷◌}
use native.Mathlib.Omega.{arith}
use redis_event_stream_modul.Base.Tests.{if◌then◌else◌, Bool-cases}
use redis_event_stream_modul.Base.Lists.{All}

module _ {ℓ} {A : Type ℓ} where
  -- `Iterator::filter`
  unfoldable pub filter : (A → Bool) → List A → List A
  filter p [] = []
  filter p (x ∷ xs) = let rest = filter p xs in if p x then x ∷ rest else rest

  abbrev pub count : (A → Bool) → List A → ℕ
  count p [] = 0
  count p (x ∷ xs) = (if p x then 1 else 0) + count p xs

module _ {ℓ} {A : Type ℓ} (le : A → A → Bool) where
  unfoldable pub insert_by : A → List A → List A
  insert_by x [] = x ∷ []
  insert_by x (y ∷ ys) = let rest = insert_by x ys in if le x y then x ∷ y ∷ ys else y ∷ rest

  unfoldable pub sort_by : List A → List A
  sort_by [] = []
  sort_by (x ∷ xs) = insert_by x (sort_by xs)

  abbrev pub IsBelowFirst : A → List A → Type 0
  IsBelowFirst x [] = Unit
  IsBelowFirst x (y ∷ ys) = le x y ≡ true

  -- Each element is at most the next one.
  abbrev pub IsAscending : List A → Type 0
  IsAscending [] = Unit
  IsAscending (x ∷ xs) = IsBelowFirst x xs × IsAscending xs

  -- Each element is at most every later one.
  abbrev pub IsOrdered : List A → Type 0
  IsOrdered [] = Unit
  IsOrdered (x ∷ xs) = All (λ y. le x y ≡ true) xs × IsOrdered xs

  count-insert_by :
      (p : A → Bool) (x : A) (ys : List A) → count p (insert_by x ys) ≡ count p (x ∷ ys)
  unfolding insert_by
  count-insert_by p x [] = refl
  count-insert_by p x (y ∷ ys) = ground (arith, count-insert_by p x ys)

  module _ (total : (x y : A) → le x y ≡ false → le y x ≡ true) where
    insert_by-IsBelowFirst :
        (z x : A) (ys : List A)
        → le z x ≡ true
        → IsBelowFirst z ys
        → IsBelowFirst z (insert_by x ys)
    unfolding insert_by
    insert_by-IsBelowFirst z x [] h k = h
    insert_by-IsBelowFirst z x (y ∷ ys) h k = ground arith

    insert_by-IsAscending : (x : A) (ys : List A) → IsAscending ys → IsAscending (insert_by x ys)
    unfolding insert_by
    insert_by-IsAscending x [] h = (tt, tt)
    insert_by-IsAscending x (y ∷ ys) h = elim (Bool-cases (le x y)) [
      | inl e ↦ rw e (e, h)
      | inr e ↦
          rw e (insert_by-IsBelowFirst y x ys (total x y e) h.0, insert_by-IsAscending x ys h.1)
    ]

    pub sort_by-IsAscending : (xs : List A) → IsAscending (sort_by xs)
    unfolding sort_by
    sort_by-IsAscending [] = tt
    sort_by-IsAscending (x ∷ xs) = insert_by-IsAscending x (sort_by xs) (sort_by-IsAscending xs)

  module _ (p : A → Bool) where
    filter-insert_by_out :
        (x : A) (ys : List A) → p x ≡ false → filter p (insert_by x ys) ≡ filter p ys
    unfolding filter insert_by
    filter-insert_by_out x [] h = rw h refl
    filter-insert_by_out x (y ∷ ys) h = ground (arith, filter-insert_by_out x ys h)

    filter-insert_by_in :
        (x : A) (ys : List A)
        → p x ≡ true
        → All (λ y. le x y ≡ true) (filter p ys)
        → filter p (insert_by x ys) ≡ x ∷ filter p ys
    unfolding filter insert_by
    filter-insert_by_in x [] h k = rw h refl
    filter-insert_by_in x (y ∷ ys) h k = elim (Bool-cases (p y)) [
      | inl e ↦ let below = rw e at k in ground arith
      | inr e ↦ ground (arith, filter-insert_by_in x ys h (rw e at k))
    ]

    -- Items that are in order already stay as they are among themselves.
    pub filter-sort_by :
        (xs : List A) → IsOrdered (filter p xs) → filter p (sort_by xs) ≡ filter p xs
    unfolding filter sort_by
    filter-sort_by [] h = refl
    filter-sort_by (x ∷ xs) h = elim (Bool-cases (p x)) [
      | inl e ↦
          let ordered = rw e at h in
          let ih = filter-sort_by xs ordered.1 in
          rw e (filter-insert_by_in x (sort_by xs) e (rw ih ordered.0) ∙ ap (λ ys. x ∷ ys) ih)
      | inr e ↦ rw e (filter-insert_by_out x (sort_by xs) e ∙ filter-sort_by xs (rw e at h))
    ]

  -- How often the items of a kind occur does not change.
  pub count-sort_by : (p : A → Bool) (xs : List A) → count p (sort_by xs) ≡ count p xs
  unfolding sort_by
  count-sort_by p [] = refl
  count-sort_by p (x ∷ xs) = omega (arith, count-insert_by p x (sort_by xs), count-sort_by p xs)
