-- ===== src/Base/Sort.antt =====
-- A stable sort by a key, for the orderings that the queries ask for.
use Prim.Native.Nat.{ℕ, zero, suc, ◌+◌, ◌≤◌}
use mathlib.Core.Path.{◌≡◌, refl}
use mathlib.Core.Logic.{inl, inr}
use mathlib.Core.Bool.{Bool}
use mathlib.Core.List.{List, [], ◌∷◌}
use native.Mathlib.Omega.{arith}
use qiskit_serverless.Base.Tests.{if◌then◌else◌, leb, Bool-cases}
use qiskit_serverless.Base.Lists.{count, filter, take}

module _ {ℓ} {A : Type ℓ} (key : A → ℕ) where
  -- Before the first element with a greater key.
  unfoldable pub insert_by : A → List A → List A
  insert_by x [] = x ∷ []
  insert_by x (y ∷ ys) = if leb (key x) (key y) then x ∷ (y ∷ ys) else y ∷ insert_by x ys

  -- `order_by(key)`: elements with one key keep their order.
  unfoldable pub sort_by : List A → List A
  unfolding insert_by
  sort_by [] = []
  sort_by (x ∷ xs) = insert_by x (sort_by xs)

  count-insert_by :
      (p : A → Bool) (x : A) (xs : List A)
      → count p (insert_by x xs) ≡ (if p x then 1 else 0) + count p xs
  unfolding insert_by
  count-insert_by p x [] = refl
  count-insert_by p x (y ∷ ys) = ground (arith, count-insert_by p x ys)

  -- A sort keeps every element, as often.
  pub count-sort_by : (p : A → Bool) (xs : List A) → count p (sort_by xs) ≡ count p xs
  unfolding sort_by
  count-sort_by p [] = refl
  count-sort_by p (x ∷ xs) = rw (count-insert_by p x (sort_by xs), count-sort_by p xs)

  -- No key is smaller than this one.
  abbrev pub IsAbove : ℕ → List A → Type 0
  IsAbove n [] = Unit
  IsAbove n (x ∷ xs) = (n ≤ key x) × IsAbove n xs

  abbrev pub IsSorted : List A → Type 0
  IsSorted [] = Unit
  IsSorted (x ∷ xs) = IsAbove (key x) xs × IsSorted xs

  IsAbove-le : (n m : ℕ) (xs : List A) → n ≤ m → IsAbove m xs → IsAbove n xs
  IsAbove-le n m [] h p = tt
  IsAbove-le n m (x ∷ xs) h (le, p) = (omega arith, IsAbove-le n m xs h p)

  IsAbove-insert_by :
      (n : ℕ) (x : A) (xs : List A) → n ≤ key x → IsAbove n xs → IsAbove n (insert_by x xs)
  unfolding insert_by
  IsAbove-insert_by n x [] h p = (h, tt)
  IsAbove-insert_by n x (y ∷ ys) h (le, p) = elim (Bool-cases (leb (key x) (key y))) [
    | inl first ↦ rw first (h, (le, p))
    | inr later ↦ rw later (le, IsAbove-insert_by n x ys h p)
  ]

  IsSorted-insert_by : (x : A) (xs : List A) → IsSorted xs → IsSorted (insert_by x xs)
  unfolding insert_by
  IsSorted-insert_by x [] h = (tt, tt)
  IsSorted-insert_by x (y ∷ ys) (above, sorted) = elim (Bool-cases (leb (key x) (key y))) [
    | inl first ↦
        let le : key x ≤ key y = ground (arith, first) in
        rw first ((le, IsAbove-le (key x) (key y) ys le above), (above, sorted))
    | inr later ↦
        let le : key y ≤ key x = ground (arith, later) in
        rw later (IsAbove-insert_by (key y) x ys le above, IsSorted-insert_by x ys sorted)
  ]

  pub IsSorted-sort_by : (xs : List A) → IsSorted (sort_by xs)
  unfolding sort_by
  IsSorted-sort_by [] = tt
  IsSorted-sort_by (x ∷ xs) = IsSorted-insert_by x (sort_by xs) (IsSorted-sort_by xs)

  IsAbove-filter : (n : ℕ) (p : A → Bool) (xs : List A) → IsAbove n xs → IsAbove n (filter p xs)
  IsAbove-filter n p [] h = tt
  IsAbove-filter n p (x ∷ xs) (le, h) = elim (Bool-cases (p x)) [
    | inl kept ↦ rw kept (le, IsAbove-filter n p xs h)
    | inr dropped ↦ rw dropped (IsAbove-filter n p xs h)
  ]

  pub IsSorted-filter : (p : A → Bool) (xs : List A) → IsSorted xs → IsSorted (filter p xs)
  IsSorted-filter p [] h = tt
  IsSorted-filter p (x ∷ xs) (above, h) = elim (Bool-cases (p x)) [
    | inl kept ↦ rw kept (IsAbove-filter (key x) p xs above, IsSorted-filter p xs h)
    | inr dropped ↦ rw dropped (IsSorted-filter p xs h)
  ]

  IsAbove-take : (n m : ℕ) (xs : List A) → IsAbove n xs → IsAbove n (take m xs)
  IsAbove-take n zero xs h = tt
  IsAbove-take n (suc m) [] h = tt
  IsAbove-take n (suc m) (x ∷ xs) (le, h) = (le, IsAbove-take n m xs h)

  pub IsSorted-take : (m : ℕ) (xs : List A) → IsSorted xs → IsSorted (take m xs)
  IsSorted-take zero xs h = tt
  IsSorted-take (suc m) [] h = tt
  IsSorted-take (suc m) (x ∷ xs) (above, h) =
      (IsAbove-take (key x) m xs above, IsSorted-take m xs h)
