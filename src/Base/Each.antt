-- ===== src/Base/Each.antt =====
-- A property of each element of a list, and how a list is cut in two.
use Prim.Native.Nat.{ℕ, zero, suc}
use mathlib.Core.Path.{◌≡◌, refl, ap}
use mathlib.Core.Logic.{inl, inr, ◌⊎◌}
use mathlib.Core.Bool.{Bool}
use mathlib.Core.List.{List, [], ◌∷◌, ◌++◌}
use qiskit_serverless.Base.Tests.{leb, Bool-cases}
use qiskit_serverless.Base.Lists.{filter, length, take}
use qiskit_serverless.Base.Sort.{insert_by, sort_by}

module _ {ℓ} {A : Type ℓ} where
  -- The first elements and the others: there are no others, or as many first ones as asked for.
  pub take-rest :
      (n : ℕ) (xs : List A)
      → (rest : List A) × (xs ≡ take n xs ++ rest) × ((rest ≡ []) ⊎ (length (take n xs) ≡ n))
  take-rest zero xs = (xs, refl, inr refl)
  take-rest (suc n) [] = ([], refl, inl refl)
  take-rest (suc n) (x ∷ xs) =
      let (rest, cut, end) = take-rest n xs in
      (rest, ap (λ ys. x ∷ ys) cut, elim end [ inl e ↦ inl e | inr e ↦ inr (ap suc e) ])

  module _ (P : A → Type 0) where
    abbrev pub Each : List A → Type 0
    Each [] = Unit
    Each (x ∷ xs) = P x × Each xs

    pub Each-filter : (p : A → Bool) (xs : List A) → Each xs → Each (filter p xs)
    Each-filter p [] h = tt
    Each-filter p (x ∷ xs) (px, h) = elim (Bool-cases (p x)) [
      | inl kept ↦ rw kept (px, Each-filter p xs h)
      | inr dropped ↦ rw dropped (Each-filter p xs h)
    ]

    Each-insert_by : (key : A → ℕ) (x : A) (xs : List A) → P x → Each xs → Each (insert_by key x xs)
    unfolding insert_by
    Each-insert_by key x [] px h = (px, tt)
    Each-insert_by key x (y ∷ ys) px (py, h) = elim (Bool-cases (leb (key x) (key y))) [
      | inl first ↦ rw first (px, (py, h))
      | inr later ↦ rw later (py, Each-insert_by key x ys px h)
    ]

    pub Each-sort_by : (key : A → ℕ) (xs : List A) → Each xs → Each (sort_by key xs)
    unfolding sort_by
    Each-sort_by key [] h = tt
    Each-sort_by key (x ∷ xs) (px, h) =
        Each-insert_by key x (sort_by key xs) px (Each-sort_by key xs h)
