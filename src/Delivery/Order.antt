-- ===== src/Delivery/Order.antt =====
-- Which rows a batch is made of, and how long a failed row waits.
use qiskit_serverless.Base.{
  Bool, Bool-cases, List, Option, String, [], arith, count, filter, inl, inr, leb, max, min, refl,
  suc, take, zero, ℕ, ◌&&◌, ◌*◌, ◌==◌, ◌^◌, ◌∷◌, ◌≡◌, ◌≤◌,
}
use qiskit_serverless.Delivery.{RetryConfig, is_due, next_batch, retry_wait}
use qiskit_serverless.Base.Sort.{IsAbove, IsSorted, IsSorted-sort_by, count-sort_by, sort_by}
use qiskit_serverless.Models.{Channel, Outbox}

-- In a sorted list, the elements of the least possible key come first.
count-take-sorted :
    {A : Type 0} (key : A → ℕ) (n : ℕ) (xs : List A)
    → IsSorted key xs
    → count (λ x. key x == 0) (take n xs) ≡ min n (count (λ x. key x == 0) xs)
count-take-sorted key zero xs h = omega arith
count-take-sorted key (suc n) [] h = omega arith
count-take-sorted key (suc n) (x ∷ xs) (above, h) = elim (Bool-cases (key x == 0)) [
  | inl least ↦ rw least (omega (arith, count-take-sorted key n xs h))
  | inr greater ↦
      let pos : 1 ≤ key x = ground (arith, greater) in
      rw greater (
        ground (
          arith,
          count-above key (key x) xs pos above,
          count-above-take key (key x) n xs pos above,
        ))
]
  where
    count-above :
        {A : Type 0} (key : A → ℕ) (m : ℕ) (xs : List A)
        → 1 ≤ m
        → IsAbove key m xs
        → count (λ x. key x == 0) xs ≡ 0
    count-above key m [] pos h = refl
    count-above key m (x ∷ xs) pos (le, h) = ground (arith, le, pos, count-above key m xs pos h)

    count-above-take :
        {A : Type 0} (key : A → ℕ) (m n : ℕ) (xs : List A)
        → 1 ≤ m
        → IsAbove key m xs
        → count (λ x. key x == 0) (take n xs) ≡ 0
    count-above-take key m zero xs pos h = refl
    count-above-take key m (suc n) [] pos h = refl
    count-above-take key m (suc n) (x ∷ xs) pos (le, h) =
        ground (arith, le, pos, count-above-take key m n xs pos h)

count-filter :
    {A : Type 0} (p q : A → Bool) (xs : List A) → count p (filter q xs) ≡ count (λ x. q x && p x) xs
count-filter p q [] = refl
count-filter p q (x ∷ xs) = ground (arith, count-filter p q xs)

-- Of the rows that are due, those that never failed go first: a batch holds a hundred of them, or all
-- of them if they are fewer, however many rows that failed are due.
pub fresh_first :
    (channel : Channel) (region : Option String) (now : ℕ) (outbox : List Outbox)
    → count (λ r. r.attempts == 0) (next_batch channel region now outbox)
      ≡ min 100 (count (λ r. is_due channel region now r && r.attempts == 0) outbox)
unfolding next_batch
fresh_first channel region now outbox =
    let fresh = λ (r : Outbox). r.attempts == 0 in
    let due = filter (is_due channel region now) outbox in
    let by_pk = sort_by (λ (r : Outbox). r.pk) due in
    let by_age = sort_by (λ (r : Outbox). r.created) by_pk in
    omega (
      arith,
      count-take-sorted (λ (r : Outbox). r.attempts) 100
          (sort_by (λ (r : Outbox). r.attempts) by_age)
          (IsSorted-sort_by (λ (r : Outbox). r.attempts) by_age),
      count-sort_by (λ (r : Outbox). r.attempts) fresh by_age,
      count-sort_by (λ (r : Outbox). r.created) fresh by_pk,
      count-sort_by (λ (r : Outbox). r.pk) fresh due,
      count-filter fresh (is_due channel region now) outbox,
    )

pow_mono : (n m : ℕ) → n ≤ m → 2 ^ n ≤ 2 ^ m
pow_mono n zero h = let e : n ≡ 0 = omega arith in rw e (omega arith)
pow_mono n (suc m) h = elim (Bool-cases (leb n m)) [
  | inl below ↦ ground (arith, below, pow_mono n m)
  | inr top ↦ let e : n ≡ suc m = ground (arith, top, h) in rw e (omega arith)
]

mul_mono : (b x y : ℕ) → x ≤ y → b * x ≤ b * y
mul_mono zero x y h = omega arith
mul_mono (suc b) x y h = omega (arith, mul_mono b x y h)

-- A failed row waits at least a second and at most a day, no longer than the cap of the destination
-- if that is a second or more, and never less than after an earlier failure.
pub retry_wait_bounds :
    (config : RetryConfig) (n m : ℕ)
    → n ≤ m
    → (1 ≤ retry_wait config n)
      × (retry_wait config m ≤ 86400)
      × (retry_wait config m ≤ max 1 config.cap)
      × (retry_wait config n ≤ retry_wait config m)
unfolding retry_wait
retry_wait_bounds config n m h =
    let grows =
      mul_mono config.base (2 ^ min n 30) (2 ^ min m 30)
        (pow_mono (min n 30) (min m 30) (omega (arith, h))) in
    (omega arith, omega arith, omega arith, omega (arith, grows))
