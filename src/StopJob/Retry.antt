-- ===== src/StopJob/Retry.antt =====
-- `retry_function` of gateway/core/utils.py. A callback is asked by the number of the attempt, since the
-- world outside may answer each attempt otherwise; so are the seconds since the first one began.
use qiskit_serverless.Base.{
  Bool, Bool-cases, Option, arith, false, if◌then◌else◌, inl, inr, ltb, none, not, refl, some, suc,
  true, zero, ℕ, ap, ◌+◌, ◌≡◌, ◌≤◌, ◌∙◌,
}
use qiskit_serverless.Faults.{Error, Result, err, ok}

module _ {S A : Type 0} where
  -- What follows a failed attempt that is not the last: the exception, or the attempts after it.
  abbrev pub after_failure : Bool → Bool → Result A × S → Result A × S → Result A × S
  after_failure catches late (ok a, s) later = (ok a, s)
  after_failure catches late (err e, s) later =
      if not catches then (err e, s) else if late then (err e, s) else later

  abbrev pub caught_by : (Error → Bool) → Result A × S → Bool
  caught_by catches (ok a, s) = false
  caught_by catches (err e, s) = catches e

  abbrev pub returned : Result A × S → Result (Option A) × S
  returned (ok a, s) = (ok (some a), s)
  returned (err e, s) = (err e, s)

module _ {S A : Type 0} (callback : ℕ → S → Result A × S) (catches : Error → Bool) (elapsed : ℕ → ℕ)
    (budget : Option ℕ) where
  -- Whether the budget is spent after an attempt.
  abbrev pub out_of_time : ℕ → Bool
  out_of_time k = elim budget [ none ↦ false | some seconds ↦ ltb seconds (elapsed k) ]

  -- The attempts from a number on, with so many left after the first of them.
  unfoldable pub attempts_from : ℕ → ℕ → S → Result A × S
  attempts_from zero k s = callback k s
  attempts_from (suc left) k s =
      let later = attempts_from left (k + 1) (callback k s).1 in
      after_failure (caught_by catches (callback k s)) (out_of_time k) (callback k s) later

  -- `retry_function`; with no try allowed it returns None.
  unfoldable pub retry_function : ℕ → S → Result (Option A) × S
  unfolding attempts_from
  retry_function zero s = (ok none, s)
  retry_function (suc left) s = returned (attempts_from left 1 s)

  -- From one attempt to a later one, each failed with an exception that is caught, and in time.
  pub data Tries (i : ℕ) (s : S) : ℕ → S → Type 0 where
    begins : Tries i s i s
    fails :
        {k : ℕ} {t : S}
        → Tries i s k t
        → caught_by catches (callback k t) ≡ true
        → out_of_time k ≡ false
        → Tries i s (k + 1) (callback k t).1

  attempts-Tries :
      (left : ℕ) {i : ℕ} {s : S} {k : ℕ} {t : S}
      → Tries i s k t
      → (n : ℕ) × (u : S) × Tries i s n u × (n ≤ k + left) × (attempts_from left k t ≡ callback n u)
  unfolding attempts_from
  attempts-Tries zero {k} {t} tried = (k, t, tried, omega arith, refl)
  attempts-Tries (suc left) {k} {t} tried = elim (Bool-cases (caught_by catches (callback k t))) [
    | inr n ↦ (k, t, tried, omega arith, stays _ _ (callback k t) n)
    | inl y ↦ elim (Bool-cases (out_of_time k)) [
      | inl l ↦ (k, t, tried, omega arith, rw (y, l) (spent _ (callback k t)))
      | inr l ↦
          let (n, u, more, below, e) = attempts-Tries left (fails tried y l) in
          (n, u, more, omega (arith, below), rw (y, l) (goes_on _ (callback k t) y ∙ e))
    ]
  ]
    where
      stays :
          (b : Bool) (later r : Result A × S)
          → caught_by catches r ≡ false
          → after_failure (caught_by catches r) b r later ≡ r
      stays b later (ok a, s) h = refl
      stays b later (err e, s) h = rw h refl

      spent : (later r : Result A × S) → after_failure true true r later ≡ r
      spent later (ok a, s) = refl
      spent later (err e, s) = refl

      goes_on :
          (later r : Result A × S)
          → caught_by catches r ≡ true
          → after_failure true false r later ≡ later
      goes_on later (ok a, s) h = absurd (cc)
      goes_on later (err e, s) h = refl

  -- With at least one try allowed, the result is that of one of the attempts, no later than the last
  -- that is allowed; all before it failed with an exception that is caught, and in time.
  pub retry_function-Tries :
      (left : ℕ) (s : S)
      → (n : ℕ) × (u : S) × Tries 1 s n u
        × (n ≤ suc left)
        × (retry_function (suc left) s ≡ returned (callback n u))
  unfolding retry_function
  retry_function-Tries left s =
      let (n, u, tried, below, e) = attempts-Tries left begins in
      (n, u, tried, omega (arith, below), ap returned e)

  -- What every attempt keeps is kept by the retries.
  pub retry_function-keeps {κ} :
      (P : S → Type κ)
      → ((k : ℕ) (t : S) → P t → P (callback k t).1)
      → (n : ℕ) (s : S) → P s
      → P (retry_function n s).1
  retry_function-keeps P keep zero s p = unfold retry_function in p
  retry_function-keeps P keep (suc left) s p =
      let (n, u, tried, below, e) = retry_function-Tries left s in
      rw e (last (callback n u) (keep n u (along tried p)))
    where
      along : {i : ℕ} {s : S} {k : ℕ} {t : S} → Tries i s k t → P s → P t
      along begins p = p
      along (fails {k} {t} tried c l) p = keep k t (along tried p)

      last : (r : Result A × S) → P r.1 → P (returned r).1
      last (ok a, s) p = p
      last (err e, s) p = p
