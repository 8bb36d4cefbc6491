-- ===== src/Faults.antt =====
-- The exceptions that a job's operations raise, by class, and results that may be one.
use qiskit_serverless.Base.{Bool, false, refl, true, ◌≡◌}
use qiskit_serverless.Models.{Status}

pub data Error : Type 0 where
  invalid_transition : Status → Status → Error  -- InvalidJobTransitionException, from and to
  does_not_exist : Error  -- Job.DoesNotExist
  value_error attribute_error key_error runtime_error : Error
  runner_error : Error  -- RunnerError
  runner_retryable : Error  -- RunnerRetryableError, Code Engine did not answer
  cos_retryable : Error  -- CosRetryableError, a RunnerRetryableError
  fleet_appeared : Error  -- FleetAppearedError, a RunnerRetryableError
  db_outage : Error  -- OperationalError, InterfaceError

pub data Result {ℓ} (A : Type ℓ) : Type ℓ where
  ok : A → Result A
  err : Error → Result A

infixl 5 ◌>>=◌
abbrev pub ◌>>=◌ {ℓ κ} : {A : Type ℓ} {B : Type κ} → Result A → (A → Result B) → Result B
ok a >>= f = f a
err e >>= f = err e

-- `except RunnerRetryableError` catches its subclasses too.
abbrev pub is_retryable : Error → Bool
is_retryable runner_retryable = true
is_retryable cos_retryable = true
is_retryable fleet_appeared = true
is_retryable other = false

-- `except RunnerError`, which catches its subclasses.
abbrev pub is_runner_error : Error → Bool
is_runner_error runner_error = true
is_runner_error e = is_retryable e

abbrev pub is_invalid_transition : Error → Bool
is_invalid_transition (invalid_transition from to) = true
is_invalid_transition other = false

abbrev pub is_ok : {A : Type 0} → Result A → Bool
is_ok (ok a) = true
is_ok (err e) = false

-- A chain returns if its first result does, and what follows that one.
pub bind-ok :
    {A B : Type 0} (r : Result A) (k : A → Result B)
    → is_ok r ≡ true
    → ((a : A) → r ≡ ok a → is_ok (k a) ≡ true)
    → is_ok (r >>= k) ≡ true
bind-ok (ok a) k h p = p a refl
bind-ok (err e) k h p = absurd (cc h)
