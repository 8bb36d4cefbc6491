-- ===== src/Breaker.antt =====
-- The in-memory circuit breaker: gateway/scheduler/tasks/circuit_breaker.py. The Config entries that
-- it reads are its settings, the clock's reading is an argument, both in one unit of time.
pub mod Laws
use qiskit_serverless.Base.{
  Bool, Option, false, if◌then◌else◌, is_some, leb, none, not, some, true, ℕ, ◌&&◌, ◌+◌, ◌-◌,
}

pub record Settings : Type 0 where
  pub failure_threshold : ℕ
  pub pause : ℕ

pub record CircuitBreaker : Type 0 where
  pub consecutive_failures : ℕ
  pub opened_at : Option ℕ

-- `__init__`, and `_reset`.
unfoldable pub closed : CircuitBreaker
closed = record { consecutive_failures = 0; opened_at = none }

-- `is_open`: asking may close the breaker.
unfoldable pub is_open : Settings → ℕ → CircuitBreaker → Bool × CircuitBreaker
unfolding closed
is_open settings now b = elim b.opened_at [
  | none ↦ (false, b)
  | some t ↦ if leb settings.pause (now - t) then (false, closed) else (true, b)
]

-- `record_success`
unfoldable pub record_success : CircuitBreaker → CircuitBreaker
record_success b = record b { consecutive_failures = 0 }

-- `record_failure`
unfoldable pub record_failure : Settings → ℕ → CircuitBreaker → CircuitBreaker
record_failure settings now b =
    let failures = b.consecutive_failures + 1 in
    record {
      consecutive_failures = failures;
      opened_at =
          if leb settings.failure_threshold failures && not (is_some b.opened_at)
          then some now
          else b.opened_at;
    }
