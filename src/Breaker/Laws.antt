-- ===== src/Breaker/Laws.antt =====
-- When the breaker opens and when it closes.
use mathlib.Core.Path.{subst}
use qiskit_serverless.Base.{
  List, [], arith, false, if◌then◌else◌, length, none, refl, some, sym, ℕ, ◌++◌, ◌+◌, ◌<◌, ◌∷◌, ◌≡◌,
  ◌≤◌,
}
use qiskit_serverless.Breaker.{
  CircuitBreaker, Settings, closed, is_open, record_failure, record_success,
}

-- What happens to a breaker: the outcome of a send.
pub data Outcome : Type 0 where
  success failure : Outcome

-- One send: the breaker is asked first, and nothing is sent while it is open.
unfoldable pub send_step : Settings → ℕ → Outcome → CircuitBreaker → CircuitBreaker
send_step settings now outcome b =
    let (open_now, b') = is_open settings now b in
    if open_now
    then b'
    else elim outcome [ success ↦ record_success b' | failure ↦ record_failure settings now b' ]

-- The invariant between two sends: a breaker that is closed has fewer failures than the threshold.
abbrev pub IsBelow : Settings → CircuitBreaker → Type 0
IsBelow settings b = b.opened_at ≡ none → b.consecutive_failures < settings.failure_threshold

pub closed-IsBelow :
    (settings : Settings) → 0 < settings.failure_threshold → IsBelow settings closed
unfolding closed
closed-IsBelow settings h = λ _. h

-- A send, whatever its outcome, keeps the invariant that a closed breaker has fewer consecutive
-- failures than a threshold above 0.
pub send_step-IsBelow :
    (settings : Settings) (now : ℕ) (outcome : Outcome) (b : CircuitBreaker)
    → 0 < settings.failure_threshold
    → IsBelow settings b
    → IsBelow settings (send_step settings now outcome b)
unfolding send_step is_open record_success record_failure
send_step-IsBelow settings now outcome b h p = ground (arith, p)

-- Sends at times given with their outcomes.
unfoldable pub sends : Settings → List (ℕ × Outcome) → CircuitBreaker → CircuitBreaker
sends settings [] b = b
sends settings ((now, outcome) ∷ rest) b = sends settings rest (send_step settings now outcome b)

-- A run of failures at given times.
abbrev pub failures_at : List ℕ → List (ℕ × Outcome)
failures_at [] = []
failures_at (t ∷ times) = (t, failure) ∷ failures_at times

-- A failure of a closed breaker under the threshold counts, and does no more.
failure-closed :
    (settings : Settings) (t : ℕ) (b : CircuitBreaker)
    → b.opened_at ≡ none
    → b.consecutive_failures + 1 < settings.failure_threshold
    → send_step settings t failure b
      ≡ record { consecutive_failures = b.consecutive_failures + 1; opened_at = none }
unfolding send_step is_open record_failure
failure-closed settings t b h lt = ground (arith, h)

failure-opens :
    (settings : Settings) (t : ℕ) (b : CircuitBreaker)
    → b.opened_at ≡ none
    → b.consecutive_failures + 1 ≡ settings.failure_threshold
    → send_step settings t failure b
      ≡ record { consecutive_failures = settings.failure_threshold; opened_at = some t }
unfolding send_step is_open record_failure
failure-opens settings t b h e = ground (arith, h)

-- From a closed breaker, failures one short of the threshold leave it closed, and the next failure
-- opens it at the time of that failure.
pub opens_at_threshold :
    (settings : Settings) (times : List ℕ) (t : ℕ) (b : CircuitBreaker)
    → b.opened_at ≡ none
    → b.consecutive_failures + length times + 1 ≡ settings.failure_threshold
    → ((sends settings (failures_at times) b).opened_at ≡ none)
      × (sends settings (failures_at (times ++ (t ∷ []))) b
          ≡ record { consecutive_failures = settings.failure_threshold; opened_at = some t })
unfolding sends
opens_at_threshold settings [] t b h e = (h, failure-opens settings t b h (omega arith))
opens_at_threshold settings (u ∷ times) t b h e =
    let b' : CircuitBreaker = record {
      consecutive_failures = b.consecutive_failures + 1;
      opened_at = none;
    } in
    subst
      (λ (c : CircuitBreaker).
        ((sends settings (failures_at times) c).opened_at ≡ none)
        × (sends settings (failures_at (times ++ (t ∷ []))) c
            ≡ record { consecutive_failures = settings.failure_threshold; opened_at = some t }))
      (sym (failure-closed settings u b h (omega arith)))
      (opens_at_threshold settings times t b' refl (omega arith))

-- Every one of the times is before the end of the pause.
abbrev pub AllBefore : ℕ → List (ℕ × Outcome) → Type 0
AllBefore end [] = Unit
AllBefore end ((now, outcome) ∷ rest) = (now < end) × AllBefore end rest

-- While its pause, longer than 0, is not over, no attempt to send changes an open breaker, and the
-- first question after it finds the breaker closed and its count at 0.
pub open_until_pause :
    (settings : Settings) (b : CircuitBreaker) (t now : ℕ) (attempts : List (ℕ × Outcome))
    → b.opened_at ≡ some t
    → 0 < settings.pause
    → AllBefore (t + settings.pause) attempts
    → (sends settings attempts b ≡ b)
      × (t + settings.pause ≤ now
          → is_open settings now (sends settings attempts b) ≡ (false, closed))
unfolding sends send_step is_open
open_until_pause settings b t now [] h pos before = (refl, λ late. ground (arith, h))
open_until_pause settings b t now ((u, outcome) ∷ rest) h pos (first, before) =
    let blocked : send_step settings u outcome b ≡ b = ground (arith, h) in
    rw blocked (open_until_pause settings b t now rest h pos before)

-- A success in between starts the streak again.
pub success_resets :
    (settings : Settings) (t : ℕ) (b : CircuitBreaker)
    → b.opened_at ≡ none
    → send_step settings t success b ≡ closed
unfolding send_step is_open record_success closed
success_resets settings t b h = ground (arith, h)
