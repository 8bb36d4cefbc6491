-- ===== src/Delivery/Ends.antt =====
-- A drain ends: a row is tried at most once while the clock has not moved by a second.
use qiskit_serverless.Base.{
  Bool, Bool-cases, List, Option, String, [], arith, count, false, if◌then◌else◌, inl, inr, is_some,
  none, refl, some, suc, true, zero, ℕ, ◌+◌, ◌<◌, ◌∷◌, ◌≡◌,
}
use qiskit_serverless.Delivery.{
  DrainState, Outside, RetryConfig, Sender, breaker_is_open, drain_region, may_continue, next_batch,
  send_rows, should_continue_draining, unless_empty,
}
use qiskit_serverless.Breaker.{Settings, is_open}
use qiskit_serverless.Models.{Channel, Outbox}
use qiskit_serverless.Transitions.Methods.{stop}
use qiskit_serverless.Delivery.Waiting.{is_waiting}
use qiskit_serverless.Delivery.Shrinks.{
  Halted, Progress, Steady, first-waits, is_open-none, send_rows-Progress, to_try,
}

module _ (outside : Outside) (settings : Settings) (config : RetryConfig) (channel : Channel)
    (region : Option String) (horizon deadline : ℕ) (steady : Steady outside horizon) where
  abbrev left : DrainState → ℕ
  left = to_try outside settings config channel region horizon deadline steady

  abbrev Moves : DrainState → DrainState → Type 0
  Moves = Progress outside settings config channel region horizon deadline steady

  if_some :
      (b : Bool) (x y : Option DrainState)
      → is_some x ≡ true
      → is_some y ≡ true
      → is_some (if b then x else y) ≡ true
  if_some true x y p q = p
  if_some false x y p q = q

  Halted-returns :
      (sender : Sender) (fuel : ℕ) (st : DrainState)
      → Halted outside deadline st
      → is_some (drain_region outside settings config sender channel region deadline (suc fuel) st)
        ≡ true
  unfolding drain_region breaker_is_open should_continue_draining
  Halted-returns sender fuel st stop =
      let no_more = stop (st.asked + 1) (omega arith) in
      rw no_more (
        if_some (is_open settings (outside.monotonic st.asked) st.breaker).0 (some _) (some _) refl
          refl)

  -- The rest of a drain after a batch returns, by the rows that it left or because it was told to stop.
  rest_returns :
      (sender : Sender) (fuel : ℕ) (st v : DrainState)
      → left st < fuel
      → ((u : DrainState)
          → left u + 1 < fuel
          → is_some (drain_region outside settings config sender channel region deadline fuel u)
            ≡ true)
      → Moves st v
      → is_some (drain_region outside settings config sender channel region deadline fuel v) ≡ true
  rest_returns sender zero st v enough ih p = absurd (omega (arith, enough))
  rest_returns sender (suc fuel) st v enough ih (inl fewer) = ih v (omega (arith, enough, fewer))
  rest_returns sender (suc fuel) st v enough ih (inr stop) = Halted-returns sender fuel v stop

  drain_region-returns :
      (sender : Sender) (fuel : ℕ) (st : DrainState)
      → left st + 1 < fuel
      → is_some (drain_region outside settings config sender channel region deadline fuel st) ≡ true
  unfolding drain_region breaker_is_open should_continue_draining
  drain_region-returns sender zero st enough = absurd (omega (arith, enough))
  drain_region-returns sender (suc fuel) st enough =
      let v =
        (should_continue_draining outside deadline (breaker_is_open outside settings st).1).1 in
      let fetched : DrainState = record v { asked = v.asked + 1 } in
      elim (Bool-cases (is_open settings (outside.monotonic st.asked) st.breaker).0) [
        | inl open_now ↦ rw open_now refl
        | inr shut ↦ rw shut (
            if_some (may_continue outside deadline (st.asked + 1)) _ (some v)
              (fetched_returns sender fuel fetched
                (next_batch channel region (outside.now v.asked) v.outbox) v.asked refl
                (is_open-none settings (outside.monotonic st.asked) st.breaker shut)
                (omega (arith, enough)) (λ u. drain_region-returns sender fuel u))
              refl)
      ]
    where
      fetched_returns :
          (sender : Sender) (fuel : ℕ) (st : DrainState) (batch : List Outbox) (n : ℕ)
          → next_batch channel region (outside.now n) st.outbox ≡ batch
          → st.breaker.opened_at ≡ none
          → left st < fuel
          → ((u : DrainState)
              → left u + 1 < fuel
              → is_some (drain_region outside settings config sender channel region deadline fuel u)
                ≡ true)
          → is_some (
              unless_empty batch st (
                drain_region outside settings config sender channel region deadline fuel
                  (send_rows outside settings config sender deadline batch st)))
            ≡ true
      fetched_returns sender fuel st [] n h shut enough ih = refl
      fetched_returns sender fuel st (row ∷ others) n h shut enough ih =
          rest_returns sender fuel st
            (send_rows outside settings config sender deadline (row ∷ others) st) enough ih
            (send_rows-Progress outside settings config channel region horizon deadline steady
              sender row others st shut
              (first-waits outside settings config channel region horizon deadline steady n
                st.outbox row others h))

-- A drain of a region returns, with more fuel than two beyond the rows of the region that are due before
-- the horizon, if the world outside is steady: the time of day stays within the second before the
-- horizon, the monotonic clock does not go back and a kill signal stays. Every batch leaves fewer of
-- those rows, whatever the sender answers.
pub drain_terminates :
    (outside : Outside) (settings : Settings) (config : RetryConfig) (sender : Sender)
    (channel : Channel) (region : Option String) (horizon deadline fuel : ℕ) (st : DrainState)
    → Steady outside horizon
    → count (is_waiting channel region horizon) st.outbox + 1 < fuel
    → is_some (drain_region outside settings config sender channel region deadline fuel st) ≡ true
drain_terminates outside settings config sender channel region horizon deadline fuel st steady
      enough =
    drain_region-returns outside settings config channel region horizon deadline steady sender fuel
      st enough
