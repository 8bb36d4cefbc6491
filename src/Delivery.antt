-- ===== src/Delivery.antt =====
-- The delivery of the outbox: gateway/scheduler/tasks/outbox_destination.py. What a drain reads from
-- outside (clocks, the kill signal, the sender) are parameters, asked by the number of the question, so
-- that each answer may differ from the one before.
pub mod Order
pub mod Refinement
pub mod Waiting
pub mod Shrinks
pub mod Ends
pub mod Channels
use Prim.Native.Char.{code}
use qiskit_serverless.Base.{
  Bool, List, Option, String, [], any, false, filter, find, if◌then◌else◌, leb, ltb, map, max, min,
  none, not, opt_str_eq, some, suc, take, true, zero, ℕ, ◌&&◌, ◌*◌, ◌++◌, ◌+◌, ◌==◌, ◌^◌, ◌∷◌,
}
use qiskit_serverless.Breaker.{CircuitBreaker, Settings, is_open, record_failure, record_success}
use qiskit_serverless.Base.Sort.{sort_by}
use qiskit_serverless.Models.{Channel, Outbox, Payload, channel_eq}

-- What the drain asks: the time of day and the monotonic clock, in microseconds, and the kill signal.
pub record Outside : Type 0 where
  pub now : ℕ → ℕ
  pub monotonic : ℕ → ℕ
  pub killed : ℕ → Bool

-- The Config entries of a destination; times in seconds.
pub record RetryConfig : Type 0 where
  pub base : ℕ
  pub cap : ℕ

-- `PendingMessage`
pub record PendingMessage : Type 0 where
  pub key : ℕ
  pub payload : Payload

-- The answer to one `send`: a RetryableError, or any other exception, with its text.
pub data Answer : Type 0 where
  accepted : Answer
  retryable permanent : String → Answer

-- `BatchSender` and `Sender`.
pub data Sender : Type 0 where
  batch_sender : (ℕ → List PendingMessage → List ℕ) → Sender
  plain_sender : (ℕ → Payload → Answer) → Sender

-- What a drain changes. `delivered` are the keys that the sender confirmed, in order.
pub record DrainState : Type 0 where
  pub outbox : List Outbox
  pub breaker : CircuitBreaker
  pub asked : ℕ
  pub delivered : List ℕ

abbrev pub has_key : ℕ → List ℕ → Bool
has_key k ids = any (λ id. id == k) ids

-- The rows of a channel and a region that the destination may still take.
abbrev pub is_pending : Channel → Option String → Outbox → Bool
is_pending channel region row =
    channel_eq row.channel channel && (opt_str_eq row.region region && not row.unrecoverable)

-- Those whose wait is over.
abbrev pub is_due : Channel → Option String → ℕ → Outbox → Bool
is_due channel region now row = is_pending channel region row && leb row.next_attempt_at now

-- `BATCH_SIZE` of the rows that are due, ordered by attempts, then by creation, then by key.
unfoldable pub next_batch : Channel → Option String → ℕ → List Outbox → List Outbox
next_batch channel region now outbox = take 100 (
    sort_by (λ r. r.attempts)
      (sort_by (λ r. r.created) (sort_by (λ r. r.pk) (filter (is_due channel region now) outbox))))

-- `error.replace("\x00", "")`
unfoldable pub without_nul : String → String
without_nul String.[] = String.[]
without_nul (String.◌∷◌ c s) =
    let rest = without_nul s in if code c == 0 then rest else String.◌∷◌ c rest

-- `text[:n]`
unfoldable pub text_take : ℕ → String → String
text_take zero s = String.[]
text_take (suc n) String.[] = String.[]
text_take (suc n) (String.◌∷◌ c s) = String.◌∷◌ c (text_take n s)

abbrev pub stored_error : String → String
stored_error reason = text_take 500 (without_nul reason)

-- The wait before the next try, in seconds, for the attempts made before this one.
unfoldable pub retry_wait : RetryConfig → ℕ → ℕ
retry_wait config attempts = max 1 (min (min (config.base * 2 ^ min attempts 30) config.cap) 86400)

-- A row after one more failed attempt.
unfoldable pub retried : RetryConfig → ℕ → String → Outbox → Outbox
retried config now reason row = record row {
  attempts = row.attempts + 1;
  last_error = stored_error reason;
  next_attempt_at = now + 1000000 * retry_wait config row.attempts;
}

-- `bulk_update` of the three columns, by key.
abbrev pub write_columns : Option Outbox → Outbox → Outbox
write_columns none row = row
write_columns (some new) row = record row {
  attempts = new.attempts;
  last_error = new.last_error;
  next_attempt_at = new.next_attempt_at;
}

unfoldable pub bulk_update : List Outbox → List Outbox → List Outbox
bulk_update updated outbox = map (λ r. write_columns (find (λ n. n.pk == r.pk) updated) r) outbox

-- `_keep_for_retry`
unfoldable pub keep_for_retry :
    Outside → RetryConfig → List Outbox → String → DrainState → DrainState
keep_for_retry outside config [] reason st = st
keep_for_retry outside config (row ∷ others) reason st = record st {
  outbox =
      bulk_update (map (retried config (outside.now st.asked) reason) (row ∷ others)) st.outbox;
  asked = st.asked + 1;
}

-- `_mark_unrecoverable`, and the save of its columns.
unfoldable pub mark_unrecoverable : Outbox → String → DrainState → DrainState
mark_unrecoverable row reason st = record st {
  outbox =
      map
        (λ r.
          if r.pk == row.pk
          then record r {
            attempts = row.attempts + 1;
            last_error = stored_error reason;
            unrecoverable = true;
          }
          else r)
        st.outbox;
}

-- The rows with these keys are deleted.
abbrev pub delete_keys : List ℕ → List Outbox → List Outbox
delete_keys ids outbox = filter (λ r. not (has_key r.pk ids)) outbox

abbrev pub any_key : List ℕ → Bool
any_key [] = false
any_key (id ∷ ids) = true

-- `breaker.is_open`, which may close the breaker.
unfoldable pub breaker_is_open : Outside → Settings → DrainState → Bool × DrainState
breaker_is_open outside settings st =
    let (open_now, b) = is_open settings (outside.monotonic st.asked) st.breaker in
    (open_now, record st { breaker = b; asked = st.asked + 1 })

abbrev pub may_continue : Outside → ℕ → ℕ → Bool
may_continue outside deadline asked =
    not (outside.killed asked) && ltb (outside.monotonic asked) deadline

-- `_should_continue_draining`
unfoldable pub should_continue_draining : Outside → ℕ → DrainState → Bool × DrainState
should_continue_draining outside deadline st =
    (may_continue outside deadline st.asked, record st { asked = st.asked + 1 })

-- Nothing is due any more, or the drain goes on.
abbrev pub unless_empty : List Outbox → DrainState → Option DrainState → Option DrainState
unless_empty [] st rest = some st
unless_empty (row ∷ others) st rest = rest

module _ (outside : Outside) (settings : Settings) (config : RetryConfig) where
  -- `_send_batch`
  unfoldable pub send_batch :
      (ℕ → List PendingMessage → List ℕ) → List Outbox → DrainState → DrainState
  send_batch send batch st =
      let ids = send st.asked (map (λ r. record { key = r.pk; payload = r.payload }) batch) in
      keep_for_retry outside config (delete_keys ids batch) "not confirmed by the sender" (record {
        outbox = delete_keys ids st.outbox;
        breaker =
            if any_key ids
            then record_success st.breaker
            else record_failure settings (outside.monotonic st.asked) st.breaker;
        asked = st.asked + 1;
        delivered = st.delivered ++ ids;
      })

  -- What one row's answer leads to.
  unfoldable pub row_answer : Outbox → Answer → DrainState → DrainState
  row_answer row accepted st = record st {
    outbox = delete_keys (row.pk ∷ []) st.outbox;
    breaker = record_success st.breaker;
    asked = st.asked + 1;
    delivered = st.delivered ++ (row.pk ∷ []);
  }
  row_answer row (retryable reason) st =
      keep_for_retry outside config (row ∷ []) reason (record st {
        breaker = record_failure settings (outside.monotonic st.asked) st.breaker;
        asked = st.asked + 1;
      })
  row_answer row (permanent reason) st =
      mark_unrecoverable row reason (record st { asked = st.asked + 1 })

  -- `_send_one_by_one`
  unfoldable pub send_one_by_one :
      (ℕ → Payload → Answer) → ℕ → List Outbox → DrainState → DrainState
  send_one_by_one send deadline [] st = st
  send_one_by_one send deadline (row ∷ others) st =
      let asked_breaker = breaker_is_open outside settings st in
      let asked_both = should_continue_draining outside deadline asked_breaker.1 in
      let v = asked_both.1 in
      let rest =
        send_one_by_one send deadline others (row_answer row (send v.asked row.payload) v) in
      if asked_breaker.0 then asked_breaker.1 else if asked_both.0 then rest else v

  -- The batch is sent as the sender takes it.
  unfoldable pub send_rows : Sender → ℕ → List Outbox → DrainState → DrainState
  send_rows (batch_sender send) deadline batch st = send_batch send batch st
  send_rows (plain_sender send) deadline batch st = send_one_by_one send deadline batch st

  -- `_drain_region`: `none` if the fuel runs out.
  unfoldable pub drain_region :
      Sender → Channel → Option String → ℕ → ℕ → DrainState → Option DrainState
  drain_region sender channel region deadline zero st = none
  drain_region sender channel region deadline (suc fuel) st =
      let (open_now, asked_breaker) = breaker_is_open outside settings st in
      let (go_on, v) = should_continue_draining outside deadline asked_breaker in
      let batch = next_batch channel region (outside.now v.asked) v.outbox in
      let fetched = record v { asked = v.asked + 1 } in
      let rest =
        drain_region sender channel region deadline fuel
          (send_rows sender deadline batch fetched) in
      if open_now
      then some asked_breaker
      else if go_on
      then unless_empty batch fetched rest
      else some v
