-- ===== src/Delivery/Shrinks.antt =====
-- A batch leaves fewer rows to try, while the clock has not moved by a second.
use qiskit_serverless.Base.{
  ==_refl, Bool, Bool-cases, List, Option, String, [], arith, count, false, filter, if◌then◌else◌,
  inl, inr, map, none, take, true, ℕ, ◌&&◌, ◌++◌, ◌+◌, ◌<◌, ◌==◌, ◌∷◌, ◌≡◌, ◌≤◌, ◌⊎◌,
}
use qiskit_serverless.Delivery.{
  Answer, DrainState, Outside, PendingMessage, RetryConfig, Sender, accepted, any_key, batch_sender,
  breaker_is_open, delete_keys, has_key, is_due, may_continue, next_batch, permanent, plain_sender,
  retryable, row_answer, send_batch, send_one_by_one, send_rows, should_continue_draining,
}
use qiskit_serverless.Breaker.{
  CircuitBreaker, Settings, closed, is_open, record_failure, record_success,
}
use qiskit_serverless.Base.Sort.{count-sort_by, sort_by}
use qiskit_serverless.Models.{Channel, Outbox, Payload}
use qiskit_serverless.FairShare.Laws.{count-filter-le, count-take-le}
use qiskit_serverless.Transitions.Methods.{stop}
use qiskit_serverless.Delivery.Waiting.{
  delete-le, delete-lt, delete_other, is_waiting, keep_for_retry-le, keep_for_retry-lt,
  mark_unrecoverable-lt, waiting_at,
}

-- How the world outside behaves during one drain: the time of day stays within a second, the
-- monotonic clock does not go back, and a kill signal stays.
pub record Steady (outside : Outside) (horizon : ℕ) : Type 0 where
  pub early : (n : ℕ) → outside.now n < horizon
  pub late : (n : ℕ) → horizon ≤ outside.now n + 1000000
  pub forward : (n m : ℕ) → n ≤ m → outside.monotonic n ≤ outside.monotonic m
  pub kept : (n m : ℕ) → n ≤ m → outside.killed n ≡ true → outside.killed m ≡ true

-- From here on the drain is told to stop.
abbrev pub Halted : Outside → ℕ → DrainState → Type 0
Halted outside deadline st = (n : ℕ) → st.asked ≤ n → may_continue outside deadline n ≡ false

halted :
    (outside : Outside) (horizon deadline n m : ℕ)
    → Steady outside horizon
    → may_continue outside deadline n ≡ false
    → n ≤ m
    → may_continue outside deadline m ≡ false
halted outside horizon deadline n m steady stop le =
    ground (arith, stop, steady.forward n m le, steady.kept n m le)

pub is_open-none :
    (settings : Settings) (t : ℕ) (b : CircuitBreaker)
    → (is_open settings t b).0 ≡ false
    → (is_open settings t b).1.opened_at ≡ none
unfolding is_open closed
is_open-none settings t b h = ground (arith, h)

closed_stays :
    (settings : Settings) (t : ℕ) (b : CircuitBreaker)
    → b.opened_at ≡ none
    → (is_open settings t b).0 ≡ false
unfolding is_open
closed_stays settings t b h = ground (arith, h)

-- The first row of a batch is one of the rows that are due, at its own key.
next_batch-first :
    (channel : Channel) (region : Option String) (now : ℕ) (outbox : List Outbox) (row : Outbox)
    (others : List Outbox)
    → next_batch channel region now outbox ≡ row ∷ others
    → 1 ≤ count (λ r. r.pk == row.pk && is_due channel region now r) outbox
unfolding next_batch
next_batch-first channel region now outbox row others h =
    let own = λ (r : Outbox). r.pk == row.pk in
    let due = filter (is_due channel region now) outbox in
    let by_pk = sort_by (λ (r : Outbox). r.pk) due in
    let by_age = sort_by (λ (r : Outbox). r.created) by_pk in
    let first : 1 ≤ count own (take 100 (sort_by (λ (r : Outbox). r.attempts) by_age)) =
      rw h (ground (arith, ==_refl row.pk)) in
    omega (
      arith,
      first,
      count-take-le own 100 (sort_by (λ (r : Outbox). r.attempts) by_age),
      count-sort_by (λ (r : Outbox). r.attempts) own by_age,
      count-sort_by (λ (r : Outbox). r.created) own by_pk,
      count-sort_by (λ (r : Outbox). r.pk) own due,
      count-filter-le own (is_due channel region now) outbox,
    )

count_weaken :
    (p q : Outbox → Bool) (xs : List Outbox)
    → ((r : Outbox) → p r ≡ true → q r ≡ true)
    → count p xs ≤ count q xs
count_weaken p q [] h = omega arith
count_weaken p q (x ∷ xs) h = ground (arith, h x, count_weaken p q xs h)

module _ (outside : Outside) (settings : Settings) (config : RetryConfig) (channel : Channel)
    (region : Option String) (horizon deadline : ℕ) (steady : Steady outside horizon) where
  abbrev waits : Outbox → Bool
  waits = is_waiting channel region horizon

  -- How many rows may still be tried.
  abbrev pub to_try : DrainState → ℕ
  to_try st = count waits st.outbox

  pub first-waits :
      (n : ℕ) (outbox : List Outbox) (row : Outbox) (others : List Outbox)
      → next_batch channel region (outside.now n) outbox ≡ row ∷ others
      → 1 ≤ count (waiting_at waits row.pk) outbox
  first-waits n outbox row others h =
      let first = next_batch-first channel region (outside.now n) outbox row others h in
      let weaker =
        count_weaken (λ r. r.pk == row.pk && is_due channel region (outside.now n) r)
          (waiting_at waits row.pk) outbox (λ r d. ground (arith, d, steady.early n)) in
      omega (arith, first, weaker)

  send_batch-lt :
      (send : ℕ → List PendingMessage → List ℕ) (row : Outbox) (others : List Outbox)
      (st : DrainState)
      → 1 ≤ count (waiting_at waits row.pk) st.outbox
      → to_try (send_batch outside settings config send (row ∷ others) st) < to_try st
  unfolding send_batch
  send_batch-lt send row others st first =
      let ids =
        send st.asked (map (λ r. record { key = r.pk; payload = r.payload }) (row ∷ others)) in
      let v : DrainState = record {
        outbox = delete_keys ids st.outbox;
        breaker =
            if any_key ids
            then record_success st.breaker
            else record_failure settings (outside.monotonic st.asked) st.breaker;
        asked = st.asked + 1;
        delivered = st.delivered ++ ids;
      } in
      elim (Bool-cases (has_key row.pk ids)) [
        | inl gone ↦
            let lt = delete-lt waits row.pk ids st.outbox gone in
            let le =
              keep_for_retry-le channel region horizon outside config
                (delete_keys ids (row ∷ others)) "not confirmed by the sender" v
                (steady.late v.asked) in
            omega (arith, first, lt, le)
        | inr kept ↦
            let lt =
              keep_for_retry-lt channel region horizon outside config row (delete_keys ids others)
                "not confirmed by the sender" v (steady.late v.asked) in
            let same = delete_other waits row.pk ids st.outbox kept in
            let le = delete-le waits ids st.outbox in rw kept (omega (arith, first, lt, same, le))
      ]

  row_answer-lt :
      (row : Outbox) (answer : Answer) (st : DrainState)
      → count (waiting_at waits row.pk) st.outbox
          + to_try (row_answer outside settings config row answer st)
        ≤ to_try st
  unfolding row_answer
  row_answer-lt row accepted st =
      delete-lt waits row.pk (row.pk ∷ []) st.outbox (ground (arith, ==_refl row.pk))
  row_answer-lt row (retryable reason) st =
      keep_for_retry-lt channel region horizon outside config row [] reason
        (record st {
          breaker = record_failure settings (outside.monotonic st.asked) st.breaker;
          asked = st.asked + 1;
        })
        (steady.late (st.asked + 1))
  row_answer-lt row (permanent reason) st =
      mark_unrecoverable-lt channel region horizon row reason (record st { asked = st.asked + 1 })

  if-le :
      (n : ℕ) (b : Bool) (x y : DrainState)
      → to_try x ≤ n
      → to_try y ≤ n
      → to_try (if b then x else y) ≤ n
  if-le n true x y p q = p
  if-le n false x y p q = q

  send_one_by_one-le :
      (send : ℕ → Payload → Answer) (batch : List Outbox) (st : DrainState)
      → to_try (send_one_by_one outside settings config send deadline batch st) ≤ to_try st
  unfolding send_one_by_one breaker_is_open should_continue_draining
  send_one_by_one-le send [] st = omega arith
  send_one_by_one-le send (row ∷ others) st =
      let asked_breaker = breaker_is_open outside settings st in
      let asked_both = should_continue_draining outside deadline asked_breaker.1 in
      let v = asked_both.1 in
      let answered = row_answer outside settings config row (send v.asked row.payload) v in
      let rest = send_one_by_one-le send others answered in
      let lt = row_answer-lt row (send v.asked row.payload) v in
      if-le (to_try st) asked_breaker.0 asked_breaker.1 _ (omega arith) (
        if-le (to_try st) asked_both.0
          (send_one_by_one outside settings config send deadline others answered) v
          (omega (arith, rest, lt)) (omega arith))

  -- A batch that is not empty, sent while the breaker is closed, leaves fewer rows to try, unless the
  -- drain is told to stop.
  abbrev pub Progress : DrainState → DrainState → Type 0
  Progress st v = (to_try v < to_try st) ⊎ Halted outside deadline v

  send_one_by_one-Progress :
      (send : ℕ → Payload → Answer) (row : Outbox) (others : List Outbox) (st : DrainState)
      → st.breaker.opened_at ≡ none
      → 1 ≤ count (waiting_at waits row.pk) st.outbox
      → Progress st (send_one_by_one outside settings config send deadline (row ∷ others) st)
  unfolding send_one_by_one breaker_is_open should_continue_draining
  send_one_by_one-Progress send row others st shut first =
      let asked_breaker = breaker_is_open outside settings st in
      let v = (should_continue_draining outside deadline asked_breaker.1).1 in
      let answered = row_answer outside settings config row (send v.asked row.payload) v in
      let rest = send_one_by_one-le send others answered in
      let lt = row_answer-lt row (send v.asked row.payload) v in
      rw (closed_stays settings (outside.monotonic st.asked) st.breaker shut)
        (elim (Bool-cases (may_continue outside deadline (st.asked + 1))) [
          | inl go_on ↦ rw go_on (inl (omega (arith, first, rest, lt)))
          | inr stop ↦ rw stop (
              inr (λ n le.
                halted outside horizon deadline (st.asked + 1) n steady stop (omega (arith, le))))
        ])

  pub send_rows-Progress :
      (sender : Sender) (row : Outbox) (others : List Outbox) (st : DrainState)
      → st.breaker.opened_at ≡ none
      → 1 ≤ count (waiting_at waits row.pk) st.outbox
      → Progress st (send_rows outside settings config sender deadline (row ∷ others) st)
  unfolding send_rows
  send_rows-Progress (batch_sender send) row others st shut first =
      inl (send_batch-lt send row others st first)
  send_rows-Progress (plain_sender send) row others st shut first =
      send_one_by_one-Progress send row others st shut first
