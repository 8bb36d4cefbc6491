-- ===== src/Delivery/Refinement.antt =====
-- What a drain means to whoever wrote the rows: a list of owed messages, from which the delivered ones
-- are taken away. Attempts, errors and waits are forgotten.
use qiskit_serverless.Base.{
  Bool, Bool-cases, List, Option, String, [], ap, arith, false, filter, find, if◌then◌else◌, inl,
  inr, map, none, not, refl, some, suc, true, zero, ℕ, ◌++◌, ◌+◌, ◌==◌, ◌||◌, ◌∙◌, ◌∷◌, ◌≡◌,
}
use qiskit_serverless.Delivery.{
  Answer, DrainState, Outside, PendingMessage, RetryConfig, Sender, accepted, batch_sender,
  breaker_is_open, bulk_update, delete_keys, drain_region, has_key, keep_for_retry,
  mark_unrecoverable, next_batch, permanent, plain_sender, retried, retryable, row_answer,
  send_batch, send_one_by_one, send_rows, should_continue_draining, stored_error, unless_empty,
  write_columns,
}
use qiskit_serverless.Models.{Channel, Outbox, Payload}
use qiskit_serverless.Breaker.{Settings}

-- An owed message, by its key, its job, its channel and what it says.
pub record Message : Type 0 where
  pub key : ℕ
  pub job_id : ℕ
  pub channel : Channel
  pub region : Option String
  pub payload : Payload
  pub created : ℕ

abbrev pub message_of : Outbox → Message
message_of row = record {
  key = row.pk;
  job_id = row.job_id;
  channel = row.channel;
  region = row.region;
  payload = row.payload;
  created = row.created;
}

abbrev pub messages : List Outbox → List Message
messages outbox = map message_of outbox

-- The abstract step: delivered messages are no longer owed.
abbrev pub without_keys : List ℕ → List Message → List Message
without_keys ids owed = filter (λ m. not (has_key m.key ids)) owed

messages-delete_keys :
    (ids : List ℕ) (outbox : List Outbox)
    → messages (delete_keys ids outbox) ≡ without_keys ids (messages outbox)
messages-delete_keys ids [] = refl
messages-delete_keys ids (row ∷ outbox) = elim (Bool-cases (has_key row.pk ids)) [
  | inl gone ↦ rw gone (messages-delete_keys ids outbox)
  | inr kept ↦ rw kept (ap (λ l. message_of row ∷ l) (messages-delete_keys ids outbox))
]

has_key-append : (k : ℕ) (a b : List ℕ) → has_key k (a ++ b) ≡ (has_key k a || has_key k b)
has_key-append k [] b = refl
has_key-append k (x ∷ a) b = ground (arith, has_key-append k a b)

-- Two deliveries are one of both.
without_keys-append :
    (a b : List ℕ) (owed : List Message)
    → without_keys b (without_keys a owed) ≡ without_keys (a ++ b) owed
without_keys-append a b [] = refl
without_keys-append a b (m ∷ owed) =
    let e = has_key-append m.key a b in
    elim (Bool-cases (has_key m.key a)) [
      | inl gone ↦ rw (e, gone) (without_keys-append a b owed)
      | inr first ↦ elim (Bool-cases (has_key m.key b)) [
        | inl gone ↦ rw (e, first) (rw gone (without_keys-append a b owed))
        | inr kept ↦ rw (e, first) (rw kept (ap (λ l. m ∷ l) (without_keys-append a b owed)))
      ]
    ]

pub without_keys-none : (owed : List Message) → without_keys [] owed ≡ owed
without_keys-none [] = refl
without_keys-none (m ∷ owed) = ap (λ l. m ∷ l) (without_keys-none owed)

-- A change of the retry columns is nothing to the abstract view.
messages-map :
    (f : Outbox → Outbox) (outbox : List Outbox)
    → ((r : Outbox) → message_of (f r) ≡ message_of r)
    → messages (map f outbox) ≡ messages outbox
messages-map f [] h = refl
messages-map f (r ∷ outbox) h = rw (h r) (ap (λ l. message_of r ∷ l) (messages-map f outbox h))

-- What is owed now is what was owed, less what was delivered.
abbrev pub Delivers : List Message → DrainState → Type 0
Delivers owed st = messages st.outbox ≡ without_keys st.delivered owed

write_columns-message :
    (o : Option Outbox) (r : Outbox) → message_of (write_columns o r) ≡ message_of r
write_columns-message none r = refl
write_columns-message (some n) r = refl

bulk_update-messages :
    (updated outbox : List Outbox) → messages (bulk_update updated outbox) ≡ messages outbox
unfolding bulk_update
bulk_update-messages updated outbox =
    messages-map (λ r. write_columns (find (λ n. n.pk == r.pk) updated) r) outbox
      (λ r. write_columns-message (find (λ n. n.pk == r.pk) updated) r)

keep_for_retry-Delivers :
    (outside : Outside) (config : RetryConfig) (batch : List Outbox) (reason : String)
    (owed : List Message) (st : DrainState)
    → Delivers owed st
    → Delivers owed (keep_for_retry outside config batch reason st)
unfolding keep_for_retry
keep_for_retry-Delivers outside config [] reason owed st h = h
keep_for_retry-Delivers outside config (row ∷ others) reason owed st h =
    bulk_update-messages (map (retried config (outside.now st.asked) reason) (row ∷ others))
      st.outbox
    ∙ h

mark_unrecoverable-Delivers :
    (row : Outbox) (reason : String) (owed : List Message) (st : DrainState)
    → Delivers owed st
    → Delivers owed (mark_unrecoverable row reason st)
unfolding mark_unrecoverable
mark_unrecoverable-Delivers row reason owed st h = messages-map _ st.outbox (λ r. flagged r) ∙ h
  where
    flagged :
        (r : Outbox)
        → message_of (
            if r.pk == row.pk
            then record r {
              attempts = row.attempts + 1;
              last_error = stored_error reason;
              unrecoverable = true;
            }
            else r)
          ≡ message_of r
    flagged r = elim (Bool-cases (r.pk == row.pk)) [
      | inl own ↦ rw own refl
      | inr other ↦ rw other refl
    ]

-- Rows that are deleted because they were delivered.
deleted-Delivers :
    (ids : List ℕ) (owed : List Message) (st : DrainState)
    → Delivers owed st
    → messages (delete_keys ids st.outbox) ≡ without_keys (st.delivered ++ ids) owed
deleted-Delivers ids owed st h =
    messages-delete_keys ids st.outbox
    ∙ ap (without_keys ids) h
    ∙ without_keys-append st.delivered ids owed

module _ (outside : Outside) (settings : Settings) (config : RetryConfig)
    (owed : List Message) where
  send_batch-Delivers :
      (send : ℕ → List PendingMessage → List ℕ) (batch : List Outbox) (st : DrainState)
      → Delivers owed st
      → Delivers owed (send_batch outside settings config send batch st)
  unfolding send_batch
  send_batch-Delivers send batch st h =
      let ids = send st.asked (map (λ r. record { key = r.pk; payload = r.payload }) batch) in
      keep_for_retry-Delivers outside config (delete_keys ids batch) "not confirmed by the sender"
        owed _ (deleted-Delivers ids owed st h)

  row_answer-Delivers :
      (row : Outbox) (answer : Answer) (st : DrainState)
      → Delivers owed st
      → Delivers owed (row_answer outside settings config row answer st)
  unfolding row_answer
  row_answer-Delivers row accepted st h = deleted-Delivers (row.pk ∷ []) owed st h
  row_answer-Delivers row (retryable reason) st h =
      keep_for_retry-Delivers outside config (row ∷ []) reason owed _ h
  row_answer-Delivers row (permanent reason) st h =
      mark_unrecoverable-Delivers row reason owed (record st { asked = st.asked + 1 }) h

  if-Delivers :
      (b : Bool) (x y : DrainState)
      → Delivers owed x
      → Delivers owed y
      → Delivers owed (if b then x else y)
  if-Delivers true x y p q = p
  if-Delivers false x y p q = q

  send_one_by_one-Delivers :
      (send : ℕ → Payload → Answer) (deadline : ℕ) (batch : List Outbox) (st : DrainState)
      → Delivers owed st
      → Delivers owed (send_one_by_one outside settings config send deadline batch st)
  unfolding send_one_by_one breaker_is_open should_continue_draining
  send_one_by_one-Delivers send deadline [] st h = h
  send_one_by_one-Delivers send deadline (row ∷ others) st h =
      let asked_breaker = breaker_is_open outside settings st in
      let asked_both = should_continue_draining outside deadline asked_breaker.1 in
      let v = asked_both.1 in
      let answered = row_answer outside settings config row (send v.asked row.payload) v in
      if-Delivers asked_breaker.0 asked_breaker.1 _ h (
        if-Delivers asked_both.0
          (send_one_by_one outside settings config send deadline others answered) v
          (send_one_by_one-Delivers send deadline others answered
            (row_answer-Delivers row (send v.asked row.payload) v h))
          h)

  send_rows-Delivers :
      (sender : Sender) (deadline : ℕ) (batch : List Outbox) (st : DrainState)
      → Delivers owed st
      → Delivers owed (send_rows outside settings config sender deadline batch st)
  unfolding send_rows
  send_rows-Delivers (batch_sender send) deadline batch st h = send_batch-Delivers send batch st h
  send_rows-Delivers (plain_sender send) deadline batch st h =
      send_one_by_one-Delivers send deadline batch st h

  -- A drain that returned, or one that is out of fuel.
  abbrev pub ReturnsDelivering : Option DrainState → Type 0
  ReturnsDelivering none = Unit
  ReturnsDelivering (some st) = Delivers owed st

  if-ReturnsDelivering :
      (b : Bool) (x y : Option DrainState)
      → ReturnsDelivering x
      → ReturnsDelivering y
      → ReturnsDelivering (if b then x else y)
  if-ReturnsDelivering true x y p q = p
  if-ReturnsDelivering false x y p q = q

  unless_empty-ReturnsDelivering :
      (batch : List Outbox) (st : DrainState) (rest : Option DrainState)
      → Delivers owed st
      → ReturnsDelivering rest
      → ReturnsDelivering (unless_empty batch st rest)
  unless_empty-ReturnsDelivering [] st rest p q = p
  unless_empty-ReturnsDelivering (row ∷ others) st rest p q = q

  pub drain_region-Delivers :
      (sender : Sender) (channel : Channel) (region : Option String) (deadline fuel : ℕ)
      (st : DrainState)
      → Delivers owed st
      → ReturnsDelivering
          (drain_region outside settings config sender channel region deadline fuel st)
  unfolding drain_region breaker_is_open should_continue_draining
  drain_region-Delivers sender channel region deadline zero st h = tt
  drain_region-Delivers sender channel region deadline (suc fuel) st h =
      let asked_breaker = breaker_is_open outside settings st in
      let asked_both = should_continue_draining outside deadline asked_breaker.1 in
      let v = asked_both.1 in
      let batch = next_batch channel region (outside.now v.asked) v.outbox in
      let fetched : DrainState = record v { asked = v.asked + 1 } in
      let sent = send_rows outside settings config sender deadline batch fetched in
      if-ReturnsDelivering asked_breaker.0 (some asked_breaker.1) _ h (
        if-ReturnsDelivering asked_both.0 _ (some v)
          (unless_empty-ReturnsDelivering batch fetched
            (drain_region outside settings config sender channel region deadline fuel sent) h
            (drain_region-Delivers sender channel region deadline fuel sent
              (send_rows-Delivers sender deadline batch fetched h)))
          h)
