-- ===== src/BlockedEvents/Batches.antt =====
-- What a tick hands to the service of the batches that it fetched.
use mathlib.Core.Path.{subst}
use qiskit_serverless.Base.{
  Bool, Bool-cases, List, Option, Option-cases, String, [], ap, false, inl, inr, none, refl, some,
  sym, true, ◌∙◌, ◌∷◌, ◌≡◌,
}
use qiskit_serverless.Blocked.{BlockedCloudResource}
use qiskit_serverless.Blocked.Events.{EventPayload, Parsed, accept, handle, refuse}
use qiskit_serverless.Blocked.Replay.{Received}
use qiskit_serverless.BlockedEvents.{Tick, blocked_accounts_topics, event_handler, with_outage}
use qiskit_serverless.BlockedEvents.Parts.{Handles, cut_short, in_turn, nothing_to_do, one_handled}
use qiskit_serverless.Consumer.{
  Drained, KafkaMessage, Raised, answer_message, call_handler, deserialize, on_kafka_error,
  one_message, finish_message, fail_message, handled_one, invalid_one, invalid_event_error,
  nothing_raised, other_exception, process,
}
use qiskit_serverless.Consumer.Batches.{process-killed, process-off, process-on}
use qiskit_serverless.Consumer.NoLoss.{one_message-answer, one_message-error}

abbrev pub Rows : Type 0
Rows = List BlockedCloudResource

module _ (json_object : String → Option EventPayload) where
  abbrev read : Option String → Option EventPayload
  read none = none
  read (some value) = json_object value

  -- The messages of a batch that the service is handed when nothing interrupts the tick: those with
  -- a payload, up to the first that carries a fatal error.
  abbrev pub received : String → List KafkaMessage → List Received
  received region [] = []
  received region (m ∷ ms) = elim m.kafka_error [
    | some true ↦ []
    | some false ↦ received region ms
    | none ↦ elim (read m.value) [
      | none ↦ received region ms
      | some payload ↦
          record { payload = payload; region = region; topic = m.partition.0 } ∷ received region ms
    ]
  ]

  module _ (region : String) (m : KafkaMessage) (ms : List KafkaMessage) where
    received-error : m.kafka_error ≡ some false → received region (m ∷ ms) ≡ received region ms
    received-error e = rw e refl

    received-fatal : m.kafka_error ≡ some true → received region (m ∷ ms) ≡ []
    received-fatal e = rw e refl

    received-none :
        m.kafka_error ≡ none → read m.value ≡ none → received region (m ∷ ms) ≡ received region ms
    received-none e n = rw (e, n) refl

    received-some :
        (payload : EventPayload)
        → m.kafka_error ≡ none
        → read m.value ≡ some payload
        → received region (m ∷ ms)
          ≡ record { payload = payload; region = region; topic = m.partition.0 }
            ∷ received region ms
    received-some payload e v = rw (e, v) refl

  module _ (environment : String) (tick : Tick) where
    abbrev reasons : String → Option String
    reasons = blocked_accounts_topics environment

    abbrev handler : EventPayload → String → String → Rows → Raised × Rows
    handler = event_handler json_object environment tick

    abbrev drained : String → List KafkaMessage → Drained Rows → Drained Rows
    drained = process json_object handler tick.killed

    module _ (region : String) (m : KafkaMessage) (ms : List KafkaMessage) (d : Drained Rows)
        (alive : tick.killed m ≡ false) where
      goes_on :
          (d1 : Drained Rows) (full : List Received)
          → one_message json_object handler tick.killed region m ms d ≡ (d1, true)
          → Handles reasons tick full d.state (drained region ms d1).state
          → Handles reasons tick full d.state (drained region (m ∷ ms) d).state
      goes_on d1 full e h =
          subst (λ x. Handles reasons tick full d.state x.state)
            (sym (process-on json_object handler tick.killed region m ms d d1 alive e)) h

      stops :
          (d1 : Drained Rows) (full : List Received)
          → one_message json_object handler tick.killed region m ms d ≡ (d1, false)
          → Handles reasons tick full d.state d1.state
          → Handles reasons tick full d.state (drained region (m ∷ ms) d).state
      stops d1 full e h =
          subst (λ x. Handles reasons tick full d.state x.state)
            (sym (process-off json_object handler tick.killed region m ms d d1 alive e)) h

      answers :
          (r : Raised × Rows)
          → m.kafka_error ≡ none
          → call_handler json_object handler tick.killed region m d.state ≡ r
          → one_message json_object handler tick.killed region m ms d
            ≡ answer_message json_object handler tick.killed m ms r d
      answers = one_message-answer json_object handler tick.killed region m ms d

      module _ (payload : EventPayload) (found : m.kafka_error ≡ none)
          (called : call_handler json_object handler tick.killed region m d.state
            ≡ handler payload region m.partition.0 d.state)
          (later : (d1 : Drained Rows)
            → Handles reasons tick (received region ms) d1.state (drained region ms d1).state) where
        abbrev this : Received
        this = record { payload = payload; region = region; topic = m.partition.0 }

        abbrev answer_event : Bool → Parsed (Unit {0}) × Rows → Raised × Rows
        answer_event b r = with_outage b d.state r

        returns :
            (r : Parsed (Unit {0}) × Rows) (b : Bool)
            → handle reasons payload region m.partition.0 d.state ≡ r
            → tick.outage payload region m.partition.0 ≡ b
            → call_handler json_object handler tick.killed region m d.state ≡ answer_event b r
        returns r b h o =
            called
            ∙ ap (answer_event (tick.outage payload region m.partition.0)) h
            ∙ ap (λ c. answer_event c r) o

        then_later :
            (d1 : Drained Rows)
            → (handle reasons payload region m.partition.0 d.state).1 ≡ d1.state
            → Handles reasons tick (this ∷ received region ms) d.state (drained region ms d1).state
        then_later d1 e =
            in_turn reasons tick (this ∷ []) (received region ms) d.state d1.state
              (drained region ms d1).state
              (subst (Handles reasons tick (this ∷ []) d.state) e
                (one_handled reasons tick this d.state))
              (later d1)

        event_handled :
            (r : Parsed (Unit {0}) × Rows) (b : Bool)
            → handle reasons payload region m.partition.0 d.state ≡ r
            → tick.outage payload region m.partition.0 ≡ b
            → Handles reasons tick
                (this ∷ received region ms)
                d.state
                (drained region (m ∷ ms) d).state
        event_handled (refuse e, rows) b h o =
            let d1 = finish_message json_object handler tick.killed m invalid_one rows d in
            goes_on d1 (this ∷ received region ms)
              (answers (invalid_event_error, rows) found (returns (refuse e, rows) b h o))
              (then_later d1 (ap (λ r. r.1) h))
        event_handled (accept a, rows) false h o =
            let d1 = finish_message json_object handler tick.killed m handled_one rows d in
            goes_on d1 (this ∷ received region ms)
              (answers (nothing_raised, rows) found (returns (accept a, rows) false h o))
              (then_later d1 (ap (λ r. r.1) h))
        event_handled (accept a, rows) true h o =
            let d1 = fail_message json_object handler tick.killed (m ∷ ms) d.state d in
            stops d1 (this ∷ received region ms)
              (answers (other_exception, d.state) found (returns (accept a, rows) true h o))
              (cut_short reasons tick (this ∷ received region ms) d.state
                (λ u. absurd (cc (sym (u.writes payload region m.partition.0) ∙ o))))

    call-none :
        (region : String) (m : KafkaMessage) (s : Rows)
        → read m.value ≡ none
        → call_handler json_object handler tick.killed region m s ≡ (invalid_event_error, s)
    unfolding call_handler deserialize
    call-none region m s e = elim (Option-cases m.value) [
      | inl n ↦ rw (n, call_handler, deserialize) refl
      | inr (value, v) ↦ rw (v, call_handler, deserialize) (rw (sym (ap read v) ∙ e) refl)
    ]

    call-some :
        (region : String) (m : KafkaMessage) (s : Rows) (payload : EventPayload)
        → read m.value ≡ some payload
        → call_handler json_object handler tick.killed region m s
          ≡ handler payload region m.partition.0 s
    unfolding call_handler deserialize
    call-some region m s payload e = elim (Option-cases m.value) [
      | inl n ↦ absurd (cc (sym e ∙ ap read n))
      | inr (value, v) ↦ rw (v, call_handler, deserialize) (rw (sym (ap read v) ∙ e) refl)
    ]

    of_list :
        {full other : List Received} {s t : Rows}
        → full ≡ other
        → Handles reasons tick other s t
        → Handles reasons tick full s t
    of_list {s} {t} e h = subst (λ f. Handles reasons tick f s t) (sym e) h

    pub batch_handled :
        (region : String) (ms : List KafkaMessage) (d : Drained Rows)
        → Handles reasons tick (received region ms) d.state (drained region ms d).state
    unfolding process
    batch_handled region [] d = nothing_to_do reasons tick d.state
    batch_handled region (m ∷ ms) d = elim (Bool-cases (tick.killed m)) [
      | inl dead ↦
          subst (λ x. Handles reasons tick (received region (m ∷ ms)) d.state x.state)
            (sym (process-killed json_object handler tick.killed region m ms d dead))
            (cut_short reasons tick (received region (m ∷ ms)) d.state
              (λ u. absurd (cc (sym (u.alive m) ∙ dead))))
      | inr alive ↦ elim (Option-cases m.kafka_error) [
        | inr (true, e) ↦
            let d1 = (on_kafka_error json_object handler tick.killed true d).0 in
            of_list (received-fatal region m ms e) (
              stops region m ms d alive d1 []
                (one_message-error json_object handler tick.killed region m ms d true e)
                (nothing_to_do reasons tick d.state))
        | inr (false, e) ↦
            let d1 = (on_kafka_error json_object handler tick.killed false d).0 in
            of_list (received-error region m ms e) (
              goes_on region m ms d alive d1 (received region ms)
                (one_message-error json_object handler tick.killed region m ms d false e)
                (batch_handled region ms d1))
        | inl e ↦ elim (Option-cases (read m.value)) [
          | inl n ↦
              let d1 = finish_message json_object handler tick.killed m invalid_one d.state d in
              of_list (received-none region m ms e n) (
                goes_on region m ms d alive d1 (received region ms)
                  (answers region m ms d alive (invalid_event_error, d.state) e
                    (call-none region m d.state n))
                  (batch_handled region ms d1))
          | inr (payload, v) ↦ of_list (received-some region m ms payload e v) (
              event_handled region m ms d alive payload e (call-some region m d.state payload v)
                (batch_handled region ms) _ _ refl refl)
        ]
      ]
    ]
