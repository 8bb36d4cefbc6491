-- ===== src/Consumer/NoLoss.antt =====
-- Whatever a batch holds and whenever the kill signal comes, no message is passed over.
use mathlib.Core.Path.{subst}
use qiskit_serverless.Base.{
  Bool, Bool-cases, List, Option, Option-cases, String, [], arith, false, inl, inr, none, refl,
  some, sym, true, ◌∙◌, ◌∷◌, ◌≡◌,
}
use qiskit_serverless.Consumer.{
  Drained, KafkaMessage, Partition, Raised, answer_message, call_handler, fail_message,
  finish_message, fresh, handled_one, invalid_event_error, invalid_one, is_delivered, no_offsets,
  nothing_raised, on_kafka_error, one_message, other_exception, process,
}
use qiskit_serverless.Consumer.Batches.{
  HandledUpTo, Ready, extend, finish_extends, finish-Ready, process-killed, process-off, process-on,
  untouched,
}
use qiskit_serverless.Consumer.Laws.{AllFrom, Grows, in_partition, rewind-Rewinds}

module _ {S P : Type 0} (json_object : String → Option P)
    (handler : P → String → String → S → Raised × S) (killed : KafkaMessage → Bool)
    (region : String) where
  abbrev Handled : List KafkaMessage → Drained S → Drained S → Type 0
  Handled = HandledUpTo json_object handler killed region

  abbrev IsReady : List KafkaMessage → Drained S → Type 0
  IsReady = Ready json_object handler killed region

  abbrev drained : List KafkaMessage → Drained S → Drained S
  drained = process json_object handler killed region

  abbrev Hypothesis : List KafkaMessage → Type 0
  Hypothesis ms = (d : Drained S) → IsReady ms d → Handled ms d (drained ms d)

  no_error : (m : KafkaMessage) → m.kafka_error ≡ none → is_delivered m ≡ true
  no_error m e = rw e refl

  some_error : (m : KafkaMessage) (b : Bool) → m.kafka_error ≡ some b → is_delivered m ≡ false
  some_error m b e = rw e refl

  not_at : (q : Partition) (m : KafkaMessage) → is_delivered m ≡ false → in_partition q m ≡ false
  not_at q m h = rw h refl

  module _ (m : KafkaMessage) (ms : List KafkaMessage) (d : Drained S) where
    pub one_message-error :
        (b : Bool)
        → m.kafka_error ≡ some b
        → one_message json_object handler killed region m ms d
          ≡ on_kafka_error json_object handler killed b d
    unfolding one_message
    one_message-error b e = rw e refl

    pub one_message-answer :
        (r : Raised × S)
        → m.kafka_error ≡ none
        → call_handler json_object handler killed region m d.state ≡ r
        → one_message json_object handler killed region m ms d
          ≡ answer_message json_object handler killed m ms r d
    unfolding one_message
    one_message-answer r e called = rw (e, called) refl

  module _ (m : KafkaMessage) (ms : List KafkaMessage) (d : Drained S) (alive : killed m ≡ false)
      (ready : IsReady (m ∷ ms) d) (ih : Hypothesis ms) where
    errored : (b : Bool) → m.kafka_error ≡ some b → Handled (m ∷ ms) d (drained (m ∷ ms) d)
    errored true e =
        let d1 : Drained S = (on_kafka_error json_object handler killed true d).0 in
        subst (Handled (m ∷ ms) d)
          (sym (
            process-off json_object handler killed region m ms d d1 alive
              (one_message-error m ms d true e)))
          (untouched json_object handler killed region (m ∷ ms) d d1 refl (rw ready.working refl)
            ready.ahead (λ broken q. absurd (cc (sym ready.working ∙ broken)))
            (inr (inr (inl refl))))
    errored false e =
        let d1 : Drained S = (on_kafka_error json_object handler killed false d).0 in
        let undelivered = some_error m false e in
        subst (Handled (m ∷ ms) d)
          (sym (
            process-on json_object handler killed region m ms d d1 alive
              (one_message-error m ms d false e)))
          (extend json_object handler killed region m ms d d1 (drained ms d1) (rw undelivered refl)
            (λ own. absurd (cc (sym undelivered ∙ own))) (λ q. omega arith)
            (λ q here. absurd (cc (sym (not_at q m undelivered) ∙ here)))
            (ih d1 (record {
              working = ready.working;
              grow = λ q. (ready.grow q).1;
              ahead = λ q. (ready.ahead q).1;
            })))

    answered :
        (r : Raised × S)
        → m.kafka_error ≡ none
        → call_handler json_object handler killed region m d.state ≡ r
        → Handled (m ∷ ms) d (drained (m ∷ ms) d)
    answered (nothing_raised, s) e called =
        let d1 = finish_message json_object handler killed m handled_one s d in
        subst (Handled (m ∷ ms) d)
          (sym (
            process-on json_object handler killed region m ms d d1 alive
              (one_message-answer m ms d (nothing_raised, s) e called)))
          (finish_extends json_object handler killed region m ms handled_one (nothing_raised, s) d
            (drained ms d1) (no_error m e) called refl ready
            (ih d1 (
              finish-Ready json_object handler killed region m ms handled_one s d (no_error m e)
                ready)))
    answered (invalid_event_error, s) e called =
        let d1 = finish_message json_object handler killed m invalid_one s d in
        subst (Handled (m ∷ ms) d)
          (sym (
            process-on json_object handler killed region m ms d d1 alive
              (one_message-answer m ms d (invalid_event_error, s) e called)))
          (finish_extends json_object handler killed region m ms invalid_one
            (invalid_event_error, s) d (drained ms d1) (no_error m e) called refl ready
            (ih d1 (
              finish-Ready json_object handler killed region m ms invalid_one s d (no_error m e)
                ready)))
    answered (other_exception, s) e called =
        let d1 = fail_message json_object handler killed (m ∷ ms) s d in
        subst (Handled (m ∷ ms) d)
          (sym (
            process-off json_object handler killed region m ms d d1 alive
              (one_message-answer m ms d (other_exception, s) e called)))
          (untouched json_object handler killed region (m ∷ ms) d d1 refl
            (rw (no_error m e, called) refl) ready.ahead
            (λ broken q. rewind-Rewinds q (m ∷ ms) no_offsets refl (ready.grow q)) (inr (inl refl)))

  handled_up_to : (ms : List KafkaMessage) → Hypothesis ms
  unfolding process
  handled_up_to [] d ready =
      untouched json_object handler killed region [] d d refl (rw ready.working refl) ready.ahead
        (λ broken q. tt) (inl refl)
  handled_up_to (m ∷ ms) d ready = elim (Bool-cases (killed m)) [
    | inl dead ↦
        subst (Handled (m ∷ ms) d)
          (sym (process-killed json_object handler killed region m ms d dead))
          (untouched json_object handler killed region (m ∷ ms) d d refl (rw ready.working refl)
            ready.ahead (λ broken q. absurd (cc (sym ready.working ∙ broken)))
            (inr (inr (inr (m, ms, refl, dead)))))
    | inr alive ↦ elim (Option-cases m.kafka_error) [
      | inl e ↦ answered m ms d alive ready (handled_up_to ms) _ e refl
      | inr (b, e) ↦ errored m ms d alive ready (handled_up_to ms) b e
    ]
  ]

  -- The drain of a batch whose offsets grow in each partition handles the batch in order up to some
  -- message: to the end, or a message at which the kill signal had come, or one that failed or carried
  -- a fatal error. For every partition, the commit lies above all messages that were finished and not
  -- above any other; after a failure the rewind lies at or below every message that remains.
  pub process_no_loss :
      (messages : List KafkaMessage) (s : S)
      → ((q : Partition) → Grows q messages)
      → HandledUpTo json_object handler killed region messages
          (fresh json_object handler killed s)
          (process json_object handler killed region messages (fresh json_object handler killed s))
  process_no_loss messages s grow =
      handled_up_to messages (fresh json_object handler killed s)
        (record { working = refl; grow = grow; ahead = λ q. from_start q messages })
    where
      from_start : (q : Partition) (ms : List KafkaMessage) → AllFrom q 0 ms
      from_start q [] = tt
      from_start q (m ∷ ms) = (λ here. omega arith, from_start q ms)
