-- ===== src/Tests/Consumer.antt =====
-- A batch of the consumer, with a handler that cannot take one of the messages yet.
use qiskit_serverless.Base.{
  Bool, List, Option, String, [], arith, false, if◌then◌else◌, none, refl, some, str_eq, true, ℕ,
  ◌++◌, ◌∷◌, ◌≡◌,
}
use qiskit_serverless.Consumer.{
  Drained, KafkaMessage, Partition, Raised, fresh, nothing_raised, other_exception, process,
  same_partition,
}
use qiskit_serverless.Consumer.NoLoss.{process_no_loss}
use qiskit_serverless.Consumer.Batches.{HandledUpTo}
use qiskit_serverless.Consumer.Laws.{Grows}

abbrev message_at : ℕ → ℕ → String → KafkaMessage
message_at partition offset value = record {
  partition = ("t1", partition);
  offset = offset;
  kafka_error = none;
  value = some value;
}

abbrev taken : List KafkaMessage
taken = message_at 0 5 "a" ∷ message_at 1 9 "b" ∷ message_at 0 6 "later" ∷ message_at 1 10 "c" ∷ []

-- The handler keeps what it took; one text has to be tried again.
abbrev keep_text : String → String → String → List String → Raised × List String
keep_text payload region topic kept =
    if str_eq payload "later"
    then (other_exception, kept)
    else (nothing_raised, kept ++ (payload ∷ []))

abbrev never : KafkaMessage → Bool
never m = false

abbrev drained_batch : Drained (List String)
drained_batch = process some keep_text never "us-east" taken (fresh some keep_text never [])

apart : (q : Partition) → same_partition q ("t1", 1) ≡ true → same_partition q ("t1", 0) ≡ true → ⊥
apart q one_of other = ground (arith, one_of, other)

taken-Grows : (q : Partition) → Grows q taken
taken-Grows q = (
  λ a. (λ b. omega arith, (λ b. omega arith, (λ b. omega arith, tt))),
  (
    λ a. (λ b. absurd (apart q a b), (λ b. omega arith, tt)),
    (λ a. (λ b. omega arith, tt), (λ a. tt, tt)),
  ),
)

process_no_loss_example :
    HandledUpTo some keep_text never "us-east" taken (fresh some keep_text never []) drained_batch
process_no_loss_example = process_no_loss some keep_text never "us-east" taken [] taken-Grows

-- Two were handled, their offsets are committed, and both partitions go back.
drained_run :
    ◌≡◌ {A = List String × Option ℕ × Option ℕ × Option ℕ × Option ℕ × Bool}
      (
        drained_batch.state,
        drained_batch.done ("t1", 0),
        drained_batch.done ("t1", 1),
        drained_batch.seeks ("t1", 0),
        drained_batch.seeks ("t1", 1),
        drained_batch.failed,
      )
      ("a" ∷ "b" ∷ [], some 6, some 10, some 6, some 10, true)
unfolding process str_eq
drained_run = refl
