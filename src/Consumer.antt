-- ===== src/Consumer.antt =====
-- The consumer of one region's Event Streams bus: gateway/core/ibm_cloud/event_streams/kafka_consumer.py.
-- The broker's client and the JSON parser are parameters: what a fetch returned is an argument, and
-- the commits and the rewinds that the code asks for are part of the result.
pub mod Laws
pub mod Batches
pub mod NoLoss
use qiskit_serverless.Base.{
  Bool, List, Option, String, [], false, if◌then◌else◌, is_some, none, not, some, str_eq, true, ℕ,
  ◌&&◌, ◌++◌, ◌+◌, ◌==◌, ◌||◌, ◌∷◌,
}
use qiskit_serverless.Transitions.Rows.{one}
use qiskit_serverless.Delivery.Refinement.{messages}

-- A topic and a partition of it.
abbrev pub Partition : Type 0
Partition = String × ℕ

pub record KafkaMessage : Type 0 where
  pub partition : Partition
  pub offset : ℕ
  pub kafka_error : Option Bool  -- whether it is fatal
  pub value : Option String

-- The outcomes that are counted.
pub data EventOutcome : Type 0 where
  handled_one invalid_one retry_one consumer_error fatal_error : EventOutcome

-- What the handler raised.
pub data Raised : Type 0 where
  nothing_raised invalid_event_error other_exception : Raised

-- A dictionary by partition.
abbrev pub Offsets : Type 0
Offsets = Partition → Option ℕ

abbrev pub same_partition : Partition → Partition → Bool
same_partition p q = str_eq p.0 q.0 && p.1 == q.1

abbrev pub put_offset : Partition → ℕ → Offsets → Offsets
put_offset p n d = λ q. if same_partition q p then some n else d q

abbrev pub keep_first : Bool → ℕ → Option ℕ → Option ℕ
keep_first own n (some m) = some m
keep_first own n none = if own then some n else none

-- `setdefault`
abbrev pub set_default : Partition → ℕ → Offsets → Offsets
set_default p n d = λ q. keep_first (same_partition q p) n (d q)

-- What the drain of a region has done.
pub record Drained (S : Type 0) : Type 0 where
  pub state : S  -- what the handler changes
  pub counts : List EventOutcome
  pub done : Offsets  -- committed at the end
  pub seeks : Offsets
  pub fatal : Bool  -- the consumer is rebuilt by the next drain
  pub failed : Bool

abbrev pub is_delivered : KafkaMessage → Bool
is_delivered m = not (is_some m.kafka_error)

abbrev pub rewind_one : KafkaMessage → Offsets → Offsets
rewind_one m d = if is_delivered m then set_default m.partition m.offset d else d

-- The offsets that `_rewind` seeks to.
unfoldable pub rewind_offsets : Offsets → List KafkaMessage → Offsets
rewind_offsets d [] = d
rewind_offsets d (m ∷ ms) = rewind_offsets (rewind_one m d) ms

abbrev pub no_offsets : Offsets
no_offsets p = none

module _ {S P : Type 0} (json_object : String → Option P)
    (handler : P → String → String → S → Raised × S) (killed : KafkaMessage → Bool) where
  -- `_deserialize`: `none` raises `InvalidEventError`.
  unfoldable pub deserialize : Option String → Option P
  deserialize none = none
  deserialize (some value) = json_object value

  -- The payload, handed to the handler.
  unfoldable pub call_handler : String → KafkaMessage → S → Raised × S
  unfolding deserialize
  call_handler region m s = elim (deserialize m.value) [
    | none ↦ (invalid_event_error, s)
    | some payload ↦ handler payload region m.partition.0 s
  ]

  abbrev pub finish_message : KafkaMessage → EventOutcome → S → Drained S → Drained S
  finish_message m outcome s d = record d {
    state = s;
    counts = d.counts ++ (outcome ∷ []);
    done = put_offset m.partition (m.offset + 1) d.done;
  }

  -- `_rewind`, after a failure that a later try may not meet.
  abbrev pub fail_message : List KafkaMessage → S → Drained S → Drained S
  fail_message remaining s d = record d {
    state = s;
    counts = d.counts ++ (retry_one ∷ []);
    seeks = rewind_offsets no_offsets remaining;
    failed = true;
  }

  -- `_handle`, and what the loop does with its answer: whether it goes on.
  abbrev pub answer_message :
      KafkaMessage → List KafkaMessage → Raised × S → Drained S → Drained S × Bool
  answer_message m later (nothing_raised, s) d = (finish_message m handled_one s d, true)
  answer_message m later (invalid_event_error, s) d = (finish_message m invalid_one s d, true)
  answer_message m later (other_exception, s) d = (fail_message (m ∷ later) s d, false)

  -- `_on_kafka_error`, for an error that a message carries.
  abbrev pub on_kafka_error : Bool → Drained S → Drained S × Bool
  on_kafka_error true d =
      (record d { counts = d.counts ++ (fatal_error ∷ []); fatal = true }, false)
  on_kafka_error false d = (record d { counts = d.counts ++ (consumer_error ∷ []) }, true)

  unfoldable pub one_message :
      String → KafkaMessage → List KafkaMessage → Drained S → Drained S × Bool
  unfolding call_handler rewind_offsets
  one_message region m later d = elim m.kafka_error [
    | some is_fatal ↦ on_kafka_error is_fatal d
    | none ↦ answer_message m later (call_handler region m d.state) d
  ]

  -- The loop over a batch.
  unfoldable pub process : String → List KafkaMessage → Drained S → Drained S
  unfolding one_message
  process region [] d = d
  process region (m ∷ ms) d =
      let (d', goes_on) = one_message region m ms d in
      let later = process region ms d' in if killed m then d else if goes_on then later else d'

-- What a region has when its turn comes: no consumer could be made, the fetch raised, or a batch.
pub data Fetched : Type 0 where
  no_consumer : Fetched
  fetch_error : Bool → Fetched
  batch : List KafkaMessage → Fetched

-- One region's share of a drain.
pub record Region : Type 0 where
  pub name : String
  pub fetched : Fetched

module _ {S P : Type 0} (json_object : String → Option P)
    (handler : P → String → String → S → Raised × S) (killed : KafkaMessage → Bool) where
  abbrev pub fresh : S → Drained S
  fresh s = record {
    state = s;
    counts = [];
    done = no_offsets;
    seeks = no_offsets;
    fatal = false;
    failed = false;
  }

  -- `_drain_region`; `done` is what `_commit` sends.
  unfoldable pub drain_consumer : Region → S → Drained S
  unfolding process
  drain_consumer region s = elim region.fetched [
    | no_consumer ↦ record (fresh s) { counts = consumer_error ∷ [] }
    | fetch_error is_fatal ↦ (on_kafka_error json_object handler killed is_fatal (fresh s)).0
    | batch messages ↦ process json_object handler killed region.name messages (fresh s)
  ]

  -- `drain`: the state that the handler leaves, and whether a failure is raised at the end.
  unfoldable pub drain_all : (String → Bool) → List Region → S → S × Bool
  unfolding drain_consumer
  drain_all should_stop [] s = (s, false)
  drain_all should_stop (region ∷ regions) s =
      let one = drain_consumer region s in
      let (s', later_failed) = drain_all should_stop regions one.state in
      if should_stop region.name then (s, false) else (s', one.failed || later_failed)
