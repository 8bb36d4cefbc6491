-- ===== src/Consumer/Batches.antt =====
-- A batch is handled in order up to a message, and what is committed and sought agrees with that.
use qiskit_serverless.Base.{
  Bool, Bool-cases, List, Option, String, [], ap, arith, false, if◌then◌else◌, inl, inr, refl, some,
  true, ℕ, ◌++◌, ◌+◌, ◌<◌, ◌∷◌, ◌≡◌, ◌≤◌, ◌⊎◌,
}
use qiskit_serverless.Consumer.{
  Drained, EventOutcome, KafkaMessage, Offsets, Partition, Raised, call_handler, finish_message,
  is_delivered, one_message, other_exception, process, put_offset, same_partition,
}
use qiskit_serverless.Consumer.Laws.{AllBelow, AllFrom, Grows, Rewinds, in_partition, up_to}

module _ {S P : Type 0} (json_object : String → Option P)
    (handler : P → String → String → S → Raised × S) (killed : KafkaMessage → Bool)
    (region : String) where
  -- The state after one message, and after a list of them; an error of the client changes nothing.
  abbrev pub state_after : KafkaMessage → S → S
  state_after m s =
      if is_delivered m then (call_handler json_object handler killed region m s).1 else s

  abbrev pub states_after : List KafkaMessage → S → S
  states_after [] s = s
  states_after (m ∷ ms) s = states_after ms (state_after m s)

  -- The state after a try of the first message of a list.
  abbrev pub state_tried : List KafkaMessage → S → S
  state_tried [] s = s
  state_tried (m ∷ ms) s = state_after m s

  abbrev pub is_transient : Raised → Bool
  is_transient other_exception = true
  is_transient r = false

  -- The handler returned from each message of a list, or found it invalid.
  abbrev pub Finished : List KafkaMessage → S → Type 0
  Finished [] s = Unit
  Finished (m ∷ ms) s =
      (is_delivered m ≡ true
        → is_transient (call_handler json_object handler killed region m s).0 ≡ false)
      × Finished ms (state_after m s)

  -- A batch that was handled up to some message.
  pub record HandledUpTo (messages : List KafkaMessage) (d d' : Drained S) : Type 0 where
    pub finished : List KafkaMessage
    pub rest : List KafkaMessage
    pub whole : messages ≡ finished ++ rest
    pub all_finished : Finished finished d.state
    pub in_order : d'.state ≡ (
        if d'.failed
        then state_tried rest (states_after finished d.state)
        else states_after finished d.state)
    pub grown : (q : Partition) → up_to (d.done q) ≤ up_to (d'.done q)
    pub committed : (q : Partition) → AllBelow q (up_to (d'.done q)) finished
    pub uncommitted : (q : Partition) → AllFrom q (up_to (d'.done q)) rest
    pub rewound : d'.failed ≡ true → (q : Partition) → Rewinds q (d'.seeks q) rest
    pub ends :
        (rest ≡ [])
        ⊎ (d'.failed ≡ true)
        ⊎ (d'.fatal ≡ true)
        ⊎ ((m : KafkaMessage) × (ms : List KafkaMessage) × (rest ≡ m ∷ ms) × (killed m ≡ true))

  -- One message more in front.
  pub extend :
      (m : KafkaMessage) (ms : List KafkaMessage) (d d1 d' : Drained S)
      → d1.state ≡ state_after m d.state
      → (is_delivered m ≡ true
          → is_transient (call_handler json_object handler killed region m d.state).0 ≡ false)
      → ((q : Partition) → up_to (d.done q) ≤ up_to (d1.done q))
      → ((q : Partition) → in_partition q m ≡ true → m.offset < up_to (d1.done q))
      → HandledUpTo ms d1 d'
      → HandledUpTo (m ∷ ms) d d'
  extend m ms d d1 d' same fine grows below h = record {
    finished = m ∷ h.finished;
    rest = h.rest;
    whole = ap (λ l. m ∷ l) h.whole;
    all_finished = (fine, rw (← same) h.all_finished);
    in_order = rw (← same) h.in_order;
    grown = λ q. omega (arith, grows q, h.grown q);
    committed = λ q. ((λ here. omega (arith, below q here, h.grown q)), h.committed q);
    uncommitted = h.uncommitted;
    rewound = h.rewound;
    ends = h.ends;
  }

  pub process-killed :
      (m : KafkaMessage) (ms : List KafkaMessage) (d : Drained S)
      → killed m ≡ true
      → process json_object handler killed region (m ∷ ms) d ≡ d
  unfolding process
  process-killed m ms d k = rw k refl

  module _ (m : KafkaMessage) (ms : List KafkaMessage) (d d1 : Drained S)
      (alive : killed m ≡ false) where
    pub process-on :
        one_message json_object handler killed region m ms d ≡ (d1, true)
        → process json_object handler killed region (m ∷ ms) d
          ≡ process json_object handler killed region ms d1
    unfolding process
    process-on e = rw (alive, e) refl

    pub process-off :
        one_message json_object handler killed region m ms d ≡ (d1, false)
        → process json_object handler killed region (m ∷ ms) d ≡ d1
    unfolding process
    process-off e = rw (alive, e) refl

  -- Nothing of the batch is finished yet.
  pub untouched :
      (messages : List KafkaMessage) (d d' : Drained S)
      → d'.done ≡ d.done
      → d'.state ≡ (if d'.failed then state_tried messages d.state else d.state)
      → ((q : Partition) → AllFrom q (up_to (d.done q)) messages)
      → (d'.failed ≡ true → (q : Partition) → Rewinds q (d'.seeks q) messages)
      → ((messages ≡ [])
          ⊎ (d'.failed ≡ true)
          ⊎ (d'.fatal ≡ true)
          ⊎ ((m : KafkaMessage) × (ms : List KafkaMessage) × (messages ≡ m ∷ ms)
              × (killed m ≡ true)))
      → HandledUpTo messages d d'
  untouched messages d d' same states from seeks ends = record {
    finished = [];
    rest = messages;
    whole = refl;
    all_finished = tt;
    in_order = states;
    grown = λ q. rw same (omega arith);
    committed = λ q. tt;
    uncommitted = λ q. rw same (from q);
    rewound = seeks;
    ends = ends;
  }

  -- What the loop has at hand before a batch.
  pub record Ready (messages : List KafkaMessage) (d : Drained S) : Type 0 where
    pub working : d.failed ≡ false
    pub grow : (q : Partition) → Grows q messages
    pub ahead : (q : Partition) → AllFrom q (up_to (d.done q)) messages

  in_partition-delivered :
      (q : Partition) (m : KafkaMessage)
      → is_delivered m ≡ true
      → in_partition q m ≡ same_partition q m.partition
  in_partition-delivered q m h = rw h refl

  -- What a message that is finished commits.
  put_at :
      (q : Partition) (m : KafkaMessage) (d : Offsets)
      → is_delivered m ≡ true
      → put_offset m.partition (m.offset + 1) d q
        ≡ (if in_partition q m then some (m.offset + 1) else d q)
  put_at q m d h = rw (in_partition-delivered q m h) refl

  next_from :
      (q : Partition) (m : KafkaMessage) (ms : List KafkaMessage) (o : Option ℕ)
      → (in_partition q m ≡ true → AllFrom q (m.offset + 1) ms)
      → AllFrom q (up_to o) ms
      → AllFrom q (up_to (if in_partition q m then some (m.offset + 1) else o)) ms
  next_from q m ms o own others = elim (Bool-cases (in_partition q m)) [
    | inl here ↦ rw here (own here)
    | inr other ↦ rw other others
  ]

  pub finish-Ready :
      (m : KafkaMessage) (ms : List KafkaMessage) (outcome : EventOutcome) (s : S) (d : Drained S)
      → is_delivered m ≡ true
      → Ready (m ∷ ms) d
      → Ready ms (finish_message json_object handler killed m outcome s d)
  finish-Ready m ms outcome s d delivered r = record {
    working = r.working;
    grow = λ q. (r.grow q).1;
    ahead = λ q.
        rw (put_at q m d.done delivered) (next_from q m ms (d.done q) (r.grow q).0 (r.ahead q).1);
  }

  -- A message that the handler returned from, or that it found invalid.
  pub finish_extends :
      (m : KafkaMessage) (ms : List KafkaMessage) (outcome : EventOutcome) (r : Raised × S)
      (d d' : Drained S)
      → is_delivered m ≡ true
      → call_handler json_object handler killed region m d.state ≡ r
      → is_transient r.0 ≡ false
      → Ready (m ∷ ms) d
      → HandledUpTo ms (finish_message json_object handler killed m outcome r.1 d) d'
      → HandledUpTo (m ∷ ms) d d'
  finish_extends m ms outcome r d d' delivered called fine ready h =
      extend m ms d (finish_message json_object handler killed m outcome r.1 d) d'
        (rw (delivered, called) refl) (λ own. rw called fine)
        (λ q. rw (put_at q m d.done delivered) (ground (arith, (ready.ahead q).0)))
        (λ q here. rw (put_at q m d.done delivered) (rw here (omega arith))) h
