-- ===== src/BlockedEvents/Parts.antt =====
-- How much of a list of messages a tick hands to the service.
use qiskit_serverless.Base.{
  Bool, List, Option, Option-cases, String, [], ap, false, inl, inr, none, refl, some, sym, ◌++◌,
  ◌∙◌, ◌∷◌, ◌≡◌,
}
use qiskit_serverless.Blocked.{BlockedCloudResource}
use qiskit_serverless.Blocked.Events.{EventPayload, handle}
use qiskit_serverless.Blocked.Replay.{Received, handle_all, last_word}
use qiskit_serverless.BlockedEvents.{Tick}
use qiskit_serverless.Consumer.{KafkaMessage}

-- A tick in which nothing goes wrong.
pub record Uninterrupted (tick : Tick) : Type 0 where
  pub goes_on : (region : String) → tick.should_stop region ≡ false
  pub alive : (m : KafkaMessage) → tick.killed m ≡ false
  pub writes :
      (payload : EventPayload) (region topic : String) → tick.outage payload region topic ≡ false

module _ (reasons : String → Option String) where
  handle_all-append :
      (xs ys : List Received) (rows : List BlockedCloudResource)
      → handle_all reasons (xs ++ ys) rows ≡ handle_all reasons ys (handle_all reasons xs rows)
  handle_all-append [] ys rows = refl
  handle_all-append (m ∷ xs) ys rows =
      handle_all-append xs ys (handle reasons m.payload m.region m.topic rows).1

  abbrev later_word : Option Bool → Option Bool → Option Bool
  later_word none before = before
  later_word (some b) before = some b

  last_word-append :
      (k : BlockedCloudResource) (xs ys : List Received)
      → last_word reasons k (xs ++ ys)
        ≡ later_word (last_word reasons k ys) (last_word reasons k xs)
  last_word-append k [] ys = elim (Option-cases (last_word reasons k ys)) [
    | inl n ↦ rw n refl
    | inr (b, e) ↦ rw e refl
  ]
  last_word-append k (m ∷ xs) ys = elim (Option-cases (last_word reasons k ys)) [
    | inl n ↦ rw (last_word-append k xs ys, n) refl
    | inr (b, e) ↦ rw (last_word-append k xs ys, e) refl
  ]

  -- The table after some of the messages of a list, which are all of them in a tick that nothing
  -- interrupts, and speak of no row that the list does not speak of.
  pub record Handles (tick : Tick) (full : List Received) (before after : List BlockedCloudResource)
      : Type 0 where
    pub handled : List Received
    pub same : after ≡ handle_all reasons handled before
    pub within :
        (k : BlockedCloudResource)
        → last_word reasons k full ≡ none
        → last_word reasons k handled ≡ none
    pub whole : Uninterrupted tick → handled ≡ full

  module _ (tick : Tick) where
    pub nothing_to_do : (s : List BlockedCloudResource) → Handles tick [] s s
    nothing_to_do s = record { handled = []; same = refl; within = λ k h. refl; whole = λ u. refl }

    pub cut_short :
        (full : List Received) (s : List BlockedCloudResource)
        → (Uninterrupted tick → ⊥)
        → Handles tick full s s
    cut_short full s interrupted = record {
      handled = [];
      same = refl;
      within = λ k h. refl;
      whole = λ u. absurd (interrupted u);
    }

    first_quiet : (o p : Option Bool) → later_word p o ≡ none → (o ≡ none) × (p ≡ none)
    first_quiet o none h = (h, refl)
    first_quiet o (some b) h = absurd (cc h)

    pub in_turn :
        (xs ys : List Received) (s t u : List BlockedCloudResource)
        → Handles tick xs s t
        → Handles tick ys t u
        → Handles tick (xs ++ ys) s u
    in_turn xs ys s t u h k = record {
      handled = h.handled ++ k.handled;
      same =
          k.same
          ∙ ap (handle_all reasons k.handled) h.same
          ∙ sym (handle_all-append h.handled k.handled s);
      within = λ row quiet.
          let (first, later) =
            first_quiet (last_word reasons row xs) (last_word reasons row ys)
              (sym (last_word-append row xs ys) ∙ quiet) in
          last_word-append row h.handled k.handled
          ∙ rw (h.within row first, k.within row later) refl;
      whole = λ u. rw (h.whole u, k.whole u) refl;
    }

    pub one_handled :
        (m : Received) (s : List BlockedCloudResource)
        → Handles tick (m ∷ []) s (handle reasons m.payload m.region m.topic s).1
    one_handled m s = record { handled = m ∷ []; same = refl; within = λ k h. h; whole = λ u. refl }
