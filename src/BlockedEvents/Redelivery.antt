-- ===== src/BlockedEvents/Redelivery.antt =====
-- Ticks that are cut short, with messages that are delivered again.
use qiskit_serverless.Base.{
  Bool, Bool-cases, List, Option, Option-cases, String, [], ap, false, inl, inr, refl, sym, true,
  ◌++◌, ◌∙◌, ◌∷◌, ◌≡◌,
}
use qiskit_serverless.Blocked.{Enforcement, Scope, BlockedCloudResource, blocks}
use qiskit_serverless.Blocked.Events.{EventPayload}
use qiskit_serverless.Blocked.Mirror.{holds}
use qiskit_serverless.Blocked.Replay.{
  Received, blocks-SameSet, handle_all-last, last_word, or_before,
}
use qiskit_serverless.BlockedEvents.{Tick, blocked_accounts_topics, event_handler, run}
use qiskit_serverless.BlockedEvents.Parts.{
  Handles, Uninterrupted, cut_short, in_turn, nothing_to_do,
}
use qiskit_serverless.BlockedEvents.Batches.{Rows, batch_handled, received}
use qiskit_serverless.Consumer.{
  Drained, Fetched, Region, batch, drain_all, drain_consumer, fetch_error, fresh, no_consumer,
}

module _ (json_object : String → Option EventPayload) (environment : String) where
  abbrev reasons : String → Option String
  reasons = blocked_accounts_topics environment

  -- The messages of every region that the service is handed when nothing interrupts the tick.
  abbrev fetched_messages : String → Fetched → List Received
  fetched_messages region no_consumer = []
  fetched_messages region (fetch_error is_fatal) = []
  fetched_messages region (batch messages) = received json_object region messages

  abbrev all_received : List Region → List Received
  all_received [] = []
  all_received (region ∷ regions) =
      fetched_messages region.name region.fetched ++ all_received regions

  module _ (tick : Tick) where
    abbrev Takes : List Received → Rows → Rows → Type 0
    Takes = Handles reasons tick

    abbrev drained_region : Region → Rows → Drained Rows
    drained_region =
        drain_consumer json_object (event_handler json_object environment tick) tick.killed

    abbrev drained_all : List Region → Rows → Rows × Bool
    drained_all =
        drain_all json_object (event_handler json_object environment tick) tick.killed
          tick.should_stop

    region_handled :
        (name : String) (fetched : Fetched) (s : Rows)
        → Takes
            (fetched_messages name fetched)
            s
            (drained_region (record { name = name; fetched = fetched }) s).state
    unfolding drain_consumer
    region_handled name no_consumer s = nothing_to_do reasons tick s
    region_handled name (fetch_error true) s = nothing_to_do reasons tick s
    region_handled name (fetch_error false) s = nothing_to_do reasons tick s
    region_handled name (batch messages) s =
        batch_handled json_object environment tick name messages
          (fresh json_object (event_handler json_object environment tick) tick.killed s)

    all_handled :
        (regions : List Region) (s : Rows)
        → Takes (all_received regions) s (drained_all regions s).0
    unfolding drain_all
    all_handled [] s = nothing_to_do reasons tick s
    all_handled (region ∷ regions) s = elim (Bool-cases (tick.should_stop region.name)) [
      | inl stop ↦
          rw (stop, drain_all)
            (cut_short reasons tick _ s (λ u. absurd (cc (sym (u.goes_on region.name) ∙ stop))))
      | inr on ↦
          rw (on, drain_all)
            (in_turn reasons tick (fetched_messages region.name region.fetched)
              (all_received regions) s (drained_region region s).state _
              (region_handled region.name region.fetched s)
              (all_handled regions (drained_region region s).state))
    ]

    run_handled :
        (regions : List Region) (s : Rows)
        → Takes (all_received regions) s (run json_object environment true tick regions s).0
    unfolding run
    run_handled regions s = all_handled regions s

  -- Ticks in turn, which are all delivered the same messages.
  abbrev pub run_all : List Tick → List Region → Rows → Rows
  run_all [] regions rows = rows
  run_all (tick ∷ ticks) regions rows =
      run_all ticks regions (run json_object environment true tick regions rows).0

  module _ (regions : List Region) (k : BlockedCloudResource) where
    -- What the messages make of the answer for a row.
    abbrev settled_word : Bool → Bool
    settled_word = or_before reasons (last_word reasons k (all_received regions))

    absorbed :
        (tick : Tick) (s : Rows)
        → settled_word (holds k (run json_object environment true tick regions s).0)
          ≡ settled_word (holds k s)
    absorbed tick s =
        let h = run_handled tick regions s in
        ap (λ rows. settled_word (holds k rows)) h.same
        ∙ ap settled_word (handle_all-last reasons k h.handled s)
        ∙ elim (Option-cases (last_word reasons k (all_received regions))) [
          | inl n ↦ rw (n, h.within k n) refl
          | inr (b, e) ↦ rw e refl
        ]

    all_absorbed :
        (ticks : List Tick) (s : Rows)
        → settled_word (holds k (run_all ticks regions s)) ≡ settled_word (holds k s)
    all_absorbed [] s = refl
    all_absorbed (tick ∷ ticks) s =
        all_absorbed ticks (run json_object environment true tick regions s).0 ∙ absorbed tick s

    completed :
        (tick : Tick) (s : Rows)
        → Uninterrupted tick
        → holds k (run json_object environment true tick regions s).0 ≡ settled_word (holds k s)
    completed tick s u =
        let h = run_handled tick regions s in
        ap (holds k) h.same
        ∙ handle_all-last reasons k h.handled s
        ∙ ap (λ ms. or_before reasons (last_word reasons k ms) (holds k s)) (h.whole u)

-- When messages are delivered to any number of ticks, each cut short by the kill signal
-- or by a database that refuses a write, or not, and then again to one that nothing interrupts,
-- every answer about a resource and region is what that last tick alone would have made of them.
pub interrupted_ticks_harmless :
    (json_object : String → Option EventPayload) (environment : String) (ticks : List Tick)
    (last : Tick) (regions : List Region) (rows : List BlockedCloudResource)
    (enforcement : Enforcement) (resource : Scope) (region : Option String)
    → Uninterrupted last
    → blocks enforcement
        (run json_object environment true last regions
          (run_all json_object environment ticks regions rows)).0
        resource
        region
      ≡ blocks enforcement (run json_object environment true last regions rows).0 resource region
interrupted_ticks_harmless json_object environment ticks last regions rows enforcement resource
      region u =
    blocks-SameSet enforcement _ _ resource region (λ k.
      completed json_object environment regions k last
        (run_all json_object environment ticks regions rows) u
      ∙ all_absorbed json_object environment regions k ticks rows
      ∙ sym (completed json_object environment regions k last rows u))
