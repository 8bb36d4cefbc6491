-- ===== src/Tests/BlockedEvents.antt =====
-- A tick that the database interrupts, and the tick that follows it.
use qiskit_serverless.Base.{
  List, Option, String, [], false, none, refl, some, true, ℕ, ◌∷◌, ◌≡◌, if◌then◌else◌, str_eq,
}
use qiskit_serverless.Base.Text.{remove_prefix}
use qiskit_serverless.Blocked.{blocks, job_scope}
use qiskit_serverless.Blocked.Events.{EventPayload, handle, null, text}
use qiskit_serverless.BlockedEvents.{Tick, blocked_accounts_topics, run}
use qiskit_serverless.BlockedEvents.Redelivery.{interrupted_ticks_harmless, run_all}
use qiskit_serverless.Consumer.{KafkaMessage, Region, batch}
use qiskit_serverless.Tests.Fixtures.{running_job}
use qiskit_serverless.Tests.Blocked.{blocked_row, enforced}

-- A text that is a JSON object.
abbrev parsed_event : String → Option EventPayload
parsed_event plan = some (λ field.
    if str_eq field "plan_id"
    then text plan
    else if str_eq field "account_id"
    then text "a/abc"
    else if str_eq field "subscription_id"
    then text "sub-1"
    else null)

abbrev event_at : ℕ → String → String → KafkaMessage
event_at offset topic value = record {
  partition = (topic, 0);
  offset = offset;
  kafka_error = none;
  value = some value;
}

abbrev two_regions : List Region
two_regions =
    record {
      name = "us-east";
      fetched = batch (
          event_at 3 "quantum.test.blocked-account-plans.v1" "premium"
          ∷ event_at 7 "quantum.test.blocked-account-plans-non-quantum.v1" "premium"
          ∷ []);
    }
    ∷ record { name = "eu-de"; fetched = batch (event_at 1 "another topic" "premium" ∷ []) }
    ∷ []

abbrev quiet_tick : Tick
quiet_tick = record {
  should_stop = λ region. false;
  killed = λ m. false;
  outage = λ payload region topic. false;
}

abbrev outage_tick : Tick
outage_tick = record quiet_tick {
  outage = λ payload region topic. str_eq topic "quantum.test.blocked-account-plans-non-quantum.v1";
}

interrupted_run :
    run parsed_event "test" true outage_tick two_regions []
    ≡ (blocked_row "total" "us-east" ∷ [], true)
unfolding run handle remove_prefix str_eq blocked_accounts_topics
interrupted_run = refl

interrupted_ticks_harmless_example :
    blocks enforced
      (run parsed_event "test" true quiet_tick two_regions
        (run_all parsed_event "test" (outage_tick ∷ []) two_regions [])).0
      (job_scope running_job)
      (some "us-east")
    ≡ blocks enforced
        (run parsed_event "test" true quiet_tick two_regions []).0
        (job_scope running_job)
        (some "us-east")
interrupted_ticks_harmless_example =
    interrupted_ticks_harmless parsed_event "test" (outage_tick ∷ []) quiet_tick two_regions []
      enforced (job_scope running_job) (some "us-east")
      (record {
        goes_on = λ region. refl;
        alive = λ m. refl;
        writes = λ payload region topic. refl;
      })
