-- ===== src/BlockedEvents.antt =====
-- The task that keeps the table of blocked resources: gateway/scheduler/tasks/consume_blocked_account_events.py,
-- which hands the messages of Consumer to the service of Blocked.Events.
pub mod Parts
pub mod Batches
pub mod Redelivery
use Prim.Native.String.{◌++◌}
use qiskit_serverless.Base.{Bool, List, Option, String, false, if◌then◌else◌, none, some, str_eq}
use qiskit_serverless.Blocked.{BlockedCloudResource}
use qiskit_serverless.Blocked.Events.{EventPayload, Parsed, accept, handle, refuse}
use qiskit_serverless.Consumer.{
  KafkaMessage, Raised, Region, drain_all, invalid_event_error, nothing_raised, other_exception,
}

-- `blocked_accounts_topics`: the reason of each topic.
unfoldable pub blocked_accounts_topics : String → String → Option String
blocked_accounts_topics environment topic =
    if str_eq topic ("quantum." ++ (environment ++ ".blocked-account-plans.v1"))
    then some "total"
    else if str_eq topic ("quantum." ++ (environment ++ ".blocked-account-plans-non-quantum.v1"))
    then some "non_quantum"
    else none

-- What a tick meets: the kill signal before a region or a message, and the writes that the database
-- refuses.
pub record Tick : Type 0 where
  pub should_stop : String → Bool
  pub killed : KafkaMessage → Bool
  pub outage : EventPayload → String → String → Bool

-- How a handler returns, when the database refuses its write or does not.
abbrev pub with_outage :
    {A : Type 0}
    → Bool
    → List BlockedCloudResource
    → Parsed A × List BlockedCloudResource
    → Raised × List BlockedCloudResource
with_outage refused before (refuse e, rows) = (invalid_event_error, rows)
with_outage refused before (accept a, rows) =
    if refused then (other_exception, before) else (nothing_raised, rows)

module _ (json_object : String → Option EventPayload) (environment : String) where
  -- The handler of the consumer.
  abbrev pub event_handler :
      Tick
      → EventPayload
      → String
      → String
      → List BlockedCloudResource
      → Raised × List BlockedCloudResource
  event_handler tick payload region topic rows =
      with_outage (tick.outage payload region topic) rows
        (handle (blocked_accounts_topics environment) payload region topic rows)

  -- `run`, when Event Streams are enabled or not: the table, and whether a failure is raised.
  unfoldable pub run :
      Bool → Tick → List Region → List BlockedCloudResource → List BlockedCloudResource × Bool
  unfolding drain_all
  run enabled tick regions rows =
      if enabled
      then drain_all json_object (event_handler tick) tick.killed tick.should_stop regions rows
      else (rows, false)
