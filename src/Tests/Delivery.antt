-- ===== src/Tests/Delivery.antt =====
-- Drains of a small outbox, with a sender that takes some of the messages.
use qiskit_serverless.Base.{
  List, Option, String, [], arith, false, filter, if◌then◌else◌, is_some, map, none, refl, some,
  str_eq, true, ℕ, ◌==◌, ◌∷◌, ◌≡◌,
}
use qiskit_serverless.Billing.{build_job_completed_event}
use qiskit_serverless.Delivery.{
  DrainState, Outside, RetryConfig, Sender, accepted, batch_sender, breaker_is_open, bulk_update,
  drain_region, keep_for_retry, next_batch, permanent, plain_sender, retried, retry_wait, retryable,
  send_batch, send_rows, should_continue_draining, text_take, without_nul,
}
use qiskit_serverless.Breaker.{Settings, closed, is_open, record_failure, record_success}
use qiskit_serverless.Tests.Fixtures.{pending_job}
use qiskit_serverless.Models.{Outbox, billing, job_usage}
use qiskit_serverless.Delivery.Refinement.{messages, without_keys}
use qiskit_serverless.Delivery.Channels.{
  ChannelState, distinct_regions, drain, drain_regions, pending_regions,
}
use qiskit_serverless.Delivery.Shrinks.{Steady}
use qiskit_serverless.Delivery.Ends.{drain_terminates}
use qiskit_serverless.Delivery.Channels.Laws.{drain_refines}
use qiskit_serverless.Base.Sort.{insert_by, sort_by}

abbrev limits : Settings
limits = record { failure_threshold = 3; pause = 60 }

abbrev waits_of : RetryConfig
waits_of = record { base = 120; cap = 600 }

-- A second has 1000000 ticks; every question takes one.
abbrev outside : Outside
outside = record { now = λ n. 5000000; monotonic = λ n. n; killed = λ n. false }

abbrev owed_row : ℕ → Option String → ℕ → Outbox
owed_row pk region attempts = record {
  pk = pk;
  job_id = 1;
  channel = job_usage;
  region = region;
  payload = billing (build_job_completed_event pending_job (some 1) 2 3 pk);
  created = pk;
  attempts = attempts;
  next_attempt_at = 10;
  last_error = "";
  unrecoverable = false;
}

abbrev owed_rows : List Outbox
owed_rows =
    owed_row 1 (some "eu-de") 4 ∷ owed_row 2 (some "us-east") 0 ∷ owed_row 3 (some "eu-de") 0 ∷ []

-- Only the third message is ever confirmed.
abbrev kafka : Sender
kafka = batch_sender (λ n messages. filter (λ k. k == 3) (map (λ m. m.key) messages))

-- A service that answers for the third call only.
abbrev service : Sender
service =
    plain_sender (λ n payload.
      if n == 7 then accepted else if n == 3 then permanent "bad" else retryable "late")

abbrev channel_state : ChannelState
channel_state = record {
  outbox = owed_rows;
  breakers = λ region. record { consecutive_failures = 0; opened_at = none };
  asked = 0;
  delivered = [];
}

abbrev drain_state : DrainState
drain_state = record {
  outbox = owed_rows;
  breaker = record { consecutive_failures = 0; opened_at = none };
  asked = 0;
  delivered = [];
}

abbrev keys_after : Option ChannelState → List ℕ
keys_after none = []
keys_after (some st) = map (λ r. r.pk) st.outbox

drained_keys :
    keys_after (drain outside limits waits_of kafka job_usage 100 3 channel_state) ≡ 1 ∷ 2 ∷ []
unfolding drain drain_regions pending_regions distinct_regions sort_by breaker_is_open is_open
    drain_region should_continue_draining next_batch str_eq send_rows send_batch keep_for_retry
    record_success bulk_update retried insert_by closed record_failure retry_wait text_take
    without_nul
drained_keys = refl

abbrev state_or : ChannelState → Option ChannelState → ChannelState
state_or st none = st
state_or st (some v) = v

abbrev after_drain : ChannelState
after_drain =
    state_or channel_state (drain outside limits waits_of kafka job_usage 100 3 channel_state)

drain_returns : drain outside limits waits_of kafka job_usage 100 3 channel_state ≡ some after_drain
unfolding drain drain_regions pending_regions distinct_regions sort_by breaker_is_open is_open
    drain_region should_continue_draining next_batch str_eq send_rows send_batch keep_for_retry
    record_success bulk_update retried insert_by closed record_failure retry_wait text_take
    without_nul
drain_returns = refl

drain_refines_example :
    messages after_drain.outbox ≡ without_keys after_drain.delivered (messages owed_rows)
drain_refines_example =
    drain_refines outside limits waits_of kafka job_usage 100 3 channel_state after_drain refl
      drain_returns

outside-Steady : Steady outside 5500000
outside-Steady = record {
  early = λ n. omega arith;
  late = λ n. omega arith;
  forward = λ n m h. h;
  kept = λ n m h e. e;
}

drain_terminates_example :
    is_some
      (drain_region outside limits waits_of service job_usage (some "eu-de") 100 4 drain_state)
    ≡ true
unfolding str_eq
drain_terminates_example =
    drain_terminates outside limits waits_of service job_usage (some "eu-de") 5500000 100 4
      drain_state outside-Steady (omega arith)

third_wait : (retry_wait waits_of 2 ≡ 480) × (retry_wait waits_of 9 ≡ 600)
unfolding retry_wait
third_wait = (refl, refl)
