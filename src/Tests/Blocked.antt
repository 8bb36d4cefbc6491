-- ===== src/Tests/Blocked.antt =====
-- Blocked resources: a table, messages and stops.
use qiskit_serverless.Blocked.Events.{EventPayload, flag, handle, null, text}
use qiskit_serverless.Base.{
  List, Option, String, [], arith, false, if◌then◌else◌, none, refl, some, str_eq, true, ◌∷◌, ◌≡◌,
}
use qiskit_serverless.Blocked.{
  BlockedCloudResource, Enforcement, blocked_jobs_filter, blocks, distinct, job_scope, selected,
}
use qiskit_serverless.Breaker.{Settings, is_open}
use qiskit_serverless.Fleets.{FleetsState, paused}
use qiskit_serverless.Crn.{crn_region, region_crn_regex}
use qiskit_serverless.Faults.{ok}
use qiskit_serverless.Tests.Fixtures.{quiet, running_job, running_world}
use qiskit_serverless.Base.Text.{remove_prefix}
use qiskit_serverless.Models.{find_job, stopped}
use qiskit_serverless.Transitions.Monad.{Env}
use qiskit_serverless.Transitions.Memory.{status_of}
use qiskit_serverless.Blocked.Stops.{stop_blocked}
use qiskit_serverless.Blocked.Constraints.{IsConstrained, handle-IsConstrained}
use qiskit_serverless.Blocked.Mirror.{handle_refines, holds, report, updated_set}
use qiskit_serverless.Blocked.Reported.{stopped_unreported}
use qiskit_serverless.Blocked.Matching.{blocked_jobs_filter-blocks}
use qiskit_serverless.Workload.{is_mirrored}
use qiskit_serverless.Transitions.Writes.{valid_transitions}

abbrev pub blocked_row : String → String → BlockedCloudResource
blocked_row reason region = record {
  account = some "abc";
  plan = some "premium";
  subscription = some "sub-1";
  reason = reason;
  region = region;
}

abbrev blocked_table : List BlockedCloudResource
blocked_table = blocked_row "total" "us-east" ∷ blocked_row "non_quantum" "us-east" ∷ []

abbrev pub enforced : Enforcement
enforced = record { stop_enabled = true; regional = true }

blocked_jobs_filter-blocks_example :
    selected (blocked_jobs_filter enforced blocked_table) running_job
    ≡ blocks enforced blocked_table (job_scope running_job) (crn_region running_job.instance_crn)
blocked_jobs_filter-blocks_example =
    blocked_jobs_filter-blocks enforced blocked_table running_job ((refl, refl), ((refl, refl), tt))

-- Two reasons, one condition.
one_condition : selected (blocked_jobs_filter enforced blocked_table) running_job ≡ true
unfolding blocked_jobs_filter selected distinct region_crn_regex str_eq
one_condition = refl

abbrev reasons : String → Option String
reasons topic = if str_eq topic "t1" then some "total" else none

abbrev unblocking : EventPayload
unblocking field =
    if str_eq field "account_id"
    then text "a/abc"
    else if str_eq field "plan_id"
    then text "premium"
    else if str_eq field "subscription_id"
    then text "sub-1"
    else if str_eq field "deleted"
    then flag true
    else null

handle_refines_example :
    holds (blocked_row "total" "us-east") (handle reasons unblocking "us-east" "t1" blocked_table).1
    ≡ updated_set
        (report reasons unblocking "us-east" "t1")
        (blocked_row "total" "us-east")
        (holds (blocked_row "total" "us-east") blocked_table)
handle_refines_example =
    handle_refines reasons unblocking "us-east" "t1" blocked_table (blocked_row "total" "us-east")

-- The block for the other reason stays.
still_blocked :
    (handle reasons unblocking "us-east" "t1" blocked_table).1
    ≡ blocked_row "non_quantum" "us-east" ∷ []
unfolding handle str_eq remove_prefix
still_blocked = refl

handle-IsConstrained_example : IsConstrained (handle reasons unblocking "us-east" "t1" []).1
handle-IsConstrained_example =
    handle-IsConstrained reasons unblocking "us-east" "t1" []
      (record { unique_blocked_resource = λ k. omega arith; blocked_resource_has_a_scope = tt })

abbrev stop_state : FleetsState
stop_state = record {
  world = running_world;
  breakers = λ region. record { consecutive_failures = 0; opened_at = none };
  counted = 0;
}

abbrev stop_limits : Settings
stop_limits = record { failure_threshold = 3; pause = 60 }

stopped_unreported_example :
    ((stop_blocked quiet stop_limits (λ j. false) running_job stop_state).0 ≡ ok false)
    × (status_of (
          find_job 1
            (stop_blocked quiet stop_limits (λ j. false) running_job stop_state).1.world.db.jobs)
        ≡ some stopped)
unfolding paused is_open str_eq valid_transitions is_mirrored
stopped_unreported_example =
    stopped_unreported quiet stop_limits (λ j. false) running_job stop_state running_job refl refl
      refl refl refl refl refl refl refl

-- The runner confirms the cancel.
abbrev confirming_stop : Env
confirming_stop = record quiet { runner_stop = λ job. ok true }
