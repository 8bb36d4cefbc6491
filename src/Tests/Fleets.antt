-- ===== src/Tests/Fleets.antt =====
-- Passes over Fleets jobs, at concrete times.
use qiskit_serverless.Base.{Option, [], none, refl, some, str_eq, true, ◌∷◌, ◌≡◌}
use qiskit_serverless.Breaker.{Settings}
use qiskit_serverless.Fleets.{FleetsState, stopping_deadline_passed, update_status}
use qiskit_serverless.Faults.{Result, err, ok, value_error}
use qiskit_serverless.Fleets.Passes.{update_status_keeps}
use qiskit_serverless.Fleets.Deadline.{stopping_ends}
use qiskit_serverless.Tests.Fixtures.{billed, quiet, running_events, running_world, tables, world}
use qiskit_serverless.Models.{
  Job, Status, find_job, first_by_created, is_status_event, status_event, stopped, stopping,
}
use qiskit_serverless.Transitions.Monad.{Env, World}
use qiskit_serverless.Transitions.Memory.{Agrees, Agrees-Moved, status_of}
use qiskit_serverless.Workload.{is_mirrored}
use qiskit_serverless.Billing.{billing_name_for}
use qiskit_serverless.Transitions.Owed.{is_fee_billable}
use qiskit_serverless.Transitions.Writes.{valid_transitions}

abbrev limits : Settings
limits = record { failure_threshold = 3; pause = 60 }

abbrev start_state : World → FleetsState
start_state w = record {
  world = w;
  breakers = λ region. record { consecutive_failures = 0; opened_at = none };
  counted = 0;
}

abbrev confirming : Env
confirming = record quiet { runner_stop = λ job. ok true }

abbrev unreadable : Job → Result (Option Status)
unreadable job = err value_error

update_status_keeps_example :
    Agrees 1
      (update_status quiet limits 5
        (some 1000000)
        unreadable
        (start_state running_world)).1.world.db
unfolding status_event
update_status_keeps_example =
    update_status_keeps (Agrees 1) quiet limits 5 (some 1000000) unreadable
      (start_state running_world) (Agrees-Moved 1) refl

abbrev stopping_job : Job
stopping_job = billed 1 stopping (some "f1")

abbrev late_world : World
late_world = record (world (tables (stopping_job ∷ []) running_events) stopping_job) {
  now = 700000000;
}

stopping_ends_example :
    ((update_status quiet limits 5 (some 1000000) unreadable (start_state late_world)).0 ≡ ok true)
    × (status_of (
          find_job 1
            (update_status quiet limits 5
              (some 1000000)
              unreadable
              (start_state late_world)).1.world.db.jobs)
        ≡ some stopped)
unfolding stopping_deadline_passed first_by_created is_status_event status_event valid_transitions
    is_fee_billable billing_name_for str_eq is_mirrored
stopping_ends_example =
    stopping_ends quiet limits 5 (some 1000000) (start_state late_world) stopping_job unreadable
      refl refl refl refl refl refl refl
