-- ===== src/Tests/Transitions.antt =====
-- The life of a job, at concrete calls.
use qiskit_serverless.Base.{
  List, [], arith, if◌then◌else◌, is_some, length, none, refl, some, str_eq, true, ◌∷◌, ◌≡◌, ◌≤◌,
}
use qiskit_serverless.Faults.{attribute_error, err, invalid_transition, ok}
use qiskit_serverless.Models.{
  JobEvent, api, failed, first_by_created, first_running_at, in_terminal_state, is_status_event,
  job_usage, license_fee, queued, running, schedule_jobs, scheduler, send_error, set_env_vars,
  size_label, status_event, stop_job, stopped, succeeded, update_job_status, update_jobs,
}
use qiskit_serverless.Transitions.Monad.{World}
use qiskit_serverless.Transitions.Calls.{Call, run_call, run_call-Step}
use qiskit_serverless.Transitions.Steps.{Step}
use qiskit_serverless.Transitions.History.{AreCalls, Visit, play, rows_once, visit}
use qiskit_serverless.Transitions.Rows.{rows}
use qiskit_serverless.Transitions.Progress.{entered, entered_once}
use qiskit_serverless.Transitions.Memory.{Agrees, AtRest, ended_absorbs, history-Agrees}
use qiskit_serverless.Transitions.Start.{start_kept}
use qiskit_serverless.Transitions.Methods.{
  pending_to_running, running_to_running, stop, to_stopped_or_failed, to_succeeded, to_terminal,
}
use qiskit_serverless.Transitions.Writes.{update_fields, valid_transitions}
use qiskit_serverless.Billing.{billing_name_for, build_job_usage, build_license_fee}
use qiskit_serverless.Transitions.Outcomes.{Owes, fee_owed, usage_owed}
use qiskit_serverless.Transitions.Owing.{
  to_stopped_or_failed-Owes, to_succeeded-Owes, to_terminal_atomic,
}
use qiskit_serverless.Transitions.Stopping.{progress_without_start, stop_owes_no_usage}
use qiskit_serverless.Tests.Fixtures.{
  billed, pending_job, pending_world, quiet, running_events, running_job, running_world, tables,
  world,
}
use qiskit_serverless.Workload.{build_workload_payload, is_mirrored}
use qiskit_serverless.Transitions.Returns.{to_terminal_returns}
use qiskit_serverless.Transitions.Owed.{is_fee_billable}

-- A start, a success, and a failure that comes too late.
abbrev race : List Visit
race =
    record { call = Call.start scheduler schedule_jobs []; job = pending_job; now = 1000000 }
    ∷ record {
      call = Call.finish_as succeeded scheduler update_job_status (set_env_vars "{}" ∷ []);
      job = running_job;
      now = 3000000;
    }
    ∷ record { call = Call.finish_as failed api send_error []; job = running_job; now = 4000000 }
    ∷ []

race-AreCalls : AreCalls race
race-AreCalls = (refl, (refl, (refl, tt)))

abbrev after_race : World
after_race = play quiet race pending_world

-- The race ends with three messages, and the late call changed nothing.
race_messages :
    (length after_race.db.outbox ≡ 3)
    × (length after_race.db.events ≡ 3)
    × (rows license_fee 1 after_race.db ≡ 1)
unfolding play visit run_call to_terminal pending_to_running valid_transitions update_fields
    update_jobs build_job_usage size_label build_license_fee str_eq is_mirrored
    build_workload_payload
race_messages = (refl, refl, refl)

run_call-Step_example :
    Step pending_world.db
      (run_call quiet (Call.start scheduler schedule_jobs []) pending_world).1.db
run_call-Step_example =
    run_call-Step quiet (Call.start scheduler schedule_jobs []) pending_world refl

rows_once_example : rows job_usage 1 (play quiet race pending_world).db ≤ 1
rows_once_example = rows_once quiet race pending_world 1 job_usage race-AreCalls refl

entered_once_example : entered running 1 (play quiet race pending_world).db ≤ 1
unfolding is_status_event status_event
entered_once_example = entered_once quiet race pending_world 1 running race-AreCalls (omega arith)

history-Agrees_example : Agrees 1 (play quiet race pending_world).db
unfolding status_event
history-Agrees_example = history-Agrees quiet race pending_world 1 race-AreCalls refl

start_kept_example : first_running_at 1 (play quiet race running_world).db.events ≡ some 1000000
unfolding is_status_event status_event first_running_at first_by_created
start_kept_example = start_kept quiet race running_world 1 1000000 race-AreCalls (omega arith) refl

abbrev ended_world : World
ended_world = world (tables (billed 1 succeeded (some "f1") ∷ []) running_events) running_job

ended_absorbs_example :
    AtRest 1
      (billed 1 succeeded (some "f1"))
      (λ c. rows c 1 ended_world.db)
      (λ s. entered s 1 ended_world.db)
      (play quiet race ended_world).db
unfolding in_terminal_state
ended_absorbs_example =
    ended_absorbs quiet race ended_world 1 (billed 1 succeeded (some "f1")) race-AreCalls refl refl

abbrev success_event : JobEvent
success_event = status_event 1 scheduler update_job_status succeeded 2000000

success_returns :
    to_succeeded scheduler update_job_status [] running_world
    ≡ (ok success_event, (to_succeeded scheduler update_job_status [] running_world).1)
unfolding to_succeeded valid_transitions update_fields update_jobs size_label build_license_fee
    str_eq is_mirrored build_workload_payload
success_returns = refl

to_succeeded-Owes_example :
    Owes running_job
      (usage_owed running_job)
      (fee_owed running_job true)
      (if is_mirrored running_job running_world.db.mirrors then 1 else 0)
      running_world.db
      (to_succeeded scheduler update_job_status [] running_world).1.db
to_succeeded-Owes_example =
    to_succeeded-Owes scheduler update_job_status [] running_world
      (to_succeeded scheduler update_job_status [] running_world).1 success_event success_returns

-- A failure before the job ran.
failure_returns : to_stopped_or_failed failed scheduler update_job_status [] pending_world ≡ (
  ok (status_event 1 scheduler update_job_status failed 2000000),
  (to_stopped_or_failed failed scheduler update_job_status [] pending_world).1,
)
unfolding to_stopped_or_failed valid_transitions update_fields update_jobs first_running_at
    first_by_created is_status_event status_event is_mirrored build_workload_payload
failure_returns = refl

to_stopped_or_failed-Owes_example :
    Owes pending_job
      (usage_owed pending_job)
      (fee_owed pending_job (is_some (first_running_at 1 pending_world.db.events)))
      (if is_mirrored pending_job pending_world.db.mirrors then 1 else 0)
      pending_world.db
      (to_stopped_or_failed failed scheduler update_job_status [] pending_world).1.db
to_stopped_or_failed-Owes_example =
    to_stopped_or_failed-Owes failed scheduler update_job_status [] pending_world
      (to_stopped_or_failed failed scheduler update_job_status [] pending_world).1
      (status_event 1 scheduler update_job_status failed 2000000) refl failure_returns

-- A second end of an ended job.
to_terminal_atomic_example :
    (to_terminal failed scheduler update_job_status [] ended_world).1.db ≡ ended_world.db
unfolding to_terminal valid_transitions
to_terminal_atomic_example =
    to_terminal_atomic failed scheduler update_job_status [] ended_world
      (invalid_transition succeeded failed) refl

-- A stop whose fleet was gone.
stop_returns :
    stop quiet api stop_job running_world ≡ (ok stopped, (stop quiet api stop_job running_world).1)
unfolding stop str_eq valid_transitions update_fields update_jobs is_mirrored build_workload_payload
stop_returns = refl

stop_owes_no_usage_example :
    (rows job_usage 1 (stop quiet api stop_job running_world).1.db ≡ 0)
    × (rows license_fee 1 (stop quiet api stop_job running_world).1.db ≡ 0)
stop_owes_no_usage_example =
    stop_owes_no_usage quiet api stop_job running_world (stop quiet api stop_job running_world).1
      stop_returns

-- The caller read the job before its fleet was there.
abbrev unaware_world : World
unaware_world = world (tables (pending_job ∷ []) []) (billed 1 queued none)

progress_without_start_example :
    (running_to_running quiet none running_world).0 ≡ err attribute_error
progress_without_start_example = progress_without_start quiet running_world refl

to_terminal_returns_example :
    (to_terminal succeeded scheduler update_job_status [] running_world).0
    ≡ ok (status_event 1 scheduler update_job_status succeeded 2000000)
unfolding valid_transitions is_fee_billable billing_name_for str_eq is_mirrored
to_terminal_returns_example =
    to_terminal_returns succeeded scheduler update_job_status [] running_world running_job refl refl
      refl refl
