-- ===== src/Workload.antt =====
-- The message that mirrors a job to the Runtime API: gateway/core/domain/workload_payload.py.
use qiskit_serverless.Base.{
  ℕ, ◌==◌, String, Option, none, some, List, Bool, not, ◌&&◌, any, truthy, if◌then◌else◌,
}
use qiskit_serverless.Models.{
  Status, queued, pending, running, stopping, stopped, succeeded, failed, Job, Provider, JobEvent,
  WorkloadEnvelope, is_fleets, size_label, in_terminal_state, first_running_at, first_terminal_at,
}
use qiskit_serverless.Faults.{Result, ok, err, value_error}

-- `WORKLOAD_STATUS_MAPPING`
unfoldable pub workload_status : Status → String
workload_status queued = "Queued"
workload_status pending = "Pending"
workload_status running = "Running"
workload_status stopping = "Stopping"
workload_status succeeded = "Completed"
workload_status failed = "Failed"
workload_status stopped = "Cancelled"

unfoldable pub should_be_mirrored : Job → Bool
should_be_mirrored job = is_fleets job.runner && not job.filler && truthy job.instance_crn

-- The job has a row in the WorkloadMirror table.
unfoldable pub is_mirrored : Job → List ℕ → Bool
is_mirrored job mirrors = any (λ id. id == job.id) mirrors

abbrev name_of : Option Provider → Option String
name_of none = none
name_of (some p) = some p.name

-- `build_workload_payload`, over the events of the database.
unfoldable pub build_workload_payload : Job → List JobEvent → Result WorkloadEnvelope
unfolding workload_status
build_workload_payload job events =
    if truthy job.instance_crn
    then elim job.program [
      | none ↦ err value_error
      | some program ↦ ok (record {
        function_id = job.id;
        body = record {
          name = program.title;
          provider = name_of program.provider;
          crn = job.instance_crn;
          user_id = job.author_name;
          status = workload_status job.status;
          compute_profile = job.compute_profile_fk;
          size = size_label job;
          created_at = job.created;
          running_at = first_running_at job.id events;
          ended_at = if in_terminal_state job then first_terminal_at job.id events else none;
        };
      })
    ]
    else err value_error
