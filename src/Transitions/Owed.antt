-- ===== src/Transitions/Owed.antt =====
-- What a transition owes (gateway/core/services/job_transitions.py): the usage, the license fee and
-- the final status of a mirrored job, as rows of the outbox.
use qiskit_serverless.Base.{
  Bool, Option, false, filter, is_some, none, not, some, truthy, ℕ, ◌&&◌, ◌==◌,
}
use qiskit_serverless.Models.{
  Job, JobEvent, Program, billing, first_running_at, is_fleets, job_usage, license_fee, size_label,
  workload, workload_message,
}
use qiskit_serverless.Billing.{build_job_completed_event, build_license_fee}
use qiskit_serverless.Workload.{build_workload_payload, is_mirrored}
use qiskit_serverless.Transitions.Monad.{Action, gets, lift, modify_db, when, ◌>>=◌, ◌>>◌}
use qiskit_serverless.Transitions.Writes.{create_outbox, new_uuid}

-- `_is_usage_billable`
unfoldable pub is_usage_billable : Job → Bool
is_usage_billable job = is_fleets job.runner && not job.filler && truthy job.instance_crn

abbrev has_provider : Option Program → Bool
has_provider none = false
has_provider (some program) = is_some program.provider

-- `_is_fee_billable`
unfoldable pub is_fee_billable : Job → Bool
is_fee_billable job =
    is_fleets job.runner && not job.filler && truthy job.instance_crn && has_provider job.program

-- `_enqueue_job_usage`
unfoldable pub enqueue_job_usage : Option ℕ → ℕ → Action (Unit {0})
unfolding create_outbox new_uuid
enqueue_job_usage started finished = do
  job ← gets (λ w. w.job)
  now ← gets (λ w. w.now)
  id ← new_uuid
  create_outbox job_usage (billing (build_job_completed_event job started finished now id))

-- `_enqueue_license_fee`: a job with no size at all is waived.
unfoldable pub enqueue_license_fee : Option ℕ → Action (Unit {0})
unfolding create_outbox new_uuid
enqueue_license_fee started = do
  job ← gets (λ w. w.job)
  now ← gets (λ w. w.now)
  when (is_some (size_label job)) (do
    id ← new_uuid
    message ← lift (build_license_fee job started now id)
    create_outbox license_fee (billing message))

-- `_enqueue_workload`: the final status of a mirrored job, which leaves the mirror table.
unfoldable pub enqueue_workload : Action (Unit {0})
unfolding create_outbox
enqueue_workload = do
  job ← gets (λ w. w.job)
  mirrors ← gets (λ w. w.db.mirrors)
  when (is_mirrored job mirrors) (do
    events ← gets (λ w. w.db.events)
    payload ← lift (build_workload_payload job events)
    create_outbox workload (workload_message payload)
    modify_db (λ d. record d { mirrors = filter (λ id. not (id == job.id)) d.mirrors }))

-- What a success owes besides the workload: the usage, and the fee of a provider's function.
unfoldable pub owe_success : JobEvent → Action (Unit {0})
unfolding enqueue_job_usage enqueue_license_fee is_usage_billable is_fee_billable
owe_success event = do
  job ← gets (λ w. w.job)
  started ← gets (λ w. first_running_at job.id w.db.events)
  when (is_usage_billable job) (do
    enqueue_job_usage started event.created
    when (is_fee_billable job) (enqueue_license_fee started))

-- What a failure or a stop owes: the fee only if the job was ever RUNNING.
unfoldable pub owe_stop : JobEvent → Action (Unit {0})
unfolding enqueue_job_usage enqueue_license_fee is_usage_billable is_fee_billable
owe_stop event = do
  job ← gets (λ w. w.job)
  started ← gets (λ w. first_running_at job.id w.db.events)
  when (is_usage_billable job) (do
    enqueue_job_usage started event.created
    when (is_some started && is_fee_billable job) (enqueue_license_fee started))
