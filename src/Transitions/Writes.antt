-- ===== src/Transitions/Writes.antt =====
-- The writes of gateway/core/services/job_transitions.py: the validated change of the status, and a
-- row of the outbox.
use qiskit_serverless.Base.{List, Option, String, [], false, none, some, ℕ, ◌++◌, ◌+◌, ◌∷◌}
use qiskit_serverless.Models.{
  Channel, Context, Field, Job, JobEvent, Origin, Outbox, Payload, Status, bump_version, failed,
  find_job, pending, queued, running, set_fields, set_status, set_updated, status_event, status_in,
  stopped, stopping, succeeded, update_jobs,
}
use qiskit_serverless.Faults.{does_not_exist, invalid_transition, ok}
use qiskit_serverless.Crn.{parse}
use qiskit_serverless.Transitions.Monad.{
  Action, from_option, gets, modify, modify_db, pure, raise_unless, ◌>>=◌, ◌>>◌,
}

-- `VALID_TRANSITIONS`
unfoldable pub valid_transitions : Status → List Status
valid_transitions queued = pending ∷ failed ∷ stopped ∷ stopping ∷ []
valid_transitions pending = succeeded ∷ failed ∷ stopped ∷ stopping ∷ running ∷ []
valid_transitions running = succeeded ∷ failed ∷ stopped ∷ stopping ∷ []
valid_transitions stopping = succeeded ∷ failed ∷ stopped ∷ []
valid_transitions succeeded = []
valid_transitions failed = []
valid_transitions stopped = []

-- `Job.update_fields` of gateway/core/models.py: the instance and the row take the fields, the row's
-- version grows, and the instance reads it back.
unfoldable pub update_fields : List Field → Action (Unit {0})
update_fields fields = do
  job ← gets (λ w. w.job)
  now ← gets (λ w. w.now)
  let write = set_fields (set_updated now ∷ fields)
  modify (λ w. record w { job = write w.job })
  modify_db (λ d. record d { jobs = update_jobs job.id (λ j. bump_version (write j)) d.jobs })
  row ← gets (λ w. find_job job.id w.db.jobs)
  row ← from_option row does_not_exist
  modify (λ w. record w { job = record w.job { version = row.version } })

-- `JobEvent.objects.add_status_event`
unfoldable pub add_status_event : Origin → Context → Status → Action JobEvent
add_status_event origin context status = do
  job ← gets (λ w. w.job)
  now ← gets (λ w. w.now)
  let event = status_event job.id origin context status now
  modify_db (λ d. record d { events = d.events ++ (event ∷ []) })
  pure event

-- `_change_status`: the status is read afresh from the row, and the change is validated against it.
unfoldable pub change_status : Status → Origin → Context → List Field → Action JobEvent
unfolding add_status_event
change_status status origin context fields = do
  row ← gets (λ w. find_job w.job.id w.db.jobs)
  row ← from_option row does_not_exist
  raise_unless (status_in status (valid_transitions row.status))
      (invalid_transition row.status status)
  event ← add_status_event origin context status
  update_fields (set_status status ∷ fields)
  pure event

-- `_region`
unfoldable pub region_of : Job → Option String
region_of job = elim (parse job.instance_crn) [ none ↦ none | some crn ↦ some crn.region ]

-- A new row of the outbox: due at once, with no attempt yet.
unfoldable pub new_outbox_row : Job → Channel → Payload → ℕ → ℕ → Outbox
unfolding region_of
new_outbox_row job channel payload now pk = record {
  pk = pk;
  job_id = job.id;
  channel = channel;
  region = region_of job;
  payload = payload;
  created = now;
  attempts = 0;
  next_attempt_at = now;
  last_error = "";
  unrecoverable = false;
}

-- `Outbox.objects.create`
unfoldable pub create_outbox : Channel → Payload → Action (Unit {0})
unfolding new_outbox_row
create_outbox channel payload = do
  job ← gets (λ w. w.job)
  now ← gets (λ w. w.now)
  modify_db (λ d. record d {
    outbox = d.outbox ++ (new_outbox_row job channel payload now d.next_pk ∷ []);
    next_pk = d.next_pk + 1;
  })

-- `uuid.uuid4()`
unfoldable pub new_uuid : Action ℕ
new_uuid w = (ok w.next_uuid, record w { next_uuid = w.next_uuid + 1 })
