-- ===== src/Models/Tables.antt =====
-- The tables, as lists in insertion order, and the queries on them: the updates of `Job`
-- (gateway/core/models.py) and the event queries of gateway/core/model_managers/job_events.py.
use qiskit_serverless.Base.{
  ℕ, ◌+◌, Bool, true, false, ◌&&◌, String, Option, none, some, List, [], ◌∷◌, ◌==◌, ltb,
  if◌then◌else◌, find, filter,
}
use qiskit_serverless.Models.Names.{
  Status, Origin, Context, status_change, error, running, status_eq, status_in, terminal_statuses,
}
use qiskit_serverless.Models.Rows.{Job, JobEvent, status_data, error_data, Outbox}

pub record Db : Type 0 where
  pub jobs : List Job
  pub events : List JobEvent
  pub outbox : List Outbox
  pub mirrors : List ℕ  -- the job ids of the WorkloadMirror table
  pub next_pk : ℕ  -- the next primary key of the outbox

-- `Job.objects.filter(pk=pk).first()`
abbrev pub find_job : ℕ → List Job → Option Job
find_job pk jobs = find (λ j. j.id == pk) jobs

-- `Job.objects.filter(pk=pk).update(...)`: rows whose key is another stay as they are.
unfoldable pub update_jobs : ℕ → (Job → Job) → List Job → List Job
update_jobs pk f [] = []
update_jobs pk f (j ∷ jobs) = (if j.id == pk then f j else j) ∷ update_jobs pk f jobs

-- The columns that the callers of `update_fields` write.
pub data Field : Type 0 where
  set_status : Status → Field
  set_updated : ℕ → Field
  set_sub_status : Option String → Field
  set_env_vars : String → Field
  set_fleet_id : Option String → Field

-- `setattr(self, field, value)`
abbrev pub set_field : Field → Job → Job
set_field (set_status s) j = record j { status = s }
set_field (set_updated t) j = record j { updated = t }
set_field (set_sub_status s) j = record j { sub_status = s }
set_field (set_env_vars e) j = record j { env_vars = e }
set_field (set_fleet_id f) j = record j { fleet_id = f }

-- The fields of a map, in its order: a later key wins.
abbrev pub set_fields : List Field → Job → Job
set_fields [] j = j
set_fields (f ∷ fs) j = set_fields fs (set_field f j)

-- A field other than the status.
abbrev pub keeps_status : Field → Bool
keeps_status (set_status s) = false
keeps_status other = true

abbrev pub bump_version : Job → Job
bump_version j = record j { version = j.version + 1 }

-- The tests of the event queries.
unfoldable pub is_status_event : ℕ → (Status → Bool) → JobEvent → Bool
is_status_event job_id wanted event = event.job_id == job_id && elim event.event_type [
  | status_change ↦ elim event.details [ status_data s ↦ wanted s | _ ↦ false ]
  | _ ↦ false
]

-- `.order_by("created").first()`: the earliest, and of several at one time the one inserted first.
unfoldable pub first_by_created : List JobEvent → Option JobEvent
first_by_created [] = none
first_by_created (e ∷ events) = elim (first_by_created events) [
  | none ↦ some e
  | some d ↦ if ltb d.created e.created then some d else some e
]

abbrev pub created_of : Option JobEvent → Option ℕ
created_of none = none
created_of (some e) = some e.created

-- When the job first reached RUNNING, from its own event history.
unfoldable pub first_running_at : ℕ → List JobEvent → Option ℕ
first_running_at job_id events =
    created_of (first_by_created (filter (is_status_event job_id (status_eq running)) events))

-- When the job first reached a terminal status.
unfoldable pub first_terminal_at : ℕ → List JobEvent → Option ℕ
first_terminal_at job_id events =
    created_of (
      first_by_created
        (filter (is_status_event job_id (λ s. status_in s terminal_statuses)) events))

-- A new status event.
unfoldable pub status_event : ℕ → Origin → Context → Status → ℕ → JobEvent
status_event job_id origin context status now = record {
  job_id = job_id;
  event_type = status_change;
  origin = origin;
  context = context;
  created = now;
  details = status_data status;
}

-- `JobEvent.objects.add_error_event`
unfoldable pub error_event : ℕ → Origin → Context → String → String → ℕ → JobEvent
error_event job_id origin context code message now = record {
  job_id = job_id;
  event_type = error;
  origin = origin;
  context = context;
  created = now;
  details = error_data code message;
}
