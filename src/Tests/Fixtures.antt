-- ===== src/Tests/Fixtures.antt =====
-- Jobs, users and worlds for the tests.
use qiskit_serverless.Base.{List, Option, String, [], false, none, some, ℕ, ◌∷◌}
use qiskit_serverless.Models.{
  Db, FunctionSize, Job, JobEvent, Program, Provider, Status, fleets, pending, running,
  status_event, schedule_jobs, scheduler,
}
use qiskit_serverless.Faults.{ok}
use qiskit_serverless.Transitions.Monad.{Env, World}

abbrev pub provider : Provider
provider = record { name = "ibm"; admin_groups = (8 ∷ 9 ∷ []) ∷ [] }

abbrev pub small : FunctionSize
small = record { function_size = "small"; compute_profile = "cx3d-4x16" }

abbrev pub program : Program
program = record {
  id = 70;
  title = "solver";
  provider = some provider;
  runner = fleets;
  disabled = false;
  author_id = 5;
  author_name = "ada";
  default_size = some small;
  code_engine_project = none;
}

-- A billed job of a provider's function.
abbrev pub billed : ℕ → Status → Option String → Job
billed id status fleet_id = record {
  id = id;
  created = 10;
  updated = 10;
  version = 0;
  status = status;
  sub_status = none;
  runner = fleets;
  filler = false;
  gpu = false;
  author_id = 7;
  author_name = "eve";
  program = some program;
  instance_crn = some "crn:v1:bluemix:public:quantum-computing:us-east:a/abc:xyz::";
  account_id = some "abc";
  plan_id = some "premium";
  subscription_id = some "sub-1";
  business_model = "TRIAL";
  compute_profile_fk = some "cx3d-4x16";
  function_size = some small;
  function_size_name = none;
  fleet_id = fleet_id;
  env_vars = "{}";
  ce_project_name = none;
  ce_region = some "us-east";
}

abbrev pub tables : List Job → List JobEvent → Db
tables jobs events = record {
  jobs = jobs;
  events = events;
  outbox = [];
  mirrors = 1 ∷ [];
  next_pk = 1;
}

abbrev pub world : Db → Job → World
world db job = record {
  db = db;
  job = job;
  now = 2000000;
  next_uuid = 100;
  sent = [];
  mirrored = [];
}

-- Every call outside returns; the runner had nothing to cancel.
abbrev pub quiet : Env
quiet = record {
  runner_stop = λ job. ok false;
  billing_send = λ message. none;
  mirror_send = λ job db. none;
}

abbrev pub pending_job : Job
pending_job = billed 1 pending (some "f1")

abbrev pub pending_world : World
pending_world =
    world (tables (pending_job ∷ []) (status_event 1 scheduler schedule_jobs pending 20 ∷ []))
      pending_job

abbrev pub running_job : Job
running_job = billed 1 running (some "f1")

abbrev pub running_events : List JobEvent
running_events =
    status_event 1 scheduler schedule_jobs pending 20
    ∷ status_event 1 scheduler schedule_jobs running 1000000
    ∷ []

abbrev pub running_world : World
running_world = world (tables (running_job ∷ []) running_events) running_job
