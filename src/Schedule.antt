-- ===== src/Schedule.antt =====
-- One tick of gateway/scheduler/tasks/schedule_fleets_jobs.py: which of the jobs that the fair share
-- offers are submitted. The number of fleets in a project, and whether a job's environment is JSON, are
-- parameters; the metrics are left out, but for the jobs that were submitted.
pub mod Quota
pub mod Ticks
pub mod Limits
pub mod Regions
use qiskit_serverless.Base.{
  Bool, List, Option, String, [], any, count, false, if◌then◌else◌, is_some, ltb, map, min, none,
  not, opt_str_eq, some, true, ℕ, ◌&&◌, ◌++◌, ◌-◌, ◌==◌, ◌||◌, ◌∷◌,
}
use qiskit_serverless.FairShare.{get_jobs_to_schedule_fair_share}
use qiskit_serverless.Breaker.{Settings}
use qiskit_serverless.Submit.{SubmitState, submit_fleet, submit_paused}
use qiskit_serverless.Faults.{
  is_runner_error, Result, err, is_invalid_transition, is_retryable, ok, value_error,
}
use qiskit_serverless.Models.{
  CodeEngineProject, Job, fleets, is_fleets, running_statuses, schedule_jobs, status_in,
}
use qiskit_serverless.Transitions.Monad.{Env}

-- How many more fleets a project can hold.
pub data Free : Type 0 where
  infinite : Free  -- they could not be counted
  finite : ℕ → Free

abbrev pub FreeFleets : Type 0
FreeFleets = ℕ → Option Free

-- What the loop of a tick changes.
pub record Tick : Type 0 where
  pub submitter : SubmitState
  pub skipped_regions : List (Option String)
  pub free_fleets : FreeFleets
  pub submitted : List Job

-- `_counted_project`, without the count.
unfoldable pub counted_project : Job → Option CodeEngineProject
counted_project job = elim job.program [
  | none ↦ none
  | some program ↦ elim program.code_engine_project [
    | none ↦ none
    | some project ↦ if project.active then some project else none
  ]
]

abbrev pub put_free : ℕ → Free → FreeFleets → FreeFleets
put_free id free d = λ k. if k == id then some free else d k

-- `max(0, quota - count)`, or infinity.
abbrev pub room : ℕ → Option ℕ → Free
room quota none = infinite
room quota (some n) = finite (quota - n)

-- `_free_fleets`, once per tick and project.
unfoldable pub count_project :
    (CodeEngineProject → Option ℕ) → ℕ → Option CodeEngineProject → FreeFleets → FreeFleets
count_project count_fleets quota none d = d
count_project count_fleets quota (some project) d =
    if is_some (d project.id) then d else put_free project.id (room quota (count_fleets project)) d

abbrev pub is_free : Option Free → Bool
is_free none = true
is_free (some infinite) = true
is_free (some (finite n)) = ltb 0 n

unfoldable pub has_room : Option CodeEngineProject → FreeFleets → Bool
has_room none d = true
has_room (some project) d = is_free (d project.id)

abbrev pub less_one : Option Free → Free
less_one none = infinite
less_one (some infinite) = infinite
less_one (some (finite n)) = finite (n - 1)

-- `free_fleets[project.id] -= 1`
unfoldable pub take_fleet : Option CodeEngineProject → FreeFleets → FreeFleets
take_fleet none d = d
take_fleet (some project) d = put_free project.id (less_one (d project.id)) d

abbrev pub is_skipped : Tick → Option String → Bool
is_skipped t region = any (opt_str_eq region) t.skipped_regions

abbrev pub skip_region : Option String → Tick → Tick
skip_region region t = record t { skipped_regions = region ∷ t.skipped_regions }

-- The job's turn: its instance is the one that the submitter works on.
abbrev pub enter_job : Job → SubmitState → SubmitState
enter_job job st = record st {
  fleets = record st.fleets { world = record st.fleets.world { job = job } };
}

-- What the answer of a submit leads to.
unfoldable pub after_submit :
    Job
    → Option CodeEngineProject
    → Tick
    → Result (Unit {0}) × SubmitState
    → Result (Unit {0}) × Tick
after_submit job project t (ok a, st) = (
  ok tt,
  record t {
    submitter = st;
    free_fleets = take_fleet project t.free_fleets;
    submitted = t.submitted ++ (job ∷ []);
  },
)
after_submit job project t (err e, st) =
    if is_retryable e then (ok tt, skip_region job.ce_region (record t { submitter = st })) else (
      if is_runner_error e || is_invalid_transition e then ok tt else err e,
      record t { submitter = st },
    )

module _ (env : Env) (settings : Settings) (runner_submit : Job → Result String)
    (count_fleets : CodeEngineProject → Option ℕ) (quota : ℕ) (env_parses : String → Bool)
    (killed : Job → Bool) where
  -- The loop's body.
  unfoldable pub schedule_job : Job → Tick → Result (Unit {0}) × Tick
  unfolding counted_project count_project has_room after_submit
  schedule_job job t =
      let (is_paused, v) = submit_paused settings job.ce_region (enter_job job t.submitter) in
      let project = counted_project job in
      let asked : Tick = record t {
        submitter = v;
        free_fleets = count_project count_fleets quota project t.free_fleets;
      } in
      let answered =
        after_submit job project asked (submit_fleet env settings runner_submit schedule_jobs v) in
      if is_skipped t job.ce_region
      then (ok tt, t)
      else if is_paused
      then (ok tt, skip_region job.ce_region (record t { submitter = v }))
      else if not (has_room project asked.free_fleets)
      then (ok tt, asked)
      else if env_parses job.env_vars
      then answered
      else (err value_error, asked)

  abbrev pub next_job :
      Result (Unit {0}) × Tick → (Tick → Result (Unit {0}) × Tick) → Result (Unit {0}) × Tick
  next_job (ok a, t) next = next t
  next_job (err e, t) next = (err e, t)

  unfoldable pub schedule_each : List Job → Tick → Result (Unit {0}) × Tick
  unfolding schedule_job
  schedule_each [] t = (ok tt, t)
  schedule_each (job ∷ jobs) t =
      let later = next_job (schedule_job job t) (schedule_each jobs) in
      if killed job then (ok tt, t) else later

  abbrev pub first_tick : SubmitState → Tick
  first_tick st = record {
    submitter = st;
    skipped_regions = [];
    free_fleets = λ k. none;
    submitted = [];
  }

  -- The Fleets jobs that hold a slot.
  abbrev pub running_fleets : List Job → ℕ
  running_fleets jobs =
      count (λ job. status_in job.status running_statuses && is_fleets job.runner) jobs

  -- `run`, with the limits of the settings and of the Config entries.
  unfoldable pub schedule_fleets_jobs :
      Bool → ℕ → ℕ → ℕ → (Job → Bool) → SubmitState → Result (Unit {0}) × Tick
  unfolding schedule_each
  schedule_fleets_jobs maintenance max_fleets jobs_per_tick per_user blocked st =
      let jobs = st.fleets.world.db.jobs in
      let free_slots = max_fleets - running_fleets jobs in
      let offered =
        map (λ r. r.job)
          (get_jobs_to_schedule_fair_share (min free_slots jobs_per_tick) false fleets per_user
            blocked jobs) in
      if maintenance || (ltb free_slots 1 || ltb jobs_per_tick 1)
      then (ok tt, first_tick st)
      else schedule_each offered (first_tick st)
