-- ===== src/Filler.antt =====
-- The filler balancer: gateway/scheduler/tasks/balance_filler_jobs.py. Which function the Config entry
-- names is an argument, and so is the kill signal as each job's turn comes. The creation of a job,
-- which uploads its arguments, is the flag of a plan.
pub mod Laws
pub mod Stops
use qiskit_serverless.Base.{
  Bool, List, Option, String, [], count, false, filter, if◌then◌else◌, is_some, length, ltb, none,
  not, opt_str_eq, some, take, true, truthy, ℕ, ◌&&◌, ◌-◌, ◌==◌, ◌||◌, ◌∷◌,
}
use qiskit_serverless.Breaker.{Settings}
use qiskit_serverless.Fleets.{FleetsState, Pass, and_then, cancel_fleet, count_end, paused}
use qiskit_serverless.Faults.{is_runner_error, Result, err, is_invalid_transition, ok}
use qiskit_serverless.Base.Sort.{sort_by}
use qiskit_serverless.Models.{
  CodeEngineProject, Job, Program, filler_stop, is_fleets, running_statuses, status_eq, status_in,
  stopping,
}
use qiskit_serverless.Transitions.Monad.{Env}

-- The Config entries of the feature; a number of slots below 0 is as good as 0.
pub record FillerConfig : Type 0 where
  pub maintenance : Bool
  pub enabled : Bool
  pub slots : ℕ

abbrev is_usable : CodeEngineProject → Bool
is_usable project = project.active && truthy project.cos_bucket_user_data_name

abbrev has_project : Option CodeEngineProject → Bool
has_project none = false
has_project (some project) = is_usable project

-- `_get_filler_program`, after the lookup of the function.
unfoldable pub get_filler_program : FillerConfig → Option Program → Option Program
get_filler_program config none = none
get_filler_program config (some program) =
    if config.maintenance || (not config.enabled || config.slots == 0)
    then none
    else if not (is_fleets program.runner)
        || (program.disabled || not (has_project program.code_engine_project))
    then none
    else if is_some program.default_size
    then some program
    else none

abbrev is_of_program : ℕ → Option Program → Bool
is_of_program id none = false
is_of_program id (some program) = program.id == id

-- The filler job is one of this function on this compute profile.
unfoldable pub is_current : ℕ → String → Job → Bool
is_current program_id profile job =
    is_of_program program_id job.program && opt_str_eq job.compute_profile_fk (some profile)

-- The Fleets jobs of users that hold capacity on the profile.
unfoldable pub real_running : String → List Job → ℕ
real_running profile jobs =
    count
      (λ job.
        opt_str_eq job.compute_profile_fk (some profile)
        && (is_fleets job.runner && (status_in job.status running_statuses && not job.filler)))
      jobs

-- The filler jobs that hold capacity, oldest first.
unfoldable pub filler_jobs : List Job → List Job
filler_jobs jobs =
    sort_by (λ job. job.created)
      (filter (λ job. job.filler && (is_fleets job.runner && status_in job.status running_statuses))
        jobs)

-- What a pass decides: the jobs that no longer belong, whether to create one, and those to shed.
pub record Plan : Type 0 where
  pub stale : List Job
  pub create : Bool
  pub shed : List Job

abbrev pub is_stoppable : Job → Bool
is_stoppable job = not (status_eq job.status stopping)

-- `_balance_filler_jobs`
unfoldable pub balance_filler_jobs : ℕ → ℕ → String → List Job → List Job → Plan
balance_filler_jobs slots program_id profile jobs fillers =
    let target = slots - real_running profile jobs in
    let current = filter (is_current program_id profile) fillers in
    let stoppable = filter is_stoppable current in
    record {
      stale = filter (λ job. not (is_current program_id profile job)) fillers;
      create = ltb (length current) target;
      shed = if ltb target (length current) then take (length stoppable - target) stoppable else [];
    }

-- The answer to the cancel of a filler job: a refusal leaves it active.
abbrev pub filler_answer : Result Bool × FleetsState → Result Bool × FleetsState
filler_answer (ok true, st) = (ok true, st)
filler_answer (ok false, st) = (ok true, count_end st)
filler_answer (err e, st) =
    (if is_runner_error e || is_invalid_transition e then ok true else err e, st)

module _ (env : Env) (settings : Settings) (received : Job → Bool) where
  -- `_stop_one_filler_job`
  unfoldable pub stop_one_filler_job : Job → Pass Bool
  stop_one_filler_job job st =
      let own = record st { world = record st.world { job = job } } in
      let (is_paused, v) = paused settings job.ce_region own in
      if is_paused then (ok true, v) else filler_answer (cancel_fleet env settings 0 filler_stop v)

  -- `_stop_filler_jobs`
  unfoldable pub stop_filler_jobs : List Job → Pass Bool
  stop_filler_jobs [] st = (ok true, st)
  stop_filler_jobs (job ∷ jobs) st =
      let stopped_one =
        and_then (if is_stoppable job then stop_one_filler_job job st else (ok true, st))
          (stop_filler_jobs jobs) in
      if received job then (ok true, st) else stopped_one

  -- The stops of a pass, in their order.
  unfoldable pub carry_out : Plan → Pass Bool
  carry_out plan st = and_then (stop_filler_jobs plan.stale st) (stop_filler_jobs plan.shed)
