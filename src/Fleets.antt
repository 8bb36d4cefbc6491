-- ===== src/Fleets.antt =====
-- What one pass of the scheduler does with a Fleets job: the breakers and the canceller of
-- gateway/scheduler/schedule.py, and gateway/scheduler/tasks/update_fleets_jobs_statuses.py. The status
-- read from the task store is a parameter; the clock of the breakers is that of the world.
pub mod Passes
pub mod Waits
pub mod Deadline
use qiskit_serverless.Base.{
  Bool, List, Option, String, [], false, filter, if◌then◌else◌, is_some, leb, ltb, none, not,
  opt_str_eq, some, true, truthy, ℕ, ◌&&◌, ◌+◌, ◌||◌, ◌∷◌,
}
use qiskit_serverless.Breaker.{CircuitBreaker, Settings, is_open, record_failure, record_success}
use qiskit_serverless.Faults.{
  is_runner_error, Error, Result, err, fleet_appeared, invalid_transition, is_invalid_transition,
  is_retryable, ok, runner_error, runner_retryable, value_error,
}
use qiskit_serverless.Models.{
  Context, Db, Field, Job, JobEvent, Status, failed, first_by_created, is_status_event, pending,
  running, running_statuses, scheduler, set_env_vars, set_sub_status, status_eq, status_in, stopped,
  stopping, succeeded, terminal_statuses, update_job_status,
}
use qiskit_serverless.Transitions.Monad.{Env, World}
use qiskit_serverless.Transitions.Methods.{
  pending_to_running, running_to_running, stop, to_terminal,
}
use qiskit_serverless.Transitions.Effects.{written}

-- `RegionBreakers`: a region that was never asked for has a fresh breaker.
abbrev pub RegionBreakers : Type 0
RegionBreakers = Option String → CircuitBreaker

abbrev pub put_breaker : Option String → CircuitBreaker → RegionBreakers → RegionBreakers
put_breaker region b breakers = λ r. if opt_str_eq r region then b else breakers r

-- What a pass changes: the tables, the Code Engine breakers and the counters of ended jobs.
pub record FleetsState : Type 0 where
  pub world : World
  pub breakers : RegionBreakers
  pub counted : ℕ

abbrev pub Pass : Type 0 → Type 0
Pass A = FleetsState → Result A × FleetsState

-- `_increment_terminal_counter`
abbrev pub count_end : FleetsState → FleetsState
count_end st = record st { counted = st.counted + 1 }

-- `RegionBreakers.paused`
unfoldable pub paused : Settings → Option String → FleetsState → Bool × FleetsState
paused settings region st =
    let (open_now, b) = is_open settings st.world.now (st.breakers region) in
    (open_now, record st { breakers = put_breaker region b st.breakers })

-- What the breaker learns from the answer to a cancel.
abbrev pub learn : Settings → ℕ → Result Status → CircuitBreaker → CircuitBreaker
learn settings now (ok written) b = record_success b
learn settings now (err fleet_appeared) b = record_success b
learn settings now (err (invalid_transition from to)) b = record_success b
learn settings now (err e) b = if is_retryable e then record_failure settings now b else b

abbrev pub cancel_landed : Result Status → Result Bool
cancel_landed (ok written) = ok (status_eq written stopping)
cancel_landed (err e) = err e

-- `check_job_timeout`
unfoldable pub check_job_timeout : ℕ → ℕ → Job → Option ℕ → Bool
check_job_timeout timeout now job started =
    status_in job.status running_statuses
    && elim started [ none ↦ false | some t ↦ ltb (t + timeout) now ]

-- `_stopping_deadline_passed`, with `_STOPPING_DEADLINE_SECONDS` in microseconds.
unfoldable pub stopping_deadline_passed : Db → Job → ℕ → Bool
stopping_deadline_passed db job now =
    let reference : ℕ =
      elim (first_by_created (filter (is_status_event job.id (status_eq stopping)) db.events)) [
        | none ↦ job.updated
        | some event ↦ event.created
      ] in
    leb (reference + 600000000) now

-- The end of a timeout: every refusal leaves the job active.
abbrev pub timeout_answer : Result Bool × FleetsState → Result Bool × FleetsState
timeout_answer (ok true, st) = (ok true, st)
timeout_answer (ok false, st) = (ok true, count_end st)
timeout_answer (err e, st) =
    if is_runner_error e || is_invalid_transition e then (ok false, st) else (err e, st)

-- A transition that the row refuses is ignored.
abbrev pub ended_answer : FleetsState → Result JobEvent × World → Result Bool × FleetsState
ended_answer st (ok event, w) = (ok true, count_end (record st { world = w }))
ended_answer st (err e, w) =
    (if is_invalid_transition e then ok true else err e, record st { world = w })

-- The same for a start.
abbrev pub started_answer :
    {A : Type 0} → FleetsState → Result A × World → Result Bool × FleetsState
started_answer st (ok a, w) = (ok true, record st { world = w })
started_answer st (err e, w) =
    (if is_invalid_transition e then ok true else err e, record st { world = w })

-- Progress: an exception reaches the caller.
abbrev pub progress_answer : FleetsState → Result (Unit {0}) × World → Result Bool × FleetsState
progress_answer st (ok a, w) = (ok true, record st { world = w })
progress_answer st (err e, w) = (err e, record st { world = w })

-- What comes after a part of a pass, unless it raised.
abbrev pub and_then : Result Bool × FleetsState → Pass Bool → Result Bool × FleetsState
and_then (ok b, st) next = next st
and_then (err e, st) next = (err e, st)

-- The answer of the pass is that it changed something.
abbrev pub changed_something : Pass Bool → Pass Bool
changed_something pass st = and_then (pass st) (λ v. (ok true, v))

-- The read of the status: a configuration or data problem is no status.
abbrev pub read_status : Result (Option Status) → Result (Option Status)
read_status (ok s) = ok s
read_status (err value_error) = ok none
read_status (err e) = if is_runner_error e then ok none else err e

-- `job_fields` of an end: nothing of the run's secrets and of its progress stays.
abbrev pub end_fields : List Field
end_fields = set_sub_status none ∷ set_env_vars "{}" ∷ []

-- The status that ends a job that stops.
abbrev pub reported : Option Status → Status
reported none = stopped
reported (some s) = s

module _ (env : Env) (settings : Settings) (timeout : ℕ) where
  -- `FleetsJobCanceller.cancel`
  unfoldable pub cancel_fleet : Context → Pass Bool
  cancel_fleet context st =
      let job = st.world.job in
      if not (truthy job.fleet_id) || not (is_some job.program)
      then (ok false, st)
      else (let (open_now, b) = is_open settings st.world.now (st.breakers job.ce_region) in
          let (answer, w) = stop env scheduler context st.world in
          if open_now
          then (
            err runner_retryable,
            record st { breakers = put_breaker job.ce_region b st.breakers },
          )
          else (
            cancel_landed answer,
            record st {
              world = w;
              breakers =
                  put_breaker job.ce_region (learn settings st.world.now answer b) st.breakers;
            },
          ))

  -- `stop_job_if_timeout`, with the start time that was loaded with the job.
  unfoldable pub stop_job_if_timeout : Option ℕ → Pass Bool
  stop_job_if_timeout started st =
      if st.world.job.filler || not (check_job_timeout timeout st.world.now st.world.job started)
      then (ok false, st)
      else (let (is_paused, v) = paused settings st.world.job.ce_region st in
          if is_paused then (ok false, v) else timeout_answer (cancel_fleet update_job_status v))

  -- `to_terminal`
  unfoldable pub end_job : Status → Pass Bool
  end_job s st = ended_answer st (to_terminal s scheduler update_job_status end_fields st.world)

  -- `to_running`
  unfoldable pub to_running : Option ℕ → Pass Bool
  to_running started st =
      if status_eq st.world.job.status pending
      then started_answer st (pending_to_running env scheduler update_job_status [] st.world)
      else progress_answer st (running_to_running env started st.world)

  -- `confirm_stop`
  unfoldable pub confirm_stop : Option Status → Pass Bool
  confirm_stop status st =
      if is_some status && status_in (reported status) terminal_statuses
      then end_job (reported status) st
      else if stopping_deadline_passed st.world.db st.world.job st.world.now
      then end_job stopped st
      else (ok false, st)

  -- What a status that was read leads to.
  unfoldable pub follow_status : Option ℕ → Option Status → Pass Bool
  follow_status started none = stop_job_if_timeout started
  follow_status started (some pending) = changed_something (stop_job_if_timeout started)
  follow_status started (some running) =
      changed_something (λ st. and_then (to_running started st) (stop_job_if_timeout started))
  follow_status started (some succeeded) = end_job succeeded
  follow_status started (some failed) = end_job failed
  follow_status started (some stopped) = end_job stopped
  follow_status started (some other) = end_job failed

  -- What the read of the status leads to; `update_job_status` raises what the read raised beyond
  -- problems of configuration and data.
  abbrev pub after_read :
      Option ℕ → FleetsState → Result (Option Status) → Result Bool × FleetsState
  after_read started st (err e) = (err e, st)
  after_read started st (ok status) =
      if status_eq st.world.job.status stopping
      then confirm_stop status st
      else follow_status started status st

  -- `update_job_status`
  unfoldable pub update_status : Option ℕ → (Job → Result (Option Status)) → Pass Bool
  update_status started read st =
      if not (truthy st.world.job.fleet_id)
      then (if status_eq st.world.job.status stopping then end_job stopped st else (ok false, st))
      else after_read started st (read_status (read st.world.job))
