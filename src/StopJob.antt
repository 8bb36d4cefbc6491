-- ===== src/StopJob.antt =====
-- The stop of a job at the request of its author: gateway/api/use_cases/jobs/stop.py, on top of
-- Transitions and Access. What other processes do to the tables before a transaction of the request
-- begins is a parameter, as is what the world outside answers to it.
pub mod Retry
pub mod Runtime
pub mod Answers
pub mod Stops
pub mod Texts
pub mod Truth
use qiskit_serverless.Base.{
  Bool, List, Option, String, [], false, if◌then◌else◌, none, not, some, true, ℕ, ◌∷◌,
}
use qiskit_serverless.Base.Text.{join}
use qiskit_serverless.Access.{User, can_stop}
use qiskit_serverless.Faults.{
  is_runner_error, Error, Result, does_not_exist, err, is_invalid_transition, is_retryable, ok,
  runner_error, ◌>>=◌,
}
use qiskit_serverless.Models.{
  Db, Job, Status, api, find_job, in_terminal_state, is_fleets, status_eq, status_in, stop_job,
  stopped, stopping,
}
use qiskit_serverless.Transitions.Monad.{Env, World}
use qiskit_serverless.Transitions.Methods.{stop, to_stopped}
use qiskit_serverless.StopJob.Retry.{retry_function}
use qiskit_serverless.StopJob.Runtime.{
  StopReport, RuntimeJob, SentService, cancel_runtime_jobs, say,
}

-- The request's surroundings. The n-th transaction of the request meets `env n`, and finds the tables
-- as `others n` leaves them; `refreshed` is what others do before the instance is read again.
pub record Surroundings : Type 0 where
  pub env : ℕ → Env
  pub others : ℕ → Db → Db
  pub refreshed : Db → Db
  pub elapsed : ℕ → ℕ  -- the seconds since the first attempt, after an attempt
  pub service : Result SentService
  pub runtime_jobs : List RuntimeJob
  pub ray_is_active : Bool
  pub ray_stop : Result Bool

-- The exceptions of the request: 404, 503 with either advice, and any other.
pub data Refusal : Type 0 where
  job_not_found retry_later contact_support : Refusal
  raised : Error → Refusal

pub data Reply : Type 0 where
  says : String → Reply
  refuses : Refusal → Reply

-- What the transitions of a request come to: the job was over, or it is stopping or stopped.
pub data Settled : Type 0 where
  over settled : Settled
  failed_with : Refusal → Settled

abbrev pub cancel_attempts : ℕ
cancel_attempts = 2

abbrev pub cancel_retry_budget_seconds : ℕ
cancel_retry_budget_seconds = 5

-- The tables of a world, as others left them.
abbrev pub meanwhile : (Db → Db) → World → World
meanwhile f w = record w { db = f w.db }

module _ (out : Surroundings) where
  -- One attempt of `transitions.stop`.
  unfoldable pub stop_attempt : ℕ → World → Result Status × World
  stop_attempt n w = stop (out.env n) api stop_job (meanwhile (out.others n) w)

  -- `_try_stop_with_retries`
  unfoldable pub try_stop_with_retries : World → Result (Option Status) × World
  unfolding retry_function stop_attempt
  try_stop_with_retries w =
      retry_function stop_attempt is_runner_error out.elapsed (some cancel_retry_budget_seconds)
        cancel_attempts w

  abbrev pub done {ℓ} : {A : Type ℓ} → Result A × World → Result (Unit {0}) × World
  done (ok a, w) = (ok tt, w)
  done (err e, w) = (err e, w)

  -- The change of the status: a Ray job has no cancel to wait for.
  unfoldable pub change_to_stopped : World → Result (Unit {0}) × World
  unfolding try_stop_with_retries
  change_to_stopped w =
      if is_fleets w.job.runner
      then done (try_stop_with_retries w)
      else done (to_stopped api stop_job [] (meanwhile (out.others 1) w))

  -- The job after `refresh_from_db(fields=["status"])`.
  abbrev pub refresh : World → Option Job → Settled × World
  refresh w none = (failed_with (raised does_not_exist), w)
  refresh w (some row) =
      let read : World = record w { job = record w.job { status = row.status } } in
      (if status_in row.status (stopping ∷ stopped ∷ []) then settled else over, read)

  -- The `except` clauses of `execute`.
  abbrev pub settle_error : Error → World → Settled × World
  settle_error e w =
      if is_retryable e
      then (failed_with retry_later, w)
      else (if is_runner_error e
          then (failed_with contact_support, w)
          else (if is_invalid_transition e
              then (let read = meanwhile out.refreshed w in
                  refresh read (find_job read.job.id read.db.jobs))
              else (failed_with (raised e), w)))

  abbrev pub settle : Result (Unit {0}) × World → Settled × World
  settle (ok a, w) = (settled, w)
  settle (err e, w) = settle_error e w

  -- `execute`, up to the answer.
  unfoldable pub settle_stop : World → Settled × World
  unfolding change_to_stopped
  settle_stop w = settle (change_to_stopped w)

  -- `_stop_ray_job_if_active`
  unfoldable pub stop_ray_job_if_active : StopReport → Result StopReport
  stop_ray_job_if_active r =
      if out.ray_is_active
      then (elim out.ray_stop [
        | ok true ↦ ok (say "Serverless job stop has been requested." r)
        | ok false ↦ ok (say "Serverless job was already stopping or no longer running." r)
        | err e ↦
            if is_runner_error e then ok (say "Serverless job was not accessible." r) else err e
      ])
      else ok r

  abbrev pub nothing_said : StopReport
  nothing_said = record { status_messages = []; stopped_sessions = [] }

  abbrev pub answer : Result StopReport → Reply
  answer (ok r) = says (join " " r.status_messages)
  answer (err e) = refuses (raised e)

  abbrev pub status_message : Status → String
  status_message status =
      if status_eq status stopping then "Job is stopping." else "Job has been stopped."

  -- The rest of `execute`, once the row says that the job stops or has stopped.
  unfoldable pub finish_stop : Job → Reply
  unfolding cancel_runtime_jobs stop_ray_job_if_active
  finish_stop job = answer (
      cancel_runtime_jobs out.service out.runtime_jobs
        (say (status_message job.status) nothing_said)
      >>= λ r. if is_fleets job.runner then ok r else stop_ray_job_if_active r)

  abbrev pub answer_settled : Settled × World → Reply × World
  answer_settled (over, w) = (says "Job already in terminal state.", w)
  answer_settled (settled, w) = (finish_stop w.job, w)
  answer_settled (failed_with refusal, w) = (refuses refusal, w)

  -- `execute`, of the job that was read.
  unfoldable pub stop_found : World → Reply × World
  unfolding settle_stop finish_stop
  stop_found w =
      if status_eq w.job.status stopping
      then (
        answer (
            cancel_runtime_jobs out.service out.runtime_jobs
              (say "Job is already stopping." nothing_said)),
        w,
      )
      else (if in_terminal_state w.job
          then (says "Job already in terminal state.", w)
          else answer_settled (settle_stop w))

  -- `execute`
  unfoldable pub execute : User → ℕ → World → Reply × World
  unfolding stop_found
  execute user job_id w = elim (find_job job_id w.db.jobs) [
    | none ↦ (refuses job_not_found, w)
    | some job ↦
        if can_stop user job
        then stop_found (record w { job = job })
        else (refuses job_not_found, w)
  ]
