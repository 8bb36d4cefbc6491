-- ===== src/StopJob/Answers.antt =====
-- What the request does to the tables, and whether its answers are true of them.
use qiskit_serverless.Base.{Bool-cases, Option, Option-cases, [], inl, inr, none, refl, some, ℕ}
use qiskit_serverless.Access.{User, can_stop}
use qiskit_serverless.Faults.{
  is_runner_error, Error, Result, err, is_invalid_transition, is_retryable, ok,
}
use qiskit_serverless.Models.{
  Db, Job, api, find_job, in_terminal_state, is_fleets, status_eq, stop_job, stopped, stopping,
}
use qiskit_serverless.Transitions.Monad.{World}
use qiskit_serverless.Transitions.Calls.{stop-Step, to_terminal-Step}
use qiskit_serverless.Transitions.Steps.{Step}
use qiskit_serverless.Transitions.Methods.{to_stopped, to_terminal}
use qiskit_serverless.StopJob.Retry.{retry_function-keeps}
use qiskit_serverless.StopJob.{
  Surroundings, Settled, answer_settled, cancel_attempts, cancel_retry_budget_seconds,
  change_to_stopped, done, execute, failed_with, meanwhile, over, refresh, settle, settle_error,
  settle_stop, settled, stop_attempt, stop_found, try_stop_with_retries,
}

-- What the tables may become in a request: others change them, and the request itself makes steps.
pub data Interleaved (out : Surroundings) (d : Db) : Db → Type 0 where
  unchanged : Interleaved out d d
  theirs : {e : Db} (n : ℕ) → Interleaved out d e → Interleaved out d (out.others n e)
  reread : {e : Db} → Interleaved out d e → Interleaved out d (out.refreshed e)
  ours : {e f : Db} → Interleaved out d e → Step e f → Interleaved out d f

module _ (out : Surroundings) (d : Db) where
  abbrev Kept : World → Type 0
  Kept w = Interleaved out d w.db

  attempt-Kept : (n : ℕ) (w : World) → Kept w → Kept (stop_attempt out n w).1
  unfolding stop_attempt
  attempt-Kept n w k =
      ours (theirs n k) (stop-Step (out.env n) api stop_job (meanwhile (out.others n) w))

  done-Kept {ℓ} : {A : Type ℓ} (r : Result A × World) → Kept r.1 → Kept (done out r).1
  done-Kept (ok a, w) k = k
  done-Kept (err e, w) k = k

  to_stopped-Step : (w : World) → Step w.db (to_stopped api stop_job [] w).1.db
  to_stopped-Step w = unfold to_terminal in to_terminal-Step stopped api stop_job [] w refl

  tried-Kept : (w : World) → Kept w → Kept (try_stop_with_retries out w).1
  unfolding try_stop_with_retries
  tried-Kept w k =
      retry_function-keeps (stop_attempt out) is_runner_error out.elapsed
        (some cancel_retry_budget_seconds) Kept attempt-Kept cancel_attempts w k

  change-Kept : (w : World) → Kept w → Kept (change_to_stopped out w).1
  unfolding change_to_stopped
  change-Kept w k = elim (Bool-cases (is_fleets w.job.runner)) [
    | inl f ↦ rw (f, change_to_stopped) (done-Kept (try_stop_with_retries out w) (tried-Kept w k))
    | inr n ↦
        rw (n, change_to_stopped)
          (done-Kept (to_stopped api stop_job [] (meanwhile (out.others 1) w))
            (ours (theirs 1 k) (to_stopped-Step (meanwhile (out.others 1) w))))
  ]

  refresh-Kept : (w : World) (o : Option Job) → Kept w → Kept (refresh out w o).1
  refresh-Kept w none k = k
  refresh-Kept w (some row) k = k

  settle_error-Kept : (e : Error) (w : World) → Kept w → Kept (settle_error out e w).1
  settle_error-Kept e w k = elim (Bool-cases (is_retryable e)) [
    | inl y ↦ rw y k
    | inr n ↦ elim (Bool-cases (is_runner_error e)) [
      | inl y ↦ rw (n, y) k
      | inr m ↦ elim (Bool-cases (is_invalid_transition e)) [
        | inl y ↦ rw (n, m, y) (refresh-Kept (meanwhile out.refreshed w) _ (reread k))
        | inr l ↦ rw (n, m, l) k
      ]
    ]
  ]

  settle-Kept : (r : Result (Unit {0}) × World) → Kept r.1 → Kept (settle out r).1
  settle-Kept (ok a, w) k = k
  settle-Kept (err e, w) k = settle_error-Kept e w k

  answer_settled-Kept : (r : Settled × World) → Kept r.1 → Kept (answer_settled out r).1
  answer_settled-Kept (over, w) k = k
  answer_settled-Kept (settled, w) k = k
  answer_settled-Kept (failed_with x, w) k = k

  stop_found-Kept : (w : World) → Kept w → Kept (stop_found out w).1
  unfolding stop_found settle_stop
  stop_found-Kept w k = elim (Bool-cases (status_eq w.job.status stopping)) [
    | inl y ↦ rw (y, stop_found) k
    | inr n ↦ elim (Bool-cases (in_terminal_state w.job)) [
      | inl y ↦ rw (n, y, stop_found) k
      | inr m ↦
          rw (n, m, stop_found)
            (answer_settled-Kept (settle_stop out w)
              (settle-Kept (change_to_stopped out w) (change-Kept w k)))
    ]
  ]

-- Whatever the runner, the Runtime API and the clock answer, a request to stop a job changes the
-- tables by valid steps of one job each, between whatever other processes do to them.
pub execute-Interleaved :
    (out : Surroundings) (user : User) (job_id : ℕ) (w : World)
    → Interleaved out w.db (execute out user job_id w).1.db
unfolding execute
execute-Interleaved out user job_id w = elim (Option-cases (find_job job_id w.db.jobs)) [
  | inl n ↦ rw (n, execute) unchanged
  | inr (job, e) ↦ elim (Bool-cases (can_stop user job)) [
    | inl y ↦ rw (e, y, execute) (stop_found-Kept out w.db (record w { job = job }) unchanged)
    | inr n ↦ rw (e, n, execute) unchanged
  ]
]
