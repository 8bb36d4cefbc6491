-- ===== src/StopJob/Truth.antt =====
-- Whether the answers of the request are true of the tables.
use mathlib.Core.Path.{subst}
use qiskit_serverless.Base.{
  arith, ◌∙◌, false, Bool-cases, Option, Option-cases, [], inl, inr, none, refl, some, sym, true,
  ==_iff, ◌⊎◌, ℕ, ◌∷◌, ◌≡◌,
}
use qiskit_serverless.Access.{User, can_stop}
use qiskit_serverless.Faults.{
  is_runner_error, Error, Result, err, is_invalid_transition, is_retryable, ok,
}
use qiskit_serverless.Models.{
  Job, Status, api, find_job, in_terminal_state, is_fleets, status_eq, status_eq_iff, status_in,
  stop_job, stopped, stopping,
}
use qiskit_serverless.Transitions.Monad.{World}
use qiskit_serverless.Transitions.Ends.{stop_due, to_stopped_or_failed-Ended, with_workload}
use qiskit_serverless.Transitions.Methods.{to_stopped}
use qiskit_serverless.StopJob.Retry.{retry_function-Tries, returned}
use qiskit_serverless.StopJob.{
  Reply, Surroundings, Settled, answer_settled, cancel_retry_budget_seconds, change_to_stopped,
  done, execute, failed_with, finish_stop, meanwhile, over, refresh, refuses, says, settle,
  settle_error, settle_stop, settled, stop_attempt, stop_found, try_stop_with_retries,
}
use qiskit_serverless.StopJob.Texts.{Begins, IfBegins, already-IfBegins, finished-IfBegins}
use qiskit_serverless.StopJob.Stops.{RowStops, Ended-IfOk, IfOk, IsStopped, stop-IfOk}

-- The row of the instance's job has this status.
abbrev pub RowIs : Status → World → Type 0
RowIs s w = (row : Job) × (find_job w.job.id w.db.jobs ≡ some row) × (row.status ≡ s)

-- What each text that the request answers says of the job that it read first, and of the rows.
abbrev pub Means : Job → Reply × World → Type 0
Means job (says text, v) =
    ((text ≡ "Job already in terminal state.")
      × ((in_terminal_state job ≡ true) ⊎ RowStops false v))
    ⊎ ((Begins "Job is already stopping." text × (job.status ≡ stopping))
        ⊎ ((Begins "Job is stopping." text × RowIs stopping v)
            ⊎ (Begins "Job has been stopped." text × RowIs stopped v)))
Means job (refuses x, v) = Unit

-- What an answer to the request for a job means.
abbrev pub Answered : User → ℕ → World → Reply × World → Type 0
Answered user job_id w (says text, v) =
    (job : Job) × (find_job job_id w.db.jobs ≡ some job)
    × (user.id ≡ job.author_id)
    × Means job (says text, v)
Answered user job_id w (refuses x, v) = Unit

module _ (out : Surroundings) where
  returned-IfOk : (r : Result Status × World) → IfOk r → IfOk (returned r)
  returned-IfOk (ok s, w) h = h
  returned-IfOk (err e, w) h = tt

  done-IfOk : {A : Type 0} (r : Result A × World) → IfOk r → IfOk (done out r)
  done-IfOk (ok a, w) h = h
  done-IfOk (err e, w) h = tt

  tried-IfOk : (w : World) → IfOk (try_stop_with_retries out w)
  unfolding try_stop_with_retries
  tried-IfOk w =
      let (n, u, tried, below, e) =
        retry_function-Tries (stop_attempt out) is_runner_error out.elapsed
          (some cancel_retry_budget_seconds) 1 w in
      rw e (
        returned-IfOk (stop_attempt out n u)
          (unfold stop_attempt in stop-IfOk (out.env n) api stop_job (meanwhile (out.others n) u)))

  change-IfOk : (w : World) → IfOk (change_to_stopped out w)
  unfolding change_to_stopped to_stopped
  change-IfOk w = elim (Bool-cases (is_fleets w.job.runner)) [
    | inl f ↦ rw (f, change_to_stopped) (done-IfOk (try_stop_with_retries out w) (tried-IfOk w))
    | inr n ↦
        let v : World = meanwhile (out.others 1) w in
        rw (n, change_to_stopped)
          (done-IfOk (to_stopped api stop_job [] v) (
            Ended-IfOk stopped api stop_job (with_workload stop_due) v _ refl
              (to_stopped_or_failed-Ended stopped api stop_job [] v)))
  ]

  abbrev IfSettled : Settled × World → Type 0
  IfSettled (settled, w) = IsStopped w
  IfSettled (over, w) = RowStops false w
  IfSettled (failed_with x, w) = Unit

  refresh-IfSettled :
      (w : World) (o : Option Job) → find_job w.job.id w.db.jobs ≡ o → IfSettled (refresh out w o)
  refresh-IfSettled w none h = tt
  refresh-IfSettled w (some row) h =
      elim (Bool-cases (status_in row.status (stopping ∷ stopped ∷ []))) [
        | inl y ↦ rw y (row, h, refl, y)
        | inr n ↦ rw n (row, h, refl, n)
      ]

  settle_error-IfSettled : (e : Error) (w : World) → IfSettled (settle_error out e w)
  settle_error-IfSettled e w = elim (Bool-cases (is_retryable e)) [
    | inl y ↦ rw y tt
    | inr n ↦ elim (Bool-cases (is_runner_error e)) [
      | inl y ↦ rw (n, y) tt
      | inr m ↦ elim (Bool-cases (is_invalid_transition e)) [
        | inl y ↦ rw (n, m, y) (refresh-IfSettled (meanwhile out.refreshed w) _ refl)
        | inr l ↦ rw (n, m, l) tt
      ]
    ]
  ]

  settle-IfSettled : (r : Result (Unit {0}) × World) → IfOk r → IfSettled (settle out r)
  settle-IfSettled (ok a, w) h = h
  settle-IfSettled (err e, w) h = settle_error-IfSettled e w

  already-Means :
      (job : Job) (a : Reply) (v : World)
      → job.status ≡ stopping
      → IfBegins "Job is already stopping." a
      → Means job (a, v)
  already-Means job (says text) v h begins = inr (inl (begins, h))
  already-Means job (refuses x) v h begins = tt

  stopping-Means :
      (job : Job) (a : Reply) (v : World)
      → RowIs stopping v
      → IfBegins "Job is stopping." a
      → Means job (a, v)
  stopping-Means job (says text) v h begins = inr (inr (inl (begins, h)))
  stopping-Means job (refuses x) v h begins = tt

  stopped-Means :
      (job : Job) (a : Reply) (v : World)
      → RowIs stopped v
      → IfBegins "Job has been stopped." a
      → Means job (a, v)
  stopped-Means job (says text) v h begins = inr (inr (inr (begins, h)))
  stopped-Means job (refuses x) v h begins = tt

  -- What is said of a row that stops or has stopped tells the two apart.
  finished-Means : (job : Job) (w : World) → IsStopped w → Means job (finish_stop out w.job, w)
  finished-Means job w (row, found, same, stops) =
      elim (Bool-cases (status_eq w.job.status stopping)) [
        | inl y ↦
            stopping-Means job (finish_stop out w.job) w
              (row, found, same ∙ (status_eq_iff w.job.status stopping).0 y)
              (finished-IfBegins "Job is stopping." out w.job (rw y refl))
        | inr n ↦
            let other : status_eq w.job.status stopped ≡ true = ground (arith, stops, n) in
            stopped-Means job (finish_stop out w.job) w
              (row, found, same ∙ (status_eq_iff w.job.status stopped).0 other)
              (finished-IfBegins "Job has been stopped." out w.job (rw n refl))
      ]

  settled-Means : (job : Job) (r : Settled × World) → IfSettled r → Means job (answer_settled out r)
  settled-Means job (over, w) h = inl (refl, inr h)
  settled-Means job (settled, w) h = finished-Means job w h
  settled-Means job (failed_with x, w) h = tt

  stop_found-Means : (w : World) → Means w.job (stop_found out w)
  unfolding stop_found settle_stop
  stop_found-Means w = elim (Bool-cases (status_eq w.job.status stopping)) [
    | inl y ↦
        rw (y, stop_found)
          (already-Means w.job _ w ((status_eq_iff w.job.status stopping).0 y)
            (already-IfBegins "Job is already stopping." out))
    | inr n ↦ elim (Bool-cases (in_terminal_state w.job)) [
      | inl y ↦ rw (n, y, stop_found) (inl (refl, inl y))
      | inr m ↦
          rw (n, m, stop_found)
            (settled-Means w.job (settle_stop out w)
              (settle-IfSettled (change_to_stopped out w) (change-IfOk w)))
    ]
  ]

  found-Answered :
      (user : User) (job_id : ℕ) (w : World) (job : Job) (r : Reply × World)
      → find_job job_id w.db.jobs ≡ some job
      → can_stop user job ≡ true
      → Means job r
      → Answered user job_id w r
  unfolding can_stop
  found-Answered user job_id w job (says text, v) e y m =
      (job, e, (==_iff user.id job.author_id).0 y, m)
  found-Answered user job_id w job (refuses x, v) e y m = tt

execute-found :
    (out : Surroundings) (user : User) (job_id : ℕ) (w : World) (job : Job)
    → find_job job_id w.db.jobs ≡ some job
    → can_stop user job ≡ true
    → execute out user job_id w ≡ stop_found out (record w { job = job })
unfolding execute
execute-found out user job_id w job e y = rw (e, y, execute) refl

-- A text is answered to the author of the job alone, and it is true. If it is that the job is in a
-- terminal state already, the row that was read first was, or the row as it was read last is neither
-- STOPPING nor STOPPED. Any other text begins with the message that the job is already stopping, and the
-- row that was read first is STOPPING; or that it is stopping, or has been stopped, and the row, as the
-- request leaves it or read it last, is STOPPING, or STOPPED. So whatever the runner, the Runtime API, the
-- clock and other processes do.
pub execute-Answered :
    (out : Surroundings) (user : User) (job_id : ℕ) (w : World)
    → Answered user job_id w (execute out user job_id w)
unfolding execute
execute-Answered out user job_id w = elim (Option-cases (find_job job_id w.db.jobs)) [
  | inl n ↦ rw (n, execute) tt
  | inr (job, e) ↦ elim (Bool-cases (can_stop user job)) [
    | inl y ↦
        let m = stop_found-Means out (record w { job = job }) in
        let a : Answered user job_id w (stop_found out (record w { job = job })) =
          found-Answered out user job_id w job _ e y m in
        subst (Answered user job_id w) (sym (execute-found out user job_id w job e y)) a
    | inr n ↦ rw (e, n, execute) tt
  ]
]
