-- ===== src/Fleets/Passes.antt =====
-- A pass over a Fleets job only takes valid steps.
use qiskit_serverless.Base.{
  Bool, Bool-cases, Option, [], false, if◌then◌else◌, inl, inr, is_some, none, not, refl, some,
  true, truthy, ℕ, ◌&&◌, ◌||◌,
}
use qiskit_serverless.Breaker.{Settings, is_open}
use qiskit_serverless.Fleets.{
  FleetsState, Pass, after_read, and_then, cancel_fleet, check_job_timeout, confirm_stop,
  end_fields, end_job, ended_answer, follow_status, paused, progress_answer, read_status, reported,
  started_answer, stop_job_if_timeout, stopping_deadline_passed, timeout_answer, to_running,
  update_status,
}
use qiskit_serverless.Faults.{is_runner_error, Result, err, is_invalid_transition, ok}
use qiskit_serverless.Models.{
  Context, Db, Job, JobEvent, Status, failed, pending, running, scheduler, status_eq, status_in,
  stopped, stopping, succeeded, terminal_statuses, update_job_status,
}
use qiskit_serverless.Transitions.Monad.{Env, World}
use qiskit_serverless.Transitions.Calls.{
  pending_to_running-Step, send_job_in_progress-db, stop-Step, to_terminal-Step,
}
use qiskit_serverless.Transitions.Steps.{Moved, Step}
use qiskit_serverless.Transitions.Methods.{pending_to_running, running_to_running}

-- A property of the tables that every step keeps.
abbrev pub KeptBySteps : (Db → Type 0) → Type 0
KeptBySteps P = (d d' : Db) → P d → Moved d d' → P d'

module _ (P : Db → Type 0) (keep : KeptBySteps P) where
  step-kept : (d d' : Db) → P d → Step d d' → P d'
  step-kept d d' p (inl same) = rw same p
  step-kept d d' p (inr moved) = keep d d' p moved

  -- The property after a pass.
  pub record KeptAt (r : Result Bool × FleetsState) : Type 0 where
    pub kept : P r.1.world.db

  pub kept_at : {r : Result Bool × FleetsState} → P r.1.world.db → KeptAt r
  kept_at p = record { kept = p }

  abbrev pub Keeps : Pass Bool → Type 0
  Keeps pass = (st : FleetsState) → P st.world.db → KeptAt (pass st)

  pub and_then-kept :
      (r : Result Bool × FleetsState) (next : Pass Bool)
      → KeptAt r
      → Keeps next
      → KeptAt (and_then r next)
  and_then-kept (ok b, v) next p h = h v p.kept
  and_then-kept (err e, v) next p h = kept_at p.kept

  pub if-kept :
      (b : Bool) (x y : Result Bool × FleetsState)
      → KeptAt x
      → KeptAt y
      → KeptAt (if b then x else y)
  if-kept true x y p q = p
  if-kept false x y p q = q

  ended-kept :
      (st : FleetsState) (r : Result JobEvent × World) → P r.1.db → KeptAt (ended_answer st r)
  ended-kept st (ok event, w) p = kept_at p
  ended-kept st (err e, w) p = kept_at p

  started-kept :
      (st : FleetsState) (r : Result JobEvent × World) → P r.1.db → KeptAt (started_answer st r)
  started-kept st (ok event, w) p = kept_at p
  started-kept st (err e, w) p = kept_at p

  progress-kept :
      (st : FleetsState) (r : Result (Unit {0}) × World) → P r.1.db → KeptAt (progress_answer st r)
  progress-kept st (ok a, w) p = kept_at p
  progress-kept st (err e, w) p = kept_at p

  timeout-kept : (r : Result Bool × FleetsState) → KeptAt r → KeptAt (timeout_answer r)
  timeout-kept (ok true, st) p = kept_at p.kept
  timeout-kept (ok false, st) p = kept_at p.kept
  timeout-kept (err e, st) p =
      if-kept (is_runner_error e || is_invalid_transition e) (ok false, st) (err e, st)
        (kept_at p.kept) (kept_at p.kept)

  module _ (env : Env) (settings : Settings) (timeout : ℕ) where
    pub cancel_fleet-kept : (c : Context) → Keeps (cancel_fleet env settings timeout c)
    unfolding cancel_fleet
    cancel_fleet-kept c st p =
        elim (Bool-cases
          (not (truthy st.world.job.fleet_id) || not (is_some st.world.job.program))) [
            | inl unsent ↦ rw unsent (kept_at p)
            | inr sent ↦
                rw sent
                  (elim (Bool-cases
                    (is_open settings st.world.now (st.breakers st.world.job.ce_region)).0) [
                      | inl open_now ↦ rw open_now (kept_at p)
                      | inr closed_now ↦
                          rw closed_now (
                            kept_at
                              (step-kept st.world.db _ p (stop-Step env scheduler c st.world)))
                    ])
          ]

    stop_job_if_timeout-kept : (t : Option ℕ) → Keeps (stop_job_if_timeout env settings timeout t)
    unfolding stop_job_if_timeout paused
    stop_job_if_timeout-kept t st p =
        let v = (paused settings st.world.job.ce_region st).1 in
        if-kept (st.world.job.filler || not (check_job_timeout timeout st.world.now st.world.job t))
          (ok false, st) _ (kept_at p)
          (if-kept (paused settings st.world.job.ce_region st).0 (ok false, v)
            (timeout_answer (cancel_fleet env settings timeout update_job_status v)) (kept_at p)
            (timeout-kept (cancel_fleet env settings timeout update_job_status v)
              (cancel_fleet-kept update_job_status v p)))

    end_job-kept : (s : Status) → Keeps (end_job env settings timeout s)
    unfolding end_job
    end_job-kept s st p = ended-kept st _ (
        step-kept st.world.db _ p
          (to_terminal-Step s scheduler update_job_status end_fields st.world refl))

    running_to_running-kept :
        (t : Option ℕ) (w : World) → P w.db → P (running_to_running env t w).1.db
    unfolding running_to_running
    running_to_running-kept t w p = rw (send_job_in_progress-db env false t w) p

    to_running-kept : (t : Option ℕ) → Keeps (to_running env settings timeout t)
    unfolding to_running
    to_running-kept t st p =
        if-kept (status_eq st.world.job.status pending)
          (started_answer st (pending_to_running env scheduler update_job_status [] st.world))
          (progress_answer st (running_to_running env t st.world))
          (started-kept st _ (
            step-kept st.world.db _ p
              (pending_to_running-Step env scheduler update_job_status [] st.world refl)))
          (progress-kept st _ (running_to_running-kept t st.world p))

    confirm_stop-kept : (s : Option Status) → Keeps (confirm_stop env settings timeout s)
    unfolding confirm_stop
    confirm_stop-kept s st p =
        if-kept (is_some s && status_in (reported s) terminal_statuses)
          (end_job env settings timeout (reported s) st) _ (end_job-kept (reported s) st p)
          (if-kept (stopping_deadline_passed st.world.db st.world.job st.world.now)
            (end_job env settings timeout stopped st) (ok false, st) (end_job-kept stopped st p)
            (kept_at p))

    follow_status-kept :
        (t : Option ℕ) (s : Option Status) → Keeps (follow_status env settings timeout t s)
    unfolding follow_status
    follow_status-kept t none st p = stop_job_if_timeout-kept t st p
    follow_status-kept t (some pending) st p =
        and_then-kept _ (λ v. (ok true, v)) (stop_job_if_timeout-kept t st p) (λ v q. kept_at q)
    follow_status-kept t (some running) st p =
        and_then-kept _ (λ v. (ok true, v))
          (and_then-kept _ (stop_job_if_timeout env settings timeout t) (to_running-kept t st p)
            (stop_job_if_timeout-kept t))
          (λ v q. kept_at q)
    follow_status-kept t (some succeeded) st p = end_job-kept succeeded st p
    follow_status-kept t (some failed) st p = end_job-kept failed st p
    follow_status-kept t (some stopped) st p = end_job-kept stopped st p
    follow_status-kept t (some _) st p = end_job-kept failed st p

    after_read-kept :
        (t : Option ℕ) (st : FleetsState) (r : Result (Option Status))
        → P st.world.db
        → KeptAt (after_read env settings timeout t st r)
    after_read-kept t st (err e) p = kept_at p
    after_read-kept t st (ok s) p =
        if-kept (status_eq st.world.job.status stopping) (confirm_stop env settings timeout s st)
          (follow_status env settings timeout t s st) (confirm_stop-kept s st p)
          (follow_status-kept t s st p)

    update_status-kept :
        (t : Option ℕ) (read : Job → Result (Option Status))
        → Keeps (update_status env settings timeout t read)
    unfolding update_status
    update_status-kept t read st p =
        if-kept (not (truthy st.world.job.fleet_id)) _
          (after_read env settings timeout t st (read_status (read st.world.job)))
          (if-kept (status_eq st.world.job.status stopping)
            (end_job env settings timeout stopped st) (ok false, st) (end_job-kept stopped st p)
            (kept_at p))
          (after_read-kept t st (read_status (read st.world.job)) p)

-- A pass over a job, whatever status the task store reports and whatever Code Engine answers, keeps
-- every property of the tables that each valid step of a job keeps.
pub update_status_keeps :
    (P : Db → Type 0) (env : Env) (settings : Settings) (timeout : ℕ) (t : Option ℕ)
    (read : Job → Result (Option Status)) (st : FleetsState)
    → KeptBySteps P
    → P st.world.db
    → P (update_status env settings timeout t read st).1.world.db
update_status_keeps P env settings timeout t read st keep p =
    (update_status-kept P keep env settings timeout t read st p).kept
