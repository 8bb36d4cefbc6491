-- ===== src/Filler/Stops.antt =====
-- The stops of a balance are valid steps of their jobs.
use qiskit_serverless.Base.{Bool, List, [], false, if◌then◌else◌, true, ◌∷◌}
use qiskit_serverless.Filler.{
  Plan, carry_out, filler_answer, is_stoppable, stop_filler_jobs, stop_one_filler_job,
}
use qiskit_serverless.Breaker.{Settings}
use qiskit_serverless.Fleets.{FleetsState, and_then, cancel_fleet, paused}
use qiskit_serverless.Faults.{Result, err, ok}
use qiskit_serverless.Fleets.Passes.{
  cancel_fleet-kept, if-kept, Keeps, kept_at, and_then-kept, KeptAt, KeptBySteps,
}
use qiskit_serverless.Models.{Db, Job, filler_stop}
use qiskit_serverless.Transitions.Monad.{Env}

module _ (P : Db → Type 0) (keep : KeptBySteps P) (env : Env) (settings : Settings)
    (received : Job → Bool) where
  filler_answer-kept :
      (r : Result Bool × FleetsState) → KeptAt P keep r → KeptAt P keep (filler_answer r)
  filler_answer-kept (ok true, st) p = kept_at P keep p.kept
  filler_answer-kept (ok false, st) p = kept_at P keep p.kept
  filler_answer-kept (err e, st) p = kept_at P keep p.kept

  stop_one_filler_job-kept :
      (job : Job) → Keeps P keep (stop_one_filler_job env settings received job)
  unfolding stop_one_filler_job paused
  stop_one_filler_job-kept job st p =
      let own = record st { world = record st.world { job = job } } in
      let v = (paused settings job.ce_region own).1 in
      if-kept P keep (paused settings job.ce_region own).0 (ok true, v)
        (filler_answer (cancel_fleet env settings 0 filler_stop v)) (kept_at P keep p)
        (filler_answer-kept (cancel_fleet env settings 0 filler_stop v)
          (cancel_fleet-kept P keep env settings 0 filler_stop v p))

  stop_filler_jobs-kept :
      (jobs : List Job) → Keeps P keep (stop_filler_jobs env settings received jobs)
  unfolding stop_filler_jobs
  stop_filler_jobs-kept [] st p = kept_at P keep p
  stop_filler_jobs-kept (job ∷ jobs) st p =
      let one =
        if is_stoppable job
        then stop_one_filler_job env settings received job st
        else (ok true, st) in
      if-kept P keep (received job) (ok true, st)
        (and_then one (stop_filler_jobs env settings received jobs)) (kept_at P keep p)
        (and_then-kept P keep one (stop_filler_jobs env settings received jobs)
          (if-kept P keep (is_stoppable job) (stop_one_filler_job env settings received job st)
            (ok true, st) (stop_one_filler_job-kept job st p) (kept_at P keep p))
          (stop_filler_jobs-kept jobs))

  -- The stops of a plan, whenever the kill signal comes and whatever Code Engine answers, keep every
  -- property of the tables that each valid step of a job keeps.
  pub carry_out_keeps :
      (decided : Plan) (st : FleetsState)
      → P st.world.db
      → P (carry_out env settings received decided st).1.world.db
  unfolding carry_out
  carry_out_keeps decided st p =
      (and_then-kept P keep (stop_filler_jobs env settings received decided.stale st)
        (stop_filler_jobs env settings received decided.shed)
        (stop_filler_jobs-kept decided.stale st p) (stop_filler_jobs-kept decided.shed)).kept
