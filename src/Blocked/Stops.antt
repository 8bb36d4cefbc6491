-- ===== src/Blocked/Stops.antt =====
-- The task that stops the jobs of blocked resources: gateway/scheduler/tasks/stop_blocked_fleets_jobs.py.
-- The two lines that only choose how loudly a refused cancel is logged are left out.
use qiskit_serverless.Base.{
  Bool, List, Option, [], false, filter, if◌then◌else◌, is_some, map, not, true, ℕ, ◌&&◌, ◌++◌,
  ◌||◌, ◌∷◌,
}
use qiskit_serverless.Blocked.{
  BlockedCloudResource, Enforcement, JobFilter, blocked_jobs_filter, selected,
}
use qiskit_serverless.Breaker.{Settings}
use qiskit_serverless.Fleets.{FleetsState, Pass, cancel_fleet, paused}
use qiskit_serverless.Faults.{is_runner_error, Result, err, is_invalid_transition, ok}
use qiskit_serverless.Models.{
  Job, JobEvent, blocked_resource_stop, error, error_data, is_fleets, pending, running, scheduler,
  status_eq,
}
use qiskit_serverless.Transitions.Monad.{Env, World}
use qiskit_serverless.Transitions.Methods.{to_stopped}

-- What follows a cancel that had nothing to cancel.
abbrev pub stopped_answer : FleetsState → Result JobEvent × World → Result Bool × FleetsState
stopped_answer st (ok event, w) = (ok true, record st { world = w })
stopped_answer st (err e, w) = (err e, record st { world = w })

abbrev pub end_uncancelled : Result Bool × FleetsState → Result Bool × FleetsState
end_uncancelled (ok true, st) = (ok true, st)
end_uncancelled (ok false, st) =
    stopped_answer st (to_stopped scheduler blocked_resource_stop [] st.world)
end_uncancelled (err e, st) = (err e, st)

-- The three exceptions that leave the job to a later tick.
abbrev pub left_for_later : Result Bool × FleetsState → Result Bool × FleetsState
left_for_later (ok b, st) = (ok b, st)
left_for_later (err e, st) =
    (if is_runner_error e || is_invalid_transition e then ok false else err e, st)

-- `_blocked_resource_error`; the arguments that name the resource are left out.
abbrev pub blocked_resource_error : ℕ → Job → JobEvent
blocked_resource_error now job = record {
  job_id = job.id;
  event_type = error;
  origin = scheduler;
  context = blocked_resource_stop;
  created = now;
  details =
      error_data "BLOCKED_RESOURCE"
        "This job was cancelled because your account, plan or subscription is blocked, so its result may be missing or incomplete. Run it again once the block is lifted.";
}

-- The jobs of a pass: `Job.objects.filter(...)`.
unfoldable pub jobs_to_stop : Option (List JobFilter) → List Job → List Job
jobs_to_stop filters jobs =
    filter
      (λ job.
        selected filters job
        && (is_fleets job.runner
            && (not job.filler && (status_eq job.status pending || status_eq job.status running))))
      jobs

module _ (env : Env) (settings : Settings) (killed : Job → Bool) where
  -- `_stop`
  unfoldable pub stop_blocked : Job → Pass Bool
  stop_blocked job st =
      let own = record st { world = record st.world { job = job } } in
      let (is_paused, v) = paused settings job.ce_region own in
      if is_paused
      then (ok false, v)
      else left_for_later (end_uncancelled (cancel_fleet env settings 0 blocked_resource_stop v))

  abbrev pub collected : Job → Result (List Job) × FleetsState → Result (List Job) × FleetsState
  collected job (ok jobs, st) = (ok (job ∷ jobs), st)
  collected job (err e, st) = (err e, st)

  -- What the loop collects, whatever comes after.
  abbrev pub and_collect :
      Job
      → Result Bool × FleetsState
      → (FleetsState → Result (List Job) × FleetsState)
      → Result (List Job) × FleetsState
  and_collect job (err e, st) next = (err e, st)
  and_collect job (ok false, st) next = next st
  and_collect job (ok true, st) next = collected job (next st)

  -- The loop of `run`.
  unfoldable pub stop_each : List Job → FleetsState → Result (List Job) × FleetsState
  unfolding stop_blocked
  stop_each [] st = (ok [], st)
  stop_each (job ∷ jobs) st =
      let stopped_one = and_collect job (stop_blocked job st) (stop_each jobs) in
      if killed job then (ok [], st) else stopped_one

  -- `bulk_create` of the error events, unless the loop raised.
  abbrev pub add_errors : Result (List Job) × FleetsState → Result (Unit {0}) × FleetsState
  add_errors (err e, st) = (err e, st)
  add_errors (ok jobs, st) = (
    ok tt,
    record st {
      world = record st.world {
        db = record st.world.db {
          events = st.world.db.events ++ map (blocked_resource_error st.world.now) jobs;
        };
      };
    },
  )

  -- `run`
  unfoldable pub stop_blocked_jobs :
      Enforcement → List BlockedCloudResource → FleetsState → Result (Unit {0}) × FleetsState
  unfolding stop_each jobs_to_stop
  stop_blocked_jobs enforcement rows st =
      let filters = blocked_jobs_filter enforcement rows in
      if not enforcement.stop_enabled || not (is_some filters)
      then (ok tt, st)
      else add_errors (stop_each (jobs_to_stop filters st.world.db.jobs) st)
