-- ===== src/Fleets/Waits.antt =====
-- The waits that a pass bounds, and the one that it does not.
use qiskit_serverless.Base.{
  Bool, Option, String, [], ap, arith, false, is_some, none, not, opt_str_eq, opt_str_eq_iff, refl,
  some, true, truthy, ℕ, ◌+◌, ◌||◌, ◌≡◌,
}
use qiskit_serverless.Breaker.{CircuitBreaker, Settings, closed, is_open}
use qiskit_serverless.Fleets.{
  FleetsState, cancel_fleet, cancel_landed, check_job_timeout, paused, stop_job_if_timeout,
  timeout_answer,
}
use qiskit_serverless.Faults.{Result, err, ok}
use qiskit_serverless.Models.{
  Context, Db, Job, Origin, find_job, is_fleets, scheduler, status_in, stopping, update_job_status,
}
use qiskit_serverless.Transitions.Monad.{Env, World}
use qiskit_serverless.Transitions.Effects.{change_status_valid, changed}
use qiskit_serverless.Transitions.Steps.{changed-found}
use qiskit_serverless.Transitions.Memory.{status_of}
use qiskit_serverless.Transitions.Methods.{send_mirror, stop}
use qiskit_serverless.Transitions.Writes.{valid_transitions}

-- A breaker that was found closed is found closed again.
pub is_open_again :
    (settings : Settings) (now : ℕ) (b : CircuitBreaker)
    → (is_open settings now b).0 ≡ false
    → (is_open settings now (is_open settings now b).1).0 ≡ false
unfolding is_open closed
is_open_again settings now b h = ground (arith, h)

pub opt_str_eq_refl : (s : Option String) → opt_str_eq s s ≡ true
opt_str_eq_refl s = (opt_str_eq_iff s s).1 refl

-- Nothing is sent for a job without a function.
cancel_unsent :
    (env : Env) (settings : Settings) (timeout : ℕ) (c : Context) (st : FleetsState)
    → st.world.job.program ≡ none
    → cancel_fleet env settings timeout c st ≡ (ok false, st)
unfolding cancel_fleet
cancel_unsent env settings timeout c st deleted =
    let unsent : (not (truthy st.world.job.fleet_id) || not (is_some st.world.job.program)) ≡ true =
      ground (arith, deleted) in
    rw unsent refl

-- A cancel that Code Engine confirms writes STOPPING.
stop_confirmed :
    (env : Env) (o : Origin) (c : Context) (w : World) (row : Job)
    → is_fleets w.job.runner ≡ true
    → truthy w.job.fleet_id ≡ true
    → env.runner_stop w.job ≡ ok true
    → ((j : Job) (db : Db) → env.mirror_send j db ≡ none)
    → find_job w.job.id w.db.jobs ≡ some row
    → status_in stopping (valid_transitions row.status) ≡ true
    → ((stop env o c w).0 ≡ ok stopping)
      × ((stop env o c w).1.db ≡ (changed stopping o c [] row w).db)
unfolding stop send_mirror
stop_confirmed env o c w row fleet held confirmed mirrored found valid = rw fleet (
    rw held (
      rw confirmed (
        rw (change_status_valid stopping o c [] w row found valid)
          (rw (mirrored _ _) (refl, refl)))))

cancel_confirmed :
    (env : Env) (settings : Settings) (timeout : ℕ) (c : Context) (st : FleetsState) (row : Job)
    → is_fleets st.world.job.runner ≡ true
    → truthy st.world.job.fleet_id ≡ true
    → is_some st.world.job.program ≡ true
    → (is_open settings st.world.now (st.breakers st.world.job.ce_region)).0 ≡ false
    → env.runner_stop st.world.job ≡ ok true
    → ((j : Job) (db : Db) → env.mirror_send j db ≡ none)
    → find_job st.world.job.id st.world.db.jobs ≡ some row
    → status_in stopping (valid_transitions row.status) ≡ true
    → ((cancel_fleet env settings timeout c st).0 ≡ ok true)
      × ((cancel_fleet env settings timeout c st).1.world.db
          ≡ (changed stopping scheduler c [] row st.world).db)
unfolding cancel_fleet
cancel_confirmed env settings timeout c st row fleet held program closed_now confirmed mirrored
      found valid =
    let q = stop_confirmed env scheduler c st.world row fleet held confirmed mirrored found valid in
    let sent : (not (truthy st.world.job.fleet_id) || not (is_some st.world.job.program)) ≡ false =
      ground (arith, held, program) in
    rw sent (rw closed_now (ap cancel_landed q.0, q.1))

timeout_confirmed : (r : Result Bool × FleetsState) → r.0 ≡ ok true → timeout_answer r ≡ r
timeout_confirmed (ok true, st) h = refl
timeout_confirmed (ok false, st) h = absurd (cc h)
timeout_confirmed (err e, st) h = absurd (cc h)

module _ (env : Env) (settings : Settings) (timeout : ℕ) (t : Option ℕ) (st : FleetsState) where
  -- What a timeout leads to, once its guards let it through.
  abbrev timeout_cancel : Result Bool × FleetsState
  timeout_cancel =
      cancel_fleet env settings timeout update_job_status
        (paused settings st.world.job.ce_region st).1

  timed_out :
      st.world.job.filler ≡ false
      → check_job_timeout timeout st.world.now st.world.job t ≡ true
      → (paused settings st.world.job.ce_region st).0 ≡ false
      → stop_job_if_timeout env settings timeout t st ≡ timeout_answer timeout_cancel
  unfolding stop_job_if_timeout
  timed_out real late open_now =
      let guard : (st.world.job.filler
            || not (check_job_timeout timeout st.world.now st.world.job t))
          ≡ false =
        ground (arith, real, late) in
      rw guard (rw open_now refl)

  unsent_answer :
      st.world.job.program ≡ none
      → ((timeout_answer timeout_cancel).0 ≡ ok true)
        × ((timeout_answer timeout_cancel).1.world ≡ st.world)
        × ((timeout_answer timeout_cancel).1.counted ≡ st.counted + 1)
  unfolding paused
  unsent_answer deleted =
      rw
        (cancel_unsent env settings timeout update_job_status
          (paused settings st.world.job.ce_region st).1 deleted)
        (refl, refl, refl)

  -- The timeout of a job that is no filler, has a start, and lost its function, while its region's
  -- breaker is closed: no table and nothing else of the world changes, the job is counted as ended,
  -- and the answer is that it was ended.
  pub timeout_without_program :
      st.world.job.filler ≡ false
      → check_job_timeout timeout st.world.now st.world.job t ≡ true
      → (paused settings st.world.job.ce_region st).0 ≡ false
      → st.world.job.program ≡ none
      → ((stop_job_if_timeout env settings timeout t st).0 ≡ ok true)
        × ((stop_job_if_timeout env settings timeout t st).1.world ≡ st.world)
        × ((stop_job_if_timeout env settings timeout t st).1.counted ≡ st.counted + 1)
  timeout_without_program real late open_now deleted =
      rw (timed_out real late open_now) (unsent_answer deleted)

  confirmed_answer :
      (row : Job)
      → is_fleets st.world.job.runner ≡ true
      → truthy st.world.job.fleet_id ≡ true
      → is_some st.world.job.program ≡ true
      → (paused settings st.world.job.ce_region st).0 ≡ false
      → env.runner_stop st.world.job ≡ ok true
      → ((j : Job) (db : Db) → env.mirror_send j db ≡ none)
      → find_job st.world.job.id st.world.db.jobs ≡ some row
      → status_in stopping (valid_transitions row.status) ≡ true
      → (timeout_cancel.0 ≡ ok true)
        × (timeout_cancel.1.world.db
            ≡ (changed stopping scheduler update_job_status [] row st.world).db)
  unfolding paused
  confirmed_answer row fleet held program open_now confirmed mirrored found valid =
      cancel_confirmed env settings timeout update_job_status
        (paused settings st.world.job.ce_region st).1 row fleet held program
        (rw (opt_str_eq_refl st.world.job.ce_region)
          (is_open_again settings st.world.now (st.breakers st.world.job.ce_region) open_now))
        confirmed mirrored found valid

  -- A job that has outlived its time stops, also when its status cannot be read: if it is a Fleets
  -- job with a fleet and a function and no filler, its region's breaker is closed, Code Engine
  -- confirms the cancel, the mirror raises nothing and the row allows STOPPING, then the row is
  -- STOPPING after the call.
  pub timeout_stops :
      (row : Job)
      → st.world.job.filler ≡ false
      → check_job_timeout timeout st.world.now st.world.job t ≡ true
      → is_fleets st.world.job.runner ≡ true
      → truthy st.world.job.fleet_id ≡ true
      → is_some st.world.job.program ≡ true
      → (paused settings st.world.job.ce_region st).0 ≡ false
      → env.runner_stop st.world.job ≡ ok true
      → ((j : Job) (db : Db) → env.mirror_send j db ≡ none)
      → find_job st.world.job.id st.world.db.jobs ≡ some row
      → status_in stopping (valid_transitions row.status) ≡ true
      → ((stop_job_if_timeout env settings timeout t st).0 ≡ ok true)
        × (status_of (
              find_job st.world.job.id
                (stop_job_if_timeout env settings timeout t st).1.world.db.jobs)
            ≡ some stopping)
  timeout_stops row real late fleet held program open_now confirmed mirrored found valid =
      let q = confirmed_answer row fleet held program open_now confirmed mirrored found valid in
      rw (timed_out real late open_now) (
        rw (timeout_confirmed timeout_cancel q.0) (
          q.0,
          rw q.1 (
              rw (changed-found stopping scheduler update_job_status [] st.world row refl found)
                refl),
        ))
