-- ===== src/Blocked/Reported.antt =====
-- Which stops of blocked jobs get the error event that explains them.
use qiskit_serverless.Base.{
  Bool, Bool-cases, [], ap, arith, false, inl, inr, is_some, not, opt_str_eq, refl, some, sym, true,
  truthy, ℕ, ◌&&◌, ◌||◌, ◌≡◌, ◌⊎◌,
}
use qiskit_serverless.Workload.{is_mirrored}
use qiskit_serverless.Breaker.{Settings, is_open}
use qiskit_serverless.Fleets.{FleetsState, RegionBreakers, cancel_fleet, cancel_landed, paused}
use qiskit_serverless.Faults.{
  is_runner_error, Result, err, invalid_transition, is_invalid_transition, is_ok, ok,
}
use qiskit_serverless.Fleets.Deadline.{Ended-reached}
use qiskit_serverless.Models.{
  Context, Job, JobEvent, Origin, Status, blocked_resource_stop, find_job, is_fleets, scheduler,
  status_event, status_in, stopped, stopping,
}
use qiskit_serverless.Transitions.Monad.{Env, World, continue, finish, pure, raised}
use qiskit_serverless.Transitions.Methods.{caught, stop, stop_without_cancel, to_stopped}
use qiskit_serverless.Transitions.Effects.{change_status_valid, changed, written}
use qiskit_serverless.Transitions.Writes.{valid_transitions}
use qiskit_serverless.Transitions.Ends.{Ended, stop_due, to_stopped_or_failed-Ended, with_workload}
use qiskit_serverless.Transitions.Memory.{status_of}
use qiskit_serverless.Blocked.Stops.{end_uncancelled, left_for_later, stop_blocked, stopped_answer}
use qiskit_serverless.Blocked.Reached.{
  CancelReached, Reached, cancel_fleet-Reached, stop-Reached, stopped_again,
}
use qiskit_serverless.Transitions.Returns.{enqueue_workload-ok}
use qiskit_serverless.Transitions.Owed.{enqueue_workload}
use qiskit_serverless.Fleets.Waits.{is_open_again, opt_str_eq_refl}

-- The row is STOPPING or STOPPED.
abbrev pub Stops : ℕ → FleetsState → Type 0
Stops k v =
    (status_of (find_job k v.world.db.jobs) ≡ some stopping)
    ⊎ (status_of (find_job k v.world.db.jobs) ≡ some stopped)

-- An answer that the job was stopped comes with a row that says so.
abbrev Reports : ℕ → Result Bool × FleetsState → Type 0
Reports k (ok true, v) = Stops k v
Reports k (ok false, v) = Unit
Reports k (err e, v) = Unit

abbrev own : Job → FleetsState → FleetsState
own job st = record st { world = record st.world { job = job } }

later-Reports : (k : ℕ) (r : Result Bool × FleetsState) → Reports k r → Reports k (left_for_later r)
later-Reports k (ok b, v) h = h
later-Reports k (err e, v) h = elim (Bool-cases (is_runner_error e || is_invalid_transition e)) [
  | inl caught ↦ rw caught tt
  | inr raised ↦ rw raised tt
]

uncancelled-Reports :
    (k : ℕ) (st : FleetsState) (r : Result JobEvent × World)
    → k ≡ st.world.job.id
    → Ended stopped scheduler blocked_resource_stop [] (with_workload stop_due) st.world r
    → Reports k (stopped_answer st r)
uncancelled-Reports k st (ok e, w) same h = rw same (
    inr (
      Ended-reached stopped scheduler blocked_resource_stop [] (with_workload stop_due) st.world w e
        refl h))
uncancelled-Reports k st (err e, w) same h = tt

cancelled-Reports :
    (st : FleetsState) (r : Result Bool × FleetsState)
    → CancelReached st r
    → Reports st.world.job.id (end_uncancelled r)
unfolding to_stopped
cancelled-Reports st (ok true, v) h = inl h.1
cancelled-Reports st (ok false, v) (inl unsent) =
    uncancelled-Reports st.world.job.id v _ (ap (λ w. w.job.id) (sym unsent))
      (to_stopped_or_failed-Ended stopped scheduler blocked_resource_stop [] v.world)
cancelled-Reports st (ok false, v) (inr written) =
    uncancelled-Reports st.world.job.id v _ (sym written.0)
      (to_stopped_or_failed-Ended stopped scheduler blocked_resource_stop [] v.world)
cancelled-Reports st (err e, v) h = tt

module _ (env : Env) (settings : Settings) (killed : Job → Bool) (job : Job)
    (st : FleetsState) where
  stop_blocked-Reports : Reports job.id (stop_blocked env settings killed job st)
  unfolding stop_blocked paused
  stop_blocked-Reports =
      let v = (paused settings job.ce_region (own job st)).1 in
      elim (Bool-cases (paused settings job.ce_region (own job st)).0) [
        | inl is_paused ↦ rw is_paused tt
        | inr asked ↦ rw asked (
            later-Reports job.id _ (
              cancelled-Reports v (cancel_fleet env settings 0 blocked_resource_stop v)
                (cancel_fleet-Reached env settings blocked_resource_stop v)))
      ]

  -- A job of which the task reports that it was stopped, so that it gets the error event, has a row
  -- that is STOPPING or STOPPED.
  pub reported-Stops :
      (v : FleetsState) → stop_blocked env settings killed job st ≡ (ok true, v) → Stops job.id v
  reported-Stops v h = rw h at stop_blocked-Reports

-- The workload message of a stopped job can be built, if one is owed.
abbrev pub HasWorkload : World → Type 0
HasWorkload w =
    (not (is_mirrored w.job w.db.mirrors) || (truthy w.job.instance_crn && is_some w.job.program))
    ≡ true

changed-HasWorkload :
    (o : Origin) (c : Context) (w : World) (row : Job)
    → HasWorkload w
    → HasWorkload (changed stopped o c [] row w)
unfolding is_mirrored
changed-HasWorkload o c w row h = h

-- A stop whose runner had nothing to cancel writes STOPPED itself.
stop_uncancelled :
    (env : Env) (o : Origin) (c : Context) (w : World) (row : Job)
    → is_fleets w.job.runner ≡ true
    → truthy w.job.fleet_id ≡ true
    → env.runner_stop w.job ≡ ok false
    → find_job w.job.id w.db.jobs ≡ some row
    → opt_str_eq row.fleet_id w.job.fleet_id ≡ true
    → status_in stopped (valid_transitions row.status) ≡ true
    → HasWorkload w
    → (stop env o c w).0 ≡ ok stopped
unfolding stop stop_without_cancel
stop_uncancelled env o c w row fleet held nothing_there found same allowed ready =
    let v = changed stopped o c [] row w in
    rw fleet (
      rw held (
        rw nothing_there (
          rw found (
            rw same (
              rw (change_status_valid stopped o c [] w row found allowed) (
                returns (enqueue_workload v)
                  (enqueue_workload-ok v (changed-HasWorkload o c w row ready))))))))
  where
    returns :
        (q : Result (Unit {0}) × World)
        → is_ok q.0 ≡ true
        → (continue
            (finish w.db (continue q (λ _. pure (status_event w.job.id o c stopped w.now))))
            (λ _. pure stopped)).0
          ≡ ok stopped
    returns (ok b, u) g = refl
    returns (err e, u) g = absurd (cc g)

-- What a cancel comes to that wrote STOPPED, and what is left for later after it.
abbrev Unreported : ℕ → Result Bool × FleetsState → Type 0
Unreported k r = (r.0 ≡ ok false) × (status_of (find_job k r.1.world.db.jobs) ≡ some stopped)

written-Unreported :
    (st : FleetsState) (r : Result Status × World) (breakers : RegionBreakers)
    → r.0 ≡ ok stopped
    → Reached st.world r
    → Unreported st.world.job.id (
        left_for_later
          (end_uncancelled (cancel_landed r.0, record st { world = r.1; breakers = breakers })))
written-Unreported st (ok stopped, v) breakers h reached =
    let at_row : status_of (find_job v.job.id v.db.jobs) ≡ some stopped = rw reached.0 reached.1 in
    let again = stopped_again scheduler blocked_resource_stop v at_row in
    refused (to_stopped scheduler blocked_resource_stop [] v) again.0 (rw again.1 reached.1)
  where
    refused :
        (r : Result JobEvent × World)
        → r.0 ≡ err (invalid_transition stopped stopped)
        → status_of (find_job st.world.job.id r.1.db.jobs) ≡ some stopped
        → Unreported st.world.job.id
            (left_for_later (stopped_answer (record st { world = v; breakers = breakers }) r))
    refused (ok e, u) g row = absurd (cc g)
    refused (err e, u) g row =
        let same : e ≡ invalid_transition stopped stopped = cc in rw same (refl, row)
written-Unreported st (ok _, v) breakers h reached = absurd (cc h)
written-Unreported st (err e, v) breakers h reached = absurd (cc h)

cancel-Unreported :
    (env : Env) (settings : Settings) (st : FleetsState) (row : Job)
    → is_fleets st.world.job.runner ≡ true
    → truthy st.world.job.fleet_id ≡ true
    → is_some st.world.job.program ≡ true
    → (is_open settings st.world.now (st.breakers st.world.job.ce_region)).0 ≡ false
    → env.runner_stop st.world.job ≡ ok false
    → find_job st.world.job.id st.world.db.jobs ≡ some row
    → opt_str_eq row.fleet_id st.world.job.fleet_id ≡ true
    → status_in stopped (valid_transitions row.status) ≡ true
    → HasWorkload st.world
    → Unreported st.world.job.id
        (left_for_later (end_uncancelled (cancel_fleet env settings 0 blocked_resource_stop st)))
unfolding cancel_fleet
cancel-Unreported env settings st row fleet held program closed_now nothing_there found same allowed
      ready =
    let sent : (not (truthy st.world.job.fleet_id) || not (is_some st.world.job.program)) ≡ false =
      ground (arith, held, program) in
    rw sent (
      rw closed_now (
        written-Unreported st (stop env scheduler blocked_resource_stop st.world) _
          (stop_uncancelled env scheduler blocked_resource_stop st.world row fleet held
            nothing_there found same allowed ready)
          (stop-Reached env scheduler blocked_resource_stop st.world)))

-- A blocked Fleets job whose row has its fleet and allows STOPPED, with a function and a closed
-- breaker, whose workload message can be built if it owes one, and of which the runner says that
-- there was nothing to cancel: the row is STOPPED after the call, and the answer is that the job was
-- not stopped, so that no error event explains it.
pub stopped_unreported :
    (env : Env) (settings : Settings) (killed : Job → Bool) (job : Job) (st : FleetsState)
    (row : Job)
    → is_fleets job.runner ≡ true
    → truthy job.fleet_id ≡ true
    → is_some job.program ≡ true
    → (paused settings job.ce_region (own job st)).0 ≡ false
    → env.runner_stop job ≡ ok false
    → find_job job.id st.world.db.jobs ≡ some row
    → opt_str_eq row.fleet_id job.fleet_id ≡ true
    → status_in stopped (valid_transitions row.status) ≡ true
    → HasWorkload (record st.world { job = job })
    → ((stop_blocked env settings killed job st).0 ≡ ok false)
      × (status_of (find_job job.id (stop_blocked env settings killed job st).1.world.db.jobs)
          ≡ some stopped)
unfolding stop_blocked paused
stopped_unreported env settings killed job st row fleet held program open_now nothing_there found
      same allowed ready =
    rw open_now (
      cancel-Unreported env settings (paused settings job.ce_region (own job st)).1 row fleet held
        program
        (rw (opt_str_eq_refl job.ce_region)
          (is_open_again settings st.world.now (st.breakers job.ce_region) open_now))
        nothing_there found same allowed ready)
