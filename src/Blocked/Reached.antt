-- ===== src/Blocked/Reached.antt =====
-- What the task's stops have reached when they answer.
use qiskit_serverless.Base.{
  Bool, Bool-cases, Option, Option-cases, [], ap, false, inl, inr, is_some, none, not, refl, some,
  true, truthy, ℕ, ◌++◌, ◌||◌, ◌∷◌, ◌≡◌, ◌⊎◌,
}
use qiskit_serverless.Faults.{Error, Result, err, invalid_transition, ok}
use qiskit_serverless.Transitions.Monad.{
  Env, World, atomic, continue, lift, pure, raised, ◌>>=◌, ◌>>◌,
}
use qiskit_serverless.Fleets.Deadline.{Ended-reached}
use qiskit_serverless.Models.{
  Channel, Context, Job, JobEvent, Origin, Status, find_job, is_fleets, scheduler, status_in,
  stopped, stopping,
}
use qiskit_serverless.Transitions.Methods.{
  send_mirror, stop, stop_without_cancel, to_stopped, to_stopped_or_failed,
}
use qiskit_serverless.Transitions.Effects.{
  change_status_missing, change_status_rejected, change_status_valid, changed,
}
use qiskit_serverless.Transitions.Calls.{stop_without_cancel-Ended}
use qiskit_serverless.Transitions.Writes.{change_status, valid_transitions}
use qiskit_serverless.Transitions.Ends.{Ended, no_due, with_workload}
use qiskit_serverless.Transitions.Steps.{changed-found}
use qiskit_serverless.Transitions.Memory.{status_of}
use qiskit_serverless.Breaker.{Settings, is_open}
use qiskit_serverless.Fleets.{FleetsState, RegionBreakers, cancel_fleet, cancel_landed}

-- A call left this job's row with this status, and the caller's instance on the same job.
abbrev pub HasReached : Status → World → World → Type 0
HasReached s w v = (v.job.id ≡ w.job.id) × (status_of (find_job w.job.id v.db.jobs) ≡ some s)

-- A stop that returns names the status that the row has.
abbrev pub Reached : World → Result Status × World → Type 0
Reached w (ok stopping, v) = HasReached stopping w v
Reached w (ok stopped, v) = HasReached stopped w v
Reached w (ok s, v) = ⊥
Reached w (err e, v) = Unit

changed-HasReached :
    (s : Status) (o : Origin) (c : Context) (w : World) (row : Job)
    → find_job w.job.id w.db.jobs ≡ some row
    → HasReached s w (changed s o c [] row w)
changed-HasReached s o c w row found = (refl, rw (changed-found s o c [] w row refl found) refl)

Ended-Reached :
    (o : Origin) (c : Context) (due : World → Channel → ℕ) (w : World) (r : Result JobEvent × World)
    → Ended stopped o c [] due w r
    → Reached w (continue r (λ _. pure stopped))
Ended-Reached o c due w (ok e, v) h =
    (ap (λ j. j.id) h.4.job_kept, Ended-reached stopped o c [] due w v e refl h)
Ended-Reached o c due w (err e, v) h = tt

module _ (env : Env) (o : Origin) (c : Context) (w : World) where
  mirrored-Reached :
      (v : World) → HasReached stopping w v → Reached w ((send_mirror env >> pure stopping) v)
  unfolding send_mirror
  mirrored-Reached v h = sent (env.mirror_send v.job v.db)
    where
      sent :
          (e : Option Error)
          → Reached w (
              continue
                (raised e (record v { mirrored = v.mirrored ++ (v.job.status ∷ []) }))
                (λ _. pure stopping))
      sent none = h
      sent (some e) = tt

  stopping-Reached :
      Reached w ((atomic (change_status stopping o c []) >> (send_mirror env >> pure stopping)) w)
  stopping-Reached = elim (Option-cases (find_job w.job.id w.db.jobs)) [
    | inl gone ↦ rw (change_status_missing stopping o c [] w gone) tt
    | inr (row, found) ↦ elim (Bool-cases (status_in stopping (valid_transitions row.status))) [
      | inl valid ↦ rw (change_status_valid stopping o c [] w row found valid) (
          mirrored-Reached (changed stopping o c [] row w)
            (changed-HasReached stopping o c w row found))
      | inr rejected ↦ rw (change_status_rejected stopping o c [] w row found rejected) tt
    ]
  ]

  answered-Reached :
      (r : Result Bool)
      → Reached w (
          (lift r >>= λ cancelled. elim cancelled [
            | true ↦ atomic (change_status stopping o c []) >> (send_mirror env >> pure stopping)
            | false ↦ atomic (stop_without_cancel env o c) >> pure stopped
          ])
            w)
  answered-Reached (ok true) = stopping-Reached
  answered-Reached (ok false) =
      Ended-Reached o c (with_workload no_due) w (atomic (stop_without_cancel env o c) w)
        (stop_without_cancel-Ended env o c w)
  answered-Reached (err e) = tt

  pub stop-Reached : Reached w (stop env o c w)
  unfolding stop
  stop-Reached = elim (Bool-cases (is_fleets w.job.runner)) [
    | inl fleet ↦ elim (Bool-cases (truthy w.job.fleet_id)) [
      | inl held ↦ rw fleet (rw held (answered-Reached (env.runner_stop w.job)))
      | inr none_held ↦ rw fleet (rw none_held (answered-Reached (ok false)))
    ]
    | inr other ↦ rw other tt
  ]

-- What a cancel has reached: STOPPING, or STOPPED with the instance on the same job, or nothing was
-- sent.
abbrev pub CancelReached : FleetsState → Result Bool × FleetsState → Type 0
CancelReached st (ok true, v) = HasReached stopping st.world v.world
CancelReached st (ok false, v) = (v.world ≡ st.world) ⊎ HasReached stopped st.world v.world
CancelReached st (err e, v) = Unit

landed_Reached :
    (st : FleetsState) (r : Result Status × World) (breakers : RegionBreakers)
    → Reached st.world r
    → CancelReached st (cancel_landed r.0, record st { world = r.1; breakers = breakers })
landed_Reached st (ok stopping, v) breakers h = h
landed_Reached st (ok stopped, v) breakers h = inr h
landed_Reached st (ok _, v) breakers h = absurd h
landed_Reached st (err e, v) breakers h = tt

-- The row of an ended job refuses to be stopped again.
pub stopped_again :
    (o : Origin) (c : Context) (w : World)
    → status_of (find_job w.job.id w.db.jobs) ≡ some stopped
    → ((to_stopped o c [] w).0 ≡ err (invalid_transition stopped stopped))
      × ((to_stopped o c [] w).1.db ≡ w.db)
unfolding to_stopped to_stopped_or_failed
stopped_again o c w h = elim (Option-cases (find_job w.job.id w.db.jobs)) [
  | inl gone ↦ absurd (cc (rw gone at h))
  | inr (row, found) ↦
      let ended : row.status ≡ stopped = cc (rw found at h) in
      rw
        (change_status_rejected stopped o c [] w row found
          (rw ended (unfold valid_transitions in refl)))
        (rw ended (refl, refl))
]

module _ (env : Env) (settings : Settings) (c : Context) (st : FleetsState) where
  pub cancel_fleet-Reached : CancelReached st (cancel_fleet env settings 0 c st)
  unfolding cancel_fleet
  cancel_fleet-Reached =
      elim (Bool-cases (not (truthy st.world.job.fleet_id) || not (is_some st.world.job.program))) [
        | inl unsent ↦ rw unsent (inl refl)
        | inr sent ↦
            elim (Bool-cases
              (is_open settings st.world.now (st.breakers st.world.job.ce_region)).0) [
                | inl open_now ↦ rw (sent, open_now) tt
                | inr closed_now ↦
                    rw (sent, closed_now)
                      (landed_Reached st (stop env scheduler c st.world) _
                        (stop-Reached env scheduler c st.world))
              ]
      ]
