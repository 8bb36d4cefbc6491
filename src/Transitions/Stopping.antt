-- ===== src/Transitions/Stopping.antt =====
-- `stop`, and the progress message, on the paths that the other theorems do not tell apart.
use qiskit_serverless.Base.{
  Bool, Bool-cases, Option, [], arith, false, inl, inr, none, not, opt_str_eq, refl, some, true,
  truthy, ℕ, ◌≡◌, ◌⊎◌,
}
use qiskit_serverless.Billing.{build_job_usage}
use qiskit_serverless.Faults.{
  Error, Result, attribute_error, err, fleet_appeared, ok, runtime_error,
}
use qiskit_serverless.Models.{
  Context, Envelope, Job, JobEvent, Origin, Status, find_job, is_fleets, job_usage, license_fee,
  stopped, stopping,
}
use qiskit_serverless.Transitions.Monad.{
  Env, World, atomic, continue, lift, pure, raised, ◌>>=◌, ◌>>◌,
}
use qiskit_serverless.Transitions.Methods.{
  caught, dropped_runtime_error, running_to_running, send_job_in_progress, send_mirror, stop,
  stop_without_cancel,
}
use qiskit_serverless.Transitions.Rows.{rows}
use qiskit_serverless.Transitions.Calls.{stop_without_cancel-Ended}
use qiskit_serverless.Transitions.Writes.{change_status}
use qiskit_serverless.Transitions.Ends.{Ended, no_due, with_workload}

-- No usage and no fee of the instance's job were added, if the call wrote STOPPED.
abbrev NoUsage : World → Result Status × World → Type 0
NoUsage w (ok stopped, w') =
    (rows job_usage w.job.id w'.db ≡ rows job_usage w.job.id w.db)
    × (rows license_fee w.job.id w'.db ≡ rows license_fee w.job.id w.db)
NoUsage w (ok s, w') = Unit
NoUsage w (err e, w') = Unit

mirrored-NoUsage :
    (w : World) (r : Result (Unit {0}) × World) → NoUsage w (continue r (λ _. pure stopping))
mirrored-NoUsage w (ok a, v) = tt
mirrored-NoUsage w (err e, v) = tt

stopped-NoUsage :
    (o : Origin) (c : Context) (w : World) (r : Result JobEvent × World)
    → Ended stopped o c [] (with_workload no_due) w r
    → NoUsage w (continue r (λ _. pure stopped))
stopped-NoUsage o c w (ok e, v) (row, found, valid, _, p) =
    (ground (arith, p.added job_usage w.job.id), ground (arith, p.added license_fee w.job.id))
stopped-NoUsage o c w (err e, v) h = tt

module _ (env : Env) (o : Origin) (c : Context) (w : World) where
  cancelled-NoUsage :
      (r : Result JobEvent × World) → NoUsage w (continue r (λ _. send_mirror env >> pure stopping))
  cancelled-NoUsage (ok e, v) = mirrored-NoUsage w (send_mirror env v)
  cancelled-NoUsage (err e, v) = tt

  answered-NoUsage :
      (r : Result Bool)
      → NoUsage w (
          (lift r >>= λ cancelled. elim cancelled [
            | true ↦ atomic (change_status stopping o c []) >> (send_mirror env >> pure stopping)
            | false ↦ atomic (stop_without_cancel env o c) >> pure stopped
          ])
            w)
  answered-NoUsage (ok true) = cancelled-NoUsage (atomic (change_status stopping o c []) w)
  answered-NoUsage (ok false) =
      stopped-NoUsage o c w (atomic (stop_without_cancel env o c) w)
        (stop_without_cancel-Ended env o c w)
  answered-NoUsage (err e) = tt

  stop-NoUsage : NoUsage w (stop env o c w)
  unfolding stop
  stop-NoUsage = elim (Bool-cases (is_fleets w.job.runner)) [
    | inl fleet ↦ elim (Bool-cases (truthy w.job.fleet_id)) [
      | inl held ↦ rw fleet (rw held (answered-NoUsage (env.runner_stop w.job)))
      | inr none_held ↦ rw fleet (rw none_held (answered-NoUsage (ok false)))
    ]
    | inr other ↦ rw other tt
  ]

-- A stop that wrote STOPPED adds neither the usage nor the fee of the job to the outbox, whatever
-- the job owes: also for a billed job, and for one that was RUNNING.
pub stop_owes_no_usage :
    (env : Env) (o : Origin) (c : Context) (w w' : World)
    → stop env o c w ≡ (ok stopped, w')
    → (rows job_usage w.job.id w'.db ≡ rows job_usage w.job.id w.db)
      × (rows license_fee w.job.id w'.db ≡ rows license_fee w.job.id w.db)
stop_owes_no_usage env o c w w' h = rw h at (stop-NoUsage env o c w)

-- A fleet that appeared meanwhile: no table is written, and the instance adopts the row's fleet, so
-- that the caller's next try asks for that one.
pub stop_fleet_appeared :
    (env : Env) (o : Origin) (c : Context) (w : World) (row : Job)
    → is_fleets w.job.runner ≡ true
    → truthy w.job.fleet_id ≡ false
    → find_job w.job.id w.db.jobs ≡ some row
    → opt_str_eq row.fleet_id w.job.fleet_id ≡ false
    → stop env o c w
      ≡ (err fleet_appeared, record w { job = record w.job { fleet_id = row.fleet_id } })
unfolding stop stop_without_cancel
stop_fleet_appeared env o c w row fleet no_id found other =
    rw fleet (rw no_id (rw found (rw other refl)))

-- The progress message of a job with no start time raises AttributeError, for every job that is not
-- a filler: the message is not merely dropped.
pub progress_without_start :
    (env : Env) (w : World)
    → w.job.filler ≡ false
    → (running_to_running env none w).0 ≡ err attribute_error
unfolding running_to_running send_job_in_progress build_job_usage
progress_without_start env w h = rw h refl

-- With a start time it never raises, if the billing sender raises only RuntimeError.
pub progress_best_effort :
    (env : Env) (w : World) (started : ℕ)
    → ((m : Envelope) → (env.billing_send m ≡ none) ⊎ (env.billing_send m ≡ some runtime_error))
    → (running_to_running env (some started) w).0 ≡ ok tt
unfolding running_to_running send_job_in_progress build_job_usage
progress_best_effort env w started sender = elim (Bool-cases (not w.job.filler)) [
  | inl real ↦ rw real (dropped _ _ (sender _))
  | inr filler ↦ rw filler refl
]
  where
    dropped :
        (o : Option Error) (v : World)
        → (o ≡ none) ⊎ (o ≡ some runtime_error)
        → (caught (raised o v) dropped_runtime_error).0 ≡ ok tt
    dropped o v (inl e) = rw e refl
    dropped o v (inr e) = rw e refl
