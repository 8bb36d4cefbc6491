-- ===== src/StopJob/Stops.antt =====
-- What a transition that returns leaves: the row stops or has stopped, and the instance has its status.
use qiskit_serverless.Base.{
  Bool, Bool, Bool-cases, Option, Option-cases, [], false, inl, inr, none, refl, some, true, truthy,
  ℕ, ◌∷◌, ◌≡◌,
}
use qiskit_serverless.Faults.{Error, Result, err, ok}
use qiskit_serverless.Models.{
  Channel, Context, Job, JobEvent, Origin, Status, bump_version, find_job, is_fleets, set_status,
  status_in, stopped, stopping,
}
use qiskit_serverless.Transitions.Monad.{
  Env, World, atomic, continue, lift, pure, raised, ◌>>=◌, ◌>>◌,
}
use qiskit_serverless.Transitions.Calls.{stop_without_cancel-Ended}
use qiskit_serverless.Transitions.Steps.{changed-found}
use qiskit_serverless.Transitions.Effects.{
  change_status_missing, change_status_rejected, change_status_valid, changed, write_fields,
}
use qiskit_serverless.Transitions.Ends.{Ended, no_due, with_workload}
use qiskit_serverless.Transitions.Methods.{send_mirror, stop, stop_without_cancel}
use qiskit_serverless.Transitions.Writes.{change_status, valid_transitions}

-- The row of the instance's job stops or has stopped, or does not, and the instance has its status.
abbrev pub RowStops : Bool → World → Type 0
RowStops b w =
    (row : Job) × (find_job w.job.id w.db.jobs ≡ some row)
    × (row.status ≡ w.job.status)
    × (status_in w.job.status (stopping ∷ stopped ∷ []) ≡ b)

abbrev pub IsStopped : World → Type 0
IsStopped = RowStops true

abbrev pub IfOk {ℓ} : {A : Type ℓ} → Result A × World → Type 0
IfOk (ok a, w) = IsStopped w
IfOk (err e, w) = Unit

changed-IsStopped :
    (s : Status) (o : Origin) (c : Context) (w : World) (row : Job)
    → find_job w.job.id w.db.jobs ≡ some row
    → status_in s (stopping ∷ stopped ∷ []) ≡ true
    → IsStopped (changed s o c [] row w)
changed-IsStopped s o c w row found stops = (
  bump_version (write_fields (set_status s ∷ []) w.now row),
  changed-found s o c [] w row refl found,
  refl,
  stops,
)

pub Ended-IfOk :
    (s : Status) (o : Origin) (c : Context) (due : World → Channel → ℕ) (w : World)
    (r : Result JobEvent × World)
    → status_in s (stopping ∷ stopped ∷ []) ≡ true
    → Ended s o c [] due w r
    → IfOk r
Ended-IfOk s o c due w (err e, v) stops h = tt
Ended-IfOk s o c due w (ok e, v) stops (row, found, valid, _, p) =
    let (r, f, same, st) = changed-IsStopped s o c w row found stops in
    (r, rw (p.jobs_kept, p.job_kept) f, rw p.job_kept same, rw p.job_kept st)

continue-IfOk :
    {A B : Type 0} (r : Result A × World) (b : B) → IfOk r → IfOk (continue r (λ _. pure b))
continue-IfOk (ok a, w) b h = h
continue-IfOk (err e, w) b h = tt

module _ (env : Env) where
  raised-IfOk : (o : Option Error) (w : World) → IsStopped w → IfOk (raised o w)
  raised-IfOk none w h = h
  raised-IfOk (some e) w h = tt

  mirrored-IfOk :
      (r : Result JobEvent × World)
      → IfOk r
      → IfOk (continue r (λ _. send_mirror env >> pure stopping))
  unfolding send_mirror
  mirrored-IfOk (ok e, v) h =
      continue-IfOk _ stopping (raised-IfOk (env.mirror_send v.job v.db) _ h)
  mirrored-IfOk (err e, v) h = tt

  stopping-IfOk :
      (o : Origin) (c : Context) (w : World) → IfOk (atomic (change_status stopping o c []) w)
  stopping-IfOk o c w = elim (Option-cases (find_job w.job.id w.db.jobs)) [
    | inl missing ↦ rw (change_status_missing stopping o c [] w missing) tt
    | inr (row, found) ↦ elim (Bool-cases (status_in stopping (valid_transitions row.status))) [
      | inl valid ↦
          rw (change_status_valid stopping o c [] w row found valid)
            (changed-IsStopped stopping o c w row found refl)
      | inr rejected ↦ rw (change_status_rejected stopping o c [] w row found rejected) tt
    ]
  ]

  stop_answered-IfOk :
      (o : Origin) (c : Context) (w : World) (r : Result Bool)
      → IfOk (
          (lift r >>= λ cancelled. elim cancelled [
            | true ↦ atomic (change_status stopping o c []) >> (send_mirror env >> pure stopping)
            | false ↦ atomic (stop_without_cancel env o c) >> pure stopped
          ])
            w)
  stop_answered-IfOk o c w (ok true) = mirrored-IfOk _ (stopping-IfOk o c w)
  stop_answered-IfOk o c w (ok false) =
      continue-IfOk _ stopped (
        Ended-IfOk stopped o c (with_workload no_due) w _ refl
          (stop_without_cancel-Ended env o c w))
  stop_answered-IfOk o c w (err e) = tt

  pub stop-IfOk : (o : Origin) (c : Context) (w : World) → IfOk (stop env o c w)
  unfolding stop
  stop-IfOk o c w = elim (Bool-cases (is_fleets w.job.runner)) [
    | inl fleet ↦ elim (Bool-cases (truthy w.job.fleet_id)) [
      | inl held ↦ rw fleet (rw held (stop_answered-IfOk o c w (env.runner_stop w.job)))
      | inr none_held ↦ rw fleet (rw none_held (stop_answered-IfOk o c w (ok false)))
    ]
    | inr other ↦ rw other tt
  ]
