-- ===== src/Transitions/Calls.antt =====
-- Every public method of the service is a step, whatever the caller's instance says.
use qiskit_serverless.Base.{
  Bool, Bool-cases, List, Option, Option-cases, [], all, arith, false, inl, inr, is_some, none, not,
  opt_str_eq, refl, some, true, truthy, ℕ, ◌&&◌, ◌++◌, ◌+◌, ◌∙◌, ◌∷◌, ◌≡◌, ◌≤◌,
}
use qiskit_serverless.Faults.{Error, Result, err, ok, runtime_error}
use qiskit_serverless.Models.{
  Channel, Context, Envelope, Field, Job, Origin, Status, failed, find_job, first_running_at,
  is_fleets, job_usage, keeps_status, license_fee, pending, running, stopped, stopping, succeeded,
  workload,
}
use qiskit_serverless.Transitions.Monad.{
  Action, Env, World, atomic, continue, lift, modify, pure, raised, skip, ◌>>=◌, ◌>>◌,
}
use qiskit_serverless.Transitions.Methods.{
  caught, dropped_runtime_error, pending_to_running, progress_time, queued_to_pending,
  running_to_running, send_job_in_progress, send_mirror, stop, stop_without_cancel, to_terminal,
}
use qiskit_serverless.Transitions.Writes.{change_status}
use qiskit_serverless.Transitions.Steps.{Ended-Step, Step, atomic_change-Step}
use qiskit_serverless.Billing.{build_job_usage}
use qiskit_serverless.Transitions.Debts.{end_due, workload_due}
use qiskit_serverless.Transitions.Owed.{is_fee_billable}
use qiskit_serverless.Transitions.Ends.{
  Ended, no_due, stop_due, stop_job-Ended, success_due, to_stopped_or_failed-Ended,
  to_succeeded-Ended, with_workload,
}

-- The calls of the service. The caller's `job_fields` stand in the constructor.
pub data Call : Type 0 where
  submit start : Origin → Context → List Field → Call  -- queued_to_pending, pending_to_running
  progress : Option ℕ → Call  -- running_to_running
  cancel : Origin → Context → Call  -- stop
  finish_as : Status → Origin → Context → List Field → Call  -- to_terminal

abbrev void : {A : Type 0} → Action A → Action (Unit {0})
void m = m >> skip

unfoldable pub run_call : Env → Call → Action (Unit {0})
run_call env (submit o c fs) = void (queued_to_pending env o c fs)
run_call env (start o c fs) = void (pending_to_running env o c fs)
run_call env (progress started) = running_to_running env started
run_call env (cancel o c) = void (stop env o c)
run_call env (finish_as s o c fs) = void (to_terminal s o c fs)

-- No caller writes the status by way of `job_fields`.
abbrev pub fields_of : Call → List Field
fields_of (submit o c fs) = fs
fields_of (start o c fs) = fs
fields_of (progress started) = []
fields_of (cancel o c) = []
fields_of (finish_as s o c fs) = fs

abbrev pub IsCall : Call → Type 0
IsCall call = all keeps_status (fields_of call) ≡ true

-- What follows a call and leaves the tables alone does not count.
pub continue-db :
    {A B : Type 0} (r : Result A × World) (k : A → Action B)
    → ((a : A) (v : World) → (k a v).1.db ≡ v.db)
    → (continue r k).1.db ≡ r.1.db
continue-db (ok a, w) k h = h a w
continue-db (err e, w) k h = refl

raised-db : (o : Option Error) (w : World) → (raised o w).1.db ≡ w.db
raised-db none w = refl
raised-db (some e) w = refl

dropped-db : (e : Error) (w : World) → (dropped_runtime_error e w).1.db ≡ w.db
dropped-db runtime_error w = refl
dropped-db e w = refl

caught-db : (r : Result (Unit {0}) × World) → (caught r dropped_runtime_error).1.db ≡ r.1.db
caught-db (ok a, w) = refl
caught-db (err e, w) = dropped-db e w

-- The bound on what an end owes: at most one row of each channel.
due_bound :
    (job : Job) (fee : Bool) (mirrors : List ℕ) (c : Channel)
    → end_due job fee c + workload_due job mirrors c ≤ 1
due_bound job fee mirrors license_fee = ground arith
due_bound job fee mirrors job_usage = ground arith
due_bound job fee mirrors workload = ground arith

no_due_bound : (v : World) (c : Channel) → with_workload no_due v c ≤ 1
no_due_bound v c = ground arith

pub to_terminal-Step :
    (s : Status) (o : Origin) (c : Context) (fs : List Field) (w : World)
    → all keeps_status fs ≡ true
    → Step w.db (to_terminal s o c fs w).1.db
unfolding to_terminal
to_terminal-Step succeeded o c fs w keeps =
    Ended-Step succeeded o c fs (with_workload success_due) w _ keeps refl
      (λ v d. due_bound v.job (is_fee_billable v.job) v.db.mirrors d) (to_succeeded-Ended o c fs w)
to_terminal-Step failed o c fs w keeps =
    Ended-Step failed o c fs (with_workload stop_due) w _ keeps refl
      (λ v d.
        due_bound v.job (is_some (first_running_at v.job.id v.db.events) && is_fee_billable v.job)
          v.db.mirrors d)
      (to_stopped_or_failed-Ended failed o c fs w)
to_terminal-Step stopped o c fs w keeps =
    Ended-Step stopped o c fs (with_workload stop_due) w _ keeps refl
      (λ v d.
        due_bound v.job (is_some (first_running_at v.job.id v.db.events) && is_fee_billable v.job)
          v.db.mirrors d)
      (to_stopped_or_failed-Ended stopped o c fs w)
to_terminal-Step _ o c fs w keeps = inl refl

module _ (env : Env) where
  pub send_mirror-db : (w : World) → (send_mirror env w).1.db ≡ w.db
  unfolding send_mirror
  send_mirror-db w = raised-db (env.mirror_send w.job w.db) _

  attempt-db :
      (r : Result Envelope) (w : World)
      → ((lift r >>= λ message.
            modify (λ w. record w { sent = w.sent ++ (message ∷ []) })
            >> raised (env.billing_send message))
          w).1.db
        ≡ w.db
  attempt-db (ok m) w = raised-db (env.billing_send m) _
  attempt-db (err e) w = refl

  pub send_job_in_progress-db :
      (b : Bool) (s : Option ℕ) (w : World) → (send_job_in_progress env b s w).1.db ≡ w.db
  unfolding send_job_in_progress
  send_job_in_progress-db b s w = elim (Bool-cases (not w.job.filler)) [
    | inl real ↦ rw real (
        caught-db _
        ∙ attempt-db (build_job_usage w.job s (progress_time b w.now) w.now w.next_uuid)
            (record w { next_uuid = w.next_uuid + 1 }))
    | inr filler ↦ rw filler refl
  ]

  queued_to_pending-Step :
      (o : Origin) (c : Context) (fs : List Field) (w : World)
      → all keeps_status fs ≡ true
      → Step w.db (queued_to_pending env o c fs w).1.db
  unfolding queued_to_pending
  queued_to_pending-Step o c fs w keeps =
      rw
        (continue-db (atomic (change_status pending o c fs) w)
          (λ event. send_mirror env >> pure event)
          (λ event v.
            continue-db (send_mirror env v) (λ _. pure event) (λ _ _. refl) ∙ send_mirror-db v))
        (atomic_change-Step pending o c fs w keeps)

  pub pending_to_running-Step :
      (o : Origin) (c : Context) (fs : List Field) (w : World)
      → all keeps_status fs ≡ true
      → Step w.db (pending_to_running env o c fs w).1.db
  unfolding pending_to_running
  pending_to_running-Step o c fs w keeps =
      rw
        (continue-db (atomic (change_status running o c fs) w)
          (λ event.
            send_job_in_progress env true (some event.created) >> (send_mirror env >> pure event))
          (λ event v.
            continue-db (send_job_in_progress env true (some event.created) v)
              (λ _. send_mirror env >> pure event)
              (λ _ u.
                continue-db (send_mirror env u) (λ _. pure event) (λ _ _. refl) ∙ send_mirror-db u)
            ∙ send_job_in_progress-db true (some event.created) v))
        (atomic_change-Step running o c fs w keeps)

  -- The end of a job with no fleet to cancel owes the workload alone.
  pub stop_without_cancel-Ended :
      (o : Origin) (c : Context) (w : World)
      → Ended stopped o c [] (with_workload no_due) w (atomic (stop_without_cancel env o c) w)
  unfolding stop_without_cancel
  stop_without_cancel-Ended o c w = elim (Option-cases (find_job w.job.id w.db.jobs)) [
    | inl missing ↦ rw missing refl
    | inr (row, found) ↦ elim (Bool-cases (opt_str_eq row.fleet_id w.job.fleet_id)) [
      | inl same ↦ rw found (rw same (stop_job-Ended o c w))
      | inr other ↦ rw found (rw other refl)
    ]
  ]

  stop_without_cancel-Step :
      (o : Origin) (c : Context) (w : World)
      → Step w.db (atomic (stop_without_cancel env o c) w).1.db
  stop_without_cancel-Step o c w =
      Ended-Step stopped o c [] (with_workload no_due) w _ refl refl no_due_bound
        (stop_without_cancel-Ended o c w)

  -- What follows the answer of the runner.
  stop_answered-Step :
      (o : Origin) (c : Context) (w : World) (r : Result Bool)
      → Step w.db
          ((lift r >>= λ cancelled. elim cancelled [
            | true ↦ atomic (change_status stopping o c []) >> (send_mirror env >> pure stopping)
            | false ↦ atomic (stop_without_cancel env o c) >> pure stopped
          ])
            w).1.db
  stop_answered-Step o c w (ok true) =
      rw
        (continue-db (atomic (change_status stopping o c []) w)
          (λ _. send_mirror env >> pure stopping)
          (λ _ v.
            continue-db (send_mirror env v) (λ _. pure stopping) (λ _ _. refl) ∙ send_mirror-db v))
        (atomic_change-Step stopping o c [] w refl)
  stop_answered-Step o c w (ok false) =
      rw (continue-db (atomic (stop_without_cancel env o c) w) (λ _. pure stopped) (λ _ _. refl))
        (stop_without_cancel-Step o c w)
  stop_answered-Step o c w (err e) = inl refl

  pub stop-Step : (o : Origin) (c : Context) (w : World) → Step w.db (stop env o c w).1.db
  unfolding stop
  stop-Step o c w = elim (Bool-cases (is_fleets w.job.runner)) [
    | inl fleet ↦ elim (Bool-cases (truthy w.job.fleet_id)) [
      | inl held ↦ rw fleet (rw held (stop_answered-Step o c w (env.runner_stop w.job)))
      | inr none_held ↦ rw fleet (rw none_held (stop_answered-Step o c w (ok false)))
    ]
    | inr other ↦ rw other (inl refl)
  ]

  -- Whatever the runner, the sender and the mirror answer, a public method that is not given the
  -- status among its fields leaves the tables alone, or is one step: one job's row takes a status
  -- that its present one allows, the history grows by exactly that event, every other row stays, and
  -- the outbox gets at most one row of each channel, for that job alone and only at an end.
  pub run_call-Step : (call : Call) (w : World) → IsCall call → Step w.db (run_call env call w).1.db
  unfolding run_call running_to_running
  run_call-Step (submit o c fs) w h =
      rw (continue-db (queued_to_pending env o c fs w) (λ _. skip) (λ _ _. refl))
        (queued_to_pending-Step o c fs w h)
  run_call-Step (start o c fs) w h =
      rw (continue-db (pending_to_running env o c fs w) (λ _. skip) (λ _ _. refl))
        (pending_to_running-Step o c fs w h)
  run_call-Step (progress started) w h = inl (send_job_in_progress-db false started w)
  run_call-Step (cancel o c) w h =
      rw (continue-db (stop env o c w) (λ _. skip) (λ _ _. refl)) (stop-Step o c w)
  run_call-Step (finish_as s o c fs) w h =
      rw (continue-db (to_terminal s o c fs w) (λ _. skip) (λ _ _. refl))
        (to_terminal-Step s o c fs w h)
