-- ===== src/Transitions/Methods.antt =====
-- The public methods of `JobTransitionService` (gateway/core/services/job_transitions.py).
use qiskit_serverless.Base.{
  Bool, List, Option, [], false, if◌then◌else◌, none, not, opt_str_eq, some, true, truthy, ℕ, ◌++◌,
  ◌∷◌,
}
use qiskit_serverless.Models.{
  Context, Field, JobEvent, Origin, Status, failed, find_job, is_fleets, pending, running, stopped,
  stopping, succeeded,
}
use qiskit_serverless.Faults.{
  Error, Result, does_not_exist, err, fleet_appeared, ok, runtime_error, value_error,
}
use qiskit_serverless.Billing.{build_job_usage}
use qiskit_serverless.Transitions.Monad.{
  Action, Env, World, atomic, from_option, gets, lift, modify, pure, raise, raise_unless, raised,
  skip, when, ◌>>=◌, ◌>>◌,
}
use qiskit_serverless.Transitions.Writes.{change_status, new_uuid}
use qiskit_serverless.Transitions.Owed.{enqueue_workload, owe_stop, owe_success}

-- `to_succeeded`
unfoldable pub to_succeeded : Origin → Context → List Field → Action JobEvent
unfolding change_status owe_success enqueue_workload
to_succeeded origin context fields = atomic (do
  event ← change_status succeeded origin context fields
  owe_success event
  enqueue_workload
  pure event)

-- `to_stopped_or_failed`
unfoldable pub to_stopped_or_failed : Status → Origin → Context → List Field → Action JobEvent
unfolding change_status owe_stop enqueue_workload
to_stopped_or_failed status origin context fields = atomic (do
  event ← change_status status origin context fields
  owe_stop event
  enqueue_workload
  pure event)

-- `to_failed`
unfoldable pub to_failed : Origin → Context → List Field → Action JobEvent
unfolding to_stopped_or_failed
to_failed = to_stopped_or_failed failed

-- `to_stopped`
unfoldable pub to_stopped : Origin → Context → List Field → Action JobEvent
unfolding to_stopped_or_failed
to_stopped = to_stopped_or_failed stopped

-- `to_terminal`
unfoldable pub to_terminal : Status → Origin → Context → List Field → Action JobEvent
unfolding to_succeeded to_failed to_stopped
to_terminal succeeded = to_succeeded
to_terminal failed = to_failed
to_terminal stopped = to_stopped
to_terminal other = λ origin context fields. raise value_error

-- The times of a billing message about a job in progress.
abbrev pub progress_time : Bool → ℕ → Option ℕ
progress_time true now = none
progress_time false now = some now

-- `except RuntimeError`
abbrev pub dropped_runtime_error : Error → Action (Unit {0})
dropped_runtime_error runtime_error = skip
dropped_runtime_error e = raise e

abbrev pub caught :
    Result (Unit {0}) × World → (Error → Action (Unit {0})) → Result (Unit {0}) × World
caught (ok a, w) h = (ok a, w)
caught (err e, w) h = h e w

abbrev pub catch : Action (Unit {0}) → (Error → Action (Unit {0})) → Action (Unit {0})
catch m h w = caught (m w) h

module _ (env : Env) where
  -- `_send_job_in_progress`
  unfoldable pub send_job_in_progress : Bool → Option ℕ → Action (Unit {0})
  unfolding new_uuid
  send_job_in_progress job_started started = do
    job ← gets (λ w. w.job)
    now ← gets (λ w. w.now)
    when (not job.filler) (
        catch
          (do
            id ← new_uuid
            message ← lift (build_job_usage job started (progress_time job_started now) now id)
            modify (λ w. record w { sent = w.sent ++ (message ∷ []) })
            raised (env.billing_send message))
          dropped_runtime_error)

  -- `self.workload_mirror.send(job)`
  unfoldable pub send_mirror : Action (Unit {0})
  send_mirror = do
    job ← gets (λ w. w.job)
    db ← gets (λ w. w.db)
    modify (λ w. record w { mirrored = w.mirrored ++ (job.status ∷ []) })
    raised (env.mirror_send job db)

  -- `queued_to_pending`
  unfoldable pub queued_to_pending : Origin → Context → List Field → Action JobEvent
  unfolding change_status send_mirror
  queued_to_pending origin context fields = do
    event ← atomic (change_status pending origin context fields)
    send_mirror
    pure event

  -- `pending_to_running`
  unfoldable pub pending_to_running : Origin → Context → List Field → Action JobEvent
  unfolding change_status send_mirror send_job_in_progress
  pending_to_running origin context fields = do
    event ← atomic (change_status running origin context fields)
    send_job_in_progress true (some event.created)
    send_mirror
    pure event

  -- `running_to_running`
  unfoldable pub running_to_running : Option ℕ → Action (Unit {0})
  unfolding send_job_in_progress
  running_to_running started = send_job_in_progress false started

  -- The end of a job that has no fleet to cancel, if its row still has the fleet that was asked about.
  unfoldable pub stop_without_cancel : Origin → Context → Action JobEvent
  unfolding change_status enqueue_workload
  stop_without_cancel origin context = do
    job ← gets (λ w. w.job)
    row ← gets (λ w. find_job job.id w.db.jobs)
    row ← from_option row does_not_exist
    when (not (opt_str_eq row.fleet_id job.fleet_id)) (
        modify (λ w. record w { job = record job { fleet_id = row.fleet_id } })
        >> raise fleet_appeared)
    event ← change_status stopped origin context []
    enqueue_workload
    pure event

  -- `stop`
  unfoldable pub stop : Origin → Context → Action Status
  unfolding change_status send_mirror stop_without_cancel
  stop origin context = do
    job ← gets (λ w. w.job)
    raise_unless (is_fleets job.runner) value_error
    cancelled ← (if truthy job.fleet_id then lift (env.runner_stop job) else pure false)
    elim cancelled [
      | true ↦ atomic (change_status stopping origin context []) >> (send_mirror >> pure stopping)
      | false ↦ atomic (stop_without_cancel origin context) >> pure stopped
    ]
