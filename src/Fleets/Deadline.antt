-- ===== src/Fleets/Deadline.antt =====
-- The deadline of a stop.
use qiskit_serverless.Base.{List, Option, all, ap, none, refl, some, true, truthy, ℕ, ◌≡◌}
use qiskit_serverless.Breaker.{Settings}
use qiskit_serverless.Fleets.{
  FleetsState, confirm_stop, end_fields, end_job, ended_answer, read_status,
  stopping_deadline_passed, update_status,
}
use qiskit_serverless.Faults.{Result, err, ok}
use qiskit_serverless.Models.{
  Channel, Context, Field, Job, JobEvent, Origin, Status, find_job, keeps_status, scheduler,
  status_eq, status_in, stopped, stopping, update_job_status,
}
use qiskit_serverless.Transitions.Monad.{Env, World}
use qiskit_serverless.Transitions.Effects.{write_fields-status}
use qiskit_serverless.Transitions.Ends.{Ended, stop_due, to_stopped_or_failed-Ended, with_workload}
use qiskit_serverless.Transitions.Steps.{changed-found}
use qiskit_serverless.Transitions.Memory.{status_of}
use qiskit_serverless.Transitions.Methods.{to_stopped, to_terminal}
use qiskit_serverless.Transitions.Writes.{valid_transitions}
use qiskit_serverless.Transitions.Returns.{to_terminal_returns}
use qiskit_serverless.Transitions.Builders.{has_messages}

-- The status of a job's row after an end that was accepted.
pub Ended-reached :
    (s : Status) (o : Origin) (c : Context) (fs : List Field) (due : World → Channel → ℕ)
    (w w' : World) (event : JobEvent)
    → all keeps_status fs ≡ true
    → Ended s o c fs due w (ok event, w')
    → status_of (find_job w.job.id w'.db.jobs) ≡ some s
Ended-reached s o c fs due w w' event keeps (row, found, valid, _, p) = rw p.jobs_kept (
    rw (changed-found s o c fs w row keeps found)
      (ap some (write_fields-status s fs w.now row keeps)))

module _ (env : Env) (settings : Settings) (timeout : ℕ) (t : Option ℕ) (st : FleetsState) where
  Ended-stopped :
      (r : Result JobEvent × World) (event : JobEvent)
      → r.0 ≡ ok event
      → Ended stopped scheduler update_job_status end_fields (with_workload stop_due) st.world r
      → ((ended_answer st r).0 ≡ ok true)
        × (status_of (find_job st.world.job.id (ended_answer st r).1.world.db.jobs) ≡ some stopped)
  Ended-stopped (ok e, w) event h p = (
    refl,
    Ended-reached stopped scheduler update_job_status end_fields (with_workload stop_due) st.world w
        e refl p,
  )
  Ended-stopped (err e, w) event h p = absurd (cc h)

  end_job_stopped :
      (row : Job)
      → find_job st.world.job.id st.world.db.jobs ≡ some row
      → status_in stopped (valid_transitions row.status) ≡ true
      → has_messages st.world.job st.world.db.mirrors ≡ true
      → ((end_job env settings timeout stopped st).0 ≡ ok true)
        × (status_of
              (find_job st.world.job.id (end_job env settings timeout stopped st).1.world.db.jobs)
            ≡ some stopped)
  unfolding end_job to_terminal to_stopped
  end_job_stopped row found valid m =
      Ended-stopped (to_terminal stopped scheduler update_job_status end_fields st.world) _
        (to_terminal_returns stopped scheduler update_job_status end_fields st.world row refl found
          valid m)
        (to_stopped_or_failed-Ended stopped scheduler update_job_status end_fields st.world)

  -- A job that stops is STOPPED by the first pass after its deadline, also when its status cannot be
  -- read: if the read reports no status, its row allows STOPPED and its messages can be built.
  pub stopping_ends :
      (row : Job) (read : Job → Result (Option Status))
      → truthy st.world.job.fleet_id ≡ true
      → status_eq st.world.job.status stopping ≡ true
      → read_status (read st.world.job) ≡ ok none
      → stopping_deadline_passed st.world.db st.world.job st.world.now ≡ true
      → find_job st.world.job.id st.world.db.jobs ≡ some row
      → status_in stopped (valid_transitions row.status) ≡ true
      → has_messages st.world.job st.world.db.mirrors ≡ true
      → ((update_status env settings timeout t read st).0 ≡ ok true)
        × (status_of (
              find_job st.world.job.id
                (update_status env settings timeout t read st).1.world.db.jobs)
            ≡ some stopped)
  unfolding update_status confirm_stop
  stopping_ends row read held stops unread late found valid m =
      rw held (rw unread (rw stops (rw late (end_job_stopped row found valid m))))
