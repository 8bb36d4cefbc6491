-- ===== src/Transitions/Owing.antt =====
-- The ends of a job as their callers see them: what each owes, to the row.
use qiskit_serverless.Base.{List, arith, false, if◌then◌else◌, is_some, refl, true, ℕ, ◌≡◌}
use qiskit_serverless.Workload.{is_mirrored}
use qiskit_serverless.Faults.{Error, Result, err, ok}
use qiskit_serverless.Models.{
  Channel, Context, Field, Job, JobEvent, Origin, Status, failed, first_running_at, is_status_event,
  running, status_eq, status_event, stopped, succeeded,
}
use qiskit_serverless.Models.Laws.{first_running_at-append, set_fields-id}
use qiskit_serverless.Transitions.Monad.{World}
use qiskit_serverless.Transitions.Methods.{
  to_failed, to_stopped, to_stopped_or_failed, to_succeeded, to_terminal,
}
use qiskit_serverless.Transitions.Effects.{changed}
use qiskit_serverless.Transitions.Outcomes.{Owes, fee_owed, owed_exactly, usage_owed}
use qiskit_serverless.Transitions.Ends.{
  Ended, stop_due, success_due, to_stopped_or_failed-Ended, to_succeeded-Ended, with_workload,
}

-- When `to_succeeded` returns, it has added one usage row if the job is a billed Fleets job, one
-- license fee if its function is also a provider's and the job has a size, and one workload row if
-- the job is mirrored, and no other row for the job.
pub to_succeeded-Owes :
    (o : Origin) (c : Context) (fs : List Field) (w w' : World) (event : JobEvent)
    → to_succeeded o c fs w ≡ (ok event, w')
    → Owes w.job
        (usage_owed w.job)
        (fee_owed w.job true)
        (if is_mirrored w.job w.db.mirrors then 1 else 0)
        w.db
        w'.db
to_succeeded-Owes o c fs w w' event h =
    let q : Ended succeeded o c fs (with_workload success_due) w (ok event, w') =
      rw h at (to_succeeded-Ended o c fs w) in
    owed_exactly succeeded o c fs q.0 w w' true q.4

ran_before :
    (s : Status) (o : Origin) (c : Context) (fs : List Field) (row : Job) (w : World)
    → status_eq running s ≡ false
    → first_running_at (changed s o c fs row w).job.id (changed s o c fs row w).db.events
      ≡ first_running_at w.job.id w.db.events
unfolding status_event is_status_event
ran_before s o c fs row w h = rw (set_fields-id fs (record w.job { updated = w.now; status = s })) (
    first_running_at-append w.job.id w.db.events (status_event w.job.id o c s w.now)
      (ground (arith, h)))

-- When `to_stopped_or_failed` returns, with a status other than RUNNING, it has added the usage and
-- the workload rows likewise, and the license fee only if the job also has a RUNNING event.
pub to_stopped_or_failed-Owes :
    (s : Status) (o : Origin) (c : Context) (fs : List Field) (w w' : World) (event : JobEvent)
    → status_eq running s ≡ false
    → to_stopped_or_failed s o c fs w ≡ (ok event, w')
    → Owes w.job
        (usage_owed w.job)
        (fee_owed w.job (is_some (first_running_at w.job.id w.db.events)))
        (if is_mirrored w.job w.db.mirrors then 1 else 0)
        w.db
        w'.db
to_stopped_or_failed-Owes s o c fs w w' event ends h =
    let q : Ended s o c fs (with_workload stop_due) w (ok event, w') =
      rw h at (to_stopped_or_failed-Ended s o c fs w) in
    rw (← ran_before s o c fs q.0 w ends) (
      owed_exactly s o c fs q.0 w w'
        (is_some
          (first_running_at (changed s o c fs q.0 w).job.id (changed s o c fs q.0 w).db.events))
        q.4)

Ended-err :
    (s : Status) (o : Origin) (c : Context) (fs : List Field) (due : World → Channel → ℕ)
    (w : World) (r : Result JobEvent × World) (e : Error)
    → Ended s o c fs due w r
    → r.0 ≡ err e
    → r.1.db ≡ w.db
Ended-err s o c fs due w (ok a, w') e q h = cc
Ended-err s o c fs due w (err x, w') e q h = q

-- An end that raises, at whatever point, leaves every table as it was.
pub to_terminal_atomic :
    (s : Status) (o : Origin) (c : Context) (fs : List Field) (w : World) (e : Error)
    → (to_terminal s o c fs w).0 ≡ err e
    → (to_terminal s o c fs w).1.db ≡ w.db
unfolding to_terminal to_failed to_stopped
to_terminal_atomic succeeded o c fs w e h =
    Ended-err succeeded o c fs (with_workload success_due) w _ e (to_succeeded-Ended o c fs w) h
to_terminal_atomic failed o c fs w e h =
    Ended-err failed o c fs (with_workload stop_due) w _ e
      (to_stopped_or_failed-Ended failed o c fs w) h
to_terminal_atomic stopped o c fs w e h =
    Ended-err stopped o c fs (with_workload stop_due) w _ e
      (to_stopped_or_failed-Ended stopped o c fs w) h
to_terminal_atomic _ o c fs w e h = refl
