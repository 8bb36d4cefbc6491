-- ===== src/Submit/Laws.antt =====
-- The fleet of a job is recorded whatever becomes of the job.
use qiskit_serverless.Base.{
  ==_refl, Bool, Bool-cases, Option, String, [], ap, arith, false, if◌then◌else◌, inl, inr, none,
  refl, some, sym, true, ◌∙◌, ◌∷◌, ◌≡◌,
}
use qiskit_serverless.Breaker.{Settings, is_open}
use qiskit_serverless.Submit.{
  SubmitState, add_error_event, admit, admit_answer, cancel_orphan_fleet, orphan_answer,
  record_fleet, submit_answered, submit_fleet, submit_paused,
}
use qiskit_serverless.Fleets.{paused}
use qiskit_serverless.Faults.{
  is_runner_error, Error, Result, err, is_invalid_transition, is_ok, is_retryable, ok, runner_error,
}
use qiskit_serverless.Models.{
  Context, Db, Job, JobEvent, Status, bump_version, find_job, pending, queued, scheduler,
  set_env_vars, set_fleet_id, status_eq, status_in,
}
use qiskit_serverless.Transitions.Monad.{Env, World, atomic, continue, pure, raise, ◌>>◌}
use qiskit_serverless.Transitions.Methods.{queued_to_pending, send_mirror}
use qiskit_serverless.Transitions.Effects.{
  change_status_rejected, change_status_valid, find_job-written, refreshed, update_fields_found,
  write_fields, written,
}
use qiskit_serverless.Transitions.Calls.{continue-db, send_mirror-db}
use qiskit_serverless.Transitions.Writes.{change_status, valid_transitions}
use qiskit_serverless.Transitions.Steps.{changed-found}
use qiskit_serverless.Transitions.Memory.{status_of}

submit_paused-db :
    (settings : Settings) (region : Option String) (st : SubmitState)
    → (submit_paused settings region st).1.fleets.world ≡ st.fleets.world
unfolding submit_paused paused
submit_paused-db settings region st =
    elim (Bool-cases (is_open settings st.fleets.world.now (st.cos region)).0) [
      | inl open_now ↦ rw open_now refl
      | inr closed_now ↦ rw closed_now refl
    ]

retry_answered :
    (env : Env) (c : Context) (e : Error) (w : World)
    → is_retryable e ≡ true
    → submit_answered env c (err e) w ≡ (err e, w)
unfolding submit_answered
retry_answered env c runner_error w h = absurd (cc h)
retry_answered env c _ w h = refl

-- If the runner's answer to the submit is an exception that a later tick can try again, the submit
-- raises and has written no table, whether the region is paused, and the runner not asked, or not.
pub submit_retried :
    (env : Env) (settings : Settings) (runner_submit : Job → Result String) (c : Context)
    (st : SubmitState) (e : Error)
    → runner_submit st.fleets.world.job ≡ err e
    → is_retryable e ≡ true
    → ((submit_fleet env settings runner_submit c st).1.fleets.world.db ≡ st.fleets.world.db)
      × (is_ok (submit_fleet env settings runner_submit c st).0 ≡ false)
unfolding submit_fleet
submit_retried env settings runner_submit c st e answered retry =
    let region = st.fleets.world.job.ce_region in
    elim (Bool-cases (submit_paused settings region st).0) [
      | inl wait ↦ rw wait (ap (λ (w : World). w.db) (submit_paused-db settings region st), refl)
      | inr free ↦
          rw free (rw answered (rw (retry_answered env c e st.fleets.world retry) (refl, refl)))
    ]

module _ (env : Env) (c : Context) where
  orphan_answer-jobs :
      (j : Job) (r : Result Bool) (w : World) → (orphan_answer j c r w).1.db.jobs ≡ w.db.jobs
  unfolding orphan_answer add_error_event
  orphan_answer-jobs j (ok b) w = refl
  orphan_answer-jobs j (err e) w = elim (Bool-cases (is_runner_error e)) [
    | inl refused ↦ rw refused refl
    | inr other ↦ rw other refl
  ]

  raised-jobs :
      (r : Result (Unit {0}) × World) (e : Error)
      → (continue {B = Unit {0}} r (λ _. raise e)).1.db.jobs ≡ r.1.db.jobs
  raised-jobs (ok a, w) e = refl
  raised-jobs (err x, w) e = refl

  admit_answer-jobs : (r : Result JobEvent × World) → (admit_answer env c r).1.db.jobs ≡ r.1.db.jobs
  unfolding admit_answer cancel_orphan_fleet
  admit_answer-jobs (ok event, w) = refl
  admit_answer-jobs (err e, w) = elim (Bool-cases (is_invalid_transition e)) [
    | inl lost ↦ rw lost (
        raised-jobs (orphan_answer w.job c (env.runner_stop w.job) w) e
        ∙ orphan_answer-jobs w.job (env.runner_stop w.job) w)
    | inr other ↦ rw other refl
  ]

  -- Admission writes the status alone.
  admit-jobs :
      (w : World)
      → (admit env c w).1.db.jobs ≡ (atomic (change_status pending scheduler c []) w).1.db.jobs
  unfolding admit queued_to_pending
  admit-jobs w =
      admit_answer-jobs _
      ∙ ap (λ (d : Db). d.jobs)
          (continue-db (atomic (change_status pending scheduler c []) w)
            (λ event. send_mirror env >> pure event)
            (λ event v.
              continue-db (send_mirror env v) (λ _. pure event) (λ _ _. refl)
              ∙ send_mirror-db env v))

abbrev fleet_of : Option Job → Option (Option String)
fleet_of none = none
fleet_of (some row) = some row.fleet_id

-- What admission leaves of a row that already has its fleet.
abbrev pub Admitted : String → Job → Option Job → Type 0
Admitted fleet row o =
    (fleet_of o ≡ some (some fleet))
    × (status_of o ≡ some (if status_eq row.status queued then pending else row.status))

pending_from_queued : (s : Status) → status_in pending (valid_transitions s) ≡ status_eq s queued
unfolding valid_transitions
pending_from_queued s = ground arith

admitted_as :
    (s : Status) (b : Bool)
    → status_eq s queued ≡ b
    → some (if b then pending else s) ≡ some (if status_eq s queued then pending else s)
admitted_as s b h = ap (λ (x : Bool). some (if x then pending else s)) (sym h)

admit-Admitted :
    (env : Env) (c : Context) (fleet : String) (row row' : Job) (w : World)
    → find_job w.job.id w.db.jobs ≡ some row'
    → row'.fleet_id ≡ some fleet
    → row'.status ≡ row.status
    → Admitted fleet row (find_job w.job.id (admit env c w).1.db.jobs)
admit-Admitted env c fleet row row' w found has same =
    rw (admit-jobs env c w) (elim (Bool-cases (status_in pending (valid_transitions row'.status))) [
      | inl valid ↦ rw (change_status_valid pending scheduler c [] w row' found valid) (
          rw (changed-found pending scheduler c [] w row' refl found) (
            ap some has,
            admitted_as row.status true (sym (pending_from_queued row.status) ∙ rw same at valid),
          ))
      | inr rejected ↦ rw (change_status_rejected pending scheduler c [] w row' found rejected) (
          rw found (
            ap some has,
            ap some same
                ∙ admitted_as row.status false
                    (sym (pending_from_queued row.status) ∙ rw same at rejected),
          ))
    ])

-- The instance and the tables once the fleet was recorded.
recorded-Admitted :
    (env : Env) (c : Context) (fleet : String) (w : World) (row : Job)
    → find_job w.job.id w.db.jobs ≡ some row
    → Admitted fleet row (find_job w.job.id (submit_answered env c (ok fleet) w).1.db.jobs)
unfolding submit_answered record_fleet
recorded-Admitted env c fleet w row found =
    let fields = set_fleet_id (some fleet) ∷ set_env_vars "{}" ∷ [] in
    let w1 : World = record w { job = record w.job { fleet_id = some fleet } } in
    let w2 : World = record w1 {
      db = record w1.db { jobs = written fields w1 };
      job = refreshed fields row w1;
    } in
    let row' : Job = bump_version (write_fields fields w.now row) in
    let found' : find_job w.job.id (written fields w1) ≡ some row' =
      rw (find_job-written w.job.id fields w1, ==_refl w.job.id, found) refl in
    rw (update_fields_found fields w1 row found)
      (admit-Admitted env c fleet row row' w2 found' refl refl)

-- No fleet is lost: when the runner created one for a job whose region is not paused and whose row is
-- there, the row has that fleet after the submit, whatever the mirror and a cancel answer; and its
-- status is PENDING if it was QUEUED, or what it was.
pub submit_keeps_fleet :
    (env : Env) (settings : Settings) (runner_submit : Job → Result String) (c : Context)
    (st : SubmitState) (fleet : String) (row : Job)
    → (submit_paused settings st.fleets.world.job.ce_region st).0 ≡ false
    → runner_submit st.fleets.world.job ≡ ok fleet
    → find_job st.fleets.world.job.id st.fleets.world.db.jobs ≡ some row
    → Admitted fleet row (
        find_job st.fleets.world.job.id
          (submit_fleet env settings runner_submit c st).1.fleets.world.db.jobs)
unfolding submit_fleet
submit_keeps_fleet env settings runner_submit c st fleet row free answered found =
    rw free (rw answered (recorded-Admitted env c fleet st.fleets.world row found))
