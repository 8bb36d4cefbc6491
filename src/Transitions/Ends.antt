-- ===== src/Transitions/Ends.antt =====
-- The end of a job: the status change and everything that it owes, or nothing at all.
use qiskit_serverless.Base.{
  Bool-cases, List, Option-cases, [], false, inl, inr, is_some, refl, some, sym, true, ℕ, ◌&&◌, ◌+◌,
  ◌≡◌,
}
use qiskit_serverless.Faults.{Result, err, ok}
use qiskit_serverless.Transitions.Monad.{
  Action, World, atomic, continue, finish, pure, skip, ◌>>=◌, ◌>>◌,
}
use qiskit_serverless.Models.{
  Channel, Context, Field, Job, JobEvent, Origin, Status, find_job, first_running_at, status_event,
  status_in, stopped, succeeded,
}
use qiskit_serverless.Transitions.Debts.{
  Returned, end_due, enqueue_workload-Appended, owe_stop-Appended, owe_success-Appended,
  then-Appended, workload_due,
}
use qiskit_serverless.Transitions.Effects.{
  change_status_missing, change_status_rejected, change_status_valid, changed,
}
use qiskit_serverless.Transitions.Owed.{enqueue_workload, is_fee_billable, owe_stop, owe_success}
use qiskit_serverless.Transitions.Writes.{change_status, valid_transitions}
use qiskit_serverless.Transitions.Rows.{Appended, Appended-refl, nothing}
use qiskit_serverless.Workload.{is_mirrored}
use qiskit_serverless.Models.Laws.{set_fields-id}
use qiskit_serverless.Transitions.Methods.{to_stopped_or_failed, to_succeeded}

-- What a call that ends a job with this status has done: it raised and the tables are as they were,
-- or a row that allows the change has it, with one event, and rows were added as stated.
abbrev pub Ended :
    Status
    → Origin
    → Context
    → List Field
    → (World → Channel → ℕ)
    → World
    → Result JobEvent × World
    → Type 0
Ended s o c fs due w (ok event, w') =
    (row : Job) × (find_job w.job.id w.db.jobs ≡ some row)
    × (status_in s (valid_transitions row.status) ≡ true)
    × (event ≡ status_event w.job.id o c s w.now)
    × Appended (due (changed s o c fs row w)) (is_mirrored w.job w.db.mirrors)
        (changed s o c fs row w) w'
Ended s o c fs due w (err e, w') = w'.db ≡ w.db

finish_valid :
    (s : Status) (o : Origin) (c : Context) (fs : List Field) (due : World → Channel → ℕ)
    (w : World) (row : Job) (event : JobEvent) (r : Result (Unit {0}) × World)
    → find_job w.job.id w.db.jobs ≡ some row
    → status_in s (valid_transitions row.status) ≡ true
    → event ≡ status_event w.job.id o c s w.now
    → Returned
        (Appended
          (due (changed s o c fs row w))
          (is_mirrored w.job w.db.mirrors)
          (changed s o c fs row w))
        r
    → Ended s o c fs due w (finish w.db (continue r (λ _. pure event)))
finish_valid s o c fs due w row event (ok a, w') h v e p = (row, h, v, e, p)
finish_valid s o c fs due w row event (err x, w') h v e p = refl

-- What is owed with the workload, where the owed rows depend on the world.
abbrev pub with_workload : (World → Channel → ℕ) → World → Channel → ℕ
with_workload due v c = due v c + workload_due v.job v.db.mirrors c

pub is_mirrored-id :
    (j k : Job) (mirrors : List ℕ) → j.id ≡ k.id → is_mirrored j mirrors ≡ is_mirrored k mirrors
unfolding is_mirrored
is_mirrored-id j k mirrors e = rw e

owe_all :
    (due : World → Channel → ℕ) (v : World) (r : Result (Unit {0}) × World)
    → Returned (Appended (due v) false v) r
    → Returned
        (Appended (with_workload due v) (is_mirrored v.job v.db.mirrors) v)
        (continue r (λ _. enqueue_workload))
owe_all due v r p =
    then-Appended (workload_due v.job v.db.mirrors) (is_mirrored v.job v.db.mirrors) r
      (λ _. enqueue_workload) p
      (λ a u q. rw (← q.job_kept, ← q.mirrors_kept) (enqueue_workload-Appended u))

continue_assoc :
    {A B C : Type 0} (r : Result A × World) (f : A → Action B) (g : B → Action C)
    → continue (continue r f) g ≡ continue r (λ a. f a >>= g)
continue_assoc (ok a, w) f g = refl
continue_assoc (err e, w) f g = refl

-- An end, whatever it owes besides the workload.
end_job-Ended :
    (s : Status) (o : Origin) (c : Context) (fs : List Field) (w : World)
    (owe : JobEvent → Action (Unit {0})) (due : World → Channel → ℕ)
    → ((e : JobEvent) (v : World) → Returned (Appended (due v) false v) (owe e v))
    → Ended s o c fs (with_workload due) w (
        atomic
          (change_status s o c fs >>= λ event. owe event >> (enqueue_workload >> pure event))
          w)
end_job-Ended s o c fs w owe due p = elim (Option-cases (find_job w.job.id w.db.jobs)) [
  | inl missing ↦ rw (change_status_missing s o c fs w missing) refl
  | inr (row, found) ↦ elim (Bool-cases (status_in s (valid_transitions row.status))) [
    | inl valid ↦ rw (change_status_valid s o c fs w row found valid) (accepted row found valid)
    | inr rejected ↦ rw (change_status_rejected s o c fs w row found rejected) refl
  ]
]
  where
    accepted :
        (row : Job)
        → find_job w.job.id w.db.jobs ≡ some row
        → status_in s (valid_transitions row.status) ≡ true
        → let event = status_event w.job.id o c s w.now in
          Ended s o c fs (with_workload due) w (
            finish w.db
              (continue (owe event (changed s o c fs row w)) (λ _. enqueue_workload >> pure event)))
    accepted row found valid =
        let event = status_event w.job.id o c s w.now in
        let v = changed s o c fs row w in
        let r = owe event v in
        rw (← continue_assoc r (λ _. enqueue_workload) (λ _. pure event)) (
          finish_valid s o c fs (with_workload due) w row event (continue r (λ _. enqueue_workload))
            found valid refl
            (rw
              (is_mirrored-id w.job v.job w.db.mirrors
                (sym (set_fields-id fs (record w.job { updated = w.now; status = s }))))
              (owe_all due v r (p event v))))

-- A stop of a job with no fleet to cancel owes the workload alone.
abbrev pub no_due : World → Channel → ℕ
no_due v = nothing

pub stop_job-Ended :
    (o : Origin) (c : Context) (w : World)
    → Ended stopped o c []
        (with_workload no_due)
        w
        (atomic (change_status stopped o c [] >>= λ event. enqueue_workload >> pure event) w)
stop_job-Ended o c w =
    end_job-Ended stopped o c [] w (λ event. skip) no_due (λ e v. Appended-refl v)

-- What a success owes, at the world after the change.
abbrev pub success_due : World → Channel → ℕ
success_due v = end_due v.job (is_fee_billable v.job)

-- What a failure or a stop owes, at the world after the change.
abbrev pub stop_due : World → Channel → ℕ
stop_due v =
    end_due v.job (is_some (first_running_at v.job.id v.db.events) && is_fee_billable v.job)

pub to_succeeded-Ended :
    (o : Origin) (c : Context) (fs : List Field) (w : World)
    → Ended succeeded o c fs (with_workload success_due) w (to_succeeded o c fs w)
unfolding to_succeeded
to_succeeded-Ended o c fs w =
    end_job-Ended succeeded o c fs w owe_success success_due owe_success-Appended

pub to_stopped_or_failed-Ended :
    (s : Status) (o : Origin) (c : Context) (fs : List Field) (w : World)
    → Ended s o c fs (with_workload stop_due) w (to_stopped_or_failed s o c fs w)
unfolding to_stopped_or_failed
to_stopped_or_failed-Ended s o c fs w = end_job-Ended s o c fs w owe_stop stop_due owe_stop-Appended
