-- ===== src/Transitions/Debts.antt =====
-- What each kind of end owes, against the code that enqueues it.
use qiskit_serverless.Base.{
  Bool, Bool-cases, List, Option, false, filter, if◌then◌else◌, inl, inr, is_some, not, refl, true,
  ℕ, ◌&&◌, ◌+◌, ◌==◌,
}
use qiskit_serverless.Billing.{build_job_completed_event, build_license_fee}
use qiskit_serverless.Faults.{Result, err, ok}
use qiskit_serverless.Models.{
  Channel, Envelope, Job, JobEvent, WorkloadEnvelope, billing, first_running_at, job_usage,
  license_fee, size_label, workload, workload_message,
}
use qiskit_serverless.Transitions.Monad.{
  Action, World, continue, lift, modify_db, when, ◌>>=◌, ◌>>◌,
}
use qiskit_serverless.Transitions.Owed.{
  enqueue_job_usage, enqueue_license_fee, enqueue_workload, is_fee_billable, is_usage_billable,
  owe_stop, owe_success,
}
use qiskit_serverless.Transitions.Rows.{
  Appended, Appended-refl, Appended-trans, create_outbox-Appended, nothing, one,
}
use qiskit_serverless.Workload.{build_workload_payload, is_mirrored}
use qiskit_serverless.Transitions.Writes.{create_outbox}

-- A call that returned, or any that raised.
abbrev pub Returned : {A : Type 0} → (World → Type 0) → Result A × World → Type 0
Returned P (ok a, w) = P w
Returned P (err e, w) = Unit

abbrev fee_due : Job → Channel → ℕ
fee_due job = if is_some (size_label job) then one license_fee else nothing

enqueue_job_usage-Appended :
    (s : Option ℕ) (t : ℕ) (w : World)
    → Returned (Appended (one job_usage) false w) (enqueue_job_usage s t w)
unfolding enqueue_job_usage
enqueue_job_usage-Appended s t w =
    let v : World = record w { next_uuid = w.next_uuid + 1 } in
    let p =
      create_outbox-Appended job_usage
        (billing (build_job_completed_event w.job s t w.now w.next_uuid)) v in
    record {
      jobs_kept = p.jobs_kept;
      events_kept = p.events_kept;
      mirrors_kept = p.mirrors_kept;
      job_kept = p.job_kept;
      now_kept = p.now_kept;
      added = p.added;
    }

create_fee-Appended :
    (w : World) (n : ℕ) (r : Result Envelope)
    → Returned
        (Appended (one license_fee) false w)
        ((lift r >>= λ m. create_outbox license_fee (billing m)) (record w { next_uuid = n }))
unfolding create_outbox
create_fee-Appended w n (ok m) =
    let p = create_outbox-Appended license_fee (billing m) (record w { next_uuid = n }) in
    record {
      jobs_kept = p.jobs_kept;
      events_kept = p.events_kept;
      mirrors_kept = p.mirrors_kept;
      job_kept = p.job_kept;
      now_kept = p.now_kept;
      added = p.added;
    }
create_fee-Appended w n (err e) = tt

enqueue_license_fee-Appended :
    (s : Option ℕ) (w : World)
    → Returned (Appended (fee_due w.job) false w) (enqueue_license_fee s w)
unfolding enqueue_license_fee
enqueue_license_fee-Appended s w = elim (Bool-cases (is_some (size_label w.job))) [
  | inl sized ↦
      rw sized
        (create_fee-Appended w (w.next_uuid + 1) (build_license_fee w.job s w.now w.next_uuid))
  | inr unsized ↦ rw unsized (Appended-refl w)
]

compose-Appended :
    {B : Type 0} {f : Channel → ℕ} (g : Channel → ℕ) (gone : Bool) {w v : World}
    (r : Result B × World)
    → Appended f false w v
    → Returned (Appended g gone v) r
    → Returned (Appended (λ c. f c + g c) gone w) r
compose-Appended g gone (ok b, u) p q = Appended-trans p q
compose-Appended g gone (err e, u) p q = tt

-- Two calls in a row add what each of them adds.
pub then-Appended :
    {A B : Type 0} {f : Channel → ℕ} (g : Channel → ℕ) (gone : Bool) {w : World}
    (r : Result A × World) (k : A → Action B)
    → Returned (Appended f false w) r
    → ((a : A) (v : World) → Appended f false w v → Returned (Appended g gone v) (k a v))
    → Returned (Appended (λ c. f c + g c) gone w) (continue r k)
then-Appended g gone (ok a, v) k p q = compose-Appended g gone (k a v) p (q a v p)
then-Appended g gone (err e, v) k p q = tt

-- What a job owes at its end: the usage if it is billed, and the fee where `with_fee` holds too.
abbrev pub end_due : Job → Bool → Channel → ℕ
end_due job with_fee =
    if is_usage_billable job
    then (λ c. one job_usage c + (if with_fee then fee_due job else nothing) c)
    else nothing

owe-Appended :
    (w : World) (s : Option ℕ) (t : ℕ) (with_fee : Bool)
    → Returned (Appended (end_due w.job with_fee) false w) (
        when
          (is_usage_billable w.job)
          (enqueue_job_usage s t >> when with_fee (enqueue_license_fee s))
          w)
owe-Appended w s t with_fee = elim (Bool-cases (is_usage_billable w.job)) [
  | inl billed ↦ rw billed (
      then-Appended _ false (enqueue_job_usage s t w) _ (enqueue_job_usage-Appended s t w)
        (fee with_fee))
  | inr free ↦ rw free (Appended-refl w)
]
  where
    fee :
        (b : Bool) (a : Unit {0}) (v : World)
        → Appended (one job_usage) false w v
        → Returned
            (Appended (if b then fee_due w.job else nothing) false v)
            (when b (enqueue_license_fee s) v)
    fee true a v p = rw (← p.job_kept) (enqueue_license_fee-Appended s v)
    fee false a v p = Appended-refl v

pub owe_success-Appended :
    (e : JobEvent) (w : World)
    → Returned (Appended (end_due w.job (is_fee_billable w.job)) false w) (owe_success e w)
unfolding owe_success
owe_success-Appended e w =
    owe-Appended w (first_running_at w.job.id w.db.events) e.created (is_fee_billable w.job)

pub owe_stop-Appended :
    (e : JobEvent) (w : World)
    → Returned
        (Appended
          (end_due w.job (is_some (first_running_at w.job.id w.db.events) && is_fee_billable w.job))
          false
          w)
        (owe_stop e w)
unfolding owe_stop
owe_stop-Appended e w =
    owe-Appended w (first_running_at w.job.id w.db.events) e.created
      (is_some (first_running_at w.job.id w.db.events) && is_fee_billable w.job)

abbrev pub workload_due : Job → List ℕ → Channel → ℕ
workload_due job mirrors = if is_mirrored job mirrors then one workload else nothing

mirror_out :
    (w : World) (r : Result WorkloadEnvelope)
    → Returned (Appended (one workload) true w) (
        (lift r >>= λ payload.
        create_outbox workload (workload_message payload)
        >> modify_db (λ d. record d { mirrors = filter (λ id. not (id == w.job.id)) d.mirrors }))
          w)
unfolding create_outbox
mirror_out w (ok m) =
    let p = create_outbox-Appended workload (workload_message m) w in
    record {
      jobs_kept = p.jobs_kept;
      events_kept = p.events_kept;
      mirrors_kept = refl;
      job_kept = p.job_kept;
      now_kept = p.now_kept;
      added = p.added;
    }
mirror_out w (err e) = tt

pub enqueue_workload-Appended :
    (w : World)
    → Returned
        (Appended (workload_due w.job w.db.mirrors) (is_mirrored w.job w.db.mirrors) w)
        (enqueue_workload w)
unfolding enqueue_workload
enqueue_workload-Appended w = elim (Bool-cases (is_mirrored w.job w.db.mirrors)) [
  | inl mirrored ↦ rw mirrored (mirror_out w (build_workload_payload w.job w.db.events))
  | inr unknown ↦ rw unknown (Appended-refl w)
]
