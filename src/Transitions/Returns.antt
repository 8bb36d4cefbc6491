-- ===== src/Transitions/Returns.antt =====
-- Which ends are certain to be accepted: a builder of a message is the only call that can still raise
-- after the change of the status is found valid.
use qiskit_serverless.Base.{
  Bool, Bool-cases, List, Option, arith, false, inl, inr, is_some, not, refl, some, true, truthy, ℕ,
  ◌&&◌, ◌||◌, ◌∙◌, ◌≡◌,
}
use qiskit_serverless.Workload.{build_workload_payload, is_mirrored}
use qiskit_serverless.Billing.{billing_name_for, build_license_fee}
use qiskit_serverless.Faults.{Result, err, is_ok, ok}
use qiskit_serverless.Transitions.Monad.{
  Action, World, atomic, continue, finish, lift, pure, when, ◌>>=◌, ◌>>◌,
}
use qiskit_serverless.Models.{
  Channel, Context, Db, Field, Job, JobEvent, Origin, Status, failed, find_job, first_running_at,
  size_label, status_event, status_in, stopped, succeeded, terminal_statuses,
}
use qiskit_serverless.Transitions.Owed.{
  enqueue_job_usage, enqueue_license_fee, enqueue_workload, is_fee_billable, is_usage_billable,
  owe_stop, owe_success,
}
use qiskit_serverless.Transitions.Writes.{change_status, create_outbox, valid_transitions}
use qiskit_serverless.Transitions.Debts.{Returned, owe_stop-Appended, owe_success-Appended}
use qiskit_serverless.Transitions.Effects.{change_status_valid, changed}
use qiskit_serverless.Transitions.Rows.{Appended}
use qiskit_serverless.Transitions.Methods.{
  to_failed, to_stopped, to_stopped_or_failed, to_succeeded, to_terminal,
}
use qiskit_serverless.Transitions.Ends.{stop_due, success_due}
use qiskit_serverless.Transitions.Builders.{
  build_license_fee-ok, build_workload_payload-ok, has_messages, has_messages-view,
  set_fields-message_view,
}

-- A lifted result that is one returns, whatever follows and returns.
lift-ok :
    {A B : Type 0} (r : Result A) (k : A → Action B) (w : World)
    → is_ok r ≡ true
    → ((a : A) → is_ok (k a w).0 ≡ true)
    → is_ok ((lift r >>= k) w).0 ≡ true
lift-ok (ok a) k w h p = p a
lift-ok (err e) k w h p = absurd (cc h)

enqueue_license_fee-ok :
    (s : Option ℕ) (w : World)
    → is_fee_billable w.job ≡ true
    → is_ok (billing_name_for w.job.business_model) ≡ true
    → is_ok (enqueue_license_fee s w).0 ≡ true
unfolding enqueue_license_fee create_outbox
enqueue_license_fee-ok s w fee named = elim (Bool-cases (is_some (size_label w.job))) [
  | inl sized ↦ rw sized (
      lift-ok (build_license_fee w.job s w.now w.next_uuid) _ _
        (build_license_fee-ok w.job s w.now w.next_uuid fee sized named) (λ m. refl))
  | inr unsized ↦ rw unsized refl
]

pub enqueue_workload-ok :
    (w : World)
    → (not (is_mirrored w.job w.db.mirrors) || (truthy w.job.instance_crn && is_some w.job.program))
      ≡ true
    → is_ok (enqueue_workload w).0 ≡ true
unfolding enqueue_workload create_outbox
enqueue_workload-ok w h = elim (Bool-cases (is_mirrored w.job w.db.mirrors)) [
  | inl mirrored ↦ rw mirrored (
      lift-ok (build_workload_payload w.job w.db.events) _ w
        (build_workload_payload-ok w.job w.db.events (ground (arith, h, mirrored))) (λ m. refl))
  | inr other ↦ rw other refl
]

when-ok :
    (b : Bool) (m : Action (Unit {0})) (w : World)
    → (b ≡ true → is_ok (m w).0 ≡ true)
    → is_ok (when b m w).0 ≡ true
when-ok true m w h = h refl
when-ok false m w h = refl

and_right : (a b : Bool) → (a && b) ≡ true → b ≡ true
and_right a b h = ground (arith, h)

named_if_fee :
    (j : Job)
    → is_fee_billable j ≡ true
    → (not (is_fee_billable j) || is_ok (billing_name_for j.business_model)) ≡ true
    → is_ok (billing_name_for j.business_model) ≡ true
named_if_fee j fee h = rw fee at h

owe_success-ok :
    (e : JobEvent) (w : World)
    → (not (is_fee_billable w.job) || is_ok (billing_name_for w.job.business_model)) ≡ true
    → is_ok (owe_success e w).0 ≡ true
unfolding owe_success enqueue_job_usage create_outbox
owe_success-ok e w h = when-ok (is_usage_billable w.job) _ w (λ usage.
    when-ok (is_fee_billable w.job) _ _
      (λ fee. enqueue_license_fee-ok _ _ fee (named_if_fee w.job fee h)))

owe_stop-ok :
    (e : JobEvent) (w : World)
    → (not (is_fee_billable w.job) || is_ok (billing_name_for w.job.business_model)) ≡ true
    → is_ok (owe_stop e w).0 ≡ true
unfolding owe_stop enqueue_job_usage create_outbox
owe_stop-ok e w h = when-ok (is_usage_billable w.job) _ w (λ usage.
    when-ok (is_some (first_running_at w.job.id w.db.events) && is_fee_billable w.job) _ _ (λ due.
      let fee : is_fee_billable w.job ≡ true =
        and_right (is_some (first_running_at w.job.id w.db.events)) (is_fee_billable w.job) due in
      enqueue_license_fee-ok _ _ fee (named_if_fee w.job fee h)))

-- What was owed is enqueued, and then the workload.
owed-ok :
    (db : Db) (due : Channel → ℕ) (w : World) (r : Result (Unit {0}) × World) (event : JobEvent)
    → is_ok r.0 ≡ true
    → Returned (Appended due false w) r
    → has_messages w.job w.db.mirrors ≡ true
    → (finish db (continue r (λ _. enqueue_workload >> pure event))).0 ≡ ok event
owed-ok db due w (err e, v) event h p m = absurd (cc h)
owed-ok db due w (ok a, v) event h p m =
    workload_returns (enqueue_workload v)
      (enqueue_workload-ok v (rw (p.job_kept, p.mirrors_kept) (ground (arith, m))))
  where
    workload_returns :
        (q : Result (Unit {0}) × World)
        → is_ok q.0 ≡ true
        → (finish db (continue q (λ _. pure event))).0 ≡ ok event
    workload_returns (ok b, u) g = refl
    workload_returns (err e, u) g = absurd (cc g)

module _ (s : Status) (o : Origin) (c : Context) (fs : List Field) (w : World) (row : Job)
    (found : find_job w.job.id w.db.jobs ≡ some row)
    (valid : status_in s (valid_transitions row.status) ≡ true)
    (m : has_messages w.job w.db.mirrors ≡ true) where
  after_messages : has_messages (changed s o c fs row w).job w.db.mirrors ≡ true
  after_messages =
      has_messages-view (changed s o c fs row w).job w.job w.db.mirrors
        (set_fields-message_view fs (record w.job { updated = w.now; status = s }))
      ∙ m

  -- An end that the row allows returns its event, if the messages that it may owe can be built.
  end_job-ok :
      (owe : JobEvent → Action (Unit {0})) (due : World → Channel → ℕ)
      → ((e : JobEvent) (v : World) → Returned (Appended (due v) false v) (owe e v))
      → ((e : JobEvent) (v : World)
          → has_messages v.job v.db.mirrors ≡ true
          → is_ok (owe e v).0 ≡ true)
      → (atomic
          (change_status s o c fs >>= λ event. owe event >> (enqueue_workload >> pure event))
          w).0
        ≡ ok (status_event w.job.id o c s w.now)
  end_job-ok owe due p ok_owe =
      let event = status_event w.job.id o c s w.now in
      let v = changed s o c fs row w in
      rw (change_status_valid s o c fs w row found valid) (
        owed-ok w.db (due v) v (owe event v) event (ok_owe event v after_messages) (p event v)
          after_messages)

fee_messages :
    (v : World)
    → has_messages v.job v.db.mirrors ≡ true
    → (not (is_fee_billable v.job) || is_ok (billing_name_for v.job.business_model)) ≡ true
fee_messages v h = ground (arith, h)

-- `to_terminal` returns its event for a terminal status that the row allows, if the business model
-- has a billing name where a fee may be owed, and a mirrored job has its function and its CRN.
pub to_terminal_returns :
    (s : Status) (o : Origin) (c : Context) (fs : List Field) (w : World) (row : Job)
    → status_in s terminal_statuses ≡ true
    → find_job w.job.id w.db.jobs ≡ some row
    → status_in s (valid_transitions row.status) ≡ true
    → has_messages w.job w.db.mirrors ≡ true
    → (to_terminal s o c fs w).0 ≡ ok (status_event w.job.id o c s w.now)
unfolding to_terminal to_succeeded to_failed to_stopped to_stopped_or_failed
to_terminal_returns succeeded o c fs w row ends found valid m =
    end_job-ok succeeded o c fs w row found valid m owe_success success_due owe_success-Appended
      (λ e v h. owe_success-ok e v (fee_messages v h))
to_terminal_returns failed o c fs w row ends found valid m =
    end_job-ok failed o c fs w row found valid m owe_stop stop_due owe_stop-Appended
      (λ e v h. owe_stop-ok e v (fee_messages v h))
to_terminal_returns stopped o c fs w row ends found valid m =
    end_job-ok stopped o c fs w row found valid m owe_stop stop_due owe_stop-Appended
      (λ e v h. owe_stop-ok e v (fee_messages v h))
to_terminal_returns _ o c fs w row ends found valid m = absurd (cc ends)
