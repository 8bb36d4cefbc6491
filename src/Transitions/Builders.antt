-- ===== src/Transitions/Builders.antt =====
-- When the messages that an end may owe can be built, and that the fields of an end do not matter.
use qiskit_serverless.Base.{
  Bool, List, Option, String, [], ap, arith, is_some, none, not, refl, some, true, truthy, ℕ, ◌&&◌,
  ◌||◌, ◌∙◌, ◌∷◌, ◌≡◌,
}
use qiskit_serverless.Workload.{build_workload_payload, is_mirrored}
use qiskit_serverless.Billing.{attribute, billing_name_for, build_license_fee}
use qiskit_serverless.Faults.{bind-ok, is_ok, ok}
use qiskit_serverless.Models.{
  Field, Job, JobEvent, Program, Runner, set_env_vars, set_field, set_fields, set_fleet_id,
  set_status, set_sub_status, set_updated, size_label,
}
use qiskit_serverless.Transitions.Owed.{is_fee_billable}

-- The messages that the end of a job may owe can be built: the business model of a fee has a billing
-- name, and a mirrored job has its function and its CRN.
abbrev pub has_messages : Job → List ℕ → Bool
has_messages job mirrors =
    (not (is_fee_billable job) || is_ok (billing_name_for job.business_model))
    && (not (is_mirrored job mirrors) || (truthy job.instance_crn && is_some job.program))

-- What a message reads of a job.
abbrev pub MessageView : Type 0
MessageView = ℕ × Runner × Bool × Option String × Option Program × String

abbrev pub message_view : Job → MessageView
message_view j = (j.id, j.runner, j.filler, j.instance_crn, j.program, j.business_model)

set_field-message_view : (f : Field) (j : Job) → message_view (set_field f j) ≡ message_view j
set_field-message_view (set_status s) j = refl
set_field-message_view (set_updated t) j = refl
set_field-message_view (set_sub_status s) j = refl
set_field-message_view (set_env_vars e) j = refl
set_field-message_view (set_fleet_id e) j = refl

pub set_fields-message_view :
    (fs : List Field) (j : Job) → message_view (set_fields fs j) ≡ message_view j
set_fields-message_view [] j = refl
set_fields-message_view (f ∷ fs) j =
    set_fields-message_view fs (set_field f j) ∙ set_field-message_view f j

pub has_messages-view :
    (i j : Job) (ms : List ℕ)
    → message_view i ≡ message_view j
    → has_messages i ms ≡ has_messages j ms
unfolding is_fee_billable is_mirrored
has_messages-view i j ms e =
    ap
      (λ (v : MessageView).
        has_messages
          (record i {
            id = v.0;
            runner = v.1;
            filler = v.2;
            instance_crn = v.3;
            program = v.4;
            business_model = v.5;
          })
          ms)
      e

is_fee_billable-provider :
    (j : Job) (p : Program)
    → is_fee_billable j ≡ true
    → j.program ≡ some p
    → is_some p.provider ≡ true
unfolding is_fee_billable
is_fee_billable-provider j p fee e = ground (arith, rw e at fee)

is_fee_billable-program : (j : Job) → is_fee_billable j ≡ true → is_some j.program ≡ true
unfolding is_fee_billable
is_fee_billable-program j fee = ground (arith, fee)

-- The attribute of a value that is there.
attribute-ok : {A : Type 0} (o : Option A) → is_some o ≡ true → is_ok (attribute o) ≡ true
attribute-ok none h = absurd (cc h)
attribute-ok (some a) h = refl

attribute-some : {A : Type 0} (o : Option A) (a : A) → attribute o ≡ ok a → o ≡ some a
attribute-some none a h = absurd (cc h)
attribute-some (some b) a h = cc h

pub build_license_fee-ok :
    (j : Job) (s : Option ℕ) (t n : ℕ)
    → is_fee_billable j ≡ true
    → is_some (size_label j) ≡ true
    → is_ok (billing_name_for j.business_model) ≡ true
    → is_ok (build_license_fee j s t n) ≡ true
unfolding build_license_fee
build_license_fee-ok j s t n fee sized named =
    bind-ok (attribute j.program) _ (attribute-ok j.program (is_fee_billable-program j fee)) (λ p e.
      bind-ok (attribute p.provider) _
        (attribute-ok p.provider (is_fee_billable-provider j p fee (attribute-some j.program p e)))
        (λ provider _.
          bind-ok (attribute (size_label j)) _ (attribute-ok (size_label j) sized)
            (λ label _. bind-ok (billing_name_for j.business_model) _ named (λ name _. refl))))

pub build_workload_payload-ok :
    (j : Job) (events : List JobEvent)
    → (truthy j.instance_crn && is_some j.program) ≡ true
    → is_ok (build_workload_payload j events) ≡ true
unfolding build_workload_payload
build_workload_payload-ok j events h = ground (arith, h)
