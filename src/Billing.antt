-- ===== src/Billing.antt =====
-- The messages about a job's usage: gateway/core/domain/billing_events.py and
-- gateway/core/domain/business_models.py. A builder takes the time and the message id that it reads
-- from the clock and from uuid4.
use qiskit_serverless.Base.{
  ℕ, ◌+◌, ◌-◌, ◌/◌, String, Option, none, some, [], ◌∷◌, true, false, if◌then◌else◌, str_eq, truthy,
  is_some,
}
use qiskit_serverless.Base.Text.{lower, join}
use qiskit_serverless.Models.{Job, BillingData, Envelope, size_label}
use qiskit_serverless.Faults.{Result, ok, err, value_error, attribute_error, ◌>>=◌}

-- `BILLING_NAMES`, and the error of a model that has none.
unfoldable pub billing_name_for : String → Result String
billing_name_for m =
    if str_eq m "SUBSIDIZED"
    then ok "licensed"
    else if str_eq m "LICENSED"
    then ok "licensed"
    else if str_eq m "TRIAL"
    then ok "trial"
    else if str_eq m "CONSUMPTION"
    then ok "consumption"
    else err value_error

-- `licensed_instead_of_subsidized` of gateway/core/domain/subsidized_license_mapping.py.
unfoldable pub licensed_instead_of_subsidized : String → String
licensed_instead_of_subsidized m = if str_eq m "SUBSIDIZED" then "LICENSED" else m

-- Whole seconds from the start, rounded up; 0 before the start. Times are in microseconds.
unfoldable pub usage_seconds : Option ℕ → ℕ → ℕ
usage_seconds none as_of = 0
usage_seconds (some started) as_of = (as_of - started + 999999) / 1000000

-- `classical_<profile>`, or the bare prefix.
unfoldable pub classical_metric_type : Job → String
classical_metric_type job = elim job.compute_profile_fk [
  | none ↦ "classical"
  | some profile ↦
      if truthy (some profile) then join "_" ("classical" ∷ profile ∷ []) else "classical"
]

unfoldable pub envelope : Job → ℕ → ℕ → BillingData → Envelope
envelope job now id details = record { id = id; time = now; subject = job.id; body = details }

-- The attribute of a value that may be None.
abbrev pub attribute {ℓ} : {A : Type ℓ} → Option A → Result A
attribute none = err attribute_error
attribute (some a) = ok a

-- `build_license_fee`
unfoldable pub build_license_fee : Job → Option ℕ → ℕ → ℕ → Result Envelope
unfolding billing_name_for envelope
build_license_fee job started now id = do
  program ← attribute job.program
  provider ← attribute program.provider
  label ← attribute (size_label job)
  name ← billing_name_for job.business_model
  ok (
      envelope job now id (record {
        metric_type = join "_" ("license" ∷ provider.name ∷ program.title ∷ lower label ∷ []);
        metric_value = 1;
        instance_crn = job.instance_crn;
        resource_id = job.id;
        job_started = true;
        job_started_at = started;
        job_completed = true;
        business_model = some name;
      }))

-- `build_job_usage`: `isoformat` is asked of the start time also where that is None.
unfoldable pub build_job_usage : Job → Option ℕ → Option ℕ → ℕ → ℕ → Result Envelope
unfolding envelope usage_seconds
build_job_usage job started progress now id = do
  started_at ← attribute started
  ok (
      envelope job now id (record {
        metric_type = classical_metric_type job;
        metric_value = elim progress [ none ↦ 0 | some t ↦ usage_seconds started t ];
        instance_crn = job.instance_crn;
        resource_id = job.id;
        job_started = if is_some progress then false else true;
        job_started_at = some started_at;
        job_completed = false;
        business_model = none;
      }))

-- `build_job_completed_event`
unfoldable pub build_job_completed_event : Job → Option ℕ → ℕ → ℕ → ℕ → Envelope
unfolding envelope usage_seconds
build_job_completed_event job started finished now id = envelope job now id (record {
  metric_type = classical_metric_type job;
  metric_value = usage_seconds started finished;
  instance_crn = job.instance_crn;
  resource_id = job.id;
  job_started = false;
  job_started_at = started;
  job_completed = true;
  business_model = none;
})
