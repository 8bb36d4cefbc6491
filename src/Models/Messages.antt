-- ===== src/Models/Messages.antt =====
-- What a message of the outbox carries: the CloudEvents envelope of
-- gateway/core/domain/billing_events.py and the workload of gateway/core/domain/workload_payload.py.
-- Times are microseconds since the epoch, ids are numbers. The constant keys of the envelope
-- (specversion, source, datacontenttype) have one value each and are left out.
use qiskit_serverless.Base.{ℕ, Bool, String, Option}

pub record BillingData : Type 0 where
  pub metric_type : String
  pub metric_value : ℕ
  pub instance_crn : Option String
  pub resource_id : ℕ
  pub job_started : Bool
  pub job_started_at : Option ℕ
  pub job_completed : Bool
  pub business_model : Option String  -- the key is there in a license fee only

pub record Envelope : Type 0 where
  pub id : ℕ
  pub time : ℕ
  pub subject : ℕ
  pub body : BillingData

pub record WorkloadBody : Type 0 where
  pub name : String
  pub provider : Option String
  pub crn : Option String
  pub user_id : String
  pub status : String
  pub compute_profile : Option String
  pub size : Option String
  pub created_at : ℕ
  pub running_at : Option ℕ
  pub ended_at : Option ℕ

pub record WorkloadEnvelope : Type 0 where
  pub function_id : ℕ
  pub body : WorkloadBody

pub data Payload : Type 0 where
  billing : Envelope → Payload
  workload_message : WorkloadEnvelope → Payload
