-- ===== src/Models/Rows.antt =====
-- The rows of gateway/core/models.py. A foreign key that the code follows is the row that it
-- leads to; the columns that no modelled operation reads are left out.
use qiskit_serverless.Base.{
  ℕ, Bool, String, Option, none, some, List, nonempty, truthy, if◌then◌else◌,
}
use qiskit_serverless.Base.Text.{upper}
use qiskit_serverless.Models.Names.{
  Status, Runner, Origin, Context, EventType, Channel, status_in, terminal_statuses,
}
use qiskit_serverless.Models.Messages.{Payload}

pub record Provider : Type 0 where
  pub name : String
  pub admin_groups : List (List ℕ)  -- the user ids of each group

pub record CodeEngineProject : Type 0 where
  pub id : ℕ
  pub project_name : String
  pub region : String
  pub active : Bool
  pub cos_bucket_user_data_name : Option String

pub record FunctionSize : Type 0 where
  pub function_size : String
  pub compute_profile : String

pub record Program : Type 0 where
  pub id : ℕ
  pub title : String
  pub provider : Option Provider
  pub runner : Runner
  pub disabled : Bool
  pub author_id : ℕ
  pub author_name : String
  pub default_size : Option FunctionSize
  pub code_engine_project : Option CodeEngineProject

pub record Job : Type 0 where
  pub id : ℕ
  pub created : ℕ
  pub updated : ℕ
  pub version : ℕ
  pub status : Status
  pub sub_status : Option String
  pub runner : Runner
  pub filler : Bool
  pub gpu : Bool
  pub author_id : ℕ
  pub author_name : String
  pub program : Option Program
  pub instance_crn : Option String
  pub account_id : Option String
  pub plan_id : Option String
  pub subscription_id : Option String
  pub business_model : String
  pub compute_profile_fk : Option String
  pub function_size : Option FunctionSize
  pub function_size_name : Option String
  pub fleet_id : Option String
  pub env_vars : String
  pub ce_project_name : Option String
  pub ce_region : Option String

-- `data` of an event.
pub data EventData : Type 0 where
  status_data : Status → EventData
  sub_status_data : Option String → EventData
  error_data : String → String → EventData  -- its code and message

pub record JobEvent : Type 0 where
  pub job_id : ℕ
  pub event_type : EventType
  pub origin : Origin
  pub context : Context
  pub created : ℕ
  pub details : EventData

pub record Outbox : Type 0 where
  pub pk : ℕ
  pub job_id : ℕ
  pub channel : Channel
  pub region : Option String
  pub payload : Payload
  pub created : ℕ
  pub attempts : ℕ
  pub next_attempt_at : ℕ
  pub last_error : String
  pub unrecoverable : Bool

unfoldable pub in_terminal_state : Job → Bool
in_terminal_state job = status_in job.status terminal_statuses

abbrev upper_or_none : Option String → Option String
upper_or_none none = none
upper_or_none (some label) = if nonempty label then some (upper label) else none

unfoldable pub size_label : Job → Option String
size_label job = upper_or_none (
    if truthy job.function_size_name then job.function_size_name else elim job.function_size [
      | none ↦ job.function_size_name
      | some size ↦ some size.function_size
    ])
