-- ===== src/Models/Names.antt =====
-- The statuses of a job (`Job.*_STATUSES` of gateway/core/models.py) and the closed sets of names
-- that rows carry (gateway/core/model_managers/job_events.py).
use qiskit_serverless.Base.{ℕ, ◌≡◌, ◌↔◌, ◌==◌, Bool, true, false, List, [], ◌∷◌, arith, any}

pub data Status : Type 0 where
  queued pending running stopping stopped succeeded failed : Status

-- The backends of `Program.RUNNER_CHOICES`.
pub data Runner : Type 0 where
  ray fleets : Runner

pub data Origin : Type 0 where
  api scheduler backoffice : Origin

pub data Context : Type 0 where
  run_program schedule_jobs stop_job update_job_status set_sub_status save_model send_error :
      Context
  filler_submit filler_stop filler_failed blocked_resource_stop : Context

pub data EventType : Type 0 where
  error status_change sub_status_change : EventType

pub data Channel : Type 0 where
  license_fee job_usage workload : Channel

-- A number for each name of a closed set, by which two are compared.
abbrev pub status_code : Status → ℕ
status_code queued = 0
status_code pending = 1
status_code running = 2
status_code stopping = 3
status_code stopped = 4
status_code succeeded = 5
status_code failed = 6

abbrev pub channel_code : Channel → ℕ
channel_code license_fee = 0
channel_code job_usage = 1
channel_code workload = 2

abbrev pub status_eq : Status → Status → Bool
status_eq s t = status_code s == status_code t

abbrev pub channel_eq : Channel → Channel → Bool
channel_eq c d = channel_code c == channel_code d

abbrev pub is_fleets : Runner → Bool
is_fleets fleets = true
is_fleets ray = false

abbrev pub terminal_statuses : List Status
terminal_statuses = succeeded ∷ failed ∷ stopped ∷ []

abbrev pub running_statuses : List Status
running_statuses = running ∷ pending ∷ stopping ∷ []

abbrev pub active_statuses : List Status
active_statuses = queued ∷ pending ∷ running ∷ stopping ∷ []

-- `status in statuses`
abbrev pub status_in : Status → List Status → Bool
status_in s l = any (status_eq s) l

pub status_eq_iff : (s t : Status) → (status_eq s t ≡ true) ↔ (s ≡ t)
status_eq_iff s t = ground arith

pub channel_eq_iff : (c d : Channel) → (channel_eq c d ≡ true) ↔ (c ≡ d)
channel_eq_iff c d = ground arith
