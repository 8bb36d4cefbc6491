-- ===== src/Blocked.antt =====
-- The blocked resources: `BlockedCloudResource` of gateway/core/models.py. The two settings that
-- its queries read are a record.
pub mod Events
pub mod Matching
pub mod Mirror
pub mod Replay
pub mod Filled
pub mod Constraints
pub mod Reached
pub mod Reported
pub mod Stops
use qiskit_serverless.Base.{
  Bool, List, Option, String, [], any, false, filter, if◌then◌else◌, map, none, not, opt_str_eq,
  some, true, ◌&&◌, ◌||◌, ◌∷◌,
}
use qiskit_serverless.Crn.{region_crn_regex}
use qiskit_serverless.Models.{Job}

-- A row; `created`, `updated` and the primary key decide nothing.
pub record BlockedCloudResource : Type 0 where
  pub account : Option String
  pub plan : Option String
  pub subscription : Option String
  pub reason : String
  pub region : String

-- `BLOCKED_JOBS_STOP_ENABLED` and `BLOCKED_RESOURCES_REGIONAL`.
pub record Enforcement : Type 0 where
  pub stop_enabled : Bool
  pub regional : Bool

-- The account, plan and subscription of a row, each of which may be NULL.
abbrev pub Scope : Type 0
Scope = Option String × Option String × Option String

abbrev pub scope : BlockedCloudResource → Scope
scope row = (row.account, row.plan, row.subscription)

abbrev pub scope_eq : Scope → Scope → Bool
scope_eq s t = opt_str_eq s.0 t.0 && (opt_str_eq s.1 t.1 && opt_str_eq s.2 t.2)

-- `BlockedCloudResource.blocks`
unfoldable pub blocks : Enforcement → List BlockedCloudResource → Scope → Option String → Bool
blocks enforcement rows resource region =
    if not enforcement.stop_enabled
    then false
    else any
        (λ row.
          scope_eq (scope row) resource
          && (not enforcement.regional || opt_str_eq (some row.region) region))
        rows

-- One of the conditions on a job, with the region that its CRN must have.
pub record JobFilter : Type 0 where
  pub resource : Scope
  pub crn_region : Option String

-- `.distinct()` on the values of a query.
abbrev pub filter_eq : JobFilter → JobFilter → Bool
filter_eq f g = scope_eq f.resource g.resource && opt_str_eq f.crn_region g.crn_region

unfoldable pub distinct : List JobFilter → List JobFilter
distinct [] = []
distinct (f ∷ fs) = f ∷ filter (λ g. not (filter_eq g f)) (distinct fs)

abbrev pub or_nothing : List JobFilter → Option (List JobFilter)
or_nothing [] = none
or_nothing (f ∷ fs) = some (f ∷ fs)

-- `blocked_jobs_filter`: the conditions of which one must hold, or nothing.
unfoldable pub blocked_jobs_filter :
    Enforcement → List BlockedCloudResource → Option (List JobFilter)
unfolding distinct
blocked_jobs_filter enforcement rows =
    if not enforcement.stop_enabled
    then none
    else if enforcement.regional
    then or_nothing
        (distinct (map (λ row. record { resource = scope row; crn_region = some row.region }) rows))
    else or_nothing
        (distinct (map (λ row. record { resource = scope row; crn_region = none }) rows))

abbrev pub job_scope : Job → Scope
job_scope job = (job.account_id, job.plan_id, job.subscription_id)

-- What the database answers to `instance_crn__regex`; NULL matches nothing.
abbrev pub crn_matches : Option String → Option String → Bool
crn_matches none crn = true
crn_matches (some region) none = false
crn_matches (some region) (some value) = region_crn_regex region value

-- Whether a job meets one condition, and whether it is selected.
unfoldable pub meets : Job → JobFilter → Bool
meets job f = scope_eq f.resource (job_scope job) && crn_matches f.crn_region job.instance_crn

unfoldable pub selected : Option (List JobFilter) → Job → Bool
unfolding meets
selected none job = false
selected (some filters) job = any (meets job) filters
