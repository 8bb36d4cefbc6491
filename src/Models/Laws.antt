-- ===== src/Models/Laws.antt =====
-- Laws of the job table: a lookup after an update.
use qiskit_serverless.Base.{
  ◌++◌, filter-append, ℕ, ◌≡◌, refl, Option, none, some, List, [], ◌∷◌, arith, ◌==◌, if◌then◌else◌,
  ap, all, ◌∙◌, true, false,
}
use qiskit_serverless.Models.Rows.{Job, JobEvent}
use qiskit_serverless.Models.Names.{running, status_eq}
use mathlib.Core.List.{append-nil}
use qiskit_serverless.Models.Tables.{
  first_running_at, is_status_event, created_of, first_by_created, find_job, update_jobs, Field,
  set_fields, set_field, set_status, set_updated, set_sub_status, set_env_vars, set_fleet_id,
  keeps_status,
}

abbrev pub map_job : (Job → Job) → Option Job → Option Job
map_job f none = none
map_job f (some j) = some (f j)

-- An update that keeps the key is what a lookup of that key finds; the others find what they did.
pub find_job-update_jobs :
    (i k : ℕ) (f : Job → Job) (jobs : List Job)
    → ((j : Job) → (f j).id ≡ j.id)
    → find_job i (update_jobs k f jobs)
      ≡ (if i == k then map_job f (find_job i jobs) else find_job i jobs)
unfolding update_jobs
find_job-update_jobs i k f [] h = ground arith
find_job-update_jobs i k f (j ∷ jobs) h = ground (arith, h j, find_job-update_jobs i k f jobs h)

pub find_job-id : (k : ℕ) (j : Job) (jobs : List Job) → find_job k jobs ≡ some j → j.id ≡ k
find_job-id k j [] h = cc
find_job-id k j (i ∷ jobs) h = ground (arith, find_job-id k j jobs)

set_field-id : (f : Field) (j : Job) → (set_field f j).id ≡ j.id
set_field-id (set_status s) j = refl
set_field-id (set_updated t) j = refl
set_field-id (set_sub_status s) j = refl
set_field-id (set_env_vars e) j = refl
set_field-id (set_fleet_id e) j = refl

pub set_fields-id : (fs : List Field) (j : Job) → (set_fields fs j).id ≡ j.id
set_fields-id [] j = refl
set_fields-id (f ∷ fs) j = set_fields-id fs (set_field f j) ∙ set_field-id f j

-- Fields other than the status leave it alone.
pub set_fields-status :
    (fs : List Field) (j : Job) → all keeps_status fs ≡ true → (set_fields fs j).status ≡ j.status
set_fields-status [] j h = refl
set_fields-status (set_status s ∷ fs) j h = cc
set_fields-status (set_updated t ∷ fs) j h = set_fields-status fs (record j { updated = t }) h
set_fields-status (set_sub_status s ∷ fs) j h = set_fields-status fs (record j { sub_status = s }) h
set_fields-status (set_env_vars e ∷ fs) j h = set_fields-status fs (record j { env_vars = e }) h
set_fields-status (set_fleet_id e ∷ fs) j h = set_fields-status fs (record j { fleet_id = e }) h

-- An event that says nothing of RUNNING leaves the start time alone.
pub first_running_at-append :
    (k : ℕ) (events : List JobEvent) (e : JobEvent)
    → is_status_event k (status_eq running) e ≡ false
    → first_running_at k (events ++ (e ∷ [])) ≡ first_running_at k events
unfolding first_running_at
first_running_at-append k events e h =
    rw (filter-append (is_status_event k (status_eq running)) events (e ∷ []), h)
      (ap (λ (l : List JobEvent). created_of (first_by_created l)) (append-nil _))
