-- ===== src/Tests/Filler.antt =====
-- The balance of filler jobs, at a concrete queue.
use qiskit_serverless.Base.{
  List, [], length, map, min, none, refl, some, str_eq, true, ℕ, ◌-◌, ◌++◌, ◌∷◌, ◌≡◌,
}
use qiskit_serverless.Base.Sort.{IsSorted}
use qiskit_serverless.Filler.{filler_jobs, balance_filler_jobs, is_current, real_running}
use qiskit_serverless.Breaker.{Settings}
use qiskit_serverless.Fleets.{FleetsState}
use qiskit_serverless.Tests.Fixtures.{billed, running_job, tables, world}
use qiskit_serverless.Models.{
  Job, Status, filler_submit, running, scheduler, status_event, stopping,
}
use qiskit_serverless.Filler.Laws.{filler_surplus, plan, stoppable_fillers}

abbrev filler : ℕ → Status → Job
filler id status = record (billed id status (some "f")) { filler = true }

-- One user's job, and three fillers of which one stops already.
abbrev fillers : List Job
fillers = filler 2 running ∷ filler 3 stopping ∷ filler 4 running ∷ []

-- The user's job and the fillers in one table.
abbrev crowd : List Job
crowd = running_job ∷ fillers

filler_surplus_example :
    (kept : List Job) × (stoppable_fillers 2 70 "cx3d-4x16" crowd (filler_jobs crowd)
      ≡ (plan 2 70 "cx3d-4x16" crowd (filler_jobs crowd)).shed ++ kept)
    × IsSorted (λ job. job.created) ((plan 2 70 "cx3d-4x16" crowd (filler_jobs crowd)).shed ++ kept)
    × (length kept
        ≡ min
            (length (stoppable_fillers 2 70 "cx3d-4x16" crowd (filler_jobs crowd)))
            (2 - real_running "cx3d-4x16" crowd))
filler_surplus_example = filler_surplus 2 70 "cx3d-4x16" crowd

shed_ids :
    map (λ job. job.id) (balance_filler_jobs 2 70 "cx3d-4x16" (running_job ∷ []) fillers).shed
    ≡ 2 ∷ []
unfolding balance_filler_jobs real_running str_eq is_current
shed_ids = refl

abbrev limits : Settings
limits = record { failure_threshold = 3; pause = 60 }

abbrev filler_state : FleetsState
filler_state = record {
  world =
      world (tables fillers (status_event 2 scheduler filler_submit running 5 ∷ [])) running_job;
  breakers = λ region. record { consecutive_failures = 0; opened_at = none };
  counted = 0;
}
