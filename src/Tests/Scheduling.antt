-- ===== src/Tests/Scheduling.antt =====
-- The breaker and the fair share, at concrete times and queues.
use qiskit_serverless.Base.{
  Bool, length, ◌++◌, ◌⊎◌, List, [], false, map, none, refl, some, ◌∷◌, ◌≡◌,
}
use qiskit_serverless.FairShare.{
  Ranked, assign_ranks, get_jobs_to_schedule_fair_share, is_candidate,
}
use qiskit_serverless.Breaker.{CircuitBreaker, Settings}
use qiskit_serverless.Base.Sort.{sort_by}
use qiskit_serverless.Models.{Job, fleets, queued, running}
use qiskit_serverless.FairShare.Laws.{taken}
use qiskit_serverless.FairShare.Rounds.{InRounds, fair_share_rounds}
use qiskit_serverless.Tests.Fixtures.{billed}

abbrev settings : Settings
settings = record { failure_threshold = 3; pause = 60 }

abbrev opened : CircuitBreaker
opened = record { consecutive_failures = 3; opened_at = some 5 }

-- Two users with queued jobs, the second of whom runs one already.
abbrev queue : List Job
queue =
    billed 1 queued none
    ∷ record (billed 2 queued none) { created = 5 }
    ∷ record (billed 3 queued none) { author_id = 8 }
    ∷ record (billed 4 running (some "f4")) { author_id = 8 }
    ∷ []

unblocked : Job → Bool
unblocked j = false

taken_ids :
    map (λ r. r.job.id) (get_jobs_to_schedule_fair_share 5 false fleets 2 unblocked queue)
    ≡ 2 ∷ 3 ∷ 1 ∷ []
unfolding get_jobs_to_schedule_fair_share sort_by assign_ranks is_candidate unblocked
taken_ids = refl

fair_share_rounds_example :
    (left : List Ranked) × InRounds 5 false fleets 2 unblocked queue
      (taken 5 false fleets 2 unblocked queue ++ left)
    × ((left ≡ []) ⊎ (length (taken 5 false fleets 2 unblocked queue) ≡ 5))
fair_share_rounds_example = fair_share_rounds 5 false fleets 2 unblocked queue
