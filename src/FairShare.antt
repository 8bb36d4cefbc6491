-- ===== src/FairShare.antt =====
-- Which queued jobs the scheduler takes next: `get_jobs_to_schedule_fair_share` of
-- gateway/scheduler/schedule.py. The limits are numbers that are not negative; the blocked
-- resources are a test on jobs.
pub mod Laws
pub mod Rounds
use qiskit_serverless.Base.{
  Bool, List, [], count, false, filter, if◌then◌else◌, leb, ltb, not, take, true, ℕ, ◌&&◌, ◌+◌, ◌-◌,
  ◌==◌, ◌||◌, ◌∷◌,
}
use qiskit_serverless.Base.Sort.{sort_by}
use qiskit_serverless.Models.{
  Job, Runner, fleets, is_fleets, queued, ray, running_statuses, status_eq, status_in,
}

-- The rank of a job: its place among the queued jobs of its author, from 1, oldest first.
pub record Ranked : Type 0 where
  pub rank : ℕ
  pub job : Job

abbrev pub is_author : ℕ → Job → Bool
is_author author j = j.author_id == author

abbrev pub runner_eq : Runner → Runner → Bool
runner_eq ray ray = true
runner_eq fleets fleets = true
runner_eq ray fleets = false
runner_eq fleets ray = false

-- The jobs of this author that hold capacity; filler jobs do not use up a limit.
unfoldable pub running_of : Runner → List Job → ℕ → ℕ
running_of runner jobs author =
    count
      (λ j.
        is_author author j
        && (status_in j.status running_statuses && runner_eq j.runner runner && not j.filler))
      jobs

-- A job may be taken: queued, of this kind, its author below the limit, and not blocked.
unfoldable pub is_candidate : Runner → Bool → ℕ → (Job → Bool) → List Job → Job → Bool
unfolding running_of
is_candidate runner gpu per_user blocked jobs j =
    status_eq j.status queued
    && ((if gpu then j.gpu else not j.gpu)
        && (runner_eq j.runner runner
            && (ltb (running_of runner jobs j.author_id) per_user
                || (running_of runner jobs j.author_id) == 0)
            && not (is_fleets runner && blocked j)))

-- `Window(RowNumber(), partition_by=author, order_by=created)` over the jobs by age; `seen` are the
-- older ones.
unfoldable pub assign_ranks : List Job → List Job → List Ranked
assign_ranks seen [] = []
assign_ranks seen (j ∷ js) =
    record { rank = count (is_author j.author_id) seen + 1; job = j } ∷ assign_ranks (j ∷ seen) js

-- The highest rank that the query keeps: a Ray user gets one job in each call.
abbrev pub rank_limit : Runner → ℕ → ℕ
rank_limit ray slots = 1
rank_limit fleets slots = slots

-- The candidates in rounds: by rank, and those of one rank by age.
unfoldable pub rounds : ℕ → Bool → Runner → ℕ → (Job → Bool) → List Job → List Ranked
rounds slots gpu runner per_user blocked jobs =
    sort_by (λ r. r.rank)
      (filter (λ r. leb r.rank (rank_limit runner slots))
        (assign_ranks []
          (sort_by (λ j. j.created) (filter (is_candidate runner gpu per_user blocked jobs) jobs))))

-- The rank is within what the author's running jobs leave of the limit.
abbrev pub within_budget : Runner → ℕ → List Job → Ranked → Bool
within_budget runner per_user jobs r =
    leb r.rank (per_user - running_of runner jobs r.job.author_id)

-- `get_jobs_to_schedule_fair_share`
unfoldable pub get_jobs_to_schedule_fair_share :
    ℕ → Bool → Runner → ℕ → (Job → Bool) → List Job → List Ranked
unfolding rounds
get_jobs_to_schedule_fair_share slots gpu runner per_user blocked jobs =
    take slots
      (filter (within_budget runner per_user jobs) (rounds slots gpu runner per_user blocked jobs))
