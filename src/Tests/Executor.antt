-- ===== src/Tests/Executor.antt =====
-- Two threads and two pools of background tasks, with room for two tasks in each.
use qiskit_serverless.Base.{
  List, Option, String, [], arith, count, false, length, none, refl, some, str_eq, true, ℕ, ◌+◌,
  ◌∷◌, ◌≡◌, ◌≤◌, ◌↔◌,
}
use qiskit_serverless.Executor.{Cycle, Task, enqueue, pending, would_accept}
use qiskit_serverless.Executor.Lifecycle.{new_cycle}
use qiskit_serverless.Executor.Steps.{
  CycleEvent, calls_back, cancels, run_events, stop_cycle, submits, work, works,
}
use qiskit_serverless.Executor.Changes.{known, total, unended_of}
use qiskit_serverless.Executor.Accounts.{
  all_accepted, nothing_after_shutdown, pool_limits, reached, tasks_accounted,
}
use qiskit_serverless.Executor.Keys.{one_per_key, under, would_accept_iff}
use qiskit_serverless.Executor.Fair.{work_fair}

abbrev two_pools : List ℕ
two_pools = 0 ∷ 1 ∷ []

abbrev task : ℕ → Option String → Task
task id key = record { id = id; replace_key = key }

-- The third task takes the place of the second, the fourth finds no room.
abbrev submissions : List CycleEvent
submissions =
    submits 0 (task 1 (some "a"))
    ∷ submits 0 (task 2 (some "b"))
    ∷ submits 0 (task 3 (some "b"))
    ∷ submits 0 (task 4 none)
    ∷ submits 1 (task 5 none)
    ∷ []

-- The first thread runs a task of the first pool; the third is cancelled while it waits.
abbrev session : List CycleEvent
session =
    submits 0 (task 1 (some "a"))
    ∷ submits 0 (task 2 (some "b"))
    ∷ submits 0 (task 3 (some "b"))
    ∷ submits 0 (task 4 none)
    ∷ submits 1 (task 5 none)
    ∷ works 0 false
    ∷ works 0 false
    ∷ works 1 false
    ∷ cancels 3
    ∷ calls_back 0 3
    ∷ works 0 false
    ∷ works 0 false
    ∷ []

abbrev submitted : Cycle
submitted = reached two_pools 2 2 submissions

abbrev taken_one : Cycle
taken_one = work submitted 0 false

session_counts :
    (all_accepted 0 (new_cycle two_pools 2 2) session ≡ 3)
    × ((reached two_pools 2 2 session).queues 0 ≡ [])
    × ((reached two_pools 2 2 session).running 0 ≡ 0)
    × ((reached two_pools 2 2 session).running 1 ≡ 1)
    × ((reached two_pools 2 2 session).tasks 0
        ≡ record { completed_total = 1; failed_total = 0; canceled_total = 1; replaced_total = 1 })
unfolding all_accepted new_cycle run_events str_eq
session_counts = (refl, refl, refl, refl, refl)

pool_limits_example :
    (pending (reached two_pools 2 2 session) 0 ≤ 2)
    × ((reached two_pools 2 2 session).running 0 ≤ 2)
pool_limits_example = pool_limits two_pools 2 2 0 session

tasks_accounted_example :
    (all_accepted 0 (new_cycle two_pools 2 2) session
      ≡ total ((reached two_pools 2 2 session).tasks 0)
        + length ((reached two_pools 2 2 session).queues 0)
        + count (unended_of 0) (reached two_pools 2 2 session).threads)
    × ((reached two_pools 2 2 session).pending_gauge 0
        ≡ length ((reached two_pools 2 2 session).queues 0)
          + count (unended_of 0) (reached two_pools 2 2 session).threads)
tasks_accounted_example = tasks_accounted two_pools 2 2 0 session

nothing_after_shutdown_example :
    (all_accepted 0 (stop_cycle submitted) session ≡ 0)
    × ((run_events (stop_cycle submitted) session).running 0 ≤ submitted.running 0)
    × (known 0 (run_events (stop_cycle submitted) session) ≡ known 0 submitted)
nothing_after_shutdown_example = nothing_after_shutdown submitted session 0

one_per_key_example : count (under "b") (submitted.queues 0) ≤ 1
one_per_key_example = one_per_key two_pools 2 2 submissions 0 "b"

would_accept_iff_example :
    (would_accept submitted 0 (some "a") ≡ true)
    ↔ ((enqueue submitted 0 (task 6 (some "a"))).0 ≡ none)
would_accept_iff_example = would_accept_iff submitted 0 (task 6 (some "a"))

-- With one task of the first pool taken, the next thread serves the second pool.
work_fair_example : (work taken_one 1 false).running 1 ≤ taken_one.running 0 + 1
unfolding work run_events new_cycle str_eq
work_fair_example = work_fair taken_one 1 1 0 false refl refl (omega arith)
