-- ===== src/Executor/Accounts.antt =====
-- What becomes of the tasks that a pool accepts, and its limit.
use qiskit_serverless.Base.{
  List, Option, [], arith, count, length, refl, replicate, length-replicate, count-le-length, sym,
  suc, true, zero, ℕ, ◌+◌, ◌≡◌, ◌≤◌, ◌∷◌,
}
use qiskit_serverless.Executor.{Cycle, DropReason, Task, enqueue, idle, pending}
use qiskit_serverless.Executor.Submits.{
  Submitted, at_the_end, enqueue-Submitted, in_place, no_room, refused,
}
use qiskit_serverless.Executor.Changes.{
  Adds, Adds-refl, Adds-trans, IsSound, accepted, cancel_future-Adds, discard-Adds, enqueue-Adds,
  stop_cycle-running, stop_cycle-stopping, forget-Adds, holds_of, known, stop_cycle-Adds, total,
  unended_of,
}
use qiskit_serverless.Executor.Turns.{work-Adds}
use qiskit_serverless.Executor.Lifecycle.{new_cycle}
use qiskit_serverless.Executor.Steps.{
  CycleEvent, calls_back, cancels, discards, run_events, step, stop_cycle, stops, submits, works,
}

module _ (p : ℕ) where
  -- How many tasks of the pool an event adds.
  abbrev pub added : Cycle → CycleEvent → ℕ
  added c (submits pool task) = accepted p c pool (enqueue c pool task).0
  added c e = 0

  pub step-Adds : (c : Cycle) (e : CycleEvent) → Adds p (added c e) c (step c e)
  unfolding step
  step-Adds c (submits pool task) = enqueue-Adds p c pool task
  step-Adds c (cancels id) = cancel_future-Adds p c id
  step-Adds c (calls_back pool id) = forget-Adds p c pool id
  step-Adds c (discards pool key) = discard-Adds p c pool key
  step-Adds c (works i fails) = work-Adds p c i fails
  step-Adds c stops = stop_cycle-Adds p c

  -- The tasks of the pool that a series of events accepts.
  unfoldable pub all_accepted : Cycle → List CycleEvent → ℕ
  unfolding step enqueue
  all_accepted c [] = 0
  all_accepted c (e ∷ es) = added c e + all_accepted (step c e) es

  pub run_events-Adds :
      (c : Cycle) (es : List CycleEvent) → Adds p (all_accepted c es) c (run_events c es)
  unfolding run_events all_accepted
  run_events-Adds c [] = Adds-refl p c
  run_events-Adds c (e ∷ es) =
      Adds-trans (added c e) (all_accepted (step c e) es) (step-Adds c e)
        (run_events-Adds (step c e) es)

-- A cycle with workers and a limit, after a series of events.
abbrev pub reached : List ℕ → ℕ → ℕ → List CycleEvent → Cycle
reached pools workers limit es = run_events (new_cycle pools workers limit) es

count-replicate : (p n : ℕ) → count (holds_of p) (replicate n idle) ≡ 0
count-replicate p zero = refl
count-replicate p (suc n) = omega (arith, count-replicate p n)

unended-replicate : (p n : ℕ) → count (unended_of p) (replicate n idle) ≡ 0
unended-replicate p zero = refl
unended-replicate p (suc n) = omega (arith, unended-replicate p n)

module _ (pools : List ℕ) (workers limit : ℕ) (p : ℕ) where
  new_cycle-IsSound : IsSound p (new_cycle pools workers limit)
  unfolding new_cycle
  new_cycle-IsSound = record {
    slots = sym (count-replicate p workers);
    limited = omega arith;
    gauged = omega (arith, unended-replicate p workers);
  }

  abbrev begin : Cycle
  begin = new_cycle pools workers limit

  pub reached-IsSound : (es : List CycleEvent) → IsSound p (reached pools workers limit es)
  reached-IsSound es = (run_events-Adds p begin es).sound new_cycle-IsSound

  -- Whatever the callers and the threads do, and in whatever order: a pool never has more tasks
  -- that wait or hold a slot than its limit, nor more slots in use than there are threads.
  pub pool_limits :
      (es : List CycleEvent)
      → (pending (reached pools workers limit es) p ≤ limit)
        × ((reached pools workers limit es).running p ≤ workers)
  unfolding new_cycle
  pool_limits es =
      let s = reached-IsSound es in
      let a = run_events-Adds p begin es in
      (
        omega (arith, s.limited, a.limit_kept),
        omega (
          arith,
          s.slots,
          a.threads_kept,
          length-replicate workers idle,
          count-le-length (holds_of p) (reached pools workers limit es).threads,
        ),
      )

  -- Whatever the callers and the threads do, and in whatever order: the tasks of a pool that were
  -- accepted are those that are counted as ended, by any outcome, those that wait, and those that a
  -- thread holds without having recorded their end. The gauge of pending tasks is the number of the last two.
  pub tasks_accounted :
      (es : List CycleEvent)
      → let c = reached pools workers limit es in
        (all_accepted p begin es
          ≡ total (c.tasks p) + length (c.queues p) + count (unended_of p) c.threads)
        × (c.pending_gauge p ≡ length (c.queues p) + count (unended_of p) c.threads)
  unfolding new_cycle
  tasks_accounted es = (
    omega (arith, (run_events-Adds p begin es).adds, unended-replicate p workers),
    (reached-IsSound es).gauged,
  )

module _ (p : ℕ) where
  refused-accepted :
      (c : Cycle) (pool : ℕ) (task : Task) {r : Option DropReason × Cycle}
      → c.stopping ≡ true
      → Submitted c pool task r
      → accepted p c pool r.0 ≡ 0
  refused-accepted c pool task h (refused s) = refl
  refused-accepted c pool task h (in_place i old s e f k) = absurd (cc)
  refused-accepted c pool task h (no_room s n f) = refl
  refused-accepted c pool task h (at_the_end s n f) = absurd (cc)

  stopping-added : (c : Cycle) (e : CycleEvent) → c.stopping ≡ true → added p c e ≡ 0
  stopping-added c (submits pool task) h =
      refused-accepted c pool task h (enqueue-Submitted c pool task)
  stopping-added c (cancels id) h = refl
  stopping-added c (calls_back pool id) h = refl
  stopping-added c (discards pool key) h = refl
  stopping-added c (works i fails) h = refl
  stopping-added c stops h = refl

  stopping-all_accepted :
      (c : Cycle) (es : List CycleEvent) → c.stopping ≡ true → all_accepted p c es ≡ 0
  unfolding all_accepted
  stopping-all_accepted c [] h = refl
  stopping-all_accepted c (e ∷ es) h = omega (
    arith,
    stopping-added c e h,
    stopping-all_accepted (step c e) es ((step-Adds p c e).stops_for_good h),
  )

-- After a shutdown, whatever the callers and the threads do then, and in whatever order: no task
-- is accepted, no pool takes a slot more, and the tasks that a pool has, ended, waiting or held, stay accounted for.
pub nothing_after_shutdown :
    (c : Cycle) (es : List CycleEvent) (p : ℕ)
    → (all_accepted p (stop_cycle c) es ≡ 0)
      × ((run_events (stop_cycle c) es).running p ≤ c.running p)
      × (known p (run_events (stop_cycle c) es) ≡ known p c)
nothing_after_shutdown c es p =
    let stopped = stop_cycle-stopping c in
    let a = run_events-Adds p (stop_cycle c) es in
    let none_more = stopping-all_accepted p (stop_cycle c) es stopped in
    (
      none_more,
      omega (arith, a.starts_no_more stopped, stop_cycle-running p c),
      omega (arith, a.adds, none_more, (stop_cycle-Adds p c).adds),
    )
