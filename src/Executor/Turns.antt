-- ===== src/Executor/Turns.antt =====
-- What a turn of a thread changes for one pool.
use qiskit_serverless.Base.{
  Bool, Bool-cases, List, Option, [], ap, arith, count-set, false, get_elem?, inl, inr, length,
  length-set, none, refl, set, some, ℕ, ◌==◌, ◌≡◌, ◌∷◌,
}
use qiskit_serverless.Executor.{
  Cycle, Stage, Task, TaskOutcome, Thread, canceled, holds, idle, is_cancelled, runs, put, recorded,
  started, taken,
}
use qiskit_serverless.Executor.Changes.{Adds, Adds-refl, holds_of, total-inc, unended_of}
use qiskit_serverless.Executor.Steps.{
  record_end, end_of_run, free_slot, start_task, take_first, take_task, take_from, turn, turn_of,
  work, next_pool,
}

module _ (p : ℕ) (c : Cycle) (i : ℕ) where
  taken_from-Adds :
      (pool : ℕ) (t : Task) (rest : List Task)
      → get_elem? c.threads i ≡ some idle
      → c.queues pool ≡ t ∷ rest
      → c.stopping ≡ false
      → Adds p 0 c (take_first c i pool (t ∷ rest))
  taken_from-Adds pool t rest h e on = record {
    sound = λ s. ground (
      arith,
      s.slots,
      s.limited,
      s.gauged,
      ap length e,
      count-set (holds_of p) c.threads i (holds pool t taken) h,
      count-set (unended_of p) c.threads i (holds pool t taken) h,
    );
    adds = ground (arith, ap length e, count-set (unended_of p) c.threads i (holds pool t taken) h);
    limit_kept = refl;
    threads_kept = length-set c.threads i (holds pool t taken);
    stops_for_good = λ e. e;
    starts_no_more = λ stopped. absurd (cc);
  }

  take_first-Adds :
      (pool : ℕ)
      → get_elem? c.threads i ≡ some idle
      → (q : List Task) → c.queues pool ≡ q
      → c.stopping ≡ false
      → Adds p 0 c (take_first c i pool q)
  take_first-Adds pool h [] e on = Adds-refl p c
  take_first-Adds pool h (t ∷ rest) e on = taken_from-Adds pool t rest h e on

  take_from-Adds :
      (o : Option ℕ)
      → get_elem? c.threads i ≡ some idle
      → c.stopping ≡ false
      → Adds p 0 c (take_from c i o)
  take_from-Adds none h on = Adds-refl p c
  take_from-Adds (some pool) h on = take_first-Adds pool h (c.queues pool) refl on

  take_task-Adds : get_elem? c.threads i ≡ some idle → Adds p 0 c (take_task c i)
  unfolding take_task
  take_task-Adds h = elim (Bool-cases c.stopping) [
    | inl s ↦ simp s (Adds-refl p c)
    | inr s ↦ simp s (take_from-Adds (next_pool c) h s)
  ]

  record_end-Adds :
      (pool : ℕ) (task : Task) (o : TaskOutcome) (s : Stage)
      → get_elem? c.threads i ≡ some (holds pool task s)
      → unended_of p (holds pool task s) ≡ (pool == p)
      → Adds p 0 c (record_end c i pool task o)
  record_end-Adds pool task o s h u = record {
    sound = λ k. ground (
      arith,
      k.slots,
      k.limited,
      k.gauged,
      count-set (holds_of p) c.threads i (holds pool task (recorded o)) h,
      count-set (unended_of p) c.threads i (holds pool task (recorded o)) h,
    );
    adds = ground (
      arith,
      total-inc o (c.tasks pool),
      count-set (unended_of p) c.threads i (holds pool task (recorded o)) h,
    );
    limit_kept = refl;
    threads_kept = length-set c.threads i (holds pool task (recorded o));
    stops_for_good = λ e. e;
    starts_no_more = λ e. ground arith;
  }

  started-Adds :
      (pool : ℕ) (task : Task)
      → get_elem? c.threads i ≡ some (holds pool task taken)
      → Adds p 0 c (record c {
        futures = put task.id runs c.futures;
        threads = set c.threads i (holds pool task started);
      })
  started-Adds pool task h = record {
    sound = λ k. ground (
      arith,
      k.slots,
      k.limited,
      k.gauged,
      count-set (holds_of p) c.threads i (holds pool task started) h,
      count-set (unended_of p) c.threads i (holds pool task started) h,
    );
    adds = ground (arith, count-set (unended_of p) c.threads i (holds pool task started) h);
    limit_kept = refl;
    threads_kept = length-set c.threads i (holds pool task started);
    stops_for_good = λ e. e;
    starts_no_more = λ e. ground arith;
  }

  start_task-Adds :
      (pool : ℕ) (task : Task)
      → get_elem? c.threads i ≡ some (holds pool task taken)
      → Adds p 0 c (start_task c i pool task)
  unfolding start_task
  start_task-Adds pool task h = elim (Bool-cases (is_cancelled (c.futures task.id))) [
    | inl y ↦ simp y (record_end-Adds pool task canceled taken h refl)
    | inr n ↦ simp n (started-Adds pool task h)
  ]

  free_slot-Adds :
      (pool : ℕ) (task : Task) (o : TaskOutcome)
      → get_elem? c.threads i ≡ some (holds pool task (recorded o))
      → Adds p 0 c (free_slot c i pool task o)
  unfolding free_slot
  free_slot-Adds pool task o h = record {
    sound = λ s. ground (
      arith,
      s.slots,
      s.limited,
      s.gauged,
      count-set (holds_of p) c.threads i idle h,
      count-set (unended_of p) c.threads i idle h,
    );
    adds = ground (arith, count-set (unended_of p) c.threads i idle h);
    limit_kept = refl;
    threads_kept = length-set c.threads i idle;
    stops_for_good = λ e. e;
    starts_no_more = λ e. ground arith;
  }

  turn-Adds :
      (fails : Bool) (t : Thread) → get_elem? c.threads i ≡ some t → Adds p 0 c (turn c i fails t)
  unfolding turn
  turn-Adds fails idle h = take_task-Adds h
  turn-Adds fails (holds pool task taken) h = start_task-Adds pool task h
  turn-Adds fails (holds pool task started) h =
      record_end-Adds pool task (end_of_run fails) started h refl
  turn-Adds fails (holds pool task (recorded o)) h = free_slot-Adds pool task o h

  turn_of-Adds :
      (fails : Bool) (o : Option Thread)
      → get_elem? c.threads i ≡ o
      → Adds p 0 c (turn_of c i fails o)
  turn_of-Adds fails none h = Adds-refl p c
  turn_of-Adds fails (some t) h = turn-Adds fails t h

  pub work-Adds : (fails : Bool) → Adds p 0 c (work c i fails)
  unfolding work
  work-Adds fails = turn_of-Adds fails (get_elem? c.threads i) refl
