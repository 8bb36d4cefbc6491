-- ===== src/Executor/Changes.antt =====
-- What an operation of the callers changes for one pool.
use qiskit_serverless.Base.{
  Bool, Bool-cases, List, Option, Option-cases, String, [], any, arith, count, false, if◌then◌else◌,
  inl, inr, length, length-append, length-set, leb, none, refl, some, true, ℕ, ◌+◌, ◌==◌, ◌≡◌, ◌≤◌,
  ◌∷◌,
}
use qiskit_serverless.Executor.{
  Cycle, DropReason, FutureState, Task, TaskOutcome, Thread, Totals, append_task, cancel_future,
  cancel_waiting, discard, end_of_replaced, enqueue, forget_if_cancelled, holds, idle, inc,
  is_cancelled, cancelled_from, cancelled, forgotten, is_task, pending, put, recorded, remove_task,
  replace_task, started, taken, waits, waiting_index, called_back_from,
}
use qiskit_serverless.Executor.Submits.{
  Submitted, waiting_index-found, at_the_end, enqueue-Submitted, in_place, no_room, refused,
}
use qiskit_serverless.Executor.Steps.{cancel_queue, cancel_queues, stop_cycle}

abbrev pub total : Totals → ℕ
total t = t.completed_total + t.failed_total + t.canceled_total + t.replaced_total

pub total-inc : (o : TaskOutcome) (t : Totals) → total (inc o t) ≡ total t + 1
total-inc TaskOutcome.completed t = omega arith
total-inc TaskOutcome.failed t = omega arith
total-inc TaskOutcome.canceled t = omega arith
total-inc TaskOutcome.replaced t = omega arith

length-remove_task :
    (id : ℕ) (ts : List Task)
    → any (is_task id) ts ≡ true
    → length (remove_task id ts) + 1 ≡ length ts
unfolding remove_task
length-remove_task id [] h = absurd (cc)
length-remove_task id (t ∷ ts) h = elim (Bool-cases (t.id == id)) [
  | inl e ↦ rw e (omega arith)
  | inr e ↦ rw e (ground (arith, length-remove_task id ts))
]

-- Whether a thread holds a task of a pool.
abbrev pub holds_of : ℕ → Thread → Bool
holds_of p idle = false
holds_of p (holds q task stage) = q == p

-- Whether it does, and has not recorded the end of the task.
abbrev pub unended_of : ℕ → Thread → Bool
unended_of p idle = false
unended_of p (holds q task taken) = q == p
unended_of p (holds q task started) = q == p
unended_of p (holds q task (recorded o)) = false

-- The slots in use are those of the tasks that threads hold, and those that wait or are held are
-- within the limit. The gauge counts those that wait or whose end is not recorded.
pub record IsSound (p : ℕ) (c : Cycle) : Type 0 where
  pub slots : c.running p ≡ count (holds_of p) c.threads
  pub limited : pending c p ≤ c.pool_limit
  pub gauged : c.pending_gauge p ≡ length (c.queues p) + count (unended_of p) c.threads

-- The tasks of a pool that ended, that wait, and that threads hold unended.
abbrev pub known : ℕ → Cycle → ℕ
known p c = total (c.tasks p) + length (c.queues p) + count (unended_of p) c.threads

-- A change by which a pool comes to know so many more tasks.
pub record Adds (p n : ℕ) (c d : Cycle) : Type 0 where
  pub sound : IsSound p c → IsSound p d
  pub adds : known p d ≡ known p c + n
  pub limit_kept : d.pool_limit ≡ c.pool_limit
  pub threads_kept : length d.threads ≡ length c.threads
  pub stops_for_good : c.stopping ≡ true → d.stopping ≡ true
  pub starts_no_more : c.stopping ≡ true → d.running p ≤ c.running p

pub Adds-refl : (p : ℕ) (c : Cycle) → Adds p 0 c c
Adds-refl p c = record {
  sound = λ s. s;
  adds = omega arith;
  limit_kept = refl;
  threads_kept = refl;
  stops_for_good = λ e. e;
  starts_no_more = λ e. omega arith;
}

pub Adds-trans :
    {p : ℕ} {c d e : Cycle} (n m : ℕ) → Adds p n c d → Adds p m d e → Adds p (n + m) c e
Adds-trans n m a b = record {
  sound = λ s. b.sound (a.sound s);
  adds = omega (arith, a.adds, b.adds);
  limit_kept = cc (a.limit_kept, b.limit_kept);
  threads_kept = cc (a.threads_kept, b.threads_kept);
  stops_for_good = λ e. b.stops_for_good (a.stops_for_good e);
  starts_no_more = λ e. omega (arith, a.starts_no_more e, b.starts_no_more (a.stops_for_good e));
}

module _ (p : ℕ) (c : Cycle) where
  replace_task-Adds :
      (pool : ℕ) (task : Task) (i : ℕ) (old : Task)
      → Adds p (if pool == p then 1 else 0) c (replace_task c pool task i old)
  unfolding replace_task
  replace_task-Adds pool task i old = record {
    sound = λ s. ground (arith, s.slots, s.limited, s.gauged, length-set (c.queues pool) i task);
    adds = ground (
      arith,
      length-set (c.queues pool) i task,
      total-inc (end_of_replaced (c.futures old.id)) (c.tasks pool),
    );
    limit_kept = refl;
    threads_kept = refl;
    stops_for_good = λ e. e;
    starts_no_more = λ e. ground arith;
  }

  append_task-Adds :
      (pool : ℕ) (task : Task)
      → leb c.pool_limit (pending c pool) ≡ false
      → Adds p (if pool == p then 1 else 0) c (append_task c pool task)
  unfolding append_task
  append_task-Adds pool task room = record {
    sound = λ s.
        ground (arith, s.slots, s.limited, s.gauged, length-append (c.queues pool) (task ∷ []));
    adds = ground (arith, length-append (c.queues pool) (task ∷ []));
    limit_kept = refl;
    threads_kept = refl;
    stops_for_good = λ e. e;
    starts_no_more = λ e. ground arith;
  }

  -- How many tasks of the pool an attempt to submit one adds.
  abbrev pub accepted : ℕ → Option DropReason → ℕ
  accepted pool none = if pool == p then 1 else 0
  accepted pool (some reason) = 0

  Submitted-Adds :
      (pool : ℕ) (task : Task) {r : Option DropReason × Cycle}
      → Submitted c pool task r
      → Adds p (accepted pool r.0) c r.1
  Submitted-Adds pool task (refused s) = Adds-refl p c
  Submitted-Adds pool task (in_place i old s e f k) = replace_task-Adds pool task i old
  Submitted-Adds pool task (no_room s n f) = Adds-refl p c
  Submitted-Adds pool task (at_the_end s n f) = append_task-Adds pool task f

  pub enqueue-Adds :
      (pool : ℕ) (task : Task)
      → Adds p (accepted pool (enqueue c pool task).0) c (enqueue c pool task).1
  enqueue-Adds pool task = Submitted-Adds pool task (enqueue-Submitted c pool task)

  forgotten-Adds :
      (pool id : ℕ) → any (is_task id) (c.queues pool) ≡ true → Adds p 0 c (forgotten c pool id)
  unfolding forgotten
  forgotten-Adds pool id h = record {
    sound =
        λ s. ground (arith, s.slots, s.limited, s.gauged, length-remove_task id (c.queues pool) h);
    adds = ground (arith, length-remove_task id (c.queues pool) h);
    limit_kept = refl;
    threads_kept = refl;
    stops_for_good = λ e. e;
    starts_no_more = λ e. ground arith;
  }

  pub forget-Adds : (pool id : ℕ) → Adds p 0 c (forget_if_cancelled c pool id)
  unfolding forget_if_cancelled
  forget-Adds pool id = elim (Bool-cases (is_cancelled (c.futures id))) [
    | inr n ↦ simp n (Adds-refl p c)
    | inl y ↦ elim (Bool-cases (c.was_replaced id)) [
      | inl r ↦ simp (y, r) (Adds-refl p c)
      | inr r ↦ elim (Bool-cases (any (is_task id) (c.queues pool))) [
        | inl w ↦ simp (y, r, w) (forgotten-Adds pool id w)
        | inr w ↦ simp (y, r, w) (Adds-refl p c)
      ]
    ]
  ]

  future_changed-Adds :
      (id : ℕ) (s : FutureState) → Adds p 0 c (record c { futures = put id s c.futures })
  future_changed-Adds id s = record {
    sound = λ s. record { slots = s.slots; limited = s.limited; gauged = s.gauged };
    adds = omega arith;
    limit_kept = refl;
    threads_kept = refl;
    stops_for_good = λ e. e;
    starts_no_more = λ e. ground arith;
  }

  cancelled_from-Adds : (s : FutureState) (id : ℕ) → Adds p 0 c (cancelled_from s c id)
  cancelled_from-Adds waits id = future_changed-Adds id cancelled
  cancelled_from-Adds s id = Adds-refl p c

  pub cancel_future-Adds : (id : ℕ) → Adds p 0 c (cancel_future c id)
  unfolding cancel_future
  cancel_future-Adds id = cancelled_from-Adds (c.futures id) id

module _ (p : ℕ) where
  called_back_from-Adds :
      (c : Cycle) (s : FutureState) (pool id : ℕ) → Adds p 0 c (called_back_from s c pool id)
  called_back_from-Adds c waits pool id =
      Adds-trans 0 0 (future_changed-Adds p c id cancelled) (forget-Adds p _ pool id)
  called_back_from-Adds c s pool id = Adds-refl p c

  pub cancel_waiting-Adds : (c : Cycle) (pool id : ℕ) → Adds p 0 c (cancel_waiting c pool id)
  unfolding cancel_waiting
  cancel_waiting-Adds c pool id = called_back_from-Adds c (c.futures id) pool id

  cancel_queue-Adds : (c : Cycle) (pool : ℕ) (ts : List Task) → Adds p 0 c (cancel_queue c pool ts)
  unfolding cancel_queue
  cancel_queue-Adds c pool [] = Adds-refl p c
  cancel_queue-Adds c pool (t ∷ ts) =
      Adds-trans 0 0 (cancel_waiting-Adds c pool t.id)
        (cancel_queue-Adds (cancel_waiting c pool t.id) pool ts)

  cancel_queues-Adds : (c : Cycle) (ps : List ℕ) → Adds p 0 c (cancel_queues c ps)
  unfolding cancel_queues
  cancel_queues-Adds c [] = Adds-refl p c
  cancel_queues-Adds c (q ∷ qs) =
      Adds-trans 0 0 (cancel_queue-Adds c q (c.queues q))
        (cancel_queues-Adds (cancel_queue c q (c.queues q)) qs)

  stopping-Adds : (c : Cycle) → Adds p 0 c (record c { stopping = true })
  stopping-Adds c = record {
    sound = λ s. record { slots = s.slots; limited = s.limited; gauged = s.gauged };
    adds = omega arith;
    limit_kept = refl;
    threads_kept = refl;
    stops_for_good = λ e. refl;
    starts_no_more = λ e. ground arith;
  }

  pub stop_cycle-Adds : (c : Cycle) → Adds p 0 c (stop_cycle c)
  unfolding stop_cycle
  stop_cycle-Adds c = Adds-trans 0 0 (stopping-Adds c) (cancel_queues-Adds _ c.pools)

  pub discard-Adds : (c : Cycle) (pool : ℕ) (key : String) → Adds p 0 c (discard c pool key).1
  unfolding discard
  discard-Adds c pool key = elim (Option-cases (waiting_index (c.queues pool) key)) [
    | inl n ↦ rw (n, discard) (Adds-refl p c)
    | inr (i, e) ↦
        let (t, found, same) = waiting_index-found (c.queues pool) key e in
        rw (e, found, discard) (cancel_waiting-Adds c pool t.id)
  ]

  pub stop_cycle-running : (c : Cycle) → (stop_cycle c).running p ≤ c.running p
  unfolding stop_cycle
  stop_cycle-running c =
      (cancel_queues-Adds (record c { stopping = true }) c.pools).starts_no_more refl

pub stop_cycle-stopping : (c : Cycle) → (stop_cycle c).stopping ≡ true
unfolding stop_cycle
stop_cycle-stopping c =
    (cancel_queues-Adds 0 (record c { stopping = true }) c.pools).stops_for_good refl
