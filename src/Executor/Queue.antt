-- ===== src/Executor/Queue.antt =====
-- The queue of a pool as its callers see it: first in, first out, but that a task may take the place of
-- another under its key, and that a task may leave.
use mathlib.Core.Path.{subst}
use qiskit_serverless.Base.{
  Bool, Bool-cases, List, Option, Option-cases, String, [], any, arith, get_elem?, inl, inr, none,
  refl, set, some, sym, true, ℕ, ◌++◌, ◌≡◌, ◌∷◌, ◌==◌,
}
use qiskit_serverless.Executor.{
  Cycle, DropReason, FutureState, Task, Thread, append_task, cancel_future, cancel_waiting,
  called_back_from, cancelled, cancelled_from, discard, forget_if_cancelled, holds, idle,
  is_cancelled, is_task, key_index, put, recorded, remove_task, replace_task, started, taken,
  waiting_index, waits,
}
use qiskit_serverless.Executor.Submits.{
  Submitted, at_the_end, enqueue-Submitted, in_place, no_room, refused, waiting_index-found,
}
use qiskit_serverless.Executor.Steps.{
  CycleEvent, calls_back, cancel_queue, cancel_queues, cancels, discards, run_events, start_task,
  step, stops, submits, take_from, take_first, take_task, turn, turn_of, works, next_pool,
}

-- What may happen to the tasks that wait in a pool.
pub data Moves (q : List Task) : List Task → Type 0 where
  stays : Moves q q
  replaces :
      {r : List Task} (i : ℕ) (old task : Task)
      → Moves q r
      → get_elem? r i ≡ some old
      → old.replace_key ≡ task.replace_key
      → Moves q (set r i task)
  joins :
      {r : List Task} (task : Task)
      → Moves q r
      → key_index r task.replace_key ≡ none
      → Moves q (r ++ (task ∷ []))
  leaves : {r : List Task} (id : ℕ) → Moves q r → Moves q (remove_task id r)
  starts : {r : List Task} (task : Task) → Moves q (task ∷ r) → Moves q r

pub Moves-trans : {q r s : List Task} → Moves q r → Moves r s → Moves q s
Moves-trans m stays = m
Moves-trans m (replaces i old task n f k) = replaces i old task (Moves-trans m n) f k
Moves-trans m (joins task n k) = joins task (Moves-trans m n) k
Moves-trans m (leaves id n) = leaves id (Moves-trans m n)
Moves-trans m (starts task n) = starts task (Moves-trans m n)

-- A change by which the queue of a pool moves.
abbrev pub Queued : ℕ → Cycle → Cycle → Type 0
Queued p c d = Moves (c.queues p) (d.queues p)

-- A write to the queue of one pool.
put_queue :
    (p pool : ℕ) (queues : ℕ → List Task) (r : List Task)
    → Moves (queues pool) r
    → Moves (queues p) (put pool r queues p)
put_queue p pool queues r m = elim (Bool-cases (p == pool)) [
  | inl e ↦
      let at : p ≡ pool = ground (arith, e) in rw e (subst (λ k. Moves (queues k) r) (sym at) m)
  | inr e ↦ rw e stays
]

module _ (p : ℕ) (c : Cycle) where
  Submitted-Queued :
      (pool : ℕ) (task : Task) {r : Option DropReason × Cycle}
      → Submitted c pool task r
      → Queued p c r.1
  unfolding replace_task append_task
  Submitted-Queued pool task (refused s) = stays
  Submitted-Queued pool task (in_place i old s e f k) =
      put_queue p pool c.queues _ (replaces i old task stays f k)
  Submitted-Queued pool task (no_room s n f) = stays
  Submitted-Queued pool task (at_the_end s n f) = put_queue p pool c.queues _ (joins task stays n)

  forget-Queued : (pool id : ℕ) → Queued p c (forget_if_cancelled c pool id)
  unfolding forget_if_cancelled
  forget-Queued pool id = elim (Bool-cases (is_cancelled (c.futures id))) [
    | inr n ↦ rw (n, forget_if_cancelled) stays
    | inl y ↦ elim (Bool-cases (c.was_replaced id)) [
      | inl r ↦ rw (y, r, forget_if_cancelled) stays
      | inr r ↦ elim (Bool-cases (any (is_task id) (c.queues pool))) [
        | inl w ↦ rw (y, r, w, forget_if_cancelled) (put_queue p pool c.queues _ (leaves id stays))
        | inr w ↦ rw (y, r, w, forget_if_cancelled) stays
      ]
    ]
  ]

  cancelled_from-Queued : (s : FutureState) (id : ℕ) → Queued p c (cancelled_from s c id)
  cancelled_from-Queued waits id = stays
  cancelled_from-Queued s id = stays

  cancel_future-Queued : (id : ℕ) → Queued p c (cancel_future c id)
  unfolding cancel_future
  cancel_future-Queued id = cancelled_from-Queued (c.futures id) id

module _ (p : ℕ) where
  called_back_from-Queued :
      (c : Cycle) (s : FutureState) (pool id : ℕ) → Queued p c (called_back_from s c pool id)
  called_back_from-Queued c waits pool id =
      forget-Queued p (record c { futures = put id cancelled c.futures }) pool id
  called_back_from-Queued c s pool id = stays

  cancel_waiting-Queued : (c : Cycle) (pool id : ℕ) → Queued p c (cancel_waiting c pool id)
  unfolding cancel_waiting
  cancel_waiting-Queued c pool id = called_back_from-Queued c (c.futures id) pool id

  cancel_queue-Queued :
      (c : Cycle) (pool : ℕ) (ts : List Task) → Queued p c (cancel_queue c pool ts)
  unfolding cancel_queue
  cancel_queue-Queued c pool [] = stays
  cancel_queue-Queued c pool (t ∷ ts) =
      Moves-trans (cancel_waiting-Queued c pool t.id)
        (cancel_queue-Queued (cancel_waiting c pool t.id) pool ts)

  cancel_queues-Queued : (c : Cycle) (ps : List ℕ) → Queued p c (cancel_queues c ps)
  unfolding cancel_queues
  cancel_queues-Queued c [] = stays
  cancel_queues-Queued c (q ∷ qs) =
      Moves-trans (cancel_queue-Queued c q (c.queues q))
        (cancel_queues-Queued (cancel_queue c q (c.queues q)) qs)

  discard-Queued : (c : Cycle) (pool : ℕ) (key : String) → Queued p c (discard c pool key).1
  unfolding discard
  discard-Queued c pool key = elim (Option-cases (waiting_index (c.queues pool) key)) [
    | inl n ↦ rw (n, discard) stays
    | inr (i, e) ↦
        let (t, found, same) = waiting_index-found (c.queues pool) key e in
        rw (e, found, discard) (cancel_waiting-Queued c pool t.id)
  ]

  module _ (c : Cycle) (i : ℕ) where
    take_first-Queued :
        (pool : ℕ) (q : List Task) → c.queues pool ≡ q → Queued p c (take_first c i pool q)
    take_first-Queued pool [] e = stays
    take_first-Queued pool (t ∷ rest) e =
        put_queue p pool c.queues rest (starts t (subst (Moves (c.queues pool)) e stays))

    take_from-Queued : (o : Option ℕ) → Queued p c (take_from c i o)
    take_from-Queued none = stays
    take_from-Queued (some pool) = take_first-Queued pool (c.queues pool) refl

    take_task-Queued : Queued p c (take_task c i)
    unfolding take_task
    take_task-Queued = elim (Bool-cases c.stopping) [
      | inl s ↦ simp s stays
      | inr s ↦ simp s (take_from-Queued (next_pool c))
    ]

    start_task-Queued : (pool : ℕ) (task : Task) → Queued p c (start_task c i pool task)
    unfolding start_task
    start_task-Queued pool task = elim (Bool-cases (is_cancelled (c.futures task.id))) [
      | inl y ↦ rw (y, start_task) stays
      | inr n ↦ rw (n, start_task) stays
    ]

    turn-Queued : (fails : Bool) (t : Thread) → Queued p c (turn c i fails t)
    unfolding turn
    turn-Queued fails idle = take_task-Queued
    turn-Queued fails (holds pool task taken) = start_task-Queued pool task
    turn-Queued fails (holds pool task started) = stays
    turn-Queued fails (holds pool task (recorded o)) = stays

    turn_of-Queued : (fails : Bool) (o : Option Thread) → Queued p c (turn_of c i fails o)
    turn_of-Queued fails none = stays
    turn_of-Queued fails (some t) = turn-Queued fails t

  step-Queued : (c : Cycle) (e : CycleEvent) → Queued p c (step c e)
  unfolding step
  step-Queued c (submits pool task) = Submitted-Queued p c pool task (enqueue-Submitted c pool task)
  step-Queued c (cancels id) = cancel_future-Queued p c id
  step-Queued c (calls_back pool id) = forget-Queued p c pool id
  step-Queued c (discards pool key) = discard-Queued c pool key
  step-Queued c (works i fails) = turn_of-Queued c i fails (get_elem? c.threads i)
  step-Queued c stops = cancel_queues-Queued (record c { stopping = true }) c.pools

  pub run_events-Queued : (c : Cycle) (es : List CycleEvent) → Queued p c (run_events c es)
  unfolding run_events
  run_events-Queued c [] = stays
  run_events-Queued c (e ∷ es) = Moves-trans (step-Queued c e) (run_events-Queued (step c e) es)
