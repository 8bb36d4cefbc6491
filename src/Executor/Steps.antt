-- ===== src/Executor/Steps.antt =====
-- The turns of the threads, the end of a cycle, and the interleavings of both with the callers.
use qiskit_serverless.Base.{
  Bool, List, Option, String, [], false, filter, get_elem?, if◌then◌else◌, ltb, none, nonempty_list,
  set, some, true, ℕ, ◌&&◌, ◌+◌, ◌-◌, ◌==◌, ◌||◌, ◌∷◌,
}
use qiskit_serverless.Executor.{
  Cycle, FutureState, Task, TaskOutcome, Thread, cancel_future, cancel_waiting, canceled, completed,
  discard, enqueue, failed, finished, forget_if_cancelled, holds, idle, inc, is_cancelled, notified,
  put, recorded, runs, started, taken,
}

-- The key by which `_next_pool` takes the least: a pair is compared from the left.
abbrev pub comes_before : Cycle → ℕ → ℕ → Bool
comes_before c p q =
    ltb (c.running p) (c.running q) || (c.running p == c.running q && ltb (c.served p) (c.served q))

-- `min` gives the first of the least.
unfoldable pub least : Cycle → ℕ → List ℕ → ℕ
least c best [] = best
least c best (p ∷ ps) = least c (if comes_before c p best then p else best) ps

abbrev pub has_waiting : Cycle → ℕ → Bool
has_waiting c p = nonempty_list (c.queues p)

-- `_Cycle._next_pool`
unfoldable pub next_pool : Cycle → Option ℕ
unfolding least
next_pool c = elim (filter (has_waiting c) c.pools) [ [] ↦ none | p ∷ ps ↦ some (least c p ps) ]

-- An idle thread takes the first task of a pool.
abbrev pub take_first : Cycle → ℕ → ℕ → List Task → Cycle
take_first c i pool [] = c
take_first c i pool (task ∷ rest) = record c {
  queues = put pool rest c.queues;
  running = put pool (c.running pool + 1) c.running;
  clock = c.clock + 1;
  served = put pool (c.clock + 1) c.served;
  threads = set c.threads i (holds pool task taken);
}

abbrev pub take_from : Cycle → ℕ → Option ℕ → Cycle
take_from c i none = c
take_from c i (some pool) = take_first c i pool (c.queues pool)

-- `_Cycle._work` up to the call of `_execute`; a thread that finds nothing, or the end, stays idle.
unfoldable pub take_task : Cycle → ℕ → Cycle
unfolding next_pool
take_task c i = if c.stopping then c else take_from c i (next_pool c)

-- `_Cycle._finish` up to its lock: the end is counted.
abbrev pub record_end : Cycle → ℕ → ℕ → Task → TaskOutcome → Cycle
record_end c i pool task outcome = record c {
  tasks = put pool (inc outcome (c.tasks pool)) c.tasks;
  pending_gauge = put pool (c.pending_gauge pool - 1) c.pending_gauge;
  threads = set c.threads i (holds pool task (recorded outcome));
}

-- `_Cycle._execute` up to the call of the task: one that was cancelled is counted at once.
unfoldable pub start_task : Cycle → ℕ → ℕ → Task → Cycle
start_task c i pool task =
    if is_cancelled (c.futures task.id) then record_end c i pool task canceled else (record c {
      futures = put task.id runs c.futures;
      threads = set c.threads i (holds pool task started);
    })

abbrev pub end_of_run : Bool → TaskOutcome
end_of_run true = failed
end_of_run false = completed

abbrev pub end_state : TaskOutcome → FutureState
end_state canceled = notified
end_state outcome = finished

-- The rest of `_finish` and `_execute`: the slot is free, then the future is resolved.
unfoldable pub free_slot : Cycle → ℕ → ℕ → Task → TaskOutcome → Cycle
free_slot c i pool task outcome = record c {
  running = put pool (c.running pool - 1) c.running;
  futures = put task.id (end_state outcome) c.futures;
  threads = set c.threads i idle;
}

-- What a thread does next; `fails` says whether the task that it runs raises.
unfoldable pub turn : Cycle → ℕ → Bool → Thread → Cycle
unfolding take_task start_task free_slot
turn c i fails idle = take_task c i
turn c i fails (holds pool task taken) = start_task c i pool task
turn c i fails (holds pool task started) = record_end c i pool task (end_of_run fails)
turn c i fails (holds pool task (recorded outcome)) = free_slot c i pool task outcome

abbrev pub turn_of : Cycle → ℕ → Bool → Option Thread → Cycle
turn_of c i fails none = c
turn_of c i fails (some t) = turn c i fails t

unfoldable pub work : Cycle → ℕ → Bool → Cycle
unfolding turn
work c i fails = turn_of c i fails (get_elem? c.threads i)

-- Every task that waits in a pool is cancelled.
unfoldable pub cancel_queue : Cycle → ℕ → List Task → Cycle
unfolding cancel_waiting
cancel_queue c pool [] = c
cancel_queue c pool (t ∷ ts) = cancel_queue (cancel_waiting c pool t.id) pool ts

unfoldable pub cancel_queues : Cycle → List ℕ → Cycle
unfolding cancel_queue
cancel_queues c [] = c
cancel_queues c (p ∷ ps) = cancel_queues (cancel_queue c p (c.queues p)) ps

-- `BackgroundExecutor.shutdown`, of a cycle.
unfoldable pub stop_cycle : Cycle → Cycle
unfolding cancel_queues
stop_cycle c = cancel_queues (record c { stopping = true }) c.pools

-- What may happen next. A caller's task brings its future, whose number is new.
pub data CycleEvent : Type 0 where
  submits : ℕ → Task → CycleEvent
  cancels : ℕ → CycleEvent
  calls_back : ℕ → ℕ → CycleEvent
  discards : ℕ → String → CycleEvent
  works : ℕ → Bool → CycleEvent
  stops : CycleEvent

unfoldable pub step : Cycle → CycleEvent → Cycle
unfolding enqueue cancel_future forget_if_cancelled discard work stop_cycle
step c (submits pool task) = (enqueue c pool task).1
step c (cancels id) = cancel_future c id
step c (calls_back pool id) = forget_if_cancelled c pool id
step c (discards pool key) = (discard c pool key).1
step c (works i fails) = work c i fails
step c stops = stop_cycle c

unfoldable pub run_events : Cycle → List CycleEvent → Cycle
unfolding step
run_events c [] = c
run_events c (e ∷ es) = run_events (step c e) es
