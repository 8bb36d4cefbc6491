-- ===== src/Executor.antt =====
-- The pool of background threads: gateway/core/services/background_executor.py. A cycle is changed under its
-- lock, so that each operation here is one step; a thread's turn is cut where it holds no lock. A pool is the
-- number of its member in the enum. A future is known by the number of its task.
pub mod Steps
pub mod Lifecycle
pub mod Submits
pub mod Changes
pub mod Turns
pub mod Accounts
pub mod Queue
pub mod Keys
pub mod Fair
use qiskit_serverless.Base.{
  Bool, List, Option, String, [], any, false, get_elem?, if◌then◌else◌, leb, length, ltb, none,
  opt_str_eq, set, some, suc, true, ℕ, ◌+◌, ◌++◌, ◌-◌, ◌==◌, ◌||◌, ◌∷◌,
}

-- `PENDING`, `RUNNING`, `CANCELLED`, `CANCELLED_AND_NOTIFIED` and `FINISHED` of concurrent.futures.
pub data FutureState : Type 0 where
  waits runs cancelled notified finished : FutureState

pub data TaskOutcome : Type 0 where
  completed failed canceled replaced : TaskOutcome

pub data DropReason : Type 0 where
  full shut_down : DropReason

-- What a task is known by; the function that it runs is the answer of the thread's turn.
pub record Task : Type 0 where
  pub id : ℕ
  pub replace_key : Option String

-- Where a thread stands in its loop: it holds a task it has taken, runs, or has recorded the end of.
pub data Stage : Type 0 where
  taken started : Stage
  recorded : TaskOutcome → Stage

pub data Thread : Type 0 where
  idle : Thread
  holds : ℕ → Task → Stage → Thread

-- `_TASKS` of one pool.
pub record Totals : Type 0 where
  pub completed_total : ℕ
  pub failed_total : ℕ
  pub canceled_total : ℕ
  pub replaced_total : ℕ

pub record Cycle : Type 0 where
  pub pools : List ℕ
  pub pool_limit : ℕ
  pub queues : ℕ → List Task
  pub running : ℕ → ℕ
  pub served : ℕ → ℕ
  pub clock : ℕ
  pub stopping : Bool
  pub threads : List Thread
  pub futures : ℕ → FutureState
  pub was_replaced : ℕ → Bool
  pub tasks : ℕ → Totals
  pub pending_gauge : ℕ → ℕ

-- `d[k] = v`
abbrev pub put {ℓ} : {A : Type ℓ} → ℕ → A → (ℕ → A) → ℕ → A
put k v f j = if j == k then v else f j

abbrev pub is_cancelled : FutureState → Bool
is_cancelled cancelled = true
is_cancelled notified = true
is_cancelled s = false

abbrev pub inc : TaskOutcome → Totals → Totals
inc completed t = record t { completed_total = t.completed_total + 1 }
inc failed t = record t { failed_total = t.failed_total + 1 }
inc canceled t = record t { canceled_total = t.canceled_total + 1 }
inc replaced t = record t { replaced_total = t.replaced_total + 1 }

abbrev pub next_index : Option ℕ → Option ℕ
next_index none = none
next_index (some i) = some (suc i)

-- `_Cycle.waiting_index`, of the queue of a pool.
unfoldable pub waiting_index : List Task → String → Option ℕ
waiting_index [] key = none
waiting_index (t ∷ ts) key =
    let later = next_index (waiting_index ts key) in
    if opt_str_eq t.replace_key (some key) then some 0 else later

abbrev pub key_index : List Task → Option String → Option ℕ
key_index queue none = none
key_index queue (some key) = waiting_index queue key

-- `_Cycle.pending`
abbrev pub pending : Cycle → ℕ → ℕ
pending c pool = length (c.queues pool) + c.running pool

-- How a replaced task is counted.
abbrev pub end_of_replaced : FutureState → TaskOutcome
end_of_replaced s = if is_cancelled s then canceled else replaced

-- `deque.remove`, of the task with a number.
unfoldable pub remove_task : ℕ → List Task → List Task
remove_task id [] = []
remove_task id (t ∷ ts) = let rest = t ∷ remove_task id ts in if t.id == id then ts else rest

abbrev pub is_task : ℕ → Task → Bool
is_task id t = t.id == id

-- A task takes the place of another in the queue. The future of the old one is cancelled, and those who
-- wait for it are released, in the same step.
unfoldable pub replace_task : Cycle → ℕ → Task → ℕ → Task → Cycle
replace_task c pool task i old = record c {
  queues = put pool (set (c.queues pool) i task) c.queues;
  was_replaced = put old.id true c.was_replaced;
  tasks = put pool (inc (end_of_replaced (c.futures old.id)) (c.tasks pool)) c.tasks;
  futures = put task.id waits (put old.id notified c.futures);
}

unfoldable pub append_task : Cycle → ℕ → Task → Cycle
append_task c pool task = record c {
  queues = put pool (c.queues pool ++ (task ∷ [])) c.queues;
  pending_gauge = put pool (c.pending_gauge pool + 1) c.pending_gauge;
  futures = put task.id waits c.futures;
}

-- `_Cycle.enqueue`: the reason why the task is dropped, if it is.
unfoldable pub enqueue : Cycle → ℕ → Task → Option DropReason × Cycle
unfolding replace_task append_task waiting_index
enqueue c pool task =
    if c.stopping then (some shut_down, c) else (elim (key_index (c.queues pool) task.replace_key) [
      | some i ↦ elim (get_elem? (c.queues pool) i) [
        | some old ↦ (none, replace_task c pool task i old)
        | none ↦ (none, c)
      ]
      | none ↦
          if leb c.pool_limit (pending c pool)
          then (some full, c)
          else (none, append_task c pool task)
    ])

-- `BackgroundExecutor.would_accept`
unfoldable pub would_accept : Cycle → ℕ → Option String → Bool
would_accept c pool key =
    if c.stopping
    then false
    else ltb (pending c pool) c.pool_limit
      || (elim (key_index (c.queues pool) key) [ none ↦ false | some i ↦ true ])

-- A task leaves the queue, and whoever waits for its future is released.
unfoldable pub forgotten : Cycle → ℕ → ℕ → Cycle
unfolding remove_task
forgotten c pool id = record c {
  queues = put pool (remove_task id (c.queues pool)) c.queues;
  tasks = put pool (inc canceled (c.tasks pool)) c.tasks;
  pending_gauge = put pool (c.pending_gauge pool - 1) c.pending_gauge;
  futures = put id notified c.futures;
}

-- `_Cycle.forget_if_cancelled`, the callback of a future that ended.
unfoldable pub forget_if_cancelled : Cycle → ℕ → ℕ → Cycle
unfolding forgotten
forget_if_cancelled c pool id =
    if is_cancelled (c.futures id)
    then (if c.was_replaced id
        then c
        else (if any (is_task id) (c.queues pool) then forgotten c pool id else c))
    else c

-- `future.cancel()` by the caller; the callback that it starts takes the lock later.
abbrev pub cancelled_from : FutureState → Cycle → ℕ → Cycle
cancelled_from waits c id = record c { futures = put id cancelled c.futures }
cancelled_from s c id = c

unfoldable pub cancel_future : Cycle → ℕ → Cycle
cancel_future c id = cancelled_from (c.futures id) c id

abbrev pub called_back_from : FutureState → Cycle → ℕ → ℕ → Cycle
called_back_from waits c pool id =
    forget_if_cancelled (record c { futures = put id cancelled c.futures }) pool id
called_back_from s c pool id = c

-- `future.cancel()` under the lock, with its callback; a future that is cancelled has no other.
unfoldable pub cancel_waiting : Cycle → ℕ → ℕ → Cycle
unfolding forget_if_cancelled
cancel_waiting c pool id = called_back_from (c.futures id) c pool id

-- `BackgroundExecutor.discard`: what it answers, and the cycle after it.
unfoldable pub discard : Cycle → ℕ → String → Bool × Cycle
unfolding waiting_index cancel_waiting
discard c pool key = elim (waiting_index (c.queues pool) key) [
  | none ↦ (false, c)
  | some i ↦ elim (get_elem? (c.queues pool) i) [
    | none ↦ (false, c)
    | some t ↦ (
      elim (c.futures t.id) [ runs ↦ false | finished ↦ false | _ ↦ true ],
      cancel_waiting c pool t.id,
    )
  ]
]
