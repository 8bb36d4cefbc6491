-- ===== src/Executor/Lifecycle.antt =====
-- The executor of a process: a cycle from `init` to `shutdown`, and whose process it is.
use qiskit_serverless.Base.{
  Bool, List, Option, String, [], false, if◌then◌else◌, length, ltb, none, replicate, some, ℕ, ◌+◌,
  ◌-◌, ◌/◌, ◌==◌, ◌∷◌,
}
use qiskit_serverless.Executor.{
  Cycle, DropReason, Task, Totals, discard, enqueue, finished, idle, pending,
}
use qiskit_serverless.Executor.Steps.{stop_cycle}

-- `BackgroundPool`: so far there is one.
abbrev pub runtime_api : ℕ
runtime_api = 0

abbrev pub background_pools : List ℕ
background_pools = runtime_api ∷ []

abbrev pub no_totals : Totals
no_totals = record { completed_total = 0; failed_total = 0; canceled_total = 0; replaced_total = 0 }

-- `_Cycle.__init__`, for an enum with these members; the gauges that `init` resets are at 0.
unfoldable pub new_cycle : List ℕ → ℕ → ℕ → Cycle
new_cycle pools max_workers pool_limit = record {
  pools = pools;
  pool_limit = pool_limit;
  queues = λ p. [];
  running = λ p. 0;
  served = λ p. 0;
  clock = 0;
  stopping = false;
  threads = replicate max_workers idle;
  futures = λ t. finished;
  was_replaced = λ t. false;
  tasks = λ p. no_totals;
  pending_gauge = λ p. 0;
}

pub record BackgroundExecutor : Type 0 where
  pub cycle : Option Cycle
  pub pid : Option ℕ
  pub max_workers : ℕ
  pub max_pending : ℕ

pub data ExecutorError : Type 0 where
  already_initialized bad_limits cannot_start not_initialized : ExecutorError

pub data Answer {ℓ} (A : Type ℓ) : Type ℓ where
  answers : A → Answer A
  raises : ExecutorError → Answer A

abbrev pub or_setting : Option ℕ → ℕ → ℕ
or_setting none setting = setting
or_setting (some n) setting = n

abbrev pub owned_by : Option ℕ → ℕ → Bool
owned_by none process = false
owned_by (some pid) process = pid == process

-- The cycle that this process may use.
abbrev pub own_cycle : Option Cycle → Bool → Option Cycle
own_cycle none owned = none
own_cycle (some c) owned = if owned then some c else none

abbrev pub owned_cycle : BackgroundExecutor → ℕ → Option Cycle
owned_cycle e process = own_cycle e.cycle (owned_by e.pid process)

-- What a call gets, and the executor after it.
abbrev pub Called : Type 0 → Type 0
Called A = Answer A × BackgroundExecutor

module _ (settings_workers settings_pending : ℕ) (pools : List ℕ) where
  -- `init`, in a process; `starts` says whether every thread could be started.
  unfoldable pub init : BackgroundExecutor → ℕ → Bool → Option ℕ → Option ℕ → Called (Unit {0})
  unfolding new_cycle
  init e process starts max_workers max_pending = elim (owned_cycle e process) [
    | some c ↦ (raises already_initialized, e)
    | none ↦
        let workers = or_setting max_workers settings_workers in
        let pending = or_setting max_pending settings_pending in
        if ltb workers 1
        then (raises bad_limits, e)
        else (if starts
            then (
              answers tt,
              record {
                cycle = some (new_cycle pools workers (pending / length pools));
                pid = some process;
                max_workers = workers;
                max_pending = pending;
              },
            )
            else (raises cannot_start, e))
  ]

-- `_current_cycle`
unfoldable pub current_cycle : BackgroundExecutor → ℕ → Answer Cycle
current_cycle e process = elim (owned_cycle e process) [
  | none ↦ raises not_initialized
  | some c ↦ answers c
]

abbrev pub with_cycle {ℓ} :
    {A : Type ℓ}
    → Answer Cycle
    → (Cycle → A × Cycle)
    → BackgroundExecutor
    → Answer A × BackgroundExecutor
with_cycle (raises x) f e = (raises x, e)
with_cycle (answers c) f e = (answers (f c).0, record e { cycle = some (f c).1 })

-- `submit`: the reason why it returns None, if it does.
unfoldable pub submit : BackgroundExecutor → ℕ → ℕ → Task → Called (Option DropReason)
unfolding current_cycle enqueue
submit e process pool task = with_cycle (current_cycle e process) (λ c. enqueue c pool task) e

-- `discard`
unfoldable pub discard_waiting : BackgroundExecutor → ℕ → ℕ → String → Called Bool
unfolding current_cycle discard
discard_waiting e process pool key =
    with_cycle (current_cycle e process) (λ c. discard c pool key) e

-- `PoolStatus`
pub record PoolStatus : Type 0 where
  pub queued : ℕ
  pub running : ℕ
  pub free_slots : ℕ
  pub idle_workers : ℕ

abbrev pub sum_of : (ℕ → ℕ) → List ℕ → ℕ
sum_of f [] = 0
sum_of f (p ∷ ps) = f p + sum_of f ps

-- `status`, of the cycle that the process uses.
unfoldable pub pool_status : Cycle → ℕ → PoolStatus
pool_status c pool = record {
  queued = length (c.queues pool);
  running = c.running pool;
  free_slots = c.pool_limit - pending c pool;
  idle_workers = length c.threads - sum_of c.running c.pools;
}

-- `shutdown`: the executor is empty at once, the cycle stops.
unfoldable pub shutdown : BackgroundExecutor → ℕ → Option Cycle × BackgroundExecutor
unfolding stop_cycle
shutdown e process =
    let emptied = record e { cycle = none; pid = none } in
    elim (owned_cycle e process) [
      | none ↦ (none, emptied)
      | some c ↦ (some (stop_cycle c), emptied)
    ]
