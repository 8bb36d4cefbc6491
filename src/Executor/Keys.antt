-- ===== src/Executor/Keys.antt =====
-- The keys under which tasks wait, and whether a submit is accepted.
use mathlib.Core.Path.{subst}
use qiskit_serverless.Base.{
  Bool, Bool-cases, List, Option, Option-cases, String, [], ap, arith, count, count-set, count-snoc,
  if◌then◌else◌, inl, inr, none, opt_str_eq, opt_str_eq_iff, refl, some, true, ℕ, ◌+◌, ◌≡◌, ◌≤◌,
  ◌↔◌, ◌∷◌, ◌==◌,
}
use qiskit_serverless.Executor.{
  Cycle, DropReason, Task, enqueue, key_index, remove_task, waiting_index, would_accept,
}
use qiskit_serverless.Executor.Submits.{
  Submitted, at_the_end, enqueue-Submitted, in_place, no_room, refused,
}
use qiskit_serverless.Executor.Steps.{CycleEvent}
use qiskit_serverless.Executor.Queue.{
  Moves, joins, leaves, replaces, run_events-Queued, starts, stays,
}
use qiskit_serverless.Executor.Accounts.{reached}
use qiskit_serverless.Executor.Lifecycle.{new_cycle}

-- Whether a task waits under a key.
abbrev pub under : String → Task → Bool
under key t = opt_str_eq t.replace_key (some key)

none-under : (key : String) (q : List Task) → waiting_index q key ≡ none → count (under key) q ≡ 0
unfolding waiting_index
none-under key [] h = refl
none-under key (t ∷ ts) h = elim (Bool-cases (opt_str_eq t.replace_key (some key))) [
  | inl e ↦ absurd (ground (arith, e))
  | inr e ↦ elim (Option-cases (waiting_index ts key)) [
    | inl n ↦ rw e (omega (arith, none-under key ts n))
    | inr (i, f) ↦ absurd (ground (arith, e, f))
  ]
]

under_joined :
    (key : String) (q : List Task) (task : Task)
    → key_index q task.replace_key ≡ none
    → count (under key) q ≤ 1
    → count (under key) q + (if under key task then 1 else 0) ≤ 1
under_joined key q task h one = elim (Bool-cases (under key task)) [
  | inl e ↦
      let same : task.replace_key ≡ some key = (opt_str_eq_iff _ _).0 e in
      let absent : waiting_index q key ≡ none = subst (λ k. key_index q k ≡ none) same h in
      rw e (omega (arith, none-under key q absent))
  | inr e ↦ rw e (omega (arith, one))
]

count-remove_task :
    (p : Task → Bool) (id : ℕ) (ts : List Task) → count p (remove_task id ts) ≤ count p ts
unfolding remove_task
count-remove_task p id [] = omega arith
count-remove_task p id (t ∷ ts) = elim (Bool-cases (t.id == id)) [
  | inl e ↦ rw e (omega arith)
  | inr e ↦ rw e (omega (arith, count-remove_task p id ts))
]

one_under :
    (key : String) {q r : List Task} → Moves q r → count (under key) q ≤ 1 → count (under key) r ≤ 1
one_under key stays one = one
one_under key (replaces {r} i old task m f k) one =
    let same : under key old ≡ under key task = ap (λ o. opt_str_eq o (some key)) k in
    omega (
      arith,
      count-set (under key) r i task f,
      one_under key m one,
      ap {B = ℕ} (λ b. if b then 1 else 0) same,
    )
one_under key (joins {r} task m n) one =
    rw (count-snoc (under key) task r) (under_joined key r task n (one_under key m one))
one_under key (leaves {r} id m) one =
    omega (arith, count-remove_task (under key) id r, one_under key m one)
one_under key (starts {r} task m) one = omega (arith, one_under key m one)

-- Whatever the callers and the threads do, and in whatever order: at most one task of a pool waits
-- under a key.
pub one_per_key :
    (pools : List ℕ) (workers limit : ℕ) (es : List CycleEvent) (p : ℕ) (key : String)
    → count (under key) ((reached pools workers limit es).queues p) ≤ 1
unfolding new_cycle
one_per_key pools workers limit es p key =
    one_under key (run_events-Queued p (new_cycle pools workers limit) es) (omega arith)

accepted_iff :
    (c : Cycle) (pool : ℕ) (task : Task) {r : Option DropReason × Cycle}
    → Submitted c pool task r
    → (would_accept c pool task.replace_key ≡ true) ↔ (r.0 ≡ none)
unfolding would_accept
accepted_iff c pool task (refused s) = ground (arith, s)
accepted_iff c pool task (in_place i old s e f k) = ground (arith, s, e)
accepted_iff c pool task (no_room s n f) = ground (arith, s, n, f)
accepted_iff c pool task (at_the_end s n f) = ground (arith, s, n, f)

-- `would_accept` says whether a submit to the cycle as it is, under the same key, is accepted.
pub would_accept_iff :
    (c : Cycle) (pool : ℕ) (task : Task)
    → (would_accept c pool task.replace_key ≡ true) ↔ ((enqueue c pool task).0 ≡ none)
would_accept_iff c pool task = accepted_iff c pool task (enqueue-Submitted c pool task)
