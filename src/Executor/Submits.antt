-- ===== src/Executor/Submits.antt =====
-- What an attempt to submit a task comes to.
use qiskit_serverless.Base.{
  Bool-cases, List, Option, Option-cases, String, [], arith, false, get_elem?, inl, inr, leb, none,
  opt_str_eq, opt_str_eq_iff, refl, some, suc, true, ℕ, ◌≡◌, ◌∷◌,
}
use qiskit_serverless.Executor.{
  Cycle, DropReason, Task, append_task, enqueue, full, key_index, pending, replace_task, shut_down,
  waiting_index,
}

-- The task at the index that a key leads to waits under it.
pub waiting_index-found :
    (queue : List Task) (key : String) {i : ℕ}
    → waiting_index queue key ≡ some i
    → (t : Task) × (get_elem? queue i ≡ some t) × (t.replace_key ≡ some key)
unfolding waiting_index
waiting_index-found [] key h = absurd (cc)
waiting_index-found (t ∷ ts) key {i} h = elim (Bool-cases (opt_str_eq t.replace_key (some key))) [
  | inl e ↦
      let at : i ≡ 0 = ground (arith, e) in
      rw at (t, refl, (opt_str_eq_iff t.replace_key (some key)).0 e)
  | inr e ↦ elim (Option-cases (waiting_index ts key)) [
    | inl n ↦ absurd (ground (arith, e, n))
    | inr (j, f) ↦ let at : i ≡ suc j = ground (arith, e, f) in rw at (waiting_index-found ts key f)
  ]
]

pub key_index-found :
    (queue : List Task) (key : Option String) {i : ℕ}
    → key_index queue key ≡ some i
    → (t : Task) × (get_elem? queue i ≡ some t) × (t.replace_key ≡ key)
key_index-found queue none h = absurd (cc)
key_index-found queue (some key) h = waiting_index-found queue key h

-- The ways in which an attempt ends, with what led to each.
pub data Submitted (c : Cycle) (pool : ℕ) (task : Task) : Option DropReason × Cycle → Type 0 where
  refused : c.stopping ≡ true → Submitted c pool task (some shut_down, c)
  in_place :
      (i : ℕ) (old : Task)
      → c.stopping ≡ false
      → key_index (c.queues pool) task.replace_key ≡ some i
      → get_elem? (c.queues pool) i ≡ some old
      → old.replace_key ≡ task.replace_key
      → Submitted c pool task (none, replace_task c pool task i old)
  no_room :
      c.stopping ≡ false
      → key_index (c.queues pool) task.replace_key ≡ none
      → leb c.pool_limit (pending c pool) ≡ true
      → Submitted c pool task (some full, c)
  at_the_end :
      c.stopping ≡ false
      → key_index (c.queues pool) task.replace_key ≡ none
      → leb c.pool_limit (pending c pool) ≡ false
      → Submitted c pool task (none, append_task c pool task)

module _ (c : Cycle) (pool : ℕ) (task : Task) where
  abbrev keyed : Option ℕ
  keyed = key_index (c.queues pool) task.replace_key

  abbrev Attempt : Type 0
  Attempt = Option DropReason × Cycle

  comes_to :
      {r : Attempt}
      → Submitted c pool task r
      → enqueue c pool task ≡ r
      → Submitted c pool task (enqueue c pool task)
  comes_to s e = rw e s

  pub enqueue-Submitted : Submitted c pool task (enqueue c pool task)
  unfolding enqueue
  enqueue-Submitted = elim (Bool-cases c.stopping) [
    | inl s ↦ comes_to (refused s) (simp s)
    | inr s ↦ elim (Option-cases keyed) [
      | inl n ↦ elim (Bool-cases (leb c.pool_limit (pending c pool))) [
        | inl f ↦ comes_to (no_room s n f) (simp (s, n, f))
        | inr f ↦ comes_to (at_the_end s n f) (simp (s, n, f))
      ]
      | inr (i, e) ↦
          let (old, found, same) = key_index-found (c.queues pool) task.replace_key e in
          comes_to (in_place i old s e found same) (simp (s, e, found))
    ]
  ]
