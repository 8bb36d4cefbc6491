-- ===== src/Executor/Fair.antt =====
-- Which pool a free thread serves.
use mathlib.Core.Path.{subst}
use qiskit_serverless.Base.{
  Bool, Bool-cases, List, Option, Option-cases, [], any, arith, false, filter, get_elem?,
  if◌then◌else◌, inl, inr, none, some, sym, true, ℕ, ◌+◌, ◌==◌, ◌≡◌, ◌≤◌, ◌<◌, ◌∷◌,
}
use qiskit_serverless.Executor.{
  Cycle, Task, Thread, holds, idle, is_cancelled, recorded, started, taken,
}
use qiskit_serverless.Executor.Steps.{
  comes_before, free_slot, has_waiting, least, next_pool, start_task, take_first, take_task, turn,
  turn_of, work,
}

-- A pool does not come after another in the order by which a thread takes the least.
abbrev pub NotAfter : Cycle → ℕ → ℕ → Type 0
NotAfter c p q = (c.running p ≤ c.running q) × (c.running p ≡ c.running q → c.served p ≤ c.served q)

not_before-NotAfter : (c : Cycle) (p q : ℕ) → comes_before c q p ≡ false → NotAfter c p q
not_before-NotAfter c p q h = (ground (arith, h), λ e. ground (arith, h, e))

before-NotAfter : (c : Cycle) (p q : ℕ) → comes_before c p q ≡ true → NotAfter c p q
before-NotAfter c p q h = (ground (arith, h), λ e. ground (arith, h, e))

NotAfter-trans : (c : Cycle) (p q r : ℕ) → NotAfter c p q → NotAfter c q r → NotAfter c p r
NotAfter-trans c p q r (a, b) (d, e) = (
  omega (arith, a, d),
  λ s. omega (arith, b (omega (arith, a, d, s)), e (omega (arith, a, d, s))),
)

least-NotAfter_best : (c : Cycle) (best : ℕ) (ps : List ℕ) → NotAfter c (least c best ps) best
unfolding least
least-NotAfter_best c best [] = (omega arith, λ e. omega arith)
least-NotAfter_best c best (p ∷ ps) = elim (Bool-cases (comes_before c p best)) [
  | inl b ↦
      rw b (NotAfter-trans c _ p best (least-NotAfter_best c p ps) (before-NotAfter c p best b))
  | inr n ↦ rw n (least-NotAfter_best c best ps)
]

-- The better of a pool and the best so far.
abbrev better : Cycle → ℕ → ℕ → ℕ
better c best p = if comes_before c p best then p else best

better-NotAfter : (c : Cycle) (best p : ℕ) → NotAfter c (better c best p) p
better-NotAfter c best p = elim (Bool-cases (comes_before c p best)) [
  | inl b ↦ rw b (omega arith, λ e. omega arith)
  | inr n ↦ rw n (not_before-NotAfter c best p n)
]

least-NotAfter :
    (c : Cycle) (q best : ℕ) (ps : List ℕ)
    → any (λ p. p == q) ps ≡ true
    → NotAfter c (least c best ps) q
unfolding least
least-NotAfter c q best [] h = absurd (cc)
least-NotAfter c q best (p ∷ ps) h = elim (Bool-cases (p == q)) [
  | inl e ↦
      let same : p ≡ q = ground (arith, e) in
      subst (NotAfter c (least c (better c best p) ps)) same (
        NotAfter-trans c _ (better c best p) p (least-NotAfter_best c (better c best p) ps)
          (better-NotAfter c best p))
  | inr n ↦ least-NotAfter c q (better c best p) ps (ground (arith, h, n))
]

least_of-NotAfter :
    (c : Cycle) (q k : ℕ) (ks : List ℕ)
    → any (λ p. p == q) (k ∷ ks) ≡ true
    → NotAfter c (least c k ks) q
least_of-NotAfter c q k ks h = elim (Bool-cases (k == q)) [
  | inl e ↦
      let same : k ≡ q = ground (arith, e) in
      subst (NotAfter c (least c k ks)) same (least-NotAfter_best c k ks)
  | inr n ↦ least-NotAfter c q k ks (ground (arith, h, n))
]

waiting-any :
    (c : Cycle) (q : ℕ) (ps : List ℕ)
    → any (λ p. p == q) ps ≡ true
    → has_waiting c q ≡ true
    → any (λ p. p == q) (filter (has_waiting c) ps) ≡ true
waiting-any c q [] h w = h
waiting-any c q (p ∷ ps) h w = elim (Bool-cases (p == q)) [
  | inl e ↦
      let same : p ≡ q = ground (arith, e) in
      let v : has_waiting c p ≡ true = subst (λ k. has_waiting c k ≡ true) (sym same) w in
      rw v (ground (arith, e))
  | inr n ↦
      let rest = waiting-any c q ps (ground (arith, h, n)) w in
      elim (Bool-cases (has_waiting c p)) [
        | inl v ↦ rw v (ground (arith, rest))
        | inr v ↦ rw v rest
      ]
]

-- A waiting pool of the enum is not served later than the one that a thread takes from.
next_pool-NotAfter :
    (c : Cycle) (p q : ℕ)
    → any (λ k. k == q) c.pools ≡ true
    → has_waiting c q ≡ true
    → next_pool c ≡ some p
    → NotAfter c p q
unfolding next_pool
next_pool-NotAfter c p q h w e =
    chosen (filter (has_waiting c) c.pools) (waiting-any c q c.pools h w) e
  where
    chosen :
        (ps : List ℕ)
        → any (λ k. k == q) ps ≡ true
        → (elim ps as (λ x. Option ℕ) [ [] ↦ none | k ∷ ks ↦ some (least c k ks) ]) ≡ some p
        → NotAfter c p q
    chosen [] h e = absurd (cc)
    chosen (k ∷ ks) h e = subst (λ l. NotAfter c l q) (cc) (least_of-NotAfter c q k ks h)

module _ (c : Cycle) (i q : ℕ) (known_pool : any (λ k. k == q) c.pools ≡ true)
    (waits : has_waiting c q ≡ true) where
  abbrev Fair : ℕ → Cycle → Type 0
  Fair p d = c.running p < d.running p → d.running p ≤ c.running q + 1

  take_first-Fair :
      (p pool : ℕ) (ts : List Task) → NotAfter c pool q → Fair p (take_first c i pool ts)
  take_first-Fair p pool [] n r = absurd (omega (arith, r))
  take_first-Fair p pool (t ∷ ts) n r = ground (arith, r, n.0)

  take_task-Fair : (p : ℕ) → Fair p (take_task c i)
  unfolding take_task
  take_task-Fair p = elim (Bool-cases c.stopping) [
    | inl s ↦ simp s (λ r. absurd (omega (arith, r)))
    | inr s ↦ elim (Option-cases (next_pool c)) [
      | inl n ↦ simp (s, n) (λ r. absurd (omega (arith, r)))
      | inr (pool, e) ↦
          simp (s, e)
            (take_first-Fair p pool (c.queues pool)
              (next_pool-NotAfter c pool q known_pool waits e))
    ]
  ]

  start_task-Fair : (p pool : ℕ) (task : Task) → Fair p (start_task c i pool task)
  unfolding start_task
  start_task-Fair p pool task = elim (Bool-cases (is_cancelled (c.futures task.id))) [
    | inl y ↦ simp y (λ r. absurd (omega (arith, r)))
    | inr n ↦ simp n (λ r. absurd (omega (arith, r)))
  ]

  turn-Fair : (p : ℕ) (fails : Bool) (t : Thread) → Fair p (turn c i fails t)
  unfolding turn free_slot
  turn-Fair p fails idle r = take_task-Fair p r
  turn-Fair p fails (holds pool task taken) r = start_task-Fair p pool task r
  turn-Fair p fails (holds pool task started) r = absurd (omega (arith, r))
  turn-Fair p fails (holds pool task (recorded o)) r = absurd (ground (arith, r))

  turn_of-Fair : (p : ℕ) (fails : Bool) (o : Option Thread) → Fair p (turn_of c i fails o)
  turn_of-Fair p fails none r = absurd (omega (arith, r))
  turn_of-Fair p fails (some t) r = turn-Fair p fails t r

-- A thread that takes a task of some pool, while tasks of another pool of the enum wait, leaves it
-- with at most one more slot in use than the other has. So no pool pulls away from one that waits.
pub work_fair :
    (c : Cycle) (i p q : ℕ) (fails : Bool)
    → any (λ k. k == q) c.pools ≡ true
    → has_waiting c q ≡ true
    → c.running p < (work c i fails).running p
    → (work c i fails).running p ≤ c.running q + 1
unfolding work
work_fair c i p q fails k w = turn_of-Fair c i q k w p fails (get_elem? c.threads i)
