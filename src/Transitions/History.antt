-- ===== src/Transitions/History.antt =====
-- The life of a job under any sequence of calls of the service, each with an instance that may be
-- older than its row, and at any time.
use qiskit_serverless.Base.{
  ==_iff, ==_refl, Bool-cases, List, Option, [], arith, false, if◌then◌else◌, inl, inr, none, some,
  true, ℕ, ◌==◌, ◌∷◌, ◌≡◌, ◌≤◌,
}
use qiskit_serverless.Models.{Channel, Db, Job, Status, find_job, status_in, terminal_statuses}
use qiskit_serverless.Transitions.Monad.{Env, World}
use qiskit_serverless.Transitions.Calls.{Call, IsCall, run_call, run_call-Step}
use qiskit_serverless.Transitions.Writes.{valid_transitions}
use qiskit_serverless.Transitions.Steps.{Moved, Step}
use qiskit_serverless.Transitions.Rows.{rows}

-- A call, with the instance and the time at which it is made.
pub record Visit : Type 0 where
  pub call : Call
  pub job : Job
  pub now : ℕ

unfoldable pub visit : Env → Visit → World → World
visit env v w = (run_call env v.call (record w { job = v.job; now = v.now })).1

-- The calls of every process, in the order in which they get the row's lock.
unfoldable pub play : Env → List Visit → World → World
play env [] w = w
play env (v ∷ vs) w = play env vs (visit env v w)

abbrev pub AreCalls : List Visit → Type 0
AreCalls [] = Unit
AreCalls (v ∷ vs) = IsCall v.call × AreCalls vs

visit-Step : (env : Env) (v : Visit) (w : World) → IsCall v.call → Step w.db (visit env v w).db
unfolding visit
visit-Step env v w h = run_call-Step env v.call (record w { job = v.job; now = v.now }) h

-- What every step keeps, every sequence of calls keeps.
pub play_keeps :
    (P : Db → Type 0) (env : Env) (vs : List Visit) (w : World)
    → ((d d' : Db) → P d → Moved d d' → P d')
    → AreCalls vs
    → P w.db
    → P (play env vs w).db
unfolding play
play_keeps P env [] w keep h p = p
play_keeps P env (v ∷ vs) w keep (h, hs) p =
    play_keeps P env vs (visit env v w) keep hs (stepped (visit-Step env v w h))
  where
    stepped : Step w.db (visit env v w).db → P (visit env v w).db
    stepped (inl same) = rw same p
    stepped (inr moved) = keep w.db (visit env v w).db p moved

abbrev ended_status : Option Job → ℕ
ended_status none = 0
ended_status (some row) = if status_in row.status terminal_statuses then 1 else 0

-- At most one row of a channel, and none before the end.
abbrev OncePaid : Channel → ℕ → Db → Type 0
OncePaid c k d = rows c k d ≤ ended_status (find_job k d.jobs)

pub allowed_open :
    (s t : Status)
    → status_in t (valid_transitions s) ≡ true
    → status_in s terminal_statuses ≡ false
unfolding valid_transitions
allowed_open s t h = ground arith

OncePaid-own : (c : Channel) (d d' : Db) (m : Moved d d') → OncePaid c m.key d → OncePaid c m.key d'
OncePaid-own c d d' m p =
    let none_yet : rows c m.key d ≡ 0 =
      (let q : rows c m.key d ≤ ended_status (some m.row) = rw m.found at p in
        ground (arith, allowed_open m.row.status m.to m.allowed, q)) in
    let one_more = m.rows_grow c m.key in
    rw m.found' (rw m.reached (ground (arith, one_more, none_yet, ==_refl m.key)))

OncePaid-Moved : (c : Channel) (k : ℕ) (d d' : Db) → OncePaid c k d → Moved d d' → OncePaid c k d'
OncePaid-Moved c k d d' p m = elim (Bool-cases (k == m.key)) [
  | inl own ↦ let e : k ≡ m.key = (==_iff k m.key).0 own in rw e (OncePaid-own c d d' m (rw e at p))
  | inr other ↦
      let same = m.others k other in
      let grow = m.rows_grow c k in rw same (ground (arith, p, grow, other))
]

-- However calls are ordered, whatever instances they start from, and whatever the calls outside
-- answer: a job that had no message of a channel gets at most one, if no call is given the status
-- among its fields.
pub rows_once :
    (env : Env) (vs : List Visit) (w : World) (k : ℕ) (c : Channel)
    → AreCalls vs
    → rows c k w.db ≡ 0
    → rows c k (play env vs w).db ≤ 1
rows_once env vs w k c calls zero_rows =
    let kept : OncePaid c k (play env vs w).db =
      play_keeps (OncePaid c k) env vs w (OncePaid-Moved c k) calls (rw zero_rows (omega arith)) in
    ground (arith, kept)
