-- ===== src/Transitions/Progress.antt =====
-- A job goes forward only: each status is entered once, the history agrees with the row, and an
-- ended job is never touched again.
use qiskit_serverless.Base.{
  ==_iff, ==_refl, Bool-cases, List, Option, [], ap, arith, count, count-append, if◌then◌else◌, inl,
  inr, ltb, none, some, true, ℕ, ◌+◌, ◌<◌, ◌==◌, ◌||◌, ◌∷◌, ◌≡◌, ◌≤◌,
}
use qiskit_serverless.Models.{
  Db, Job, Status, failed, find_job, is_status_event, pending, queued, running, status_code,
  status_eq, status_eq_iff, status_event, status_in, stopped, stopping, succeeded,
}
use qiskit_serverless.Transitions.Writes.{valid_transitions}
use qiskit_serverless.Transitions.Steps.{Moved}
use qiskit_serverless.Transitions.History.{AreCalls, Visit, play, play_keeps}
use qiskit_serverless.Transitions.Monad.{Env, World}

-- How far along its life a job is.
abbrev pub level : Status → ℕ
level queued = 0
level pending = 1
level running = 2
level stopping = 3
level stopped = 4
level succeeded = 4
level failed = 4

-- Every valid transition goes up.
pub level-allowed : (s t : Status) → status_in t (valid_transitions s) ≡ true → level s < level t
unfolding valid_transitions
level-allowed s t h = ground arith

-- The status has been left behind, or is the present one.
abbrev pub passed : Status → Option Job → ℕ
passed s none = 0
passed s (some row) = if status_eq s row.status || ltb (level s) (level row.status) then 1 else 0

-- How often the history says that a job entered a status.
abbrev pub entered : Status → ℕ → Db → ℕ
entered s k d = count (is_status_event k (status_eq s)) d.events

abbrev pub EnteredOnce : Status → ℕ → Db → Type 0
EnteredOnce s k d = entered s k d ≤ passed s (find_job k d.jobs)

level_of_code : (s t : Status) → status_code s ≡ status_code t → level s ≡ level t
level_of_code s t h =
    ap level ((status_eq_iff s t).0 ((==_iff (status_code s) (status_code t)).1 h))

passed_numbers :
    (s ls f lf t lt : ℕ)
    → (s ≡ f → ls ≡ lf)
    → (s ≡ t → ls ≡ lt)
    → lf < lt
    → (if s == t then 1 else 0) + (if s == f || ltb ls lf then 1 else 0)
      ≤ (if s == t || ltb ls lt then 1 else 0)
passed_numbers s ls f lf t lt hf ht h = ground arith

passed-step :
    (s from to : Status)
    → status_in to (valid_transitions from) ≡ true
    → (if status_eq s to then 1 else 0)
        + (if status_eq s from || ltb (level s) (level from) then 1 else 0)
      ≤ (if status_eq s to || ltb (level s) (level to) then 1 else 0)
passed-step s from to h =
    passed_numbers (status_code s) (level s) (status_code from) (level from) (status_code to)
      (level to) (level_of_code s from) (level_of_code s to) (level-allowed from to h)

pub entered-event :
    (s : Status) (k : ℕ) (d d' : Db) (m : Moved d d')
    → entered s k d'
      ≡ entered s k d + (if m.key == k then (if status_eq s m.to then 1 else 0) else 0)
unfolding status_event is_status_event
entered-event s k d d' m = rw m.events_grow (
    rw
      (count-append (is_status_event k (status_eq s)) d.events
        (status_event m.key m.origin m.context m.to m.now ∷ []))
      (ground arith))

EnteredOnce-own :
    (s : Status) (d d' : Db) (m : Moved d d') → EnteredOnce s m.key d → EnteredOnce s m.key d'
EnteredOnce-own s d d' m p =
    let q : entered s m.key d ≤ passed s (some m.row) = rw m.found at p in
    rw m.found' (
      rw m.reached (
        rw (entered-event s m.key d d' m, ==_refl m.key)
          (omega (arith, q, passed-step s m.row.status m.to m.allowed))))

pub EnteredOnce-Moved :
    (s : Status) (k : ℕ) (d d' : Db) → EnteredOnce s k d → Moved d d' → EnteredOnce s k d'
EnteredOnce-Moved s k d d' p m = elim (Bool-cases (k == m.key)) [
  | inl own ↦
      let e : k ≡ m.key = (==_iff k m.key).0 own in rw e (EnteredOnce-own s d d' m (rw e at p))
  | inr other ↦
      let grown = entered-event s k d d' m in
      rw (m.others k other) (ground (arith, p, grown, other))
]

passed-le-one : (s : Status) (o : Option Job) → passed s o ≤ 1
passed-le-one s none = omega arith
passed-le-one s (some row) = ground arith

-- Over any sequence of calls, none of which is given the status among its fields, the history says
-- at most once that a job entered a status, if it did at the start, and never then for a
-- status that the row neither has nor has left behind.
pub entered_once :
    (env : Env) (vs : List Visit) (w : World) (k : ℕ) (s : Status)
    → AreCalls vs
    → EnteredOnce s k w.db
    → entered s k (play env vs w).db ≤ 1
entered_once env vs w k s calls h =
    let kept = play_keeps (EnteredOnce s k) env vs w (EnteredOnce-Moved s k) calls h in
    omega (arith, kept, passed-le-one s (find_job k (play env vs w).db.jobs))
