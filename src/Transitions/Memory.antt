-- ===== src/Transitions/Memory.antt =====
-- What a job's row and history remember: an ended job stays as it is, the last status event is the
-- row's status, and the start time is written once.
use qiskit_serverless.Base.{
  ==_iff, ==_refl, Bool-cases, List, Option, [], arith, false, if◌then◌else◌, inl, inr, none, refl,
  some, sym, true, ℕ, ◌++◌, ◌==◌, ◌∙◌, ◌∷◌, ◌≡◌,
}
use qiskit_serverless.Models.{
  Channel, Db, Job, JobEvent, Status, find_job, in_terminal_state, status_change, status_data,
  status_event,
}
use qiskit_serverless.Transitions.History.{AreCalls, Visit, allowed_open, play, play_keeps}
use qiskit_serverless.Transitions.Progress.{entered, entered-event}
use qiskit_serverless.Transitions.Steps.{Moved}
use qiskit_serverless.Transitions.Rows.{rows}
use qiskit_serverless.Transitions.Monad.{Env, World}

-- A job that has ended with this row, and so many rows and events.
abbrev pub AtRest : ℕ → Job → (Channel → ℕ) → (Status → ℕ) → Db → Type 0
AtRest k row paid seen d =
    (find_job k d.jobs ≡ some row)
    × ((c : Channel) → rows c k d ≡ paid c)
    × ((s : Status) → entered s k d ≡ seen s)

row_open :
    (k : ℕ) (d d' : Db) (row : Job) (m : Moved d d')
    → (k == m.key) ≡ true
    → find_job k d.jobs ≡ some row
    → in_terminal_state row ≡ false
unfolding in_terminal_state
row_open k d d' row m own found =
    let e : k ≡ m.key = (==_iff k m.key).0 own in
    let f : some m.row ≡ some row = sym m.found ∙ rw e at found in
    let g : m.row ≡ row = cc in rw (← g) (allowed_open m.row.status m.to m.allowed)

AtRest-Moved :
    (k : ℕ) (row : Job) (paid : Channel → ℕ) (seen : Status → ℕ) (d d' : Db)
    → in_terminal_state row ≡ true
    → AtRest k row paid seen d
    → Moved d d'
    → AtRest k row paid seen d'
AtRest-Moved k row paid seen d d' ended (found, ps, ss) m = elim (Bool-cases (k == m.key)) [
  | inl own ↦ absurd (cc (row_open k d d' row m own found))
  | inr other ↦ (
    m.others k other ∙ found,
    λ c. ground (arith, ps c, other, m.rows_grow c k, m.rows_kept c k),
    λ s. entered-event s k d d' m ∙ ground (arith, ss s, other),
  )
]

-- Once a job has ended, no sequence of calls, none of which is given the status among its fields,
-- changes its row, the number of its events of any status or of its messages of any channel.
pub ended_absorbs :
    (env : Env) (vs : List Visit) (w : World) (k : ℕ) (row : Job)
    → AreCalls vs
    → find_job k w.db.jobs ≡ some row
    → in_terminal_state row ≡ true
    → AtRest k row (λ c. rows c k w.db) (λ s. entered s k w.db) (play env vs w).db
ended_absorbs env vs w k row calls found ended =
    play_keeps (AtRest k row (λ c. rows c k w.db) (λ s. entered s k w.db)) env vs w
      (λ d d'. AtRest-Moved k row (λ c. rows c k w.db) (λ s. entered s k w.db) d d' ended) calls
      (found, (λ c. refl), (λ s. refl))

-- The status of the last status event of a job.
abbrev status_said : ℕ → JobEvent → Option Status
status_said k e =
    if e.job_id == k
    then elim e.event_type [
      | status_change ↦ elim e.details [ status_data s ↦ some s | _ ↦ none ]
      | _ ↦ none
    ]
    else none

abbrev or_else : Option Status → Option Status → Option Status
or_else none o = o
or_else (some s) o = some s

abbrev pub last_status : ℕ → List JobEvent → Option Status
last_status k [] = none
last_status k (e ∷ events) = or_else (last_status k events) (status_said k e)

or_else_assoc : (a b c : Option Status) → or_else (or_else a b) c ≡ or_else a (or_else b c)
or_else_assoc none b c = refl
or_else_assoc (some s) b c = refl

last_status-append :
    (k : ℕ) (xs ys : List JobEvent)
    → last_status k (xs ++ ys) ≡ or_else (last_status k ys) (last_status k xs)
last_status-append k [] ys = ground arith
last_status-append k (e ∷ xs) ys =
    rw (last_status-append k xs ys)
      (or_else_assoc (last_status k ys) (last_status k xs) (status_said k e))

abbrev pub status_of : Option Job → Option Status
status_of none = none
status_of (some row) = some row.status

-- The history of a job ends in the status of its row.
abbrev pub Agrees : ℕ → Db → Type 0
Agrees k d = last_status k d.events ≡ status_of (find_job k d.jobs)

pub Agrees-Moved : (k : ℕ) (d d' : Db) → Agrees k d → Moved d d' → Agrees k d'
unfolding status_event
Agrees-Moved k d d' p m = elim (Bool-cases (k == m.key)) [
  | inl own ↦
      let e : k ≡ m.key = (==_iff k m.key).0 own in
      rw
        (
          m.events_grow,
          last_status-append k d.events (status_event m.key m.origin m.context m.to m.now ∷ []),
        )
        (rw e (rw (m.found', m.reached, ==_refl m.key) refl))
  | inr other ↦
      rw
        (
          m.events_grow,
          last_status-append k d.events (status_event m.key m.origin m.context m.to m.now ∷ []),
          m.others k other,
        )
        (ground (arith, p, other))
]

-- If the last status event of a job says the status of its row, it does after any sequence of calls,
-- none of which is given the status among its fields.
pub history-Agrees :
    (env : Env) (vs : List Visit) (w : World) (k : ℕ)
    → AreCalls vs
    → Agrees k w.db
    → Agrees k (play env vs w).db
history-Agrees env vs w k calls h = play_keeps (Agrees k) env vs w (Agrees-Moved k) calls h
