-- ===== src/Transitions/Start.antt =====
-- The start time of a job: it is written once, by the one step into RUNNING.
use qiskit_serverless.Base.{
  Bool, Bool-cases, List, [], arith, count, filter, inl, inr, none, refl, some, sym, true, ℕ, ◌<◌,
  ◌∙◌, ◌∷◌, ◌≡◌, ◌≤◌,
}
use qiskit_serverless.Models.{
  Db, JobEvent, first_by_created, first_running_at, is_status_event, running, status_eq,
  status_eq_iff, status_event,
}
use qiskit_serverless.Models.Laws.{first_running_at-append}
use qiskit_serverless.Transitions.History.{AreCalls, Visit, play, play_keeps}
use qiskit_serverless.Transitions.Monad.{Env, World}
use qiskit_serverless.Transitions.Progress.{
  EnteredOnce, EnteredOnce-Moved, entered, level, level-allowed, passed,
}
use qiskit_serverless.Transitions.Steps.{Moved}

abbrev NoRuns : ℕ → Db → Type 0
NoRuns k d = entered running k d ≡ 0

filter_empty :
    (p : JobEvent → Bool) (events : List JobEvent) → count p events ≡ 0 → filter p events ≡ []
filter_empty p [] h = refl
filter_empty p (e ∷ events) h = elim (Bool-cases (p e)) [
  | inl own ↦ absurd (ground (arith, h, own))
  | inr other ↦ rw other (filter_empty p events (ground (arith, h, other)))
]

-- A job that never entered RUNNING has no start time.
never_ran : (k : ℕ) (d : Db) → NoRuns k d → first_running_at k d.events ≡ none
unfolding first_running_at first_by_created
never_ran k d h = rw (filter_empty (is_status_event k (status_eq running)) d.events h)

-- The row's status tells that it never ran before a step into RUNNING.
abbrev Started : ℕ → ℕ → Db → Type 0
Started k t d = EnteredOnce running k d × (first_running_at k d.events ≡ some t)

NoRuns-before :
    (d d' : Db) (m : Moved d d')
    → EnteredOnce running m.key d
    → status_eq running m.to ≡ true
    → NoRuns m.key d
NoRuns-before d d' m p h =
    let q : entered running m.key d ≤ passed running (some m.row) = rw m.found at p in
    let e : m.to ≡ running = sym ((status_eq_iff running m.to).0 h) in
    let a : level m.row.status < level running =
      rw e at (level-allowed m.row.status m.to m.allowed) in
    ground (arith, q, a)

Started-Moved : (k t : ℕ) (d d' : Db) → Started k t d → Moved d d' → Started k t d'
unfolding status_event is_status_event
Started-Moved k t d d' (once, began) m = (
  EnteredOnce-Moved running k d d' once m,
  rw m.events_grow
      (elim (Bool-cases (
        is_status_event k (status_eq running) (status_event m.key m.origin m.context m.to m.now))) [
          | inr quiet ↦
              first_running_at-append k d.events (status_event m.key m.origin m.context m.to m.now)
                quiet
              ∙ began
          | inl again ↦ absurd (never_again (again_key again) (again_to again))
        ]),
)
  where
    again_key :
        is_status_event k (status_eq running) (status_event m.key m.origin m.context m.to m.now)
          ≡ true
        → k ≡ m.key
    again_key h = ground (arith, h)

    again_to :
        is_status_event k (status_eq running) (status_event m.key m.origin m.context m.to m.now)
          ≡ true
        → status_eq running m.to ≡ true
    again_to h = ground (arith, h)

    never_again : k ≡ m.key → status_eq running m.to ≡ true → ⊥
    never_again e h =
        let before : NoRuns k d = rw e (NoRuns-before d d' m (rw e at once) h) in
        cc (never_ran k d before, began)

-- The start time of a job, once it has one, never changes over any sequence of calls, none of which
-- is given the status among its fields, if the history enters RUNNING at most once as the row says.
pub start_kept :
    (env : Env) (vs : List Visit) (w : World) (k t : ℕ)
    → AreCalls vs
    → EnteredOnce running k w.db
    → first_running_at k w.db.events ≡ some t
    → first_running_at k (play env vs w).db.events ≡ some t
start_kept env vs w k t calls once h =
    (play_keeps (Started k t) env vs w (Started-Moved k t) calls (once, h)).1
