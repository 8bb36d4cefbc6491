-- ===== src/Transitions/Steps.antt =====
-- What the service may do to the tables, whoever calls it: the specification of a transition.
use qiskit_serverless.Base.{
  ==_refl, Bool, Bool-cases, List, Option-cases, [], all, arith, false, if◌then◌else◌, inl, inr,
  refl, some, true, ℕ, ◌++◌, ◌+◌, ◌==◌, ◌∷◌, ◌≡◌, ◌≤◌, ◌⊎◌,
}
use qiskit_serverless.Workload.{is_mirrored}
use qiskit_serverless.Faults.{Result, err, ok}
use qiskit_serverless.Models.{
  Channel, Context, Db, Field, Job, JobEvent, Origin, Status, bump_version, find_job, keeps_status,
  set_status, status_event, status_in, terminal_statuses,
}
use qiskit_serverless.Models.Laws.{set_fields-id}
use qiskit_serverless.Transitions.Monad.{World, atomic}
use qiskit_serverless.Transitions.Effects.{
  change_status_missing, change_status_rejected, change_status_valid, changed, find_job-written,
  write_fields, write_fields-status,
}
use qiskit_serverless.Transitions.Writes.{change_status, valid_transitions}
use qiskit_serverless.Transitions.Ends.{Ended}
use qiskit_serverless.Transitions.Rows.{Appended, Appended-refl, nothing, rows}

-- One job took one valid step: its row has the new status, the history has one more event that says
-- so, no other row changed, and only an end adds rows to the outbox, at most one of each channel.
pub record Moved (d d' : Db) : Type 0 where
  pub key : ℕ
  pub to : Status
  pub row : Job
  pub row' : Job
  pub origin : Origin
  pub context : Context
  pub now : ℕ
  pub found : find_job key d.jobs ≡ some row
  pub allowed : status_in to (valid_transitions row.status) ≡ true
  pub found' : find_job key d'.jobs ≡ some row'
  pub reached : row'.status ≡ to
  pub others : (k : ℕ) → (k == key) ≡ false → find_job k d'.jobs ≡ find_job k d.jobs
  pub events_grow : d'.events ≡ d.events ++ (status_event key origin context to now ∷ [])
  pub rows_grow :
      (c : Channel) (k : ℕ)
      → rows c k d'
        ≤ rows c k d + (if key == k then (if status_in to terminal_statuses then 1 else 0) else 0)
  pub rows_kept : (c : Channel) (k : ℕ) → rows c k d ≤ rows c k d'

-- A call does nothing to the tables, or it is one step of one job.
abbrev pub Step : Db → Db → Type 0
Step d d' = (d' ≡ d) ⊎ Moved d d'

-- A job is found at its key after a change, with the status that was written.
module _ (s : Status) (o : Origin) (c : Context) (fs : List Field) (w : World) (row : Job)
    (keeps : all keeps_status fs ≡ true) (found : find_job w.job.id w.db.jobs ≡ some row) where
  pub changed-found :
      find_job w.job.id (changed s o c fs row w).db.jobs
      ≡ some (bump_version (write_fields (set_status s ∷ fs) w.now row))
  changed-found = rw (find_job-written w.job.id (set_status s ∷ fs) w, ==_refl w.job.id, found) refl

  changed-others :
      (k : ℕ)
      → (k == w.job.id) ≡ false
      → find_job k (changed s o c fs row w).db.jobs ≡ find_job k w.db.jobs
  changed-others k ne = rw (find_job-written k (set_status s ∷ fs) w, ne) refl

  -- A change followed by rows of the outbox is a step.
  pub changed-Moved :
      (due : Channel → ℕ) (gone : Bool) (w' : World)
      → status_in s (valid_transitions row.status) ≡ true
      → ((d : Channel) → due d ≤ (if status_in s terminal_statuses then 1 else 0))
      → Appended due gone (changed s o c fs row w) w'
      → Moved w.db w'.db
  changed-Moved due gone w' valid bound p = record {
    key = w.job.id;
    to = s;
    row = row;
    row' = bump_version (write_fields (set_status s ∷ fs) w.now row);
    origin = o;
    context = c;
    now = w.now;
    found = found;
    allowed = valid;
    found' = rw p.jobs_kept changed-found;
    reached = write_fields-status s fs w.now row keeps;
    others = λ k ne. rw p.jobs_kept (changed-others k ne);
    events_grow = p.events_kept;
    rows_grow = λ d k.
        rw (p.added d k, set_fields-id fs (record w.job { updated = w.now; status = s }))
          (ground (arith, bound d));
    rows_kept = λ d k. rw (p.added d k) (omega arith);
  }

-- `transaction.atomic()` around a change of the status alone.
pub atomic_change-Step :
    (s : Status) (o : Origin) (c : Context) (fs : List Field) (w : World)
    → all keeps_status fs ≡ true
    → Step w.db (atomic (change_status s o c fs) w).1.db
atomic_change-Step s o c fs w keeps = elim (Option-cases (find_job w.job.id w.db.jobs)) [
  | inl missing ↦ rw (change_status_missing s o c fs w missing) (inl refl)
  | inr (row, found) ↦ elim (Bool-cases (status_in s (valid_transitions row.status))) [
    | inl valid ↦ rw (change_status_valid s o c fs w row found valid) (
        inr (
          changed-Moved s o c fs w row keeps found nothing false (changed s o c fs row w) valid
            (λ d. omega arith) (Appended-refl (changed s o c fs row w))))
    | inr rejected ↦ rw (change_status_rejected s o c fs w row found rejected) (inl refl)
  ]
]

-- An end that owes at most one row of each channel is a step.
pub Ended-Step :
    (s : Status) (o : Origin) (c : Context) (fs : List Field) (due : World → Channel → ℕ)
    (w : World) (r : Result JobEvent × World)
    → all keeps_status fs ≡ true
    → status_in s terminal_statuses ≡ true
    → ((v : World) (d : Channel) → due v d ≤ 1)
    → Ended s o c fs due w r
    → Step w.db r.1.db
Ended-Step s o c fs due w (ok e, w') keeps ends bound (row, found, valid, _, p) = inr (
    changed-Moved s o c fs w row keeps found (due (changed s o c fs row w))
      (is_mirrored w.job w.db.mirrors) w' valid (λ d. rw ends (bound (changed s o c fs row w) d)) p)
Ended-Step s o c fs due w (err e, w') keeps ends bound p = inl p
