-- ===== src/Transitions/Effects.antt =====
-- What the writes of a transition do to the tables.
use qiskit_serverless.Base.{
  ==_refl, List, [], all, false, if◌then◌else◌, none, refl, some, true, ℕ, ◌++◌, ◌+◌, ◌==◌, ◌∷◌,
  ◌≡◌,
}
use qiskit_serverless.Faults.{does_not_exist, err, invalid_transition, ok}
use qiskit_serverless.Models.{
  Context, Field, Job, Origin, Status, bump_version, find_job, keeps_status, set_fields, set_status,
  set_updated, status_event, status_in, update_jobs,
}
use qiskit_serverless.Models.Laws.{find_job-update_jobs, map_job, set_fields-id, set_fields-status}
use qiskit_serverless.Transitions.Monad.{World}
use qiskit_serverless.Transitions.Writes.{change_status, update_fields, valid_transitions}

-- What `update_fields` writes to a row besides its version.
abbrev pub write_fields : List Field → ℕ → Job → Job
write_fields fields now = set_fields (set_updated now ∷ fields)

write_fields-id :
    (fs : List Field) (now : ℕ) (j : Job) → (bump_version (write_fields fs now j)).id ≡ j.id
write_fields-id fs now j = set_fields-id fs (record j { updated = now })

pub write_fields-status :
    (s : Status) (fs : List Field) (now : ℕ) (j : Job)
    → all keeps_status fs ≡ true
    → (write_fields (set_status s ∷ fs) now j).status ≡ s
write_fields-status s fs now j h = set_fields-status fs (record j { updated = now; status = s }) h

-- The job table after `update_fields`.
abbrev pub written : List Field → World → List Job
written fields w = update_jobs w.job.id (λ j. bump_version (write_fields fields w.now j)) w.db.jobs

pub find_job-written :
    (k : ℕ) (fs : List Field) (w : World)
    → find_job k (written fs w) ≡ (
        if k == w.job.id
        then map_job (λ j. bump_version (write_fields fs w.now j)) (find_job k w.db.jobs)
        else find_job k w.db.jobs)
find_job-written k fs w = find_job-update_jobs k w.job.id _ w.db.jobs (write_fields-id fs w.now)

-- The instance after `update_fields`: its version is the row's.
abbrev pub refreshed : List Field → Job → World → Job
refreshed fs row w = record (write_fields fs w.now w.job) {
  version = (write_fields fs w.now row).version + 1;
}

pub update_fields_found :
    (fs : List Field) (w : World) (row : Job)
    → find_job w.job.id w.db.jobs ≡ some row
    → update_fields fs w
      ≡ (ok tt, record w { db = record w.db { jobs = written fs w }; job = refreshed fs row w })
unfolding update_fields
update_fields_found fs w row h =
    let e : find_job w.job.id (written fs w) ≡ some (bump_version (write_fields fs w.now row)) =
      rw (find_job-written w.job.id fs w, ==_refl w.job.id, h) refl in
    rw e refl

-- The world after a change of the status that was accepted.
abbrev pub changed : Status → Origin → Context → List Field → Job → World → World
changed s origin context fields row w = record w {
  db = record w.db {
    jobs = written (set_status s ∷ fields) w;
    events = w.db.events ++ (status_event w.job.id origin context s w.now ∷ []);
  };
  job = refreshed (set_status s ∷ fields) row w;
}

-- The change is made exactly when the fresh row allows it.
pub change_status_valid :
    (s : Status) (o : Origin) (c : Context) (fs : List Field) (w : World) (row : Job)
    → find_job w.job.id w.db.jobs ≡ some row
    → status_in s (valid_transitions row.status) ≡ true
    → change_status s o c fs w ≡ (ok (status_event w.job.id o c s w.now), changed s o c fs row w)
unfolding change_status
change_status_valid s o c fs w row h v =
    let w1 : World = record w {
      db = record w.db { events = w.db.events ++ (status_event w.job.id o c s w.now ∷ []) };
    } in
    rw h (rw v (rw (update_fields_found (set_status s ∷ fs) w1 row h)))

pub change_status_rejected :
    (s : Status) (o : Origin) (c : Context) (fs : List Field) (w : World) (row : Job)
    → find_job w.job.id w.db.jobs ≡ some row
    → status_in s (valid_transitions row.status) ≡ false
    → change_status s o c fs w ≡ (err (invalid_transition row.status s), w)
unfolding change_status
change_status_rejected s o c fs w row h v = rw h (rw v)

pub change_status_missing :
    (s : Status) (o : Origin) (c : Context) (fs : List Field) (w : World)
    → find_job w.job.id w.db.jobs ≡ none
    → change_status s o c fs w ≡ (err does_not_exist, w)
unfolding change_status
change_status_missing s o c fs w h = rw h
