-- ===== src/Transitions/Rows.antt =====
-- The rows of the outbox that a transition adds, counted by channel and job.
use qiskit_serverless.Base.{
  Bool, List, [], ap, arith, count, count-append, false, filter, if◌then◌else◌, not, refl, ℕ, ◌&&◌,
  ◌+◌, ◌==◌, ◌∙◌, ◌∷◌, ◌≡◌,
}
use qiskit_serverless.Models.{Channel, Db, Job, Outbox, Payload, channel_eq}
use qiskit_serverless.Transitions.Monad.{World}
use qiskit_serverless.Transitions.Writes.{create_outbox, new_outbox_row}

abbrev pub is_row_of : Channel → ℕ → Outbox → Bool
is_row_of c k r = channel_eq r.channel c && r.job_id == k

-- How many rows of a channel the outbox holds for a job.
abbrev pub rows : Channel → ℕ → Db → ℕ
rows c k d = count (is_row_of c k) d.outbox

-- One row of one channel.
abbrev pub one : Channel → Channel → ℕ
one d c = if channel_eq d c then 1 else 0

abbrev pub nothing : Channel → ℕ
nothing c = 0

-- The mirror table without a job.
abbrev pub mirrors_without : ℕ → List ℕ → List ℕ
mirrors_without k mirrors = filter (λ id. not (id == k)) mirrors

-- From one world to the next only rows of the instance's job were added, as many as stated, and
-- the job left the mirror table if `gone` says so.
pub record Appended (owed : Channel → ℕ) (gone : Bool) (w w' : World) : Type 0 where
  pub jobs_kept : w'.db.jobs ≡ w.db.jobs
  pub events_kept : w'.db.events ≡ w.db.events
  pub mirrors_kept :
      w'.db.mirrors ≡ (if gone then mirrors_without w.job.id w.db.mirrors else w.db.mirrors)
  pub job_kept : w'.job ≡ w.job
  pub now_kept : w'.now ≡ w.now
  pub added :
      (c : Channel) (k : ℕ) → rows c k w'.db ≡ rows c k w.db + (if w.job.id == k then owed c else 0)

pub Appended-refl : (w : World) → Appended nothing false w w
Appended-refl w = record {
  jobs_kept = refl;
  events_kept = refl;
  mirrors_kept = refl;
  job_kept = refl;
  now_kept = refl;
  added = λ c k. ground arith;
}

pub Appended-trans :
    {f g : Channel → ℕ} {gone : Bool} {w w' w'' : World}
    → Appended f false w w'
    → Appended g gone w' w''
    → Appended (λ c. f c + g c) gone w w''
Appended-trans {f} {g} {gone} {w} {w'} {w''} p q = record {
  jobs_kept = q.jobs_kept ∙ p.jobs_kept;
  events_kept = q.events_kept ∙ p.events_kept;
  mirrors_kept =
      let e : w'.job.id ≡ w.job.id = ap (λ (j : Job). j.id) p.job_kept in
      rw (q.mirrors_kept, p.mirrors_kept, e) refl;
  job_kept = q.job_kept ∙ p.job_kept;
  now_kept = q.now_kept ∙ p.now_kept;
  added = λ c k.
      let e : w'.job.id ≡ w.job.id = ap (λ (j : Job). j.id) p.job_kept in
      rw (q.added c k, p.added c k, e) (ground arith);
}

pub create_outbox-Appended :
    (c : Channel) (p : Payload) (w : World) → Appended (one c) false w (create_outbox c p w).1
unfolding create_outbox
create_outbox-Appended c p w = record {
  jobs_kept = refl;
  events_kept = refl;
  mirrors_kept = refl;
  job_kept = refl;
  now_kept = refl;
  added = λ d k.
      rw
        (count-append (is_row_of d k) w.db.outbox
          (new_outbox_row w.job c p w.now w.db.next_pk ∷ []))
        (ground arith);
}
