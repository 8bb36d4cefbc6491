-- ===== src/StopJob/Texts.antt =====
-- The text of a reply begins with the first message of its request, whatever the Runtime API answers.
use Prim.Native.String.{◌++◌}
use mathlib.Core.Path.{subst}
use qiskit_serverless.Base.{
  Bool, Bool-cases, List, Option, String, [], any, ap, false, if◌then◌else◌, inl, inr, none, refl,
  some, sym, str_eq, true, ◌++◌ as list_append, ◌∷◌, ◌≡◌,
}
use qiskit_serverless.Base.Text.{join}
use qiskit_serverless.Faults.{Result, err, is_runner_error, ok, ◌>>=◌}
use qiskit_serverless.Models.{Job, is_fleets}
use qiskit_serverless.StopJob.{
  Reply, Surroundings, answer, finish_stop, nothing_said, refuses, says, status_message,
  stop_ray_job_if_active,
}
use qiskit_serverless.StopJob.Runtime.{
  JobCancel, RuntimeJob, RuntimeService, SentService, StopReport, cancel_entries, cancel_found,
  cancel_runtime_job, cancel_runtime_job_entry, cancel_runtime_jobs, cancel_runtime_session,
  canceled, invalid_state, raises, say,
}

-- The text is the messages of a request, this one first.
abbrev pub Begins : String → String → Type 0
Begins first text = (more : List String) × (text ≡ join " " (first ∷ more))

module _ (first : String) where
  abbrev Heads : StopReport → Type 0
  Heads r = (more : List String) × (r.status_messages ≡ first ∷ more)

  abbrev pub IfReported : Result StopReport → Type 0
  IfReported (ok r) = Heads r
  IfReported (err e) = Unit

  say-Heads : (text : String) (r : StopReport) → Heads r → Heads (say text r)
  say-Heads text r (more, e) = (list_append more (text ∷ []), ap (λ l. list_append l (text ∷ [])) e)

  bind-IfReported :
      {A : Type 0} (r : Result A) (k : A → Result StopReport)
      → ((a : A) → IfReported (k a))
      → IfReported (r >>= k)
  bind-IfReported (ok a) k h = h a
  bind-IfReported (err e) k h = tt

  then-IfReported :
      (r : Result StopReport) (k : StopReport → Result StopReport)
      → IfReported r
      → ((s : StopReport) → Heads s → IfReported (k s))
      → IfReported (r >>= k)
  then-IfReported (ok s) k h step = step s h
  then-IfReported (err e) k h step = tt

  session-Heads :
      (service : RuntimeService) (session : String) (r : StopReport)
      → Heads r
      → Heads (cancel_runtime_session service session r)
  unfolding cancel_runtime_session
  session-Heads service session r h = elim (Bool-cases (any (str_eq session) r.stopped_sessions)) [
    | inl done ↦ rw done h
    | inr new ↦ rw new (told (service.cancel_session session))
  ]
    where
      told :
          (o : Option String)
          → Heads (elim o [
            | none ↦
                let told =
                  say
                    ("Canceled runtime session: " ++ (session ++ " and associated runtime jobs."))
                    r in
                record told { stopped_sessions = list_append r.stopped_sessions (session ∷ []) }
            | some error ↦
                say
                  ("Runtime session "
                    ++ (session ++ (" could not be canceled. Exception: " ++ error)))
                  r
          ])
      told none = say-Heads _ r h
      told (some error) = say-Heads _ r h

  job-IfReported :
      (service : RuntimeService) (job : String) (r : StopReport)
      → Heads r
      → IfReported (cancel_runtime_job service job r)
  unfolding cancel_runtime_job
  job-IfReported service job r h = told (service.cancel_job job)
    where
      told :
          (c : JobCancel)
          → IfReported (elim c [
            | canceled ↦ ok (say ("Canceled runtime job [" ++ (job ++ "].")) r)
            | invalid_state ↦
                ok (say ("Runtime job " ++ (job ++ " could not be canceled (invalid state).")) r)
            | raises e ↦ err e
          ])
      told canceled = say-Heads _ r h
      told invalid_state = say-Heads _ r h
      told (raises e) = tt

  found-IfReported :
      (service : RuntimeService) (job : String) (session : Option String) (found : Bool)
      (r : StopReport)
      → Heads r
      → IfReported
          (cancel_found service (record { runtime_job = job; runtime_session = session }) found r)
  found-IfReported service job session false r h = say-Heads _ r h
  found-IfReported service job none true r h = job-IfReported service job r h
  found-IfReported service job (some String.[]) true r h = job-IfReported service job r h
  found-IfReported service job (some (String.◌∷◌ c s)) true r h =
      session-Heads service (String.◌∷◌ c s) r h

  entries-IfReported :
      (service : RuntimeService) (entries : List RuntimeJob) (r : StopReport)
      → Heads r
      → IfReported (cancel_entries service entries r)
  unfolding cancel_entries cancel_runtime_job_entry
  entries-IfReported service [] r h = h
  entries-IfReported service (e ∷ es) r h =
      then-IfReported (service.has_job e.runtime_job >>= λ found. cancel_found service e found r)
        (λ told. cancel_entries service es told)
        (bind-IfReported (service.has_job e.runtime_job) (λ found. cancel_found service e found r)
          (λ found. found-IfReported service e.runtime_job e.runtime_session found r h))
        (λ told heads. entries-IfReported service es told heads)

  runtime_jobs-IfReported :
      (sent : Result SentService) (entries : List RuntimeJob) (r : StopReport)
      → Heads r
      → IfReported (cancel_runtime_jobs sent entries r)
  unfolding cancel_runtime_jobs
  runtime_jobs-IfReported (err e) entries r h = tt
  runtime_jobs-IfReported (ok none) entries r h = say-Heads _ r h
  runtime_jobs-IfReported (ok (some connection)) [] r h = say-Heads _ r h
  runtime_jobs-IfReported (ok (some connection)) (e ∷ es) r h =
      bind-IfReported connection (λ connected. cancel_entries connected (e ∷ es) r)
        (λ connected. entries-IfReported connected (e ∷ es) r h)

  -- A reply that is a text begins with the message.
  abbrev pub IfBegins : Reply → Type 0
  IfBegins (says text) = Begins first text
  IfBegins (refuses x) = Unit

  module _ (out : Surroundings) where
    ray-IfReported : (r : StopReport) → Heads r → IfReported (stop_ray_job_if_active out r)
    unfolding stop_ray_job_if_active
    ray-IfReported r h = elim (Bool-cases out.ray_is_active) [
      | inr idle ↦ rw idle h
      | inl active ↦ rw active (told out.ray_stop)
    ]
      where
        told :
            (b : Result Bool)
            → IfReported (elim b [
              | ok true ↦ ok (say "Serverless job stop has been requested." r)
              | ok false ↦ ok (say "Serverless job was already stopping or no longer running." r)
              | err e ↦
                  if is_runner_error e
                  then ok (say "Serverless job was not accessible." r)
                  else err e
            ])
        told (ok true) = say-Heads _ r h
        told (ok false) = say-Heads _ r h
        told (err e) = elim (Bool-cases (is_runner_error e)) [
          | inl y ↦ rw y (say-Heads _ r h)
          | inr n ↦ rw n tt
        ]

    answer-IfBegins : (r : Result StopReport) → IfReported r → IfBegins (answer out r)
    answer-IfBegins (ok r) (more, e) = (more, ap (join " ") e)
    answer-IfBegins (err e) h = tt

    said-IfReported :
        IfReported (cancel_runtime_jobs out.service out.runtime_jobs (say first (nothing_said out)))
    said-IfReported = runtime_jobs-IfReported out.service out.runtime_jobs _ ([], refl)

    pub already-IfBegins : IfBegins (
        answer out
          (cancel_runtime_jobs out.service out.runtime_jobs (say first (nothing_said out))))
    already-IfBegins = answer-IfBegins _ said-IfReported

    pub finished-IfBegins :
        (job : Job) → status_message out job.status ≡ first → IfBegins (finish_stop out job)
    unfolding finish_stop
    finished-IfBegins job e =
        subst
          (λ m. IfBegins (
            answer out (
              cancel_runtime_jobs out.service out.runtime_jobs (say m (nothing_said out)) >>= λ r.
              if is_fleets job.runner then ok r else stop_ray_job_if_active out r)))
          (sym e)
          (answer-IfBegins _ (
            then-IfReported
              (cancel_runtime_jobs out.service out.runtime_jobs (say first (nothing_said out)))
              (λ r. if is_fleets job.runner then ok r else stop_ray_job_if_active out r)
              said-IfReported
              (λ r h. elim (Bool-cases (is_fleets job.runner)) [
                | inl y ↦ rw y h
                | inr n ↦ rw n (ray-IfReported r h)
              ])))
