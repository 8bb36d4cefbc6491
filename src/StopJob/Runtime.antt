-- ===== src/StopJob/Runtime.antt =====
-- The cancellation of the Qiskit Runtime jobs that a job started. The service of the caller is what its
-- text says, and a connection to it; both are parameters, with the answers of the Runtime API.
use Prim.Native.String.{◌++◌}
use qiskit_serverless.Base.{
  Bool, List, Option, String, [], any, false, if◌then◌else◌, none, some, str_eq, true,
  ◌++◌ as list_append, ◌∷◌,
}
use qiskit_serverless.Faults.{Error, Result, err, ok, ◌>>=◌}

-- `RuntimeJob`, a row of the job that is stopped.
pub record RuntimeJob : Type 0 where
  pub runtime_job : String
  pub runtime_session : Option String

-- `job_instance.cancel()`; an invalid state is a RuntimeInvalidStateError.
pub data JobCancel : Type 0 where
  canceled invalid_state : JobCancel
  raises : Error → JobCancel

pub record RuntimeService : Type 0 where
  pub has_job : String → Result Bool
  pub cancel_session : String → Option String  -- the text of the exception, if one is raised
  pub cancel_job : String → JobCancel

-- The messages for the caller, and the sessions that were cancelled.
pub record StopReport : Type 0 where
  pub status_messages : List String
  pub stopped_sessions : List String

abbrev pub say : String → StopReport → StopReport
say text r = record r { status_messages = list_append r.status_messages (text ∷ []) }

-- `_cancel_runtime_session`
unfoldable pub cancel_runtime_session : RuntimeService → String → StopReport → StopReport
cancel_runtime_session service session r =
    if any (str_eq session) r.stopped_sessions then r else (elim (service.cancel_session session) [
      | none ↦
          let told =
            say ("Canceled runtime session: " ++ (session ++ " and associated runtime jobs.")) r in
          record told { stopped_sessions = list_append r.stopped_sessions (session ∷ []) }
      | some error ↦
          say ("Runtime session " ++ (session ++ (" could not be canceled. Exception: " ++ error)))
            r
    ])

-- `_cancel_runtime_job`
unfoldable pub cancel_runtime_job : RuntimeService → String → StopReport → Result StopReport
cancel_runtime_job service job r = elim (service.cancel_job job) [
  | canceled ↦ ok (say ("Canceled runtime job [" ++ (job ++ "].")) r)
  | invalid_state ↦
      ok (say ("Runtime job " ++ (job ++ " could not be canceled (invalid state).")) r)
  | raises e ↦ err e
]

abbrev missing_job : String → String
missing_job job =
    "Runtime job "
    ++ (job
        ++ (" not found in runtime service. "
            ++ "Check that credentials used to authenticate match."))

-- A session is cancelled as a whole.
abbrev pub cancel_found : RuntimeService → RuntimeJob → Bool → StopReport → Result StopReport
cancel_found service entry false r = ok (say (missing_job entry.runtime_job) r)
cancel_found service entry true r = elim entry.runtime_session [
  | none ↦ cancel_runtime_job service entry.runtime_job r
  | some String.[] ↦ cancel_runtime_job service entry.runtime_job r
  | some (String.◌∷◌ c s) ↦ ok (cancel_runtime_session service (String.◌∷◌ c s) r)
]

-- `_cancel_runtime_job_entry`
unfoldable pub cancel_runtime_job_entry :
    RuntimeService → RuntimeJob → StopReport → Result StopReport
unfolding cancel_runtime_session cancel_runtime_job
cancel_runtime_job_entry service entry r =
    service.has_job entry.runtime_job >>= λ found. cancel_found service entry found r

unfoldable pub cancel_entries : RuntimeService → List RuntimeJob → StopReport → Result StopReport
unfolding cancel_runtime_job_entry
cancel_entries service [] r = ok r
cancel_entries service (e ∷ es) r =
    cancel_runtime_job_entry service e r >>= λ told. cancel_entries service es told

-- The service that the caller sent: none, or one to connect to.
abbrev pub SentService : Type 0
SentService = Option (Result RuntimeService)

-- `_cancel_runtime_jobs`
unfoldable pub cancel_runtime_jobs :
    Result SentService → List RuntimeJob → StopReport → Result StopReport
unfolding cancel_entries
cancel_runtime_jobs sent entries r = sent >>= λ service. elim service [
  | none ↦ ok (say "QiskitRuntimeService not found, cannot stop runtime jobs." r)
  | some connection ↦ elim entries [
    | [] ↦ ok (say "No active runtime job ID associated with this serverless job ID." r)
    | e ∷ es ↦ connection >>= λ connected. cancel_entries connected (e ∷ es) r
  ]
]
