-- ===== src/Tests/StopJob.antt =====
-- A running job that its author stops: the first cancel is refused for its rate, the second lands.
use qiskit_serverless.Base.{
  List, String, [], false, if◌then◌else◌, none, refl, some, str_eq, true, ℕ, ◌==◌, ◌≡◌, ◌∷◌,
}
use qiskit_serverless.Base.Text.{join}
use qiskit_serverless.Access.{User, can_stop}
use qiskit_serverless.Models.{in_terminal_state, update_jobs}
use qiskit_serverless.Transitions.Methods.{stop}
use qiskit_serverless.Transitions.Writes.{update_fields, valid_transitions}
use qiskit_serverless.Faults.{err, ok, runner_retryable}
use qiskit_serverless.Transitions.Monad.{Env}
use qiskit_serverless.StopJob.{Surroundings, Refusal, execute, job_not_found, refuses, says}
use qiskit_serverless.StopJob.Runtime.{JobCancel, RuntimeJob, RuntimeService}
use qiskit_serverless.StopJob.Answers.{Interleaved, execute-Interleaved}
use qiskit_serverless.StopJob.Truth.{Answered, execute-Answered}
use qiskit_serverless.Tests.Fixtures.{quiet, running_world}

abbrev second_answers : ℕ → Env
second_answers n = record quiet {
  runner_stop = λ job. if n == 1 then err runner_retryable else ok true;
}

-- Two jobs of one session, and a job that cannot be cancelled any more.
abbrev jobs_of_runtime : List RuntimeJob
jobs_of_runtime =
    record { runtime_job = "r1"; runtime_session = some "s" }
    ∷ record { runtime_job = "r2"; runtime_session = some "s" }
    ∷ record { runtime_job = "r3"; runtime_session = none }
    ∷ []

abbrev runtime : RuntimeService
runtime = record {
  has_job = λ job. ok true;
  cancel_session = λ session. none;
  cancel_job = λ job. JobCancel.invalid_state;
}

abbrev outside : Surroundings
outside = record {
  env = second_answers;
  others = λ n db. db;
  refreshed = λ db. db;
  elapsed = λ n. 1;
  service = ok (some (ok runtime));
  runtime_jobs = jobs_of_runtime;
  ray_is_active = false;
  ray_stop = ok false;
}

-- The first cancel is slow, so that no time is left for a second.
abbrev slow_outside : Surroundings
slow_outside = record outside { elapsed = λ n. 6 }

abbrev author : User
author = record { id = 7 }

abbrev told : String
told = join " " (
    "Job is stopping." ∷ "Canceled runtime session: s and associated runtime jobs."
    ∷ "Runtime job r3 could not be canceled (invalid state)." ∷ [])

stopped_at_second : (execute outside author 1 running_world).0 ≡ says told
unfolding execute join can_stop in_terminal_state stop valid_transitions update_fields update_jobs
    str_eq
stopped_at_second = refl

too_slow : (execute slow_outside author 1 running_world).0 ≡ refuses Refusal.retry_later
unfolding execute can_stop in_terminal_state stop
too_slow = refl

stranger_finds_nothing :
    (execute outside (record { id = 8 }) 1 running_world).0 ≡ refuses job_not_found
unfolding execute can_stop
stranger_finds_nothing = refl

execute-Interleaved_example :
    Interleaved outside running_world.db (execute outside author 1 running_world).1.db
execute-Interleaved_example = execute-Interleaved outside author 1 running_world

execute-Answered_example : Answered author 1 running_world (execute outside author 1 running_world)
execute-Answered_example = execute-Answered outside author 1 running_world
