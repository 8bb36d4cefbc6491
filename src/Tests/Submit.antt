-- ===== src/Tests/Submit.antt =====
-- Submits of a queued job, with a runner that creates a fleet and with one that gets no answer.
use qiskit_serverless.Base.{Option, String, [], none, refl, ◌∷◌}
use qiskit_serverless.Breaker.{CircuitBreaker, Settings, is_open}
use qiskit_serverless.Submit.{SubmitState, submit_fleet, submit_paused}
use qiskit_serverless.Faults.{ok}
use qiskit_serverless.Tests.Fixtures.{billed, quiet, tables, world}
use qiskit_serverless.Submit.Laws.{Admitted, submit_keeps_fleet}
use qiskit_serverless.Models.{Job, find_job, queued, schedule_jobs, stopped}
use qiskit_serverless.Fleets.{paused}

abbrev limits : Settings
limits = record { failure_threshold = 3; pause = 60 }

abbrev queued_job : Job
queued_job = billed 1 queued none

abbrev fresh : Option String → CircuitBreaker
fresh region = record { consecutive_failures = 0; opened_at = none }

-- The row was stopped after the caller read it.
abbrev submitting : SubmitState
submitting = record {
  fleets = record {
    world = world (tables (billed 1 stopped none ∷ []) []) queued_job;
    breakers = fresh;
    counted = 0;
  };
  cos = fresh;
}

submit_keeps_fleet_example : Admitted "f9" (billed 1 stopped none) (
    find_job 1
      (submit_fleet quiet limits (λ job. ok "f9") schedule_jobs submitting).1.fleets.world.db.jobs)
unfolding submit_paused is_open paused
submit_keeps_fleet_example =
    submit_keeps_fleet quiet limits (λ job. ok "f9") schedule_jobs submitting "f9"
      (billed 1 stopped none) refl refl refl
