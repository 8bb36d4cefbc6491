-- ===== src/Tests/Schedule.antt =====
-- A tick over three queued jobs of one project, which has room for one more fleet.
use qiskit_serverless.Base.{
  Bool, Option, String, [], count, false, length, min, none, opt_str_eq, refl, some, str_eq, true,
  ℕ, ◌-◌, ◌∷◌, ◌≡◌, ◌≤◌,
}
use qiskit_serverless.Breaker.{CircuitBreaker, Settings}
use qiskit_serverless.Submit.{SubmitState}
use qiskit_serverless.Schedule.{
  Tick, count_project, has_room, running_fleets, schedule_each, schedule_fleets_jobs, take_fleet,
}
use qiskit_serverless.Faults.{Result, ok}
use qiskit_serverless.Tests.Fixtures.{billed, program, quiet, tables, world}
use qiskit_serverless.Models.{CodeEngineProject, Job, queued}
use qiskit_serverless.Schedule.Limits.{tick_limits}
use qiskit_serverless.Schedule.Regions.{skipped_region_waits}
use qiskit_serverless.Schedule.Quota.{Accounted, of_project}

abbrev tick_limits_of : Settings
tick_limits_of = record { failure_threshold = 3; pause = 60 }

abbrev small_project : CodeEngineProject
small_project = record {
  id = 4;
  project_name = "p4";
  region = "us-east";
  active = true;
  cos_bucket_user_data_name = none;
}

abbrev queued_of : ℕ → ℕ → Job
queued_of id author = record (billed id queued none) {
  author_id = author;
  program = some (record program { code_engine_project = some small_project });
}

abbrev unbroken : Option String → CircuitBreaker
unbroken region = record { consecutive_failures = 0; opened_at = none }

abbrev waiting_jobs : SubmitState
waiting_jobs = record {
  fleets = record {
    world = world (tables (queued_of 1 7 ∷ queued_of 2 8 ∷ queued_of 3 9 ∷ []) []) (queued_of 1 7);
    breakers = unbroken;
    counted = 0;
  };
  cos = unbroken;
}

abbrev four_held : CodeEngineProject → Option ℕ
four_held project = some 4

abbrev tick : Result (Unit {0}) × Tick
tick =
    schedule_fleets_jobs quiet tick_limits_of (λ job. ok "f9") four_held 5 (λ text. true)
      (λ job. false) false 10 6 2 (λ job. false) waiting_jobs

tick_limits_example :
    (length tick.1.submitted
      ≤ min
          (10
            - running_fleets quiet tick_limits_of
                (λ job. ok "f9")
                four_held
                5
                (λ text. true)
                (λ job. false)
                waiting_jobs.fleets.world.db.jobs)
          6)
    × Accounted four_held 5 4 (tick.1.free_fleets 4) (count (of_project 4) tick.1.submitted)
tick_limits_example =
    tick_limits quiet tick_limits_of (λ job. ok "f9") four_held 5 (λ text. true) (λ job. false)
      false 10 6 2 (λ job. false) waiting_jobs 4

-- Room for one, and after it none.
room_for_one :
    ◌≡◌ {A = Bool × Bool}
      (
        has_room (some small_project) (count_project four_held 5 (some small_project) (λ k. none)),
        has_room (some small_project) (
            take_fleet
              (some small_project)
              (count_project four_held 5 (some small_project) (λ k. none))),
      )
      (true, false)
unfolding has_room take_fleet count_project
room_for_one = refl

abbrev skipping : Tick
skipping = record {
  submitter = waiting_jobs;
  skipped_regions = some "us-east" ∷ [];
  free_fleets = λ k. none;
  submitted = [];
}

skipped_region_waits_example :
    count
      (λ job. opt_str_eq job.ce_region (some "us-east"))
      (schedule_each quiet tick_limits_of
        (λ job. ok "f9")
        four_held
        5
        (λ text. true)
        (λ job. false)
        (queued_of 1 7 ∷ queued_of 2 8 ∷ [])
        skipping).1.submitted
    ≡ 0
unfolding str_eq
skipped_region_waits_example =
    skipped_region_waits quiet tick_limits_of (λ job. ok "f9") four_held 5 (λ text. true)
      (λ job. false) (queued_of 1 7 ∷ queued_of 2 8 ∷ []) skipping (some "us-east") refl
