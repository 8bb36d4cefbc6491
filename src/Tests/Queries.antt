-- ===== src/Tests/Queries.antt =====
-- The pages of a user's jobs.
use qiskit_serverless.Base.{List, [], arith, length, map, none, refl, some, str_eq, ◌∷◌, ◌≡◌}
use qiskit_serverless.Queries.{
  JobFilters, catalog, of_function, of_provider, of_type, user_jobs_page,
}
use qiskit_serverless.Tests.Fixtures.{billed}
use qiskit_serverless.Models.{Job, pending, running, succeeded}
use qiskit_serverless.Queries.Pages.{first_pages, matching, page, pages_cover}

abbrev everything : JobFilters
everything = record {
  function = none;
  functions = [];
  provider = some "ibm";
  limit = none;
  offset = none;
  type_filter = some catalog;
  status = none;
  created_after = none;
}

abbrev three_jobs : List Job
three_jobs =
    billed 1 pending none
    ∷ billed 2 running none
    ∷ record (billed 3 running none) { program = none }
    ∷ billed 4 succeeded none
    ∷ []

pages_cover_example :
    (first_pages (λ jobs. jobs) (some 7) everything 2 three_jobs 2
      ≡ matching (λ jobs. jobs) (some 7) everything 2 three_jobs)
    × ((page (λ jobs. jobs) (some 7) everything 2 three_jobs 2).1
        ≡ length (matching (λ jobs. jobs) (some 7) everything 2 three_jobs))
unfolding of_type of_provider str_eq of_function
pages_cover_example =
    pages_cover (λ jobs. jobs) (some 7) everything 2 three_jobs 2 (omega arith) (omega arith)

-- The job without a function is of no provider.
second_page :
    map (λ job. job.id) (page (λ jobs. jobs) (some 7) everything 2 three_jobs 1).0 ≡ 4 ∷ []
unfolding user_jobs_page str_eq
second_page = refl
