-- ===== src/Queries.antt =====
-- The lists of jobs that the API answers with: gateway/core/model_managers/jobs.py. The order in which the
-- database returns rows is an argument, since rows with one time of creation may come in any order.
pub mod Pages
use qiskit_serverless.Base.{
  Bool, List, Option, String, [], any, drop, false, filter, if◌then◌else◌, is_some, leb, length,
  ltb, none, nonempty, not, opt_str_eq, some, str_eq, suc, take, true, truthy, zero, ℕ, ◌&&◌, ◌+◌,
  ◌-◌, ◌==◌, ◌∷◌,
}
use qiskit_serverless.Models.{Job, Provider, Status, status_eq}

-- gateway/core/enums/type_filter.py
pub data TypeFilter : Type 0 where
  catalog serverless : TypeFilter

pub record JobFilters : Type 0 where
  pub function : Option String
  pub functions : List String
  pub provider : Option String
  pub limit : Option ℕ
  pub offset : Option ℕ
  pub type_filter : Option TypeFilter
  pub status : Option Status
  pub created_after : Option ℕ

abbrev job_provider : Job → Option Provider
job_provider job = elim job.program [ none ↦ none | some program ↦ program.provider ]

abbrev job_title : Job → Option String
job_title job = elim job.program [ none ↦ none | some program ↦ some program.title ]

-- `match filters.filter`; a job without a function is of no provider.
unfoldable pub of_type : Option TypeFilter → Job → Bool
of_type none job = true
of_type (some catalog) job = is_some (job_provider job)
of_type (some serverless) job = not (is_some (job_provider job))

unfoldable pub of_provider : Option String → Job → Bool
of_provider none job = true
of_provider (some name) job =
    if nonempty name
    then elim (job_provider job) [ none ↦ false | some provider ↦ str_eq provider.name name ]
    else true

abbrev pub of_status : Option Status → Job → Bool
of_status none job = true
of_status (some status) job = status_eq job.status status

abbrev pub created_from : Option ℕ → Job → Bool
created_from none job = true
created_from (some time) job = leb time job.created

abbrev has_title : List String → Option String → Bool
has_title titles none = false
has_title titles (some title) = any (str_eq title) titles

-- One title, or else any of several.
unfoldable pub of_function : Option String → List String → Job → Bool
of_function function functions job =
    if truthy function
    then opt_str_eq (job_title job) function
    else elim functions [ [] ↦ true | title ∷ titles ↦ has_title (title ∷ titles) (job_title job) ]

-- `_apply_filters`
unfoldable pub apply_filters : JobFilters → List Job → List Job
unfolding of_type of_provider of_function
apply_filters filters jobs =
    let typed = filter (of_type filters.type_filter) jobs in
    let provided = filter (of_provider filters.provider) typed in
    let in_status = filter (of_status filters.status) provided in
    let recent = filter (created_from filters.created_after) in_status in
    filter (of_function filters.function filters.functions) recent

abbrev pub or_zero : Option ℕ → ℕ
or_zero none = 0
or_zero (some n) = n

-- `queryset[start:end]`, where there may be no end.
abbrev pub slice_jobs : ℕ → Option ℕ → List Job → List Job
slice_jobs start none jobs = drop start jobs
slice_jobs start (some end) jobs = take (end - start) (drop start jobs)

abbrev pub page_end : ℕ → Option ℕ → Option ℕ
page_end start none = none
page_end start (some zero) = none
page_end start (some (suc n)) = some (start + suc n)

-- `_paginate_queryset`
unfoldable pub paginate_queryset : Option ℕ → Option ℕ → List Job → List Job × ℕ
paginate_queryset limit offset jobs =
    let total_count = length jobs in
    let start = or_zero offset in
    if leb total_count start && ltb 0 total_count
    then ([], total_count)
    else (slice_jobs start (page_end start limit) jobs, total_count)

abbrev pub of_user : Option ℕ → Job → Bool
of_user none job = true
of_user (some user) job = job.author_id == user

-- `user_jobs_page`
unfoldable pub user_jobs_page :
    (List Job → List Job) → Option ℕ → Option JobFilters → List Job → List Job × ℕ
unfolding apply_filters paginate_queryset
user_jobs_page order user none jobs =
    paginate_queryset (some 20) (some 0) (filter (of_user user) (order jobs))
user_jobs_page order user (some filters) jobs =
    paginate_queryset filters.limit filters.offset
      (apply_filters filters (filter (of_user user) (order jobs)))
