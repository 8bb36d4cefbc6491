-- ===== src/Schedule/Ticks.antt =====
-- What a tick does with the jobs that it is offered.
use qiskit_serverless.Base.{
  Bool, Bool-cases, List, Option, String, [], arith, false, inl, inr, refl, true, ℕ, ◌++◌, ◌∷◌, ◌≡◌,
  ◌⊎◌,
}
use qiskit_serverless.Breaker.{Settings}
use qiskit_serverless.Submit.{SubmitState, submit_fleet, submit_paused}
use qiskit_serverless.Schedule.{
  FreeFleets, Tick, after_submit, count_project, counted_project, enter_job, has_room, is_skipped,
  next_job, schedule_each, schedule_job, skip_region, take_fleet,
}
use qiskit_serverless.Faults.{Result, err, is_retryable, ok}
use qiskit_serverless.Models.{CodeEngineProject, Job, schedule_jobs}
use qiskit_serverless.Transitions.Monad.{Env}

module _ (env : Env) (settings : Settings) (runner_submit : Job → Result String)
    (count_fleets : CodeEngineProject → Option ℕ) (quota : ℕ) (env_parses : String → Bool)
    (killed : Job → Bool) where
  abbrev pub counted : Job → Tick → FreeFleets
  counted job t = count_project count_fleets quota (counted_project job) t.free_fleets

  -- A turn that submitted nothing.
  pub record Passed (job : Job) (t t' : Tick) : Type 0 where
    pub same_submitted : t'.submitted ≡ t.submitted
    pub free_known : (t'.free_fleets ≡ t.free_fleets) ⊎ (t'.free_fleets ≡ counted job t)
    pub still_skipped : (r : Option String) → is_skipped t r ≡ true → is_skipped t' r ≡ true

  -- A turn that submitted the job.
  pub record Sent (job : Job) (t t' : Tick) : Type 0 where
    pub now_submitted : t'.submitted ≡ t.submitted ++ (job ∷ [])
    pub open_region : is_skipped t job.ce_region ≡ false
    pub had_room : has_room (counted_project job) (counted job t) ≡ true
    pub one_less : t'.free_fleets ≡ take_fleet (counted_project job) (counted job t)
    pub same_skipped : t'.skipped_regions ≡ t.skipped_regions

  abbrev pub Turn : Job → Tick → Tick → Type 0
  Turn job t t' = Passed job t t' ⊎ Sent job t t'

  more_skipped :
      (t : Tick) (region r : Option String)
      → is_skipped t r ≡ true
      → is_skipped (skip_region region t) r ≡ true
  more_skipped t region r h = ground (arith, h)

  submitted-Turn :
      (job : Job) (t : Tick) (v : SubmitState)
      → is_skipped t job.ce_region ≡ false
      → has_room (counted_project job) (counted job t) ≡ true
      → (r : Result (Unit {0}) × SubmitState)
      → Turn job t
          (after_submit job
            (counted_project job)
            (record t { submitter = v; free_fleets = counted job t })
            r).1
  unfolding after_submit
  submitted-Turn job t v open_region room_left (ok a, st) = inr (record {
    now_submitted = refl;
    open_region = open_region;
    had_room = room_left;
    one_less = refl;
    same_skipped = refl;
  })
  submitted-Turn job t v open_region room_left (err e, st) = elim (Bool-cases (is_retryable e)) [
    | inl again ↦ rw again (
        inl (record {
          same_submitted = refl;
          free_known = inr refl;
          still_skipped = λ r h. ground (arith, h);
        }))
    | inr final ↦
        rw final
          (inl (record { same_submitted = refl; free_known = inr refl; still_skipped = λ r h. h }))
  ]

  -- The turn of a job.
  pub schedule_job-Turn :
      (job : Job) (t : Tick)
      → Turn job t
          (schedule_job env settings runner_submit count_fleets quota env_parses killed job t).1
  unfolding schedule_job
  schedule_job-Turn job t =
      let asked = submit_paused settings job.ce_region (enter_job job t.submitter) in
      elim (Bool-cases (is_skipped t job.ce_region)) [
        | inl skipped ↦ rw skipped (
            inl (record { same_submitted = refl; free_known = inl refl; still_skipped = λ r h. h }))
        | inr open_region ↦ elim (Bool-cases asked.0) [
          | inl is_paused ↦
              rw (open_region, is_paused)
                (inl (record {
                  same_submitted = refl;
                  free_known = inl refl;
                  still_skipped = λ r h. more_skipped t job.ce_region r h;
                }))
          | inr working ↦ elim (Bool-cases (has_room (counted_project job) (counted job t))) [
            | inr full ↦
                rw (open_region, working, full)
                  (inl (record {
                    same_submitted = refl;
                    free_known = inr refl;
                    still_skipped = λ r h. h;
                  }))
            | inl room_left ↦ elim (Bool-cases (env_parses job.env_vars)) [
              | inr bad ↦
                  rw (open_region, working, room_left, bad)
                    (inl (record {
                      same_submitted = refl;
                      free_known = inr refl;
                      still_skipped = λ r h. h;
                    }))
              | inl good ↦
                  rw (open_region, working, room_left, good)
                    (submitted-Turn job t asked.1 open_region room_left
                      (submit_fleet env settings runner_submit schedule_jobs asked.1))
            ]
          ]
        ]
      ]

  -- A property that every turn keeps is kept by the loop.
  module _ (R : Tick → Type 0) (keep : (job : Job) (t t' : Tick) → R t → Turn job t t' → R t') where
    next-kept :
        (r : Result (Unit {0}) × Tick) (jobs : List Job)
        → R r.1
        → ((t : Tick)
            → R t
            → R
                (schedule_each env settings runner_submit count_fleets quota env_parses killed jobs
                  t).1)
        → R
            (next_job env settings runner_submit count_fleets quota env_parses killed r (
              schedule_each env settings runner_submit count_fleets quota env_parses killed jobs)).1
    next-kept (ok a, t) jobs h ih = ih t h
    next-kept (err e, t) jobs h ih = h

    pub each-kept :
        (jobs : List Job) (t : Tick)
        → R t
        → R (schedule_each env settings runner_submit count_fleets quota env_parses killed jobs t).1
    unfolding schedule_each
    each-kept [] t h = h
    each-kept (job ∷ jobs) t h = elim (Bool-cases (killed job)) [
      | inl dead ↦ rw dead h
      | inr alive ↦ rw alive (
          next-kept
            (schedule_job env settings runner_submit count_fleets quota env_parses killed job t)
            jobs
            (keep job t
              (schedule_job env settings runner_submit count_fleets quota env_parses killed job t).1
              h (schedule_job-Turn job t))
            (each-kept jobs))
    ]
