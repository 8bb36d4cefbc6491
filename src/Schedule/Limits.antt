-- ===== src/Schedule/Limits.antt =====
-- The limits that a tick keeps.
use qiskit_serverless.Base.{
  Bool, Bool-cases, List, Option, String, [], ap, arith, count, count-snoc, false, if◌then◌else◌,
  inl, inr, length, length-append, ltb, map, min, refl, suc, true, ℕ, ◌+◌, ◌-◌, ◌||◌, ◌∙◌, ◌∷◌, ◌≡◌,
  ◌≤◌,
}
use qiskit_serverless.Breaker.{Settings}
use qiskit_serverless.Schedule.{
  FreeFleets, Tick, count_project, counted_project, first_tick, next_job, running_fleets,
  schedule_each, schedule_fleets_jobs, schedule_job,
}
use qiskit_serverless.Faults.{Result, err, ok}
use qiskit_serverless.Models.{CodeEngineProject, Job, fleets}
use qiskit_serverless.Transitions.Monad.{Env}
use qiskit_serverless.Schedule.Quota.{
  Accounted, count_project-Accounted, count_project-IsKnown, of_project, take_fleet-Accounted,
}
use qiskit_serverless.Schedule.Ticks.{Turn, each-kept, schedule_job-Turn}
use qiskit_serverless.Submit.{SubmitState}
use qiskit_serverless.FairShare.{Ranked, get_jobs_to_schedule_fair_share}
use qiskit_serverless.FairShare.Laws.{fair_share_slots}

module _ (env : Env) (settings : Settings) (runner_submit : Job → Result String)
    (count_fleets : CodeEngineProject → Option ℕ) (quota : ℕ) (env_parses : String → Bool)
    (killed : Job → Bool) where
  abbrev TurnOf : Job → Tick → Tick → Type 0
  TurnOf = Turn env settings runner_submit count_fleets quota env_parses killed

  abbrev run_each : List Job → Tick → Result (Unit {0}) × Tick
  run_each = schedule_each env settings runner_submit count_fleets quota env_parses killed

  abbrev run_one : Job → Tick → Result (Unit {0}) × Tick
  run_one = schedule_job env settings runner_submit count_fleets quota env_parses killed

  abbrev submitted_to : ℕ → Tick → ℕ
  submitted_to p t = count (of_project p) t.submitted

  abbrev Accounts : ℕ → Tick → Type 0
  Accounts p t = Accounted count_fleets quota p (t.free_fleets p) (submitted_to p t)

  moved-Accounts :
      (p : ℕ) (t' : Tick) (d : FreeFleets) (c : ℕ)
      → t'.free_fleets ≡ d
      → submitted_to p t' ≡ c
      → Accounted count_fleets quota p (d p) c
      → Accounts p t'
  moved-Accounts p t' d c e f h = rw (e, f) h

  counted-Accounts :
      (p : ℕ) (job : Job) (t : Tick)
      → Accounts p t
      → Accounted count_fleets quota p
          (count_project count_fleets quota (counted_project job) t.free_fleets p)
          (submitted_to p t)
  counted-Accounts p job t h =
      count_project-Accounted count_fleets quota p (counted_project job) t.free_fleets
        (submitted_to p t) h

  turn-Accounts : (p : ℕ) (job : Job) (t t' : Tick) → Accounts p t → TurnOf job t t' → Accounts p t'
  turn-Accounts p job t t' h (inl turn) =
      let same = ap (count (of_project p)) turn.same_submitted in
      elim turn.free_known [
        | inl old ↦ moved-Accounts p t' t.free_fleets (submitted_to p t) old same h
        | inr known ↦
            moved-Accounts p t' _ (submitted_to p t) known same (counted-Accounts p job t h)
      ]
  turn-Accounts p job t t' h (inr turn) =
      moved-Accounts p t' _ _ turn.one_less
        (ap (count (of_project p)) turn.now_submitted ∙ count-snoc (of_project p) job t.submitted)
        (take_fleet-Accounted count_fleets quota p (counted_project job) _ (submitted_to p t)
          (count_project-IsKnown count_fleets quota p (counted_project job) t.free_fleets)
          turn.had_room (counted-Accounts p job t h))

  -- A turn submits one job at most.
  turn-length :
      (job : Job) (t t' : Tick) → TurnOf job t t' → length t'.submitted ≤ length t.submitted + 1
  turn-length job t t' (inl turn) = rw turn.same_submitted (omega arith)
  turn-length job t t' (inr turn) =
      rw turn.now_submitted (omega (arith, length-append t.submitted (job ∷ [])))

  each-length :
      (jobs : List Job) (t : Tick)
      → length (run_each jobs t).1.submitted ≤ length t.submitted + length jobs
  unfolding schedule_each
  each-length [] t = omega arith
  each-length (job ∷ jobs) t = elim (Bool-cases (killed job)) [
    | inl dead ↦ rw dead (omega arith)
    | inr alive ↦ rw alive (
        next-length (run_one job t)
          (turn-length job t (run_one job t).1 (
            schedule_job-Turn env settings runner_submit count_fleets quota env_parses killed job
              t))
          (each-length jobs))
  ]
    where
      next-length :
          (r : Result (Unit {0}) × Tick)
          → length r.1.submitted ≤ length t.submitted + 1
          → ((v : Tick) → length (run_each jobs v).1.submitted ≤ length v.submitted + length jobs)
          → length
              (next_job env settings runner_submit count_fleets quota env_parses killed r
                (run_each jobs)).1.submitted
            ≤ length t.submitted + suc (length jobs)
      next-length (ok a, v) h ih = omega (arith, ih v, h)
      next-length (err e, v) h ih = omega (arith, h)

  -- A number of submits, and the account of a project.
  abbrev Limits : ℕ → ℕ → Result (Unit {0}) × Tick → Type 0
  Limits n p r = (length r.1.submitted ≤ n) × Accounts p r.1

  unless-Limits :
      (n p : ℕ) (off : Bool) (st : SubmitState) (r : Result (Unit {0}) × Tick)
      → Limits n p r
      → Limits n p (
          if off
          then (
            ok tt,
            first_tick env settings runner_submit count_fleets quota env_parses killed st,
          )
          else r)
  unless-Limits n p true st r h = (omega arith, refl)
  unless-Limits n p false st r h = h

  length-jobs : (rs : List Ranked) → length (map (λ r. r.job) rs) ≡ length rs
  length-jobs [] = refl
  length-jobs (r ∷ rs) = ap suc (length-jobs rs)

  -- A tick submits no more jobs than the slots that the running Fleets jobs leave, nor than its own
  -- limit, and to each project that it counted no more than the quota leaves: what it holds free for
  -- the project at the end, and what it submitted to it, are together what the count left.
  pub tick_limits :
      (maintenance : Bool) (max_fleets jobs_per_tick per_user : ℕ) (blocked : Job → Bool)
      (st : SubmitState) (p : ℕ)
      → let t =
          (schedule_fleets_jobs env settings runner_submit count_fleets quota env_parses killed
            maintenance max_fleets jobs_per_tick per_user blocked st).1 in
        (length t.submitted
          ≤ min
              (max_fleets
                - running_fleets env settings runner_submit count_fleets quota env_parses killed
                    st.fleets.world.db.jobs)
              jobs_per_tick)
        × Accounted count_fleets quota p (t.free_fleets p) (count (of_project p) t.submitted)
  unfolding schedule_fleets_jobs
  tick_limits maintenance max_fleets jobs_per_tick per_user blocked st p =
      let jobs = st.fleets.world.db.jobs in
      let slots =
        min
          (max_fleets
            - running_fleets env settings runner_submit count_fleets quota env_parses killed jobs)
          jobs_per_tick in
      let chosen = get_jobs_to_schedule_fair_share slots false fleets per_user blocked jobs in
      let start_tick =
        first_tick env settings runner_submit count_fleets quota env_parses killed st in
      let off =
        maintenance
        || (ltb
              (max_fleets
                - running_fleets env settings runner_submit count_fleets quota env_parses killed
                    jobs)
              1
            || ltb jobs_per_tick 1) in
      let jobs_offered = map (λ (r : Ranked). r.job) chosen in
      unless-Limits slots p off st (run_each jobs_offered start_tick) (
        omega (
          arith,
          each-length jobs_offered start_tick,
          length-jobs chosen,
          fair_share_slots slots false fleets per_user blocked jobs,
        ),
        each-kept env settings runner_submit count_fleets quota env_parses killed (Accounts p)
            (turn-Accounts p) jobs_offered start_tick refl,
      )
