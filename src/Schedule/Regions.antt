-- ===== src/Schedule/Regions.antt =====
-- A region that a tick skips.
use qiskit_serverless.Base.{
  Bool, Bool-cases, List, Option, String, any, ap, arith, count, count-snoc, false, inl, inr,
  opt_str_eq, opt_str_eq_iff, refl, sym, true, ℕ, ◌∙◌, ◌≡◌,
}
use qiskit_serverless.Schedule.Ticks.{Turn, each-kept}
use qiskit_serverless.Breaker.{Settings}
use qiskit_serverless.Schedule.{Tick, is_skipped, schedule_each}
use qiskit_serverless.Faults.{Result}
use qiskit_serverless.Models.{CodeEngineProject, Job}
use qiskit_serverless.Transitions.Monad.{Env}

module _ (env : Env) (settings : Settings) (runner_submit : Job → Result String)
    (count_fleets : CodeEngineProject → Option ℕ) (quota : ℕ) (env_parses : String → Bool)
    (killed : Job → Bool) where
  abbrev TurnOf : Job → Tick → Tick → Type 0
  TurnOf = Turn env settings runner_submit count_fleets quota env_parses killed

  abbrev run_each : List Job → Tick → Result (Unit {0}) × Tick
  run_each = schedule_each env settings runner_submit count_fleets quota env_parses killed

  abbrev in_region : Option String → Job → Bool
  in_region region job = opt_str_eq job.ce_region region

  -- The region is skipped, and so many of its jobs were submitted.
  abbrev Stuck : Option String → ℕ → Tick → Type 0
  Stuck region c t = (is_skipped t region ≡ true) × (count (in_region region) t.submitted ≡ c)

  turn-Stuck :
      (region : Option String) (c : ℕ) (job : Job) (t t' : Tick)
      → Stuck region c t
      → TurnOf job t t'
      → Stuck region c t'
  turn-Stuck region c job t t' (skipped, e) (inl turn) =
      (turn.still_skipped region skipped, ap (count (in_region region)) turn.same_submitted ∙ e)
  turn-Stuck region c job t t' (skipped, e) (inr turn) =
      let elsewhere = other_region job.ce_region refl turn.open_region in
      (
        ap (λ rs. any (opt_str_eq region) rs) turn.same_skipped ∙ skipped,
        ap (count (in_region region)) turn.now_submitted
            ∙ count-snoc (in_region region) job t.submitted
            ∙ ground (arith, elsewhere, e),
      )
    where
      other_region :
          (own : Option String)
          → own ≡ job.ce_region
          → is_skipped t own ≡ false
          → opt_str_eq own region ≡ false
      other_region own same h = elim (Bool-cases (opt_str_eq own region)) [
        | inl here ↦
            let e : own ≡ region = (opt_str_eq_iff own region).0 here in
            absurd (cc (sym skipped ∙ (ap (is_skipped t) (sym e) ∙ h)))
        | inr elsewhere ↦ elsewhere
      ]

  -- Once a region is skipped in a tick, no later job of that region is submitted in it, whatever the
  -- breakers, the counts and the runner answer.
  pub skipped_region_waits :
      (jobs : List Job) (t : Tick) (region : Option String)
      → is_skipped t region ≡ true
      → count (in_region region) (run_each jobs t).1.submitted
        ≡ count (in_region region) t.submitted
  skipped_region_waits jobs t region h =
      (each-kept env settings runner_submit count_fleets quota env_parses killed
        (Stuck region (count (in_region region) t.submitted))
        (turn-Stuck region (count (in_region region) t.submitted)) jobs t (h, refl)).1
