-- ===== src/Submit.antt =====
-- The submission of a Fleets job behind the breakers of its region: `FleetsJobSubmitter` of
-- gateway/scheduler/schedule.py. What the runner's submit answers, the id of the fleet that it created
-- or an exception, is a parameter.
pub mod Laws
use qiskit_serverless.Base.{Bool, Option, String, [], if◌then◌else◌, none, some, true, ◌++◌, ◌∷◌}
use qiskit_serverless.Breaker.{Settings, is_open, record_failure, record_success}
use qiskit_serverless.Fleets.{FleetsState, RegionBreakers, paused, put_breaker}
use qiskit_serverless.Faults.{
  is_runner_error, Result, cos_retryable, err, is_invalid_transition, is_retryable, ok,
  runner_error, runner_retryable,
}
use qiskit_serverless.Models.{
  Context, Job, JobEvent, error_event, scheduler, set_env_vars, set_fleet_id,
}
use qiskit_serverless.Transitions.Monad.{
  Action, Env, World, gets, modify, modify_db, raise, skip, ◌>>=◌, ◌>>◌,
}
use qiskit_serverless.Transitions.Methods.{queued_to_pending, to_failed}
use qiskit_serverless.Transitions.Writes.{update_fields}
use qiskit_serverless.Base.Text.{join}

-- The breakers of Code Engine, shared with the canceller, and those of COS.
pub record SubmitState : Type 0 where
  pub fleets : FleetsState
  pub cos : RegionBreakers

-- `FleetsBreakers.paused`: Code Engine's breaker is asked only if that of COS is closed.
unfoldable pub submit_paused : Settings → Option String → SubmitState → Bool × SubmitState
submit_paused settings region st =
    let (cos_open, b) = is_open settings st.fleets.world.now (st.cos region) in
    let asked : SubmitState = record st { cos = put_breaker region b st.cos } in
    let (engine_open, v) = paused settings region st.fleets in
    if cos_open then (true, asked) else (engine_open, record asked { fleets = v })

-- The breakers after the runner's answer.
unfoldable pub learn_submit : Settings → Result String → SubmitState → SubmitState
learn_submit settings (ok fleet) st =
    let region = st.fleets.world.job.ce_region in
    record {
      fleets = record st.fleets {
        breakers =
            put_breaker region (record_success (st.fleets.breakers region)) st.fleets.breakers;
      };
      cos = put_breaker region (record_success (st.cos region)) st.cos;
    }
learn_submit settings (err cos_retryable) st =
    let region = st.fleets.world.job.ce_region in
    record st {
      cos = put_breaker region (record_failure settings st.fleets.world.now (st.cos region)) st.cos;
    }
learn_submit settings (err e) st =
    let region = st.fleets.world.job.ce_region in
    if is_retryable e
    then record st {
      fleets = record st.fleets {
        breakers =
            put_breaker region
              (record_failure settings st.fleets.world.now (st.fleets.breakers region))
              st.fleets.breakers;
      };
    }
    else st

-- An error event of the instance's job.
unfoldable pub add_error_event : Context → String → String → Action (Unit {0})
add_error_event context code message = do
  job ← gets (λ w. w.job)
  now ← gets (λ w. w.now)
  modify_db (λ d. record d {
    events = d.events ++ (error_event job.id scheduler context code message now ∷ []);
  })

-- The fleet is recorded before any status is written.
unfoldable pub record_fleet : String → Action (Unit {0})
record_fleet fleet =
    modify (λ w. record w { job = record w.job { fleet_id = some fleet } })
    >> update_fields (set_fleet_id (some fleet) ∷ set_env_vars "{}" ∷ [])

abbrev shown : Option String → String
shown none = "None"
shown (some text) = text

-- The answer to the cancel of a fleet that nothing wants any more.
unfoldable pub orphan_answer : Job → Context → Result Bool → Action (Unit {0})
orphan_answer job context (ok cancelled) = skip
orphan_answer job context (err e) =
    if is_runner_error e
    then add_error_event context "FLEET_LEFT_RUNNING"
        (join "" ("Fleet " ∷ shown job.fleet_id ∷ " was created but could not be cancelled" ∷ []))
    else raise e

-- A refused submit ends the job, unless something else did.
abbrev pub ignore_rejection : Result JobEvent × World → Result (Unit {0}) × World
ignore_rejection (ok event, w) = (ok tt, w)
ignore_rejection (err e, w) = (if is_invalid_transition e then ok tt else err e, w)

module _ (env : Env) where
  -- `_cancel_orphan_fleet`
  unfoldable pub cancel_orphan_fleet : Context → Action (Unit {0})
  cancel_orphan_fleet context = do
    job ← gets (λ w. w.job)
    orphan_answer job context (env.runner_stop job)

  -- The status after the fleet was recorded: the row may have left QUEUED meanwhile.
  unfoldable pub admit_answer : Context → Result JobEvent × World → Result (Unit {0}) × World
  admit_answer context (ok event, w) = (ok tt, w)
  admit_answer context (err e, w) =
      if is_invalid_transition e then (cancel_orphan_fleet context >> raise e) w else (err e, w)

  unfoldable pub admit : Context → Action (Unit {0})
  admit context w = admit_answer context (queued_to_pending env scheduler context [] w)

  -- `submit`, after the runner answered.
  unfoldable pub submit_answered : Context → Result String → Action (Unit {0})
  submit_answered context (ok fleet) = record_fleet fleet >> admit context
  submit_answered context (err runner_error) = do
    add_error_event context "FLEET_SUBMIT_FAILED" "The job could not be submitted to Code Engine"
    update_fields (set_env_vars "{}" ∷ [])
    (λ w. ignore_rejection (to_failed scheduler context [] w))
    raise runner_error
  submit_answered context (err e) = raise e

  -- `submit`
  unfoldable pub submit_fleet :
      Settings → (Job → Result String) → Context → SubmitState → Result (Unit {0}) × SubmitState
  submit_fleet settings runner_submit context st =
      let (is_paused, v) = submit_paused settings st.fleets.world.job.ce_region st in
      let answer = runner_submit st.fleets.world.job in
      let learned = learn_submit settings answer v in
      let (result, w) = submit_answered context answer st.fleets.world in
      if is_paused
      then (err runner_retryable, v)
      else (result, record learned { fleets = record learned.fleets { world = w } })
