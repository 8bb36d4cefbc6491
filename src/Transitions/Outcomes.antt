-- ===== src/Transitions/Outcomes.antt =====
-- What an accepted end owes exactly, and that a rejected one changes no table.
use qiskit_serverless.Base.{
  ==_iff, Bool, List, Option, String, [], ap, arith, if◌then◌else◌, is_some, refl, true, ℕ, ◌&&◌,
  ◌+◌, ◌==◌, ◌∙◌, ◌∷◌, ◌≡◌,
}
use qiskit_serverless.Models.{
  Context, Db, Field, FunctionSize, Job, Origin, Program, Runner, Status, job_usage, license_fee,
  set_env_vars, set_field, set_fields, set_fleet_id, set_status, set_sub_status, set_updated,
  size_label, workload,
}
use qiskit_serverless.Transitions.Debts.{end_due, workload_due}
use qiskit_serverless.Transitions.Owed.{is_fee_billable, is_usage_billable}
use qiskit_serverless.Workload.{is_mirrored}
use qiskit_serverless.Models.Laws.{set_fields-id}
use qiskit_serverless.Transitions.Monad.{World}
use qiskit_serverless.Transitions.Effects.{changed}
use qiskit_serverless.Transitions.Ends.{is_mirrored-id}
use qiskit_serverless.Transitions.Rows.{Appended, rows}

-- What billing reads of a job.
abbrev BillView : Type 0
BillView = Runner × Bool × Option String × Option Program × Option FunctionSize × Option String

abbrev bill_view : Job → BillView
bill_view j = (j.runner, j.filler, j.instance_crn, j.program, j.function_size, j.function_size_name)

set_field-bill_view : (f : Field) (j : Job) → bill_view (set_field f j) ≡ bill_view j
set_field-bill_view (set_status s) j = refl
set_field-bill_view (set_updated t) j = refl
set_field-bill_view (set_sub_status s) j = refl
set_field-bill_view (set_env_vars e) j = refl
set_field-bill_view (set_fleet_id e) j = refl

set_fields-bill_view : (fs : List Field) (j : Job) → bill_view (set_fields fs j) ≡ bill_view j
set_fields-bill_view [] j = refl
set_fields-bill_view (f ∷ fs) j = set_fields-bill_view fs (set_field f j) ∙ set_field-bill_view f j

-- The usage that a job owes at its end, and the fee if it owes one at all.
abbrev pub usage_owed : Job → ℕ
usage_owed job = if is_usage_billable job then 1 else 0

abbrev pub fee_owed : Job → Bool → ℕ
fee_owed job ran = if is_fee_billable job && ran && is_some (size_label job) then 1 else 0

due-usage :
    (job : Job) (b : Bool) (ms : List ℕ)
    → end_due job b job_usage + workload_due job ms job_usage ≡ usage_owed job
due-usage job b ms = ground arith

due-fee :
    (job : Job) (ran : Bool) (ms : List ℕ)
    → end_due job (ran && is_fee_billable job) license_fee + workload_due job ms license_fee
      ≡ fee_owed job ran
unfolding is_usage_billable is_fee_billable
due-fee job ran ms = ground arith

due-workload :
    (job : Job) (b : Bool) (ms : List ℕ)
    → end_due job b workload + workload_due job ms workload ≡ (if is_mirrored job ms then 1 else 0)
due-workload job b ms = ground arith

added_at : (x n m : ℕ) (b : Bool) → b ≡ true → n ≡ m → x + (if b then n else 0) ≡ x + m
added_at x n m b h e = ground arith

-- A job that billing reads like another.
abbrev with_view : Job → BillView → Job
with_view j v = record j {
  runner = v.0;
  filler = v.1;
  instance_crn = v.2;
  program = v.3;
  function_size = v.4;
  function_size_name = v.5;
}

usage_owed-view : (i j : Job) → bill_view i ≡ bill_view j → usage_owed i ≡ usage_owed j
unfolding is_usage_billable
usage_owed-view i j e = ap (λ (v : BillView). usage_owed (with_view i v)) e

fee_owed-view :
    (i j : Job) (ran : Bool) → bill_view i ≡ bill_view j → fee_owed i ran ≡ fee_owed j ran
unfolding is_fee_billable size_label
fee_owed-view i j ran e = ap (λ (v : BillView). fee_owed (with_view i v) ran) e

-- The rows that a job's end added to the outbox.
pub record Owes (job : Job) (usage fee mirrored : ℕ) (d d' : Db) : Type 0 where
  pub usage_added : rows job_usage job.id d' ≡ rows job_usage job.id d + usage
  pub fee_added : rows license_fee job.id d' ≡ rows license_fee job.id d + fee
  pub workload_added : rows workload job.id d' ≡ rows workload job.id d + mirrored

module _ (s : Status) (o : Origin) (c : Context) (fs : List Field) (row : Job) (w w' : World)
    (ran : Bool) where
  -- The instance after the change.
  abbrev pub after : Job
  after = (changed s o c fs row w).job

  after-view : bill_view after ≡ bill_view w.job
  after-view = set_fields-bill_view fs (record w.job { updated = w.now; status = s })

  after-id : after.id ≡ w.job.id
  after-id = set_fields-id fs (record w.job { updated = w.now; status = s })

  pub owed_exactly :
      Appended
        (λ d. end_due after (ran && is_fee_billable after) d + workload_due after w.db.mirrors d)
        (is_mirrored w.job w.db.mirrors)
        (changed s o c fs row w)
        w'
      → Owes w.job
          (usage_owed w.job)
          (fee_owed w.job ran)
          (if is_mirrored w.job w.db.mirrors then 1 else 0)
          w.db
          w'.db
  owed_exactly p = record {
    usage_added =
        p.added job_usage w.job.id
        ∙ added_at _ _ _ _ same_id
            (due-usage after fee w.db.mirrors ∙ usage_owed-view after w.job after-view);
    fee_added =
        p.added license_fee w.job.id
        ∙ added_at _ _ _ _ same_id
            (due-fee after ran w.db.mirrors ∙ fee_owed-view after w.job ran after-view);
    workload_added =
        p.added workload w.job.id
        ∙ added_at _ _ _ _ same_id (
            due-workload after fee w.db.mirrors
            ∙ ap (λ (b : Bool). if b then 1 else 0)
                (is_mirrored-id after w.job w.db.mirrors after-id));
  }
    where
      fee : Bool
      fee = ran && is_fee_billable after

      same_id : (after.id == w.job.id) ≡ true
      same_id = (==_iff after.id w.job.id).1 after-id
