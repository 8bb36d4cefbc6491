-- ===== src/Blocked/Matching.antt =====
-- The filter on the jobs in the database against the question about one resource.
use qiskit_serverless.Crn.Laws.{colon_free, region_crn_regex_lem}
use qiskit_serverless.Base.{
  Bool, Bool-cases, List, Option, String, [], any, ap, arith, false, filter, inl, inr, map, none,
  nonempty, not, opt_str_eq, opt_str_eq_iff, refl, some, sym, true, ◌&&◌, ◌||◌, ◌∙◌, ◌∷◌, ◌≡◌,
}
use qiskit_serverless.Blocked.{
  BlockedCloudResource, Enforcement, JobFilter, Scope, blocked_jobs_filter, blocks, crn_matches,
  distinct, filter_eq, job_scope, meets, or_nothing, scope, scope_eq, selected,
}
use qiskit_serverless.Crn.{crn_region, parse}
use qiskit_serverless.Models.{Job}

pub scope_eq-eq : (s t : Scope) → scope_eq s t ≡ true → s ≡ t
scope_eq-eq (a, b, c) (x, y, z) h =
    ground (arith, opt_str_eq_iff a x, opt_str_eq_iff b y, opt_str_eq_iff c z)

filter_eq-eq : (f g : JobFilter) → filter_eq f g ≡ true → f ≡ g
filter_eq-eq f g h =
    ground (arith, scope_eq-eq f.resource g.resource, opt_str_eq_iff f.crn_region g.crn_region)

-- A region as the Event Streams configuration names one: not empty, and with no colon.
abbrev pub IsRegion : String → Type 0
IsRegion region = (nonempty region ≡ true) × (colon_free region ≡ true)

abbrev pub HaveRegions : List BlockedCloudResource → Type 0
HaveRegions [] = Unit
HaveRegions (row ∷ rows) = IsRegion row.region × HaveRegions rows

module _ (p : JobFilter → Bool) where
  any-without :
      (f : JobFilter) (fs : List JobFilter)
      → (p f || any p (filter (λ g. not (filter_eq g f)) fs)) ≡ (p f || any p fs)
  any-without f [] = refl
  any-without f (g ∷ fs) = elim (Bool-cases (filter_eq g f)) [
    | inl same ↦
        let again : p g ≡ p f = ap p (filter_eq-eq g f same) in
        rw same (ground (arith, again, any-without f fs))
    | inr other ↦ rw other (ground (arith, any-without f fs))
  ]

  -- What is said twice is said once.
  any-distinct : (fs : List JobFilter) → any p (distinct fs) ≡ any p fs
  unfolding distinct
  any-distinct [] = refl
  any-distinct (f ∷ fs) = any-without f (distinct fs) ∙ ap (λ b. p f || b) (any-distinct fs)

selected-or_nothing :
    (fs : List JobFilter) (job : Job) → selected (or_nothing fs) job ≡ any (meets job) fs
unfolding selected
selected-or_nothing [] job = refl
selected-or_nothing (f ∷ fs) job = refl

opt_str_eq_comm : (s t : Option String) → opt_str_eq s t ≡ opt_str_eq t s
opt_str_eq_comm s t = elim (Bool-cases (opt_str_eq s t)) [
  | inl same ↦ same ∙ sym ((opt_str_eq_iff t s).1 (sym ((opt_str_eq_iff s t).0 same)))
  | inr differ ↦ ground (arith, differ, opt_str_eq_iff s t, opt_str_eq_iff t s)
]

crn_matches-region :
    (region : String) (crn : Option String)
    → IsRegion region
    → crn_matches (some region) crn ≡ opt_str_eq (some region) (crn_region crn)
unfolding parse
crn_matches-region region none h = refl
crn_matches-region region (some value) h =
    region_crn_regex_lem region value h.0 h.1
    ∙ opt_str_eq_comm (crn_region (some value)) (some region)

-- One row's condition.
module _ (job : Job) where
  regional_row :
      (rows : List BlockedCloudResource)
      → HaveRegions rows
      → any
          (meets job)
          (map (λ row. record { resource = scope row; crn_region = some row.region }) rows)
        ≡ any
            (λ row.
              scope_eq (scope row) (job_scope job)
              && opt_str_eq (some row.region) (crn_region job.instance_crn))
            rows
  unfolding meets
  regional_row [] h = refl
  regional_row (row ∷ rows) (region, h) =
      rw (crn_matches-region row.region job.instance_crn region, regional_row rows h) refl

  any_row :
      (rows : List BlockedCloudResource)
      → any (meets job) (map (λ row. record { resource = scope row; crn_region = none }) rows)
        ≡ any (λ row. scope_eq (scope row) (job_scope job) && true) rows
  unfolding meets
  any_row [] = refl
  any_row (row ∷ rows) = rw (any_row rows) refl

-- The filter selects a job from the database exactly when the job's resource is blocked in the
-- region of its CRN, under every setting, if each row has a region that is not empty and holds no
-- colon.
pub blocked_jobs_filter-blocks :
    (enforcement : Enforcement) (rows : List BlockedCloudResource) (job : Job)
    → HaveRegions rows
    → selected (blocked_jobs_filter enforcement rows) job
      ≡ blocks enforcement rows (job_scope job) (crn_region job.instance_crn)
unfolding blocked_jobs_filter blocks selected
blocked_jobs_filter-blocks enforcement rows job h =
    cases enforcement.stop_enabled enforcement.regional
  where
    cases :
        (enabled regional : Bool)
        → selected
            (blocked_jobs_filter (record { stop_enabled = enabled; regional = regional }) rows)
            job
          ≡ blocks
              (record { stop_enabled = enabled; regional = regional })
              rows
              (job_scope job)
              (crn_region job.instance_crn)
    cases false regional = refl
    cases true true =
        selected-or_nothing _ job ∙ any-distinct (meets job) _ ∙ regional_row job rows h
    cases true false = selected-or_nothing _ job ∙ any-distinct (meets job) _ ∙ any_row job rows
