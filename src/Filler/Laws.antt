-- ===== src/Filler/Laws.antt =====
-- The balance of filler jobs: it never takes a user's slot, and it sheds what is too much.
use mathlib.Core.Path.{subst}
use qiskit_serverless.Base.{
  ap, length-append, ◌∙◌, ◌≤◌, Bool, Bool-cases, List, String, [], all, arith, count-le-length,
  false, filter, inl, inr, length, length-filter, length-take, ltb, min, not, refl, suc, take, true,
  zero, ℕ, ◌+◌, ◌-◌, ◌++◌, ◌<◌, ◌∷◌, ◌≡◌,
}
use qiskit_serverless.Base.Each.{take-rest}
use qiskit_serverless.Base.Sort.{IsSorted, IsSorted-filter, IsSorted-sort_by}
use qiskit_serverless.Filler.{
  filler_jobs, Plan, balance_filler_jobs, is_current, is_stoppable, real_running,
}
use qiskit_serverless.Models.{Job}

length-filter-not :
    {A : Type 0} (p : A → Bool) (xs : List A)
    → length (filter p xs) + length (filter (λ x. not (p x)) xs) ≡ length xs
length-filter-not p [] = refl
length-filter-not p (x ∷ xs) = ground (arith, length-filter-not p xs)

all-take :
    {A : Type 0} (p : A → Bool) (n : ℕ) (xs : List A) → all p xs ≡ true → all p (take n xs) ≡ true
all-take p zero xs h = refl
all-take p (suc n) [] h = refl
all-take p (suc n) (x ∷ xs) h = ground (arith, h, all-take p n xs)

all-filter : {A : Type 0} (p : A → Bool) (xs : List A) → all p (filter p xs) ≡ true
all-filter p [] = refl
all-filter p (x ∷ xs) = ground (arith, all-filter p xs)

module _ (slots program_id : ℕ) (profile : String) (jobs fillers : List Job) where
  abbrev pub plan : Plan
  plan = balance_filler_jobs slots program_id profile jobs fillers

  abbrev pub current_fillers : List Job
  current_fillers = filter (is_current program_id profile) fillers

  abbrev pub stoppable_fillers : List Job
  stoppable_fillers = filter is_stoppable current_fillers

  -- A filler job is created only if the jobs of users and the present fillers leave a slot free, and
  -- then none is shed.
  pub filler_capacity :
      plan.create ≡ true
      → (real_running profile jobs + length current_fillers < slots) × (plan.shed ≡ [])
  unfolding balance_filler_jobs
  filler_capacity h =
      let free : length current_fillers < slots - real_running profile jobs = ground (arith, h) in
      let no_surplus : ltb (slots - real_running profile jobs) (length current_fillers) ≡ false =
        ground (arith, free) in
      (omega (arith, free), rw no_surplus refl)

  -- What is shed comes first among the current fillers that are not stopping yet.
  shed_first :
      (kept : List Job) × (stoppable_fillers ≡ plan.shed ++ kept)
      × (length kept ≡ min (length stoppable_fillers) (slots - real_running profile jobs))
  unfolding balance_filler_jobs
  shed_first =
      let target = slots - real_running profile jobs in
      let surplus = length stoppable_fillers - target in
      let first = length-take surplus stoppable_fillers in
      elim (Bool-cases (ltb target (length current_fillers))) [
        | inl over ↦
            let (kept, cut, end) = take-rest surplus stoppable_fillers in
            let whole : length stoppable_fillers
                ≡ length (take surplus stoppable_fillers) + length kept =
              ap length cut ∙ length-append (take surplus stoppable_fillers) kept in
            rw over (kept, cut, omega (arith, first, whole))
        | inr fits ↦
            let below : length stoppable_fillers ≤ target = ground (
              arith,
              fits,
              length-filter is_stoppable current_fillers,
              count-le-length is_stoppable current_fillers,
            ) in
            rw fits (stoppable_fillers, refl, omega (arith, below))
      ]

  -- Every filler is either stale or one of the function and the profile.
  pub filler_partition : length plan.stale + length current_fillers ≡ length fillers
  unfolding balance_filler_jobs
  filler_partition =
      let h = length-filter-not (is_current program_id profile) fillers in omega (arith, h)

-- The fillers of the function and the profile that are not stopping yet are, from the oldest on, the
-- ones that are shed and then those that are kept. Those are as many as the slots that the jobs of
-- users leave, or all of them if they are fewer.
pub filler_surplus :
    (slots program_id : ℕ) (profile : String) (jobs : List Job)
    → (kept : List Job) × (stoppable_fillers slots program_id profile jobs (filler_jobs jobs)
        ≡ (plan slots program_id profile jobs (filler_jobs jobs)).shed ++ kept)
      × IsSorted
          (λ job. job.created)
          ((plan slots program_id profile jobs (filler_jobs jobs)).shed ++ kept)
      × (length kept
          ≡ min
              (length (stoppable_fillers slots program_id profile jobs (filler_jobs jobs)))
              (slots - real_running profile jobs))
unfolding filler_jobs
filler_surplus slots program_id profile jobs =
    let created = λ (job : Job). job.created in
    let (kept, cut, enough) = shed_first slots program_id profile jobs (filler_jobs jobs) in
    let by_age =
      IsSorted-filter created is_stoppable _
        (IsSorted-filter created (is_current program_id profile) _ (IsSorted-sort_by created _)) in
    (kept, cut, subst (IsSorted created) cut by_age, enough)
