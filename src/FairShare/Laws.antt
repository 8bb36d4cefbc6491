-- ===== src/FairShare/Laws.antt =====
-- What the fair share guarantees: no more jobs than slots, no user above the limit, a Ray user at
-- most one job, and rounds.
use qiskit_serverless.Base.{
  ==_iff, Bool, Bool-cases, List, [], ap, arith, count, filter, inl, inr, leb, length,
  length-filter, length-take, min, suc, take, true, zero, ℕ, ◌&&◌, ◌-◌, ◌∙◌, ◌∷◌, ◌≡◌, ◌≤◌,
}
use qiskit_serverless.FairShare.{
  Ranked, assign_ranks, get_jobs_to_schedule_fair_share, is_author, is_candidate, rank_limit,
  rounds, running_of, within_budget,
}
use qiskit_serverless.Models.{Job, Runner, ray}
use qiskit_serverless.Base.Sort.{count-sort_by, sort_by}

-- How many of the taken jobs are an author's.
abbrev pub taken_of : ℕ → List Ranked → ℕ
taken_of author = count (λ r. is_author author r.job)

-- Filtering and cutting only remove.
pub count-filter-le :
    {A : Type 0} (p q : A → Bool) (xs : List A) → count p (filter q xs) ≤ count (λ x. p x && q x) xs
count-filter-le p q [] = omega arith
count-filter-le p q (x ∷ xs) = ground (arith, count-filter-le p q xs)

pub count-take-le :
    {A : Type 0} (p : A → Bool) (n : ℕ) (xs : List A) → count p (take n xs) ≤ count p xs
count-take-le p zero xs = omega arith
count-take-le p (suc n) [] = omega arith
count-take-le p (suc n) (x ∷ xs) = omega (arith, count-take-le p n xs)

-- Of the jobs that an author has, at most `b` have a rank of at most `b`.
ranks_bound :
    (author b : ℕ) (seen js : List Job)
    → count (λ r. is_author author r.job && leb r.rank b) (assign_ranks seen js)
      ≤ b - count (is_author author) seen
unfolding assign_ranks
ranks_bound author b seen [] = omega arith
ranks_bound author b seen (j ∷ js) = elim (Bool-cases (is_author author j)) [
  | inl own ↦
      let e : j.author_id ≡ author = (==_iff j.author_id author).0 own in
      let ih = ranks_bound author b (j ∷ seen) js in
      let same : count (is_author j.author_id) seen ≡ count (is_author author) seen =
        ap (λ (a : ℕ). count (is_author a) seen) e in
      rw own (rw same (ground (arith, rw own at ih)))
  | inr other ↦
      let ih = ranks_bound author b (j ∷ seen) js in rw other (ground (arith, rw other at ih))
]

count-le :
    {A : Type 0} (p q : A → Bool) (xs : List A)
    → ((x : A) → p x ≡ true → q x ≡ true)
    → count p xs ≤ count q xs
count-le p q [] h = omega arith
count-le p q (x ∷ xs) h = ground (arith, h x, count-le p q xs h)

module _ (slots : ℕ) (gpu : Bool) (runner : Runner) (per_user : ℕ) (blocked : Job → Bool)
    (jobs : List Job) where
  abbrev pub taken : List Ranked
  taken = get_jobs_to_schedule_fair_share slots gpu runner per_user blocked jobs

  -- The jobs that may be taken, oldest first.
  abbrev pub candidates : List Job
  candidates =
      sort_by (λ j. j.created) (filter (is_candidate runner gpu per_user blocked jobs) jobs)

  -- A property of the taken jobs is one of ranked candidates.
  count-taken :
      (p : Ranked → Bool)
      → count p taken
        ≤ count
            (λ r.
              (p r && within_budget runner per_user jobs r) && leb r.rank (rank_limit runner slots))
            (assign_ranks [] candidates)
  unfolding get_jobs_to_schedule_fair_share rounds
  count-taken p =
      let all_rounds = rounds slots gpu runner per_user blocked jobs in
      let budget = within_budget runner per_user jobs in
      let ranked = assign_ranks [] candidates in
      let low = λ (r : Ranked). leb r.rank (rank_limit runner slots) in
      omega (
        arith,
        count-take-le p slots (filter budget all_rounds),
        count-filter-le p budget all_rounds,
        count-sort_by (λ (r : Ranked). r.rank) (λ r. p r && budget r) (filter low ranked),
        count-filter-le (λ r. p r && budget r) low ranked,
      )

  -- As many jobs are taken as there are slots, or all the ranked candidates within their authors'
  -- budgets if those are fewer.
  pub fair_share_slots :
      length taken
      ≡ min slots (
          count
            (within_budget runner per_user jobs)
            (rounds slots gpu runner per_user blocked jobs))
  unfolding get_jobs_to_schedule_fair_share
  fair_share_slots =
      length-take slots (
        filter (within_budget runner per_user jobs) (rounds slots gpu runner per_user blocked jobs))
      ∙ ap (min slots) (
          length-filter (within_budget runner per_user jobs)
            (rounds slots gpu runner per_user blocked jobs))

  -- No author gets more jobs than the limit leaves beside the ones that hold capacity, fillers not
  -- counted; none if those reach the limit.
  pub fair_share_limit :
      (author : ℕ) → taken_of author taken ≤ per_user - running_of runner jobs author
  fair_share_limit author =
      let p = λ (r : Ranked). is_author author r.job in
      let b = per_user - running_of runner jobs author in
      omega (
        arith,
        count-taken p,
        count-le
            (λ r.
              (p r && within_budget runner per_user jobs r) && leb r.rank (rank_limit runner slots))
            (λ r. p r && leb r.rank b) (assign_ranks [] candidates) (own_budget author),
        ranks_bound author b [] candidates,
      )
    where
      own_budget :
          (author : ℕ) (r : Ranked)
          → ((is_author author r.job && within_budget runner per_user jobs r)
              && leb r.rank (rank_limit runner slots))
            ≡ true
          → (is_author author r.job && leb r.rank (per_user - running_of runner jobs author)) ≡ true
      own_budget author r h =
          let own : is_author author r.job ≡ true = ground (arith, h) in
          let e : r.job.author_id ≡ author = (==_iff r.job.author_id author).0 own in
          rw (← e) (ground (arith, h))

-- A call for Ray takes at most one job of each author.
pub fair_share_ray :
    (slots : ℕ) (gpu : Bool) (per_user : ℕ) (blocked : Job → Bool) (jobs : List Job) (author : ℕ)
    → taken_of author (get_jobs_to_schedule_fair_share slots gpu ray per_user blocked jobs) ≤ 1
fair_share_ray slots gpu per_user blocked jobs author =
    let p = λ (r : Ranked). is_author author r.job in
    omega (
      arith,
      count-taken slots gpu ray per_user blocked jobs p,
      count-le (λ r. (p r && within_budget ray per_user jobs r) && leb r.rank 1)
          (λ r. p r && leb r.rank 1)
          (assign_ranks [] (candidates slots gpu ray per_user blocked jobs))
          (λ r h. ground (arith, h)),
      ranks_bound author 1 [] (candidates slots gpu ray per_user blocked jobs),
    )
