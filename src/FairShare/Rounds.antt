-- ===== src/FairShare/Rounds.antt =====
-- The order in which the fair share takes the jobs: in rounds over the users.
use mathlib.Core.Path.{subst}
use qiskit_serverless.Base.{
  map, true, false, ◌-◌, Bool, List, [], ap, arith, count, filter, leb, length, refl, count-append,
  sym, ℕ, ◌&&◌, ◌++◌, ◌+◌, ◌∙◌, ◌∷◌, ◌≡◌, ◌⊎◌,
}
use qiskit_serverless.Base.Each.{Each, Each-filter, Each-sort_by, take-rest}
use qiskit_serverless.Base.Sort.{
  IsSorted, IsSorted-filter, IsSorted-sort_by, count-sort_by, sort_by,
}
use qiskit_serverless.FairShare.{
  is_candidate, running_of, Ranked, assign_ranks, get_jobs_to_schedule_fair_share, is_author,
  rank_limit, rounds, within_budget,
}
use qiskit_serverless.FairShare.Laws.{candidates, taken}
use qiskit_serverless.Models.{Job, Runner}

count-filter :
    {A : Type 0} (p q : A → Bool) (xs : List A) → count p (filter q xs) ≡ count (λ x. p x && q x) xs
count-filter p q [] = refl
count-filter p q (x ∷ xs) = ground (arith, count-filter p q xs)

and_assoc : (a b c : Bool) → ((a && b) && c) ≡ (a && (b && c))
and_assoc true b c = refl
and_assoc false b c = refl

count-same :
    {A : Type 0} {p q : A → Bool} (xs : List A) → ((x : A) → p x ≡ q x) → count p xs ≡ count q xs
count-same [] h = refl
count-same (x ∷ xs) h = rw (h x, count-same xs h) refl

append_assoc_one :
    {A : Type 0} (xs : List A) (x : A) (ys : List A) → (xs ++ (x ∷ [])) ++ ys ≡ xs ++ (x ∷ ys)
append_assoc_one [] x ys = refl
append_assoc_one (a ∷ xs) x ys = ap (λ zs. a ∷ zs) (append_assoc_one xs x ys)

-- The rank of a job is its place, from 1, among its author's jobs in a list: one more than the jobs of
-- the author before it.
abbrev pub IsPlace : List Job → Ranked → Type 0
IsPlace all r =
    (older : List Job) × (younger : List Job) × (all ≡ older ++ (r.job ∷ younger))
    × (r.rank ≡ count (is_author r.job.author_id) older + 1)

-- The jobs that were ranked already are kept in reverse, so that only their number counts.
assign_ranks-Places :
    (all older seen js : List Job)
    → all ≡ older ++ js
    → ((author : ℕ) → count (is_author author) seen ≡ count (is_author author) older)
    → Each (IsPlace all) (assign_ranks seen js)
unfolding assign_ranks
assign_ranks-Places all older seen [] cut same = tt
assign_ranks-Places all older seen (j ∷ js) cut same = (
  (older, js, cut, ap (λ n. n + 1) (same j.author_id)),
  assign_ranks-Places all (older ++ (j ∷ [])) (j ∷ seen) js
      (cut ∙ sym (append_assoc_one older j js))
      (λ author. rw (count-append (is_author author) older (j ∷ [])) (omega (arith, same author))),
)

assign_ranks-jobs : (seen js : List Job) → map (λ r. r.job) (assign_ranks seen js) ≡ js
unfolding assign_ranks
assign_ranks-jobs seen [] = refl
assign_ranks-jobs seen (j ∷ js) = ap (λ l. j ∷ l) (assign_ranks-jobs (j ∷ seen) js)

module _ (slots : ℕ) (gpu : Bool) (runner : Runner) (per_user : ℕ) (blocked : Job → Bool)
    (jobs : List Job) where
  abbrev pub in_order : List Job
  in_order = candidates slots gpu runner per_user blocked jobs

  -- The limits allow a rank: what the author's running jobs leave, and what one call gives to a user.
  abbrev pub is_allowed : Ranked → Bool
  is_allowed r =
      leb r.rank (per_user - running_of runner jobs r.job.author_id)
      && leb r.rank (rank_limit runner slots)

  -- A queue of ranked jobs in rounds. `in_order` has the jobs that may be taken, by age; `ranked` has
  -- each of them, in that order, with its place among its author's; and the queue has the ranked jobs
  -- that the limits allow, each as often, by rank.
  pub record InRounds (queue : List Ranked) : Type 0 where
    pub may_be_taken :
        (p : Job → Bool)
        → count p in_order
          ≡ count (λ j. p j && is_candidate runner gpu per_user blocked jobs j) jobs
    pub by_age : IsSorted (λ j. j.created) in_order
    pub ranked : List Ranked
    pub every_one : map (λ r. r.job) ranked ≡ in_order
    pub places : Each (IsPlace in_order) ranked
    pub same_jobs : (p : Ranked → Bool) → count p queue ≡ count (λ r. p r && is_allowed r) ranked
    pub queue_places : Each (IsPlace in_order) queue
    pub by_rank : IsSorted (λ r. r.rank) queue

  abbrev rank_of : Ranked → ℕ
  rank_of r = r.rank

  abbrev is_low : Ranked → Bool
  is_low r = leb r.rank (rank_limit runner slots)

  abbrev budget : Ranked → Bool
  budget = within_budget runner per_user jobs

  all_places : Each (IsPlace in_order) (assign_ranks [] in_order)
  all_places = assign_ranks-Places in_order [] [] in_order refl (λ author. refl)

  queue_count :
      (p : Ranked → Bool)
      → count p (filter budget (rounds slots gpu runner per_user blocked jobs))
        ≡ count (λ r. p r && is_allowed r) (assign_ranks [] in_order)
  unfolding rounds
  queue_count p =
      count-filter p budget (sort_by rank_of (filter is_low (assign_ranks [] in_order)))
      ∙ count-sort_by rank_of (λ r. p r && budget r) (filter is_low (assign_ranks [] in_order))
      ∙ count-filter (λ r. p r && budget r) is_low (assign_ranks [] in_order)
      ∙ count-same (assign_ranks [] in_order) (λ r. and_assoc (p r) (budget r) (is_low r))

  queue-InRounds : InRounds (filter budget (rounds slots gpu runner per_user blocked jobs))
  unfolding rounds
  queue-InRounds = record {
    may_be_taken = λ p.
        count-sort_by (λ (j : Job). j.created) p _
        ∙ count-filter p (is_candidate runner gpu per_user blocked jobs) jobs;
    by_age = IsSorted-sort_by (λ (j : Job). j.created) _;
    ranked = assign_ranks [] in_order;
    every_one = assign_ranks-jobs [] in_order;
    places = all_places;
    same_jobs = queue_count;
    queue_places = Each-filter (IsPlace in_order) budget _ (
        Each-sort_by (IsPlace in_order) rank_of _
          (Each-filter (IsPlace in_order) is_low _ all_places));
    by_rank = IsSorted-filter rank_of budget _ (IsSorted-sort_by rank_of _);
  }

  -- The jobs that may be taken are ranked by their places, by age, among their author's, and those that
  -- the limits allow form a queue in which no rank is lower than the one before it. The jobs that are
  -- taken are the first of that queue: all of it, or as many as there are slots.
  pub fair_share_rounds :
      (left : List Ranked) × InRounds (taken slots gpu runner per_user blocked jobs ++ left)
      × ((left ≡ []) ⊎ (length (taken slots gpu runner per_user blocked jobs) ≡ slots))
  unfolding get_jobs_to_schedule_fair_share
  fair_share_rounds =
      let (left, cut, end) =
        take-rest slots (filter budget (rounds slots gpu runner per_user blocked jobs)) in
      (left, subst InRounds cut queue-InRounds, end)
