-- ===== src/Queries/Pages.antt =====
-- The pages of a list of jobs, put together.
use qiskit_serverless.Base.{
  Bool, Bool-cases, List, Option, [], ap, arith, drop, filter, inl, inr, leb, length, ltb, refl,
  some, suc, take, zero, ℕ, ◌&&◌, ◌*◌, ◌++◌, ◌+◌, ◌-◌, ◌<◌, ◌∙◌, ◌∷◌, ◌≡◌, ◌≤◌,
}
use qiskit_serverless.Queries.{
  JobFilters, apply_filters, created_from, of_function, of_provider, of_status, of_type, of_user,
  paginate_queryset, user_jobs_page,
}
use qiskit_serverless.Models.{Job}

module _ {ℓ} {A : Type ℓ} where
  filter-filter :
      (p q : A → Bool) (xs : List A) → filter p (filter q xs) ≡ filter (λ x. q x && p x) xs
  filter-filter p q [] = refl
  filter-filter p q (x ∷ xs) = elim (Bool-cases (q x)) [
    | inl e ↦ elim (Bool-cases (p x)) [
      | inl f ↦ rw (e, f) (ap (λ l. x ∷ l) (filter-filter p q xs))
      | inr f ↦ rw (e, f) (filter-filter p q xs)
    ]
    | inr e ↦ rw e (filter-filter p q xs)
  ]

  drop-all : (n : ℕ) (xs : List A) → length xs ≤ n → drop n xs ≡ []
  drop-all zero [] h = refl
  drop-all zero (x ∷ xs) h = absurd (omega arith)
  drop-all (suc n) [] h = refl
  drop-all (suc n) (x ∷ xs) h = drop-all n xs (omega arith)

  take-all : (n : ℕ) (xs : List A) → length xs ≤ n → take n xs ≡ xs
  take-all zero [] h = refl
  take-all zero (x ∷ xs) h = absurd (omega arith)
  take-all (suc n) [] h = refl
  take-all (suc n) (x ∷ xs) h = ap (λ l. x ∷ l) (take-all n xs (omega arith))

  take-nil : (n : ℕ) → take {A = A} n [] ≡ []
  take-nil zero = refl
  take-nil (suc n) = refl

  take-append-drop : (m n : ℕ) (xs : List A) → take m xs ++ take n (drop m xs) ≡ take (m + n) xs
  take-append-drop zero n xs = let e : 0 + n ≡ n = omega arith in rw e refl
  take-append-drop (suc m) n [] =
      let e : suc m + n ≡ suc (m + n) = omega arith in rw (e, take-nil n) refl
  take-append-drop (suc m) n (x ∷ xs) =
      let e : suc m + n ≡ suc (m + n) = omega arith in
      rw e (ap (λ l. x ∷ l) (take-append-drop m n xs))

-- A page of the queryset.
paginate_slice :
    (n o : ℕ) (xs : List Job)
    → 0 < n
    → paginate_queryset (some n) (some o) xs ≡ (take n (drop o xs), length xs)
unfolding paginate_queryset
paginate_slice zero o xs h = absurd (omega arith)
paginate_slice (suc n) o xs h = elim (Bool-cases (leb (length xs) o && ltb 0 (length xs))) [
  | inl beyond ↦
      let past : length xs ≤ o = ground (arith, beyond) in rw beyond (rw (drop-all o xs past) refl)
  | inr within ↦ let e : o + suc n - o ≡ suc n = omega arith in rw within (rw e refl)
]

-- What a user asks for: the jobs that pass every filter.
abbrev pub wanted : Option ℕ → JobFilters → Job → Bool
wanted user filters job =
    ((((of_user user job && of_type filters.type_filter job) && of_provider filters.provider job)
        && of_status filters.status job)
      && created_from filters.created_after job)
    && of_function filters.function filters.functions job

apply_filters-wanted :
    (user : Option ℕ) (filters : JobFilters) (xs : List Job)
    → apply_filters filters (filter (of_user user) xs) ≡ filter (wanted user filters) xs
unfolding apply_filters
apply_filters-wanted user filters xs = simp filter-filter

module _ (order : List Job → List Job) (user : Option ℕ) (filters : JobFilters) (n : ℕ)
    (jobs : List Job) where
  -- The page with this number, for pages of n jobs.
  abbrev pub page : ℕ → List Job × ℕ
  page k =
      user_jobs_page order user (some (record filters { limit = some n; offset = some (k * n) }))
        jobs

  -- The first pages, one behind the other.
  abbrev pub first_pages : ℕ → List Job
  first_pages zero = []
  first_pages (suc k) = first_pages k ++ (page k).0

  abbrev pub matching : List Job
  matching = filter (wanted user filters) (order jobs)

  page-slice : (k : ℕ) → 0 < n → page k ≡ (take n (drop (k * n) matching), length matching)
  unfolding user_jobs_page
  page-slice k h =
      rw
        (apply_filters-wanted user (record filters { limit = some n; offset = some (k * n) })
          (order jobs))
        (paginate_slice n (k * n) matching h)

  first_pages-take : (k : ℕ) → 0 < n → first_pages k ≡ take (k * n) matching
  first_pages-take zero h = let e : 0 * n ≡ 0 = omega arith in rw e refl
  first_pages-take (suc k) h =
      let e : suc k * n ≡ k * n + n = grind arith in
      rw (first_pages-take k h, page-slice k h, e) (take-append-drop (k * n) n matching)

  -- Enough pages of n jobs, asked for in turn over one order of the rows, hold exactly the jobs that
  -- pass every filter, in that order; and every page says how many there are.
  pub pages_cover :
      (k : ℕ)
      → 0 < n
      → length matching ≤ k * n
      → (first_pages k ≡ matching) × ((page k).1 ≡ length matching)
  pages_cover k h enough =
      (first_pages-take k h ∙ take-all (k * n) matching enough, rw (page-slice k h) refl)
