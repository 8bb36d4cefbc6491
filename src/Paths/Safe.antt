-- ===== src/Paths/Safe.antt =====
-- What a sanitized path holds, and that the sanitizers agree.
use mathlib.Core.Path.{subst}
use Prim.Native.Char.{Char}
use Prim.Native.String.{String}
use qiskit_serverless.Base.{
  Bool, Bool-cases, arith, ap, false, inl, inr, not, refl, some, sym, true, ◌&&◌, ◌≡◌, ◌∙◌,
}
use qiskit_serverless.Paths.{
  dots_after, has_dots, is_dot, is_slash, name_char, path_char, replace_dots, replace_runs,
  sanitize_file_name, sanitize_file_path,
}

-- Every character of a text passes a test.
abbrev pub every : (Char → Bool) → String → Bool
every ok String.[] = true
every ok (String.◌∷◌ c s) = ok c && every ok s

-- A path of allowed characters, without two dots in a row.
pub record IsSafe (s : String) : Type 0 where
  pub allowed : every path_char s ≡ true
  pub no_dots : has_dots s ≡ false

module _ (ok : Char → Bool) where
  pub replace_runs-every :
      ok "_" ≡ true → (inside : Bool) (s : String) → every ok (replace_runs ok inside s) ≡ true
  unfolding replace_runs
  replace_runs-every u inside String.[] = refl
  replace_runs-every u inside (String.◌∷◌ c s) = elim (Bool-cases (ok c)) [
    | inl y ↦ rw y (ground (arith, y, replace_runs-every u false s))
    | inr n ↦ rw n (ground (arith, u, replace_runs-every u true s))
  ]

  -- What is allowed already is kept as it is.
  pub replace_runs-kept :
      (inside : Bool) (s : String) → every ok s ≡ true → replace_runs ok inside s ≡ s
  unfolding replace_runs
  replace_runs-kept inside String.[] h = refl
  replace_runs-kept inside (String.◌∷◌ c s) h = elim (Bool-cases (ok c)) [
    | inl y ↦ rw y (ap (λ t. String.◌∷◌ c t) (replace_runs-kept false s (ground (arith, h))))
    | inr n ↦ absurd (ground (arith, h, n))
  ]

  pub replace_runs-dots_after :
      ((c : Char) → is_dot c ≡ true → ok c ≡ true)
      → (b inside : Bool) (s : String) → (b && inside) ≡ false
      → dots_after b s ≡ false
      → dots_after b (replace_runs ok inside s) ≡ false
  unfolding replace_runs dots_after
  replace_runs-dots_after dot b inside String.[] o h = refl
  replace_runs-dots_after dot b inside (String.◌∷◌ c s) o h = elim (Bool-cases (ok c)) [
    | inl y ↦
        let here : (b && is_dot c) ≡ false = ground (arith, h) in
        let there : dots_after (is_dot c) s ≡ false = ground (arith, h) in
        let later : (is_dot c && false) ≡ false = ground arith in
        rw y (ground (arith, here, replace_runs-dots_after dot (is_dot c) false s later there))
    | inr n ↦
        let plain : is_dot c ≡ false = elim (Bool-cases (is_dot c)) [
          | inl d ↦ absurd (ground (arith, n, dot c d))
          | inr d ↦ d
        ] in
        let there : dots_after false s ≡ false =
          subst (λ k. dots_after k s ≡ false) plain (ground (arith, h)) in
        let in_run = replace_runs-dots_after dot false true s refl there in
        elim (Bool-cases inside) [
          | inl i ↦ let start : b ≡ false = ground (arith, o, i) in rw (n, i, start) in_run
          | inr i ↦ rw (n, i) (ground (arith, in_run))
        ]
  ]

pub replace_dots-pair :
    (c d : Char) (s : String)
    → (is_dot c && is_dot d) ≡ true
    → replace_dots (String.◌∷◌ c (String.◌∷◌ d s)) ≡ String.◌∷◌ "_" (replace_dots s)
unfolding replace_dots
replace_dots-pair c d s h = rw h refl

pub replace_dots-single :
    (c d : Char) (s : String)
    → (is_dot c && is_dot d) ≡ false
    → replace_dots (String.◌∷◌ c (String.◌∷◌ d s)) ≡ String.◌∷◌ c (replace_dots (String.◌∷◌ d s))
unfolding replace_dots
replace_dots-single c d s h = rw h refl

-- Behind a character that is no dot, it does not matter whether a dot came before that.
replace_dots-head :
    (d : Char) (s : String)
    → is_dot d ≡ false
    → dots_after true (replace_dots (String.◌∷◌ d s))
      ≡ dots_after false (replace_dots (String.◌∷◌ d s))
unfolding dots_after
replace_dots-head d String.[] h = unfold replace_dots in ground arith
replace_dots-head d (String.◌∷◌ e s) h =
    rw (replace_dots-single d e s (ground (arith, h))) (ground arith)

pub replace_dots-no_dots : (s : String) → has_dots (replace_dots s) ≡ false
unfolding dots_after
replace_dots-no_dots String.[] = unfold replace_dots in refl
replace_dots-no_dots (String.◌∷◌ c String.[]) = unfold replace_dots in ground arith
replace_dots-no_dots (String.◌∷◌ c (String.◌∷◌ d s)) = elim (Bool-cases (is_dot c)) [
  | inr n ↦
      rw (replace_dots-single c d s (ground (arith, n)))
        (rw n (replace_dots-no_dots (String.◌∷◌ d s)))
  | inl y ↦ elim (Bool-cases (is_dot d)) [
    | inl z ↦ rw (replace_dots-pair c d s (ground (arith, y, z))) (replace_dots-no_dots s)
    | inr m ↦
        rw (replace_dots-single c d s (ground (arith, m)))
          (rw y (replace_dots-head d s m ∙ replace_dots-no_dots (String.◌∷◌ d s)))
  ]
]

pub path_dot : (c : Char) → is_dot c ≡ true → path_char c ≡ true
path_dot c h = ground (arith, h)

-- Without two dots in a row there is nothing to replace.
pub replace_dots-kept : (s : String) → has_dots s ≡ false → replace_dots s ≡ s
unfolding dots_after
replace_dots-kept String.[] h = unfold replace_dots in refl
replace_dots-kept (String.◌∷◌ c String.[]) h = unfold replace_dots in refl
replace_dots-kept (String.◌∷◌ c (String.◌∷◌ d s)) h =
    let rest : has_dots (String.◌∷◌ d s) ≡ false = ground (arith, h) in
    replace_dots-single c d s (ground (arith, h))
    ∙ ap (λ t. String.◌∷◌ c t) (replace_dots-kept (String.◌∷◌ d s) rest)

-- The two replacements of every sanitizer.
pub replaced-IsSafe : (s : String) → has_dots s ≡ false → IsSafe (replace_runs path_char false s)
replaced-IsSafe s h = record {
  allowed = replace_runs-every path_char refl false s;
  no_dots = replace_runs-dots_after path_char path_dot false false s refl h;
}

-- The test for dots before they are replaced changes nothing.
pub sanitize_file_path_lem :
    (path : String) → sanitize_file_path path ≡ replace_runs path_char false (replace_dots path)
unfolding sanitize_file_path
sanitize_file_path_lem path = elim (Bool-cases (has_dots path)) [
  | inl y ↦ rw y refl
  | inr n ↦ rw (n, replace_dots-kept path n) refl
]

-- A sanitized path holds allowed characters only, and no two dots in a row.
pub sanitize_file_path-IsSafe : (path : String) → IsSafe (sanitize_file_path path)
sanitize_file_path-IsSafe path =
    subst IsSafe (sym (sanitize_file_path_lem path))
      (replaced-IsSafe (replace_dots path) (replace_dots-no_dots path))

-- A safe path is kept as it is, so that sanitizing twice is sanitizing once.
pub sanitize_file_path-kept : (path : String) → IsSafe path → sanitize_file_path path ≡ path
unfolding sanitize_file_path
sanitize_file_path-kept path safe =
    rw (safe.no_dots) (replace_runs-kept path_char false path safe.allowed)

abbrev pub no_slash : String → Bool
no_slash s = every (λ c. not (is_slash c)) s

pub replace_dots-no_slash : (s : String) → no_slash s ≡ true → no_slash (replace_dots s) ≡ true
replace_dots-no_slash String.[] h = unfold replace_dots in refl
replace_dots-no_slash (String.◌∷◌ c String.[]) h = unfold replace_dots in h
replace_dots-no_slash (String.◌∷◌ c (String.◌∷◌ d s)) h = elim (Bool-cases (is_dot c && is_dot d)) [
  | inl y ↦ rw (replace_dots-pair c d s y) (replace_dots-no_slash s (ground (arith, h)))
  | inr n ↦
      rw (replace_dots-single c d s n)
        (ground (arith, h, replace_dots-no_slash (String.◌∷◌ d s) (ground (arith, h))))
]

pub replace_runs-agree :
    (inside : Bool) (s : String)
    → no_slash s ≡ true
    → replace_runs name_char inside s ≡ replace_runs path_char inside s
unfolding replace_runs
replace_runs-agree inside String.[] h = refl
replace_runs-agree inside (String.◌∷◌ c s) h =
    let same : path_char c ≡ name_char c = ground (arith, h) in
    rw same (rw (replace_runs-agree (not (name_char c)) s (ground (arith, h))) refl)

-- A name without a slash is looked up, in a download or a deletion, as the upload stored it.
pub sanitize_file_name-agrees :
    (name : String)
    → no_slash name ≡ true
    → sanitize_file_name (some name) ≡ some (sanitize_file_path name)
unfolding sanitize_file_name sanitize_file_path
sanitize_file_name-agrees String.[] h = unfold dots_after replace_runs in refl
sanitize_file_name-agrees (String.◌∷◌ c s) h = elim (Bool-cases (has_dots (String.◌∷◌ c s))) [
  | inl y ↦
      let free = replace_dots-no_slash (String.◌∷◌ c s) h in
      rw y (ap some (replace_runs-agree false (replace_dots (String.◌∷◌ c s)) free))
  | inr n ↦ rw n (ap some (replace_runs-agree false (String.◌∷◌ c s) h))
]
