-- ===== src/Paths/Folders.antt =====
-- A path is sanitized name by name.
use Prim.Native.Char.{Char}
use Prim.Native.String.{String, ◌++◌}
use qiskit_serverless.Base.{
  Bool, Bool-cases, ap, arith, false, inl, inr, refl, sym, true, ◌&&◌, ◌≡◌, ◌∙◌,
}
use qiskit_serverless.Paths.{is_dot, path_char, replace_dots, replace_runs, sanitize_file_path}
use qiskit_serverless.Paths.Safe.{replace_dots-pair, replace_dots-single, sanitize_file_path_lem}
use qiskit_serverless.Paths.Segments.{slash-cons, slash-nil}

abbrev cons : Char → String → String
cons c s = String.◌∷◌ c s

slash-two :
    (c d : Char) (s t : String)
    → (cons c (cons d s) ++ ("/" ++ t)) ≡ cons c (cons d (s ++ ("/" ++ t)))
slash-two c d s t = slash-cons c (cons d s) t ∙ ap (cons c) (slash-cons d s t)

replace_dots-slash_first :
    (t : String) → replace_dots (String.◌∷◌ "/" t) ≡ String.◌∷◌ "/" (replace_dots t)
replace_dots-slash_first String.[] = unfold replace_dots in refl
replace_dots-slash_first (String.◌∷◌ d s) = replace_dots-single "/" d s refl

-- No pair of dots lies across a slash.
replace_dots-slash :
    (p t : String) → replace_dots (p ++ ("/" ++ t)) ≡ replace_dots p ++ ("/" ++ replace_dots t)
replace_dots-slash String.[] t =
    rw (slash-nil t)
      (replace_dots-slash_first t ∙ sym (unfold replace_dots in slash-nil (replace_dots t)))
replace_dots-slash (String.◌∷◌ c String.[]) t =
    ap replace_dots (slash-cons c "" t ∙ ap (cons c) (slash-nil t))
    ∙ replace_dots-single c "/" t (ground arith)
    ∙ ap (cons c) (replace_dots-slash_first t ∙ sym (slash-nil (replace_dots t)))
    ∙ sym (unfold replace_dots in slash-cons c "" (replace_dots t))
replace_dots-slash (String.◌∷◌ c (String.◌∷◌ d s)) t = elim (Bool-cases (is_dot c && is_dot d)) [
  | inl y ↦
      ap replace_dots (slash-two c d s t)
      ∙ replace_dots-pair c d (s ++ ("/" ++ t)) y
      ∙ ap (cons "_") (replace_dots-slash s t)
      ∙ sym (slash-cons "_" (replace_dots s) (replace_dots t))
      ∙ ap (λ r. r ++ ("/" ++ replace_dots t)) (sym (replace_dots-pair c d s y))
  | inr n ↦
      ap replace_dots (slash-two c d s t)
      ∙ replace_dots-single c d (s ++ ("/" ++ t)) n
      ∙ ap (cons c)
          (ap replace_dots (sym (slash-cons d s t)) ∙ replace_dots-slash (String.◌∷◌ d s) t)
      ∙ sym (slash-cons c (replace_dots (String.◌∷◌ d s)) (replace_dots t))
      ∙ ap (λ r. r ++ ("/" ++ replace_dots t)) (sym (replace_dots-single c d s n))
]

-- Nor does a run of characters that are replaced.
replace_runs-slash :
    (inside : Bool) (p t : String)
    → replace_runs path_char inside (p ++ ("/" ++ t))
      ≡ replace_runs path_char inside p ++ ("/" ++ replace_runs path_char false t)
unfolding replace_runs
replace_runs-slash inside String.[] t =
    rw (slash-nil t) (sym (slash-nil (replace_runs path_char false t)))
replace_runs-slash inside (String.◌∷◌ c s) t =
    rw (slash-cons c s t) (elim (Bool-cases (path_char c)) [
      | inl y ↦ rw y (
          ap (cons c) (replace_runs-slash false s t)
          ∙ sym (slash-cons c (replace_runs path_char false s) (replace_runs path_char false t)))
      | inr n ↦ elim (Bool-cases inside) [
        | inl i ↦ rw (n, i) (replace_runs-slash true s t)
        | inr i ↦
            rw (n, i)
              (ap (cons "_") (replace_runs-slash true s t)
                ∙ sym (
                    slash-cons "_" (replace_runs path_char true s)
                      (replace_runs path_char false t)))
      ]
    ])

-- So a path is sanitized name by name.
pub sanitize-slash :
    (p t : String)
    → sanitize_file_path (p ++ ("/" ++ t)) ≡ sanitize_file_path p ++ ("/" ++ sanitize_file_path t)
sanitize-slash p t =
    rw
      (sanitize_file_path_lem (p ++ ("/" ++ t)), sanitize_file_path_lem p, sanitize_file_path_lem t)
      (rw (replace_dots-slash p t) (replace_runs-slash false (replace_dots p) (replace_dots t)))
