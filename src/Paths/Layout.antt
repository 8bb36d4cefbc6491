-- ===== src/Paths/Layout.antt =====
-- Where the folders of users and providers lie.
use mathlib.Core.Path.{subst}
use Prim.Native.Char.{Char}
use Prim.Native.String.{String, ◌++◌ as text_append}
use qiskit_serverless.Base.{
  Bool, Bool-cases, List, Option, [], all, ap, arith, false, inl, inr, map, none, nonempty, not,
  refl, some, sym, take, true, ◌&&◌, ◌++◌, ◌≡◌, ◌∙◌, ◌∷◌, ◌||◌,
}
use qiskit_serverless.Base.Text.{join, split}
use qiskit_serverless.Paths.{
  WorkingDir, ends_slash, is_dot, join_path, name_char, path_char, provider_storage, replace_dots,
  replace_runs, sanitize_file_path, starts_slash, sub_path, user_storage,
}
use qiskit_serverless.Paths.Safe.{
  every, no_slash, replace_dots-no_slash, replace_dots-pair, replace_dots-single,
  replace_runs-agree, replace_runs-every, sanitize_file_path-IsSafe, sanitize_file_path_lem,
}
use qiskit_serverless.Paths.Segments.{is_segment, slash-cons, slash-nil, split-join}
use qiskit_serverless.Paths.Folders.{sanitize-slash}

-- A name that is not empty and holds no slash.
abbrev pub is_name : String → Bool
is_name s = nonempty s && no_slash s

abbrev slashed : String → String → String
slashed s t = text_append s (text_append "/" t)

slashed_assoc : (a b c : String) → slashed (slashed a b) c ≡ slashed a (slashed b c)
slashed_assoc String.[] b c =
    ap (λ s. slashed s c) (slash-nil b) ∙ slash-cons "/" b c ∙ sym (slash-nil (slashed b c))
slashed_assoc (String.◌∷◌ x s) b c =
    ap (λ r. slashed r c) (slash-cons x s b)
    ∙ slash-cons x (slashed s b) c
    ∙ ap (λ r. String.◌∷◌ x r) (slashed_assoc s b c)
    ∙ sym (slash-cons x s (slashed b c))

join-snoc :
    (p : String) (ps : List String) (b : String)
    → slashed (join "/" (p ∷ ps)) b ≡ join "/" ((p ∷ ps) ++ (b ∷ []))
unfolding join
join-snoc p [] b = refl
join-snoc p (q ∷ qs) b = slashed_assoc p (join "/" (q ∷ qs)) b ∙ ap (slashed p) (join-snoc q qs b)

-- A path that is not empty and does not end with a slash.
abbrev ends_well : String → Bool
ends_well s = nonempty s && not (ends_slash s)

ends_well-cons : (c : Char) (s : String) → ends_well s ≡ true → ends_well (String.◌∷◌ c s) ≡ true
ends_well-cons c String.[] h = absurd (cc)
ends_well-cons c (String.◌∷◌ d s) h = h

ends_well-slashed : (s t : String) → ends_well t ≡ true → ends_well (slashed s t) ≡ true
ends_well-slashed String.[] t h = rw (slash-nil t) (ends_well-cons "/" t h)
ends_well-slashed (String.◌∷◌ c s) t h =
    rw (slash-cons c s t) (ends_well-cons c (slashed s t) (ends_well-slashed s t h))

name-ends_well : (s : String) → is_name s ≡ true → ends_well s ≡ true
name-ends_well String.[] h = h
name-ends_well (String.◌∷◌ c String.[]) h = ground (arith, h)
name-ends_well (String.◌∷◌ c (String.◌∷◌ d s)) h =
    ends_well-cons c (String.◌∷◌ d s) (name-ends_well (String.◌∷◌ d s) (ground (arith, h)))

names-ends_well :
    (p : String) (ps : List String)
    → all is_name (p ∷ ps) ≡ true
    → ends_well (join "/" (p ∷ ps)) ≡ true
unfolding join
names-ends_well p [] h = name-ends_well p (ground (arith, h))
names-ends_well p (q ∷ qs) h =
    ends_well-slashed p (join "/" (q ∷ qs)) (names-ends_well q qs (ground (arith, h)))

name-starts : (s : String) → is_name s ≡ true → starts_slash s ≡ false
name-starts String.[] h = refl
name-starts (String.◌∷◌ c s) h = ground (arith, h)

-- A path of names is joined with a further name.
join_path-names :
    (p : String) (ps : List String) (b : String)
    → all is_name (p ∷ ps) ≡ true
    → is_name b ≡ true
    → join_path (join "/" (p ∷ ps)) b ≡ join "/" ((p ∷ ps) ++ (b ∷ []))
unfolding join_path
join_path-names p ps b h k =
    let e = names-ends_well p ps h in
    let rest : (not (nonempty (join "/" (p ∷ ps))) || ends_slash (join "/" (p ∷ ps))) ≡ false =
      ground (arith, e) in
    rw (name-starts b k, rest) (join-snoc p ps b)

sanitize-names :
    (p : String) (ps : List String)
    → sanitize_file_path (join "/" (p ∷ ps)) ≡ join "/" (map sanitize_file_path (p ∷ ps))
unfolding join
sanitize-names p [] = refl
sanitize-names p (q ∷ qs) =
    sanitize-slash p (join "/" (q ∷ qs)) ∙ ap (slashed (sanitize_file_path p)) (sanitize-names q qs)

abbrev pub one_or_none : Option String → List String
one_or_none none = []
one_or_none (some s) = s ∷ []

-- The names of the folders, from the root: those of a provider begin with the provider.
abbrev pub folders : WorkingDir → String → String → Option String → Option String → List String
folders user_storage username function_title none extra = username ∷ one_or_none extra
folders user_storage username function_title (some provider) extra =
    username ∷ provider ∷ function_title ∷ one_or_none extra
folders provider_storage username function_title none extra = []
folders provider_storage username function_title (some provider) extra =
    provider ∷ function_title ∷ one_or_none extra

module _ (a b : String) (h : all is_name (a ∷ b ∷ []) ≡ true) where
  two_names : join_path a b ≡ join "/" (a ∷ b ∷ [])
  unfolding join
  two_names = join_path-names a [] b (ground (arith, h)) (ground (arith, h))

  three_names :
      (c : String) → is_name c ≡ true → join_path (join_path a b) c ≡ join "/" (a ∷ b ∷ c ∷ [])
  three_names c k = ap (λ s. join_path s c) two_names ∙ join_path-names a (b ∷ []) c h k

  four_names :
      (c d : String)
      → is_name c ≡ true
      → is_name d ≡ true
      → join_path (join_path (join_path a b) c) d ≡ join "/" (a ∷ b ∷ c ∷ d ∷ [])
  four_names c d k l =
      ap (λ s. join_path s d) (three_names c k)
      ∙ join_path-names a (b ∷ c ∷ []) d (ground (arith, h, k)) l

abbrev pub laid_out : List String → Option String
laid_out [] = none
laid_out (p ∷ ps) = some (join "/" (map sanitize_file_path (p ∷ ps)))

sanitized :
    (path p : String) (ps : List String)
    → path ≡ join "/" (p ∷ ps)
    → sanitize_file_path path ≡ join "/" (map sanitize_file_path (p ∷ ps))
sanitized path p ps e = ap sanitize_file_path e ∙ sanitize-names p ps

-- If the names that a path is made of are not empty and hold no slash, the path is these names,
-- each sanitized by itself, with a slash between them: the user's name first, then, for the
-- function of a provider, the provider's and the title; a provider's own folder begins with the
-- provider. There is no path to a provider's folder without a provider.
pub sub_path-folders :
    (dir : WorkingDir) (username function_title : String) (provider extra : Option String)
    → all is_name (folders dir username function_title provider extra) ≡ true
    → sub_path dir username function_title provider extra
      ≡ laid_out (folders dir username function_title provider extra)
unfolding sub_path
sub_path-folders user_storage u t none none h = ap some (sanitized u u [] (unfold join in refl))
sub_path-folders user_storage u t none (some e) h =
    ap some (sanitized (join_path u e) u (e ∷ []) (two_names u e h))
sub_path-folders user_storage u t (some p) none h = ap some (
    sanitized (join_path (join_path u p) t) u (p ∷ t ∷ [])
      (three_names u p (ground (arith, h)) t (ground (arith, h))))
sub_path-folders user_storage u t (some p) (some e) h = ap some (
    sanitized (join_path (join_path (join_path u p) t) e) u (p ∷ t ∷ e ∷ [])
      (four_names u p (ground (arith, h)) t e (ground (arith, h)) (ground (arith, h))))
sub_path-folders provider_storage u t none extra h = refl
sub_path-folders provider_storage u t (some p) none h =
    ap some (sanitized (join_path p t) p (t ∷ []) (two_names p t h))
sub_path-folders provider_storage u t (some p) (some e) h = ap some (
    sanitized (join_path (join_path p t) e) p (t ∷ e ∷ [])
      (three_names p t (ground (arith, h)) e (ground (arith, h))))

nonempty-replace_dots : (s : String) → nonempty s ≡ true → nonempty (replace_dots s) ≡ true
nonempty-replace_dots String.[] h = absurd (cc)
nonempty-replace_dots (String.◌∷◌ c String.[]) h = unfold replace_dots in refl
nonempty-replace_dots (String.◌∷◌ c (String.◌∷◌ d s)) h = elim (Bool-cases (is_dot c && is_dot d)) [
  | inl y ↦ rw (replace_dots-pair c d s y) refl
  | inr n ↦ rw (replace_dots-single c d s n) refl
]

nonempty-replace_runs :
    (ok : Char → Bool) (s : String) → nonempty s ≡ true → nonempty (replace_runs ok false s) ≡ true
unfolding replace_runs
nonempty-replace_runs ok String.[] h = absurd (cc)
nonempty-replace_runs ok (String.◌∷◌ c s) h = elim (Bool-cases (ok c)) [
  | inl y ↦ rw y refl
  | inr n ↦ rw n refl
]

-- A sanitized name is a segment of a path.
pub sanitized-is_segment :
    (s : String) → is_name s ≡ true → is_segment (sanitize_file_path s) ≡ true
sanitized-is_segment s h =
    let safe = sanitize_file_path-IsSafe s in
    let t : String = replace_dots s in
    let free : no_slash t ≡ true = replace_dots-no_slash s (ground (arith, h)) in
    let names : every name_char (sanitize_file_path s) ≡ true =
      rw (sanitize_file_path_lem s)
        (rw (← (replace_runs-agree false t free)) (replace_runs-every name_char refl false t)) in
    let full : nonempty (sanitize_file_path s) ≡ true =
      rw (sanitize_file_path_lem s)
        (nonempty-replace_runs path_char t (nonempty-replace_dots s (ground (arith, h)))) in
    ground (arith, safe.no_dots, names, full)

sanitized-segments :
    (ps : List String) → all is_name ps ≡ true → all is_segment (map sanitize_file_path ps) ≡ true
sanitized-segments [] h = refl
sanitized-segments (p ∷ ps) h =
    ground
      (arith, sanitized-is_segment p (ground (arith, h)), sanitized-segments ps (ground (arith, h)))

-- The first part of a path.
abbrev first_part : Option String → List String
first_part none = []
first_part (some path) = take 1 (split "/" path)

laid_out-first :
    (p : String) (ps : List String)
    → all is_name (p ∷ ps) ≡ true
    → first_part (laid_out (p ∷ ps)) ≡ sanitize_file_path p ∷ []
laid_out-first p ps h =
    ap (take 1) (
      split-join (sanitize_file_path p) (map sanitize_file_path ps) (sanitized-segments (p ∷ ps) h))

abbrev below_user : String → Option String → Option String → List String
below_user t none extra = one_or_none extra
below_user t (some p) extra = p ∷ t ∷ one_or_none extra

user_folders :
    (u t : String) (p e : Option String) → folders user_storage u t p e ≡ u ∷ below_user t p e
user_folders u t none e = refl
user_folders u t (some p) e = refl

user_first :
    (u t : String) (p e : Option String)
    → all is_name (folders user_storage u t p e) ≡ true
    → first_part (sub_path user_storage u t p e) ≡ sanitize_file_path u ∷ []
user_first u t p e h =
    ap first_part (sub_path-folders user_storage u t p e h ∙ ap laid_out (user_folders u t p e))
    ∙ laid_out-first u (below_user t p e)
        (subst (λ l. all is_name l ≡ true) (user_folders u t p e) h)

-- Two users have a folder in common, whatever functions they run, only if their sanitized names
-- are the same, if the names that the paths are made of are not empty and hold no slash.
pub users_apart :
    (u t : String) (p e : Option String) (u' t' : String) (p' e' : Option String)
    → all is_name (folders user_storage u t p e) ≡ true
    → all is_name (folders user_storage u' t' p' e') ≡ true
    → sub_path user_storage u t p e ≡ sub_path user_storage u' t' p' e'
    → sanitize_file_path u ≡ sanitize_file_path u'
users_apart u t p e u' t' p' e' h h' same =
    cc (user_first u t p e h, user_first u' t' p' e' h', ap first_part same)
