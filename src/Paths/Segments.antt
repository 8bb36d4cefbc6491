-- ===== src/Paths/Segments.antt =====
-- What a sanitized folder below the storage of files is.
use mathlib.Core.Path.{subst}
use Prim.Native.String.append
use Prim.Native.Char.{Char}
use Prim.Native.String.{String, ◌++◌}
use qiskit_serverless.Base.{
  Bool, Bool-cases, List, Option, [], all, ap, arith, false, filter, inl, inr, none, nonempty, not,
  refl, some, true, ◌&&◌, ◌≡◌, ◌∙◌, ◌∷◌,
}
use qiskit_serverless.Base.Text.{cons_head, join, split}
use qiskit_serverless.Paths.{
  dots_after, has_dots, is_dot, is_slash, name_char, path_char, replace_dots, replace_runs,
  sanitize_sub_path,
}
use qiskit_serverless.Paths.Safe.{
  IsSafe, every, replace_dots-kept, replace_dots-no_dots, replace_runs-kept, replaced-IsSafe,
}

-- A part of a path that is a name, or empty.
abbrev pub is_part : String → Bool
is_part s = every name_char s && not (has_dots s)

-- The name of a file or a folder: it leads neither up nor deeper.
abbrev pub is_segment : String → Bool
is_segment s = nonempty s && is_part s

-- The parts of a path whose first goes on from a dot or not.
abbrev Parts : Bool → List String → Type 0
Parts b [] = Unit {0}
Parts b (p ∷ ps) = (every name_char p ≡ true) × (dots_after b p ≡ false) × (all is_part ps ≡ true)

Parts-all : (ps : List String) → Parts false ps → all is_part ps ≡ true
Parts-all [] h = refl
Parts-all (p ∷ ps) (a, b, c) = ground (arith, a, b, c)

cons_head-Parts :
    (b : Bool) (c : Char) (ps : List String)
    → name_char c ≡ true
    → (b && is_dot c) ≡ false
    → Parts (is_dot c) ps
    → Parts b (cons_head c ps)
unfolding dots_after
cons_head-Parts b c [] n d h = (ground (arith, n), ground (arith, d), refl)
cons_head-Parts b c (p ∷ ps) n d (x, y, z) = (ground (arith, n, x), ground (arith, d, y), z)

split-Parts :
    (b : Bool) (s : String)
    → every path_char s ≡ true
    → dots_after b s ≡ false
    → Parts b (split "/" s)
unfolding split dots_after
split-Parts b String.[] h d = (refl, refl, refl)
split-Parts b (String.◌∷◌ c s) h d =
    let later = split-Parts (is_dot c) s (ground (arith, h)) (ground (arith, d)) in
    elim (Bool-cases (is_slash c)) [
      | inl y ↦
          let dotless : is_dot c ≡ false = ground (arith, y) in
          let rest = subst (λ k. Parts k (split "/" s)) dotless later in
          rw y (refl, refl, Parts-all (split "/" s) rest)
      | inr n ↦
          rw n (cons_head-Parts b c (split "/" s) (ground (arith, h, n)) (ground (arith, d)) later)
    ]

-- A slash between two texts, by the characters of the first.
pub slash-nil : (t : String) → ("" ++ ("/" ++ t)) ≡ String.◌∷◌ "/" t
slash-nil t =
    append.nil ("/" ++ t) ∙ append.cons "/" "" t ∙ ap (λ u. String.◌∷◌ "/" u) (append.nil t)

pub slash-cons :
    (c : Char) (s t : String) → ((String.◌∷◌ c s) ++ ("/" ++ t)) ≡ String.◌∷◌ c (s ++ ("/" ++ t))
slash-cons c s t = append.cons c s ("/" ++ t)

filter-segments :
    (ps : List String) → all is_part ps ≡ true → all is_segment (filter nonempty ps) ≡ true
filter-segments [] h = refl
filter-segments (p ∷ ps) h = elim (Bool-cases (nonempty p)) [
  | inl y ↦ rw y (ground (arith, h, y, filter-segments ps (ground (arith, h))))
  | inr n ↦ rw n (filter-segments ps (ground (arith, h)))
]

filter-kept : (ps : List String) → all is_segment ps ≡ true → filter nonempty ps ≡ ps
filter-kept [] h = refl
filter-kept (p ∷ ps) h =
    let y : nonempty p ≡ true = ground (arith, h) in
    rw y (ap (λ l. p ∷ l) (filter-kept ps (ground (arith, h))))

split-whole : (p : String) → every name_char p ≡ true → split "/" p ≡ p ∷ []
unfolding split
split-whole String.[] h = refl
split-whole (String.◌∷◌ c s) h =
    let n : is_slash c ≡ false = ground (arith, h) in rw (n, split-whole s (ground (arith, h))) refl

split-slash :
    (p t : String) → every name_char p ≡ true → split "/" (p ++ ("/" ++ t)) ≡ p ∷ split "/" t
unfolding split
split-slash String.[] t h = rw (slash-nil t) refl
split-slash (String.◌∷◌ c s) t h =
    let n : is_slash c ≡ false = ground (arith, h) in
    rw (slash-cons c s t) (rw (n, split-slash s t (ground (arith, h))) refl)

-- The parts of a joined path are those that were joined.
pub split-join :
    (p : String) (ps : List String)
    → all is_segment (p ∷ ps) ≡ true
    → split "/" (join "/" (p ∷ ps)) ≡ p ∷ ps
unfolding join
split-join p [] h = split-whole p (ground (arith, h))
split-join p (q ∷ qs) h =
    split-slash p (join "/" (q ∷ qs)) (ground (arith, h))
    ∙ ap (λ l. p ∷ l) (split-join q qs (ground (arith, h)))

module _ (ok : Char → Bool) where
  every-slash :
      (p t : String)
      → ok "/" ≡ true
      → every ok p ≡ true
      → every ok t ≡ true
      → every ok (p ++ ("/" ++ t)) ≡ true
  every-slash String.[] t o h k = rw (slash-nil t) (ground (arith, o, k))
  every-slash (String.◌∷◌ c s) t o h k =
      rw (slash-cons c s t) (ground (arith, h, every-slash s t o (ground (arith, h)) k))

every-path : (s : String) → every name_char s ≡ true → every path_char s ≡ true
every-path String.[] h = refl
every-path (String.◌∷◌ c s) h = ground (arith, h, every-path s (ground (arith, h)))

dots_after-slash :
    (b : Bool) (p t : String)
    → dots_after b p ≡ false
    → has_dots t ≡ false
    → dots_after b (p ++ ("/" ++ t)) ≡ false
unfolding dots_after
dots_after-slash b String.[] t h k = rw (slash-nil t) (ground (arith, k))
dots_after-slash b (String.◌∷◌ c s) t h k =
    rw (slash-cons c s t) (ground (arith, h, dots_after-slash (is_dot c) s t (ground (arith, h)) k))

-- A path of names is safe.
pub join-IsSafe : (ps : List String) → all is_segment ps ≡ true → IsSafe (join "/" ps)
unfolding join
join-IsSafe [] h = record { allowed = refl; no_dots = unfold dots_after in refl }
join-IsSafe (p ∷ []) h = record {
  allowed = every-path p (ground (arith, h));
  no_dots = ground (arith, h);
}
join-IsSafe (p ∷ q ∷ qs) h =
    let rest = join-IsSafe (q ∷ qs) (ground (arith, h)) in
    record {
      allowed =
          every-slash path_char p (join "/" (q ∷ qs)) refl (every-path p (ground (arith, h)))
            rest.allowed;
      no_dots = dots_after-slash false p (join "/" (q ∷ qs)) (ground (arith, h)) rest.no_dots;
    }

-- The result names a folder below the storage: it is a path of names, none of which is empty or
-- holds a slash or two dots in a row, or it is empty.
pub sanitize_sub_path-segments :
    (sub_path : Option String)
    → (parts : List String) × (sanitize_sub_path sub_path ≡ join "/" parts)
      × (all is_segment parts ≡ true)
unfolding sanitize_sub_path
sanitize_sub_path-segments none = ([], unfold join in refl, refl)
sanitize_sub_path-segments (some s) = elim (Bool-cases (nonempty s)) [
  | inr n ↦ ([], rw n (unfold join in refl), refl)
  | inl y ↦
      let t : String = replace_runs path_char false (replace_dots s) in
      let safe = replaced-IsSafe (replace_dots s) (replace_dots-no_dots s) in
      let parts = split-Parts false t safe.allowed safe.no_dots in
      (
        filter nonempty (split "/" t),
        rw y refl,
        filter-segments (split "/" t) (Parts-all (split "/" t) parts),
      )
]

empty-eq : (s : String) → nonempty s ≡ false → "" ≡ s
empty-eq String.[] h = refl
empty-eq (String.◌∷◌ c s) h = absurd (cc)

-- A path of names is kept as it is.
pub sanitize_sub_path-join :
    (parts : List String)
    → all is_segment parts ≡ true
    → sanitize_sub_path (some (join "/" parts)) ≡ join "/" parts
unfolding sanitize_sub_path
sanitize_sub_path-join [] h = unfold join in refl
sanitize_sub_path-join (p ∷ ps) h = elim (Bool-cases (nonempty (join "/" (p ∷ ps)))) [
  | inr n ↦ rw n (empty-eq (join "/" (p ∷ ps)) n)
  | inl y ↦
      let safe = join-IsSafe (p ∷ ps) h in
      rw y (
        rw (replace_dots-kept (join "/" (p ∷ ps)) safe.no_dots) (
          rw (replace_runs-kept path_char false (join "/" (p ∷ ps)) safe.allowed)
            (rw (split-join p ps h) (ap (join "/") (filter-kept (p ∷ ps) h)))))
]

-- Sanitizing a folder twice, in the view and in the storage, is sanitizing it once.
pub sanitize_sub_path-twice :
    (sub_path : Option String)
    → sanitize_sub_path (some (sanitize_sub_path sub_path)) ≡ sanitize_sub_path sub_path
sanitize_sub_path-twice s =
    let (parts, e, h) = sanitize_sub_path-segments s in rw e (sanitize_sub_path-join parts h)
