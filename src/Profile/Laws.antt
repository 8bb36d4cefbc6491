-- ===== src/Profile/Laws.antt =====
-- A prefix is stripped once, and what is left of a valid profile has none.
use Prim.Native.Char.{Char, code}
use Prim.Native.String.append
use Prim.Native.String.{◌++◌}
use qiskit_serverless.Base.{
  Bool, Bool-cases, String, ap, arith, false, if◌then◌else◌, inl, inr, none, nonempty, not, refl,
  some, true, ◌&&◌, ◌==◌, ◌∙◌, ◌≡◌,
}
use qiskit_serverless.Profile.{
  after_class, after_letters, bare, is_hyphen, is_lower, is_resource, is_valid, normalize,
  not_empty, or_lower, prefix_match, whole_line,
}

-- No newline stands in a text.
abbrev pub one_line : String → Bool
one_line String.[] = true
one_line (String.◌∷◌ c s) = not (code c == 10) && one_line s

whole_line-one_line : (s : String) → one_line s ≡ true → whole_line s ≡ some s
unfolding whole_line
whole_line-one_line String.[] h = refl
whole_line-one_line (String.◌∷◌ c s) h =
    let other : (code c == 10) ≡ false = ground (arith, h) in
    let rest : one_line s ≡ true = ground (arith, h) in rw (other, whole_line-one_line s rest) refl

not_empty-full : (s : String) → nonempty s ≡ true → not_empty (some s) ≡ some s
not_empty-full s full = rw full refl

hyphen_append : (s : String) → ("-" ++ s) ≡ String.◌∷◌ "-" s
hyphen_append s = append.cons "-" "" s ∙ ap (λ t. String.◌∷◌ "-" t) (append.nil s)

-- `\d` as documented: no hyphen and no lower-case letter of ASCII is a decimal digit.
pub record IsDigits (digit : Char → Bool) : Type 0 where
  pub no_hyphen : (c : Char) → is_hyphen c ≡ true → digit c ≡ false
  pub no_lower : (c : Char) → is_lower c ≡ true → digit c ≡ false

module _ (digit : Char → Bool) where
  -- `[a-z\d]*`, `[a-z]*\d[a-z\d]*` and an instance family, each to the end of a text.
  abbrev pub class_only : String → Bool
  class_only String.[] = true
  class_only (String.◌∷◌ c s) = or_lower digit c && class_only s

  abbrev pub letters_then : String → Bool
  letters_then String.[] = false
  letters_then (String.◌∷◌ c s) = if is_lower c then letters_then s else digit c && class_only s

  abbrev pub is_family : String → Bool
  is_family String.[] = false
  is_family (String.◌∷◌ c s) = is_lower c && letters_then s

module _ (digit : Char → Bool) (digits : IsDigits digit) where
  class-hyphen : (c : Char) → or_lower digit c ≡ true → is_hyphen c ≡ false
  class-hyphen c h = ground (arith, h, digits.no_hyphen c)

  after_class-append :
      (p s : String) → class_only digit p ≡ true → after_class digit (p ++ ("-" ++ s)) ≡ some s
  unfolding after_class
  after_class-append String.[] s h = rw (append.nil ("-" ++ s)) (rw (hyphen_append s) refl)
  after_class-append (String.◌∷◌ c p) s h =
      let own : or_lower digit c ≡ true = ground (arith, h) in
      let rest : class_only digit p ≡ true = ground (arith, h) in
      rw (append.cons c p ("-" ++ s)) (rw (class-hyphen c own, own) (after_class-append p s rest))

  after_letters-append :
      (p s : String) → letters_then digit p ≡ true → after_letters digit (p ++ ("-" ++ s)) ≡ some s
  unfolding after_letters
  after_letters-append String.[] s h = absurd (cc h)
  after_letters-append (String.◌∷◌ c p) s h = elim (Bool-cases (is_lower c)) [
    | inl letter ↦
        rw (append.cons c p ("-" ++ s)) (rw letter (after_letters-append p s (rw letter at h)))
    | inr other ↦
        let own : digit c ≡ true = ground (arith, h, other) in
        let rest : class_only digit p ≡ true = ground (arith, h, other) in
        rw (append.cons c p ("-" ++ s)) (rw (other, own) (after_class-append p s rest))
  ]

  prefix_match-append :
      (p s : String)
      → is_family digit p ≡ true
      → nonempty s ≡ true
      → one_line s ≡ true
      → prefix_match digit (p ++ ("-" ++ s)) ≡ some s
  unfolding prefix_match
  prefix_match-append String.[] s h full line = absurd (cc h)
  prefix_match-append (String.◌∷◌ c p) s h full line =
      let letter : is_lower c ≡ true = ground (arith, h) in
      let rest : letters_then digit p ≡ true = ground (arith, h) in
      rw (append.cons c p ("-" ++ s)) (
        rw (letter, after_letters-append p s rest, whole_line-one_line s line)
          (not_empty-full s full))

  nonempty-append : (p s : String) → nonempty p ≡ true → nonempty (p ++ s) ≡ true
  nonempty-append String.[] s h = absurd (cc h)
  nonempty-append (String.◌∷◌ c p) s h = rw (append.cons c p s) refl

  is_family-nonempty : (p : String) → is_family digit p ≡ true → nonempty p ≡ true
  is_family-nonempty String.[] h = absurd (cc h)
  is_family-nonempty (String.◌∷◌ c p) h = refl

  -- A profile with an instance family in front is stored without it, whatever follows the hyphen,
  -- and is valid exactly if what follows is a resource: if the family is lower-case letters, a digit
  -- and more of these, and what follows is not empty and holds no newline.
  pub normalize-append :
      (family resource : String)
      → is_family digit family ≡ true
      → nonempty resource ≡ true
      → one_line resource ≡ true
      → (normalize digit (some (family ++ ("-" ++ resource))) ≡ some resource)
        × (is_valid digit (family ++ ("-" ++ resource)) ≡ is_resource digit resource)
  unfolding normalize is_valid
  normalize-append family resource h full line =
      let there = nonempty-append family ("-" ++ resource) (is_family-nonempty family h) in
      let caught_resource = prefix_match-append family resource h full line in
      (rw (there, caught_resource) refl, rw (there, caught_resource) refl)

  resource-unprefixed : (s : String) → is_resource digit s ≡ true → prefix_match digit s ≡ none
  unfolding is_resource prefix_match
  resource-unprefixed String.[] h = absurd (cc h)
  resource-unprefixed (String.◌∷◌ c s) h =
      let other : is_lower c ≡ false = ground (arith, h, digits.no_lower c) in rw other refl

  resource-nonempty : (s : String) → is_resource digit s ≡ true → nonempty s ≡ true
  unfolding is_resource
  resource-nonempty String.[] h = absurd (cc h)
  resource-nonempty (String.◌∷◌ c s) h = refl

  -- A valid profile, with a family or without, is stored as a resource, which is valid itself and is
  -- stored as it is.
  pub normalize-normalize :
      (value : String)
      → is_valid digit value ≡ true
      → (resource : String) × (normalize digit (some value) ≡ some resource)
        × (is_resource digit resource ≡ true)
        × (is_valid digit resource ≡ true)
        × (normalize digit (some resource) ≡ some resource)
  unfolding normalize is_valid
  normalize-normalize value h = elim (Bool-cases (nonempty value)) [
    | inl full ↦
        let r = bare digit value (prefix_match digit value) in
        let proper : is_resource digit r ≡ true = rw full at h in
        let left = resource-unprefixed r proper in
        let some_left = resource-nonempty r proper in
        (r, rw full refl, proper, rw (some_left, left) proper, rw (some_left, left) refl)
    | inr empty ↦ absurd (cc (rw empty at h))
  ]
