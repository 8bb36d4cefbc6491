-- ===== src/Crn/Laws.antt =====
-- The expression that filters CRNs in the database against the reading of a CRN in the process.
use Prim.Native.Char.{Char, code}
use Prim.Native.Nat.{Ordering, compare as compare_ℕ}
use Prim.Native.String.compare
use Prim.Native.String.{compare, then as next_order}
use text.Mathlib.Text.{is_eq}
use qiskit_serverless.Base.{
  Bool, Bool-cases, List, Option, String, [], ap, arith, drop, false, if◌then◌else◌, inl, inr, none,
  nonempty, not, opt_str_eq, refl, some, str_eq, suc, sym, true, zero, ℕ, ◌&&◌, ◌==◌, ◌∙◌, ◌∷◌, ◌≡◌,
}
use qiskit_serverless.Crn.{
  Crn, crn_region, cut_colon, or_none, parse, read_parts, region_crn_regex, region_follows,
  skip_segments, starts_colon,
}
use qiskit_serverless.Base.Text.{cons_head, split, strip_prefix}

next_order-is_eq :
    (o p : Ordering)
    → is_eq (next_order o p) ≡ ((elim o [ Ordering.eq ↦ true | _ ↦ false ]) && is_eq p)
next_order-is_eq Ordering.lt p = refl
next_order-is_eq Ordering.eq p = refl
next_order-is_eq Ordering.gt p = refl

str_eq-cons :
    (c d : Char) (s t : String)
    → str_eq (String.◌∷◌ c s) (String.◌∷◌ d t) ≡ ((code c == code d) && str_eq s t)
unfolding str_eq
str_eq-cons c d s t =
    ap is_eq (compare.cons-cons c d s t)
    ∙ next_order-is_eq (compare_ℕ (code c) (code d)) (compare s t)

cons-ne-nil : (c : Char) (s : String) → str_eq (String.◌∷◌ c s) String.[] ≡ false
unfolding str_eq
cons-ne-nil c s = ap is_eq (compare.cons-nil c s)

nil-ne-cons : (c : Char) (s : String) → str_eq String.[] (String.◌∷◌ c s) ≡ false
unfolding str_eq
nil-ne-cons c s = ap is_eq (compare.nil-cons c s)

-- No colon stands in a text.
abbrev pub colon_free : String → Bool
colon_free String.[] = true
colon_free (String.◌∷◌ c s) = not (code c == b':') && colon_free s

-- A split at the colons, by the first of them.
abbrev split_after : String → Option (String × String) → List String
split_after s none = s ∷ []
split_after s (some (h, t)) = h ∷ split ":" t

split-cut : (s : String) → split ":" s ≡ split_after s (cut_colon s)
unfolding split cut_colon
split-cut String.[] = refl
split-cut (String.◌∷◌ c s) = elim (Bool-cases (code c == b':')) [
  | inl colon ↦ rw colon refl
  | inr other ↦ rw other (rw (split-cut s) (later (cut_colon s)))
]
  where
    later :
        (o : Option (String × String))
        → cons_head c (split_after s o)
          ≡ split_after
              (String.◌∷◌ c s)
              (elim o [ none ↦ none | some (h, t) ↦ some (String.◌∷◌ c h, t) ])
    later none = refl
    later (some (h, t)) = refl

-- The parts behind the first ones.
abbrev split_rest : Option String → List String
split_rest none = []
split_rest (some rest) = split ":" rest

drop-nil : (n : ℕ) → drop {A = String} n [] ≡ []
drop-nil zero = refl
drop-nil (suc n) = refl

drop-split : (n : ℕ) (s : String) → drop n (split ":" s) ≡ split_rest (skip_segments n s)
unfolding skip_segments
drop-split zero s = refl
drop-split (suc n) s = rw (split-cut s) (later (drop-split n) (cut_colon s))
  where
    later :
        ((t : String) → drop n (split ":" t) ≡ split_rest (skip_segments n t))
        → (o : Option (String × String))
        → drop (suc n) (split_after s o)
          ≡ split_rest (elim o [ none ↦ none | some (h, t) ↦ skip_segments n t ])
    later ih none = drop-nil n
    later ih (some (h, t)) = ih t

-- The first part, if it is not empty and another follows.
abbrev followed : List String → Option String
followed [] = none
followed (region ∷ []) = none
followed (region ∷ account ∷ rest) = or_none region

abbrev region_at : Option Crn → Option String
region_at o = elim o [ none ↦ none | some c ↦ some c.region ]

read_parts-followed : (parts : List String) → region_at (read_parts parts) ≡ followed (drop 5 parts)
unfolding read_parts
read_parts-followed [] = refl
read_parts-followed (a ∷ []) = refl
read_parts-followed (a ∷ b ∷ []) = refl
read_parts-followed (a ∷ b ∷ c ∷ []) = refl
read_parts-followed (a ∷ b ∷ c ∷ d ∷ []) = refl
read_parts-followed (a ∷ b ∷ c ∷ d ∷ e ∷ []) = refl
read_parts-followed (a ∷ b ∷ c ∷ d ∷ e ∷ region ∷ []) = refl
read_parts-followed (a ∷ b ∷ c ∷ d ∷ e ∷ region ∷ account ∷ rest) =
    elim (Bool-cases (nonempty region)) [ inl e ↦ rw e refl | inr e ↦ rw e refl ]

-- The part up to the first colon, if it is not empty.
abbrev cut_region : Option (String × String) → Option String
cut_region none = none
cut_region (some (h, t)) = or_none h

followed-split : (s : String) → followed (split ":" s) ≡ cut_region (cut_colon s)
followed-split s = rw (split-cut s) (later (cut_colon s))
  where
    two : (h t : String) (o : Option (String × String)) → followed (h ∷ split_after t o) ≡ or_none h
    two h t none = refl
    two h t (some (x, y)) = refl

    later : (o : Option (String × String)) → followed (split_after s o) ≡ cut_region o
    later none = refl
    later (some (h, t)) = rw (split-cut t) (two h t (cut_colon t))

-- Whether the part up to the first colon is this region.
abbrev cut_is : String → Option (String × String) → Bool
cut_is region none = false
cut_is region (some (h, t)) = str_eq h region

-- A character before the part.
abbrev lengthen : Char → Option (String × String) → Option (String × String)
lengthen c o = elim o [ none ↦ none | some (h, t) ↦ some (String.◌∷◌ c h, t) ]

lengthen-cut_is :
    (c p : Char) (ps : String) (o : Option (String × String))
    → cut_is (String.◌∷◌ p ps) (lengthen c o) ≡ ((code c == code p) && cut_is ps o)
lengthen-cut_is c p ps none = ground arith
lengthen-cut_is c p ps (some (h, t)) = str_eq-cons c p h ps

lengthen-ne-nil :
    (c : Char) (o : Option (String × String)) → cut_is String.[] (lengthen c o) ≡ false
lengthen-ne-nil c none = refl
lengthen-ne-nil c (some (h, t)) = cons-ne-nil c h

==_comm : (a b : ℕ) → (a == b) ≡ (b == a)
==_comm a b = ground arith

-- The first letters agree, and then the rest decides.
first_letter :
    (p c : Char) (ps s : String)
    → region_follows (String.◌∷◌ p ps) (String.◌∷◌ c s)
      ≡ ((code c == code p) && region_follows ps s)
first_letter p c ps s =
    chosen (code p == code c) ∙ ap (λ b. b && region_follows ps s) (==_comm (code p) (code c))
  where
    chosen :
        (b : Bool)
        → elim (if b then strip_prefix ps s else none) [
          | none ↦ false
          | some rest ↦ starts_colon rest
        ]
          ≡ (b && region_follows ps s)
    chosen true = refl
    chosen false = refl

region_follows-cut :
    (region s : String)
    → colon_free region ≡ true
    → region_follows region s ≡ cut_is region (cut_colon s)
unfolding cut_colon str_eq
region_follows-cut String.[] String.[] free = refl
region_follows-cut String.[] (String.◌∷◌ c s) free = elim (Bool-cases (code c == b':')) [
  | inl colon ↦ rw colon refl
  | inr other ↦ rw other (sym (lengthen-ne-nil c (cut_colon s)))
]
region_follows-cut (String.◌∷◌ p ps) String.[] free = refl
region_follows-cut (String.◌∷◌ p ps) (String.◌∷◌ c s) free =
    let ih = region_follows-cut ps s (ground (arith, free)) in
    elim (Bool-cases (code c == b':')) [
      | inl colon ↦
          let differ : (code c == code p) ≡ false = ground (arith, colon, free) in
          first_letter p c ps s ∙ rw (differ, colon) (sym (nil-ne-cons p ps))
      | inr other ↦
          first_letter p c ps s ∙ rw (ih, other) (sym (lengthen-cut_is c p ps (cut_colon s)))
    ]

or_none-eq :
    (h region : String)
    → nonempty region ≡ true
    → opt_str_eq (or_none h) (some region) ≡ str_eq h region
or_none-eq h String.[] full = absurd (cc full)
or_none-eq String.[] (String.◌∷◌ c s) full = sym (nil-ne-cons c s)
or_none-eq (String.◌∷◌ d h) (String.◌∷◌ c s) full = refl

-- The expression that selects the jobs of a region in the database selects exactly the CRNs whose
-- region `parse` reads as that one, if the region is not empty and holds no colon.
pub region_crn_regex_lem :
    (region value : String)
    → nonempty region ≡ true
    → colon_free region ≡ true
    → region_crn_regex region value ≡ opt_str_eq (crn_region (some value)) (some region)
unfolding region_crn_regex parse
region_crn_regex_lem region value full free =
    rw (read_parts-followed (split ":" value), drop-split 5 value) (rest (skip_segments 5 value))
  where
    part :
        (o : Option (String × String)) → cut_is region o ≡ opt_str_eq (cut_region o) (some region)
    part none = refl
    part (some (h, t)) = sym (or_none-eq h region full)

    rest :
        (o : Option String)
        → elim o [ none ↦ false | some r ↦ region_follows region r ]
          ≡ opt_str_eq (followed (split_rest o)) (some region)
    rest none = refl
    rest (some r) = rw (region_follows-cut region r free, followed-split r) (part (cut_colon r))
