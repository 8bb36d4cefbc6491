-- ===== src/Paths/Titles.antt =====
-- The titles of functions, and their folders.
use Prim.Native.Char.{Char}
use Prim.Native.String.{String}
use qiskit_serverless.Base.{
  Bool, Bool-cases, List, Option, [], all, ap, arith, false, inl, inr, length, none, ◌≤◌, refl,
  some, true, ◌≡◌, ◌∷◌,
}
use qiskit_serverless.Base.Text.{cons_head, split}
use qiskit_serverless.Paths.{
  Titled, from_parts, has_slash, is_dot, is_slash, dots_after, keep_title_chars,
  parse_title_and_provider, path_char, refused, sanitize_file_path, sanitize_name, titled,
  word_char,
}
use qiskit_serverless.Paths.Safe.{every, no_slash, sanitize_file_path-kept}

kept-words : (s : String) → no_slash s ≡ true → every word_char (keep_title_chars s) ≡ true
unfolding keep_title_chars
kept-words String.[] h = refl
kept-words (String.◌∷◌ c s) h =
    let plain : is_slash c ≡ false = ground (arith, h) in
    let rest = kept-words s (ground (arith, h)) in
    elim (Bool-cases (word_char c)) [
      | inl y ↦ rw y (ground (arith, y, rest))
      | inr n ↦ rw (n, plain) rest
    ]

words-path : (s : String) → every word_char s ≡ true → every path_char s ≡ true
words-path String.[] h = refl
words-path (String.◌∷◌ c s) h = ground (arith, h, words-path s (ground (arith, h)))

words-dots_after : (b : Bool) (s : String) → every word_char s ≡ true → dots_after b s ≡ false
unfolding dots_after
words-dots_after b String.[] h = refl
words-dots_after b (String.◌∷◌ c s) h =
    let plain : is_dot c ≡ false = ground (arith, h) in
    rw plain (ground (arith, words-dots_after false s (ground (arith, h))))

words-no_slash : (s : String) → every word_char s ≡ true → no_slash s ≡ true
words-no_slash String.[] h = refl
words-no_slash (String.◌∷◌ c s) h = ground (arith, h, words-no_slash s (ground (arith, h)))

no_slash-test : (s : String) → has_slash s ≡ false → no_slash s ≡ true
no_slash-test String.[] h = refl
no_slash-test (String.◌∷◌ c s) h = ground (arith, h, no_slash-test s (ground (arith, h)))

-- No part of a split at the slashes holds one.
cons_head-no_slash :
    (c : Char) (ps : List String)
    → is_slash c ≡ false
    → all no_slash ps ≡ true
    → all no_slash (cons_head c ps) ≡ true
cons_head-no_slash c [] n h = ground (arith, n)
cons_head-no_slash c (p ∷ ps) n h = ground (arith, n, h)

split-no_slash : (s : String) → all no_slash (split "/" s) ≡ true
unfolding split
split-no_slash String.[] = refl
split-no_slash (String.◌∷◌ c s) = elim (Bool-cases (is_slash c)) [
  | inl y ↦ rw y (ground (arith, split-no_slash s))
  | inr n ↦ rw n (cons_head-no_slash c (split "/" s) n (split-no_slash s))
]

length-cons_head :
    (c : Char) (ps : List String) → 1 ≤ length ps → length (cons_head c ps) ≡ length ps
length-cons_head c [] h = absurd (omega (arith, h))
length-cons_head c (p ∷ ps) h = refl

length-split_pos : (s : String) → 1 ≤ length (split "/" s)
unfolding split
length-split_pos String.[] = omega arith
length-split_pos (String.◌∷◌ c s) = elim (Bool-cases (is_slash c)) [
  | inl y ↦ rw y (omega arith)
  | inr n ↦
      rw n
        (omega (arith, length-cons_head c (split "/" s) (length-split_pos s), length-split_pos s))
]

-- A text that holds a slash is split.
length-split : (s : String) → no_slash s ≡ false → 2 ≤ length (split "/" s)
unfolding split
length-split String.[] h = absurd (cc)
length-split (String.◌∷◌ c s) h = elim (Bool-cases (is_slash c)) [
  | inl y ↦ rw y (omega (arith, length-split_pos s))
  | inr n ↦ rw n (
      omega (
        arith,
        length-cons_head c (split "/" s) (length-split_pos s),
        length-split s (ground (arith, h, n)),
      ))
]

single-no_slash : (s p : String) → p ∷ [] ≡ split "/" s → no_slash s ≡ true
single-no_slash s p e = elim (Bool-cases (no_slash s)) [
  | inl y ↦ y
  | inr n ↦ absurd (omega (arith, ap length e, length-split s n))
]

-- A name that is a folder as it stands: sanitizing changes nothing, and it holds no slash.
abbrev pub IsFolder : String → Type 0
IsFolder s = (sanitize_file_path s ≡ s) × (no_slash s ≡ true)

words-IsFolder : (s : String) → every word_char s ≡ true → IsFolder s
words-IsFolder s h = (
  sanitize_file_path-kept s
      (record { allowed = words-path s h; no_dots = words-dots_after false s h }),
  words-no_slash s h,
)

kept-IsFolder : (s : String) → no_slash s ≡ true → IsFolder (keep_title_chars s)
kept-IsFolder s h = words-IsFolder (keep_title_chars s) (kept-words s h)

abbrev pub OnSome : (String → Type 0) → Option String → Type 0
OnSome P none = Unit {0}
OnSome P (some s) = P s

abbrev pub Folders : Titled → Type 0
Folders (refused e) = Unit {0}
Folders (titled title provider) = IsFolder title × OnSome IsFolder provider

abbrev pub free_of_slash : Option String → Bool
free_of_slash none = true
free_of_slash (some s) = no_slash s

parts-Folders :
    (title : String) (parts : List String)
    → all no_slash parts ≡ true
    → (parts ≡ split "/" title)
    → Folders (from_parts title parts)
parts-Folders title [] h e = tt
parts-Folders title (name ∷ []) h e = (kept-IsFolder title (single-no_slash title name e), tt)
parts-Folders title (provider ∷ name ∷ []) h e =
    (kept-IsFolder name (ground (arith, h)), kept-IsFolder provider (ground (arith, h)))
parts-Folders title (a ∷ b ∷ c ∷ rest) h e = tt

-- A function's title, and its provider, are names of folders as they stand, if they are parsed
-- at all and the provider, where it is given by itself, holds no slash: they hold no slash either,
-- and a path keeps them as they are.
pub parse_title-Folders :
    (title : String) (provider : Option String)
    → free_of_slash provider ≡ true
    → Folders (parse_title_and_provider title provider)
unfolding parse_title_and_provider sanitize_name
parse_title-Folders title none h = parts-Folders title (split "/" title) (split-no_slash title) refl
parse_title-Folders title (some String.[]) h =
    parts-Folders title (split "/" title) (split-no_slash title) refl
parse_title-Folders title (some (String.◌∷◌ c s)) h = elim (Bool-cases (has_slash title)) [
  | inl y ↦ rw y tt
  | inr n ↦ rw n (kept-IsFolder title (no_slash-test title n), kept-IsFolder (String.◌∷◌ c s) h)
]
