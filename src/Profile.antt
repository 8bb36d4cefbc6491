-- ===== src/Profile.antt =====
-- The format of a compute profile: gateway/core/domain/compute_profile.py. The two regular expressions
-- are walks over the characters; what `\d` matches, the decimal digits of Unicode, is a parameter.
pub mod Laws
use Prim.Native.Char.{Char, code}
use qiskit_serverless.Base.{
  Bool, Option, String, false, if◌then◌else◌, leb, none, nonempty, some, true, ◌&&◌, ◌==◌, ◌||◌,
}

abbrev pub is_lower : Char → Bool
is_lower c = leb b'a' (code c) && leb (code c) b'z'

abbrev pub is_hyphen : Char → Bool
is_hyphen c = code c == b'-'

abbrev is_newline : Char → Bool
is_newline c = code c == 10

abbrev pub or_lower : (Char → Bool) → Char → Bool
or_lower digit c = is_lower c || digit c

-- `[a-z0-9]`
abbrev is_alnum : Char → Bool
is_alnum c = is_lower c || (leb b'0' (code c) && leb (code c) b'9')

-- `$`: the end, or a newline that ends the text.
abbrev pub at_end : String → Bool
at_end String.[] = true
at_end (String.◌∷◌ c String.[]) = is_newline c
at_end (String.◌∷◌ c (String.◌∷◌ d s)) = false

abbrev pub prepend : Char → Option String → Option String
prepend c none = none
prepend c (some s) = some (String.◌∷◌ c s)

-- What `(.*)$` catches: the text without a newline that ends it.
unfoldable pub whole_line : String → Option String
whole_line String.[] = some String.[]
whole_line (String.◌∷◌ c s) =
    let later = prepend c (whole_line s) in
    if is_newline c then (if at_end (String.◌∷◌ c s) then some String.[] else none) else later

abbrev pub not_empty : Option String → Option String
not_empty none = none
not_empty (some s) = if nonempty s then some s else none

module _ (digit : Char → Bool) where
  -- `[a-z\d]*-`, and what follows.
  unfoldable pub after_class : String → Option String
  after_class String.[] = none
  after_class (String.◌∷◌ c s) =
      let later = after_class s in
      if is_hyphen c then some s else if or_lower digit c then later else none

  -- `[a-z]*\d[a-z\d]*-`, and what follows.
  unfoldable pub after_letters : String → Option String
  unfolding after_class
  after_letters String.[] = none
  after_letters (String.◌∷◌ c s) =
      let later = after_letters s in
      if is_lower c then later else if digit c then after_class s else none

  abbrev pub caught : Option String → Option String
  caught none = none
  caught (some rest) = not_empty (whole_line rest)

  -- The group of `_PREFIX_RE`, if the text matches.
  unfoldable pub prefix_match : String → Option String
  unfolding after_letters whole_line
  prefix_match String.[] = none
  prefix_match (String.◌∷◌ c s) = if is_lower c then caught (after_letters s) else none

  -- `[a-z0-9]+$`
  unfoldable pub model_end : String → Bool
  model_end String.[] = false
  model_end (String.◌∷◌ c s) = is_alnum c && (at_end s || model_end s)

  -- `\d+[a-z0-9]+$`: the digits may stop at any of them.
  unfoldable pub count_model : String → Bool
  unfolding model_end
  count_model String.[] = false
  count_model (String.◌∷◌ c s) = digit c && (model_end s || count_model s)

  -- `(?:x\d+[a-z0-9]+)?$`
  abbrev pub gpu_part : String → Bool
  gpu_part String.[] = true
  gpu_part (String.◌∷◌ c s) = at_end (String.◌∷◌ c s) || (code c == b'x' && count_model s)

  -- `\d*` and the rest of the expression behind the memory, and behind the cpu.
  unfoldable pub memory_digits : String → Bool
  unfolding count_model
  memory_digits String.[] = true
  memory_digits (String.◌∷◌ c s) =
      let later = memory_digits s in if digit c then later else gpu_part (String.◌∷◌ c s)

  abbrev pub memory_part : String → Bool
  memory_part String.[] = false
  memory_part (String.◌∷◌ c s) = digit c && memory_digits s

  unfoldable pub cpu_digits : String → Bool
  unfolding memory_digits
  cpu_digits String.[] = false
  cpu_digits (String.◌∷◌ c s) =
      let later = cpu_digits s in if digit c then later else code c == b'x' && memory_part s

  -- Whether a text matches `_RESOURCE_RE`.
  unfoldable pub is_resource : String → Bool
  unfolding cpu_digits
  is_resource String.[] = false
  is_resource (String.◌∷◌ c s) = digit c && cpu_digits s

  abbrev pub bare : String → Option String → String
  bare value none = value
  bare value (some resource) = resource

  -- `normalize`
  unfoldable pub normalize : Option String → Option String
  unfolding prefix_match
  normalize none = none
  normalize (some value) = if nonempty value then some (bare value (prefix_match value)) else none

  -- `is_valid`
  unfoldable pub is_valid : String → Bool
  unfolding prefix_match is_resource
  is_valid value = if nonempty value then is_resource (bare value (prefix_match value)) else false
