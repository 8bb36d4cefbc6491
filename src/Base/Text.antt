-- ===== src/Base/Text.antt =====
-- The text functions of Python's `str` that the gateway calls, over native texts. Case mapping is
-- that of the ASCII letters, which is what size labels and provider names are made of.
use Prim.Native.Char.{Char, code}
use Prim.Native.String.{String, ◌++◌}
use mathlib.Core.Option.{Option, none, some}
use mathlib.Core.List.{List, [], ◌∷◌}
use qiskit_serverless.Base.Tests.{◌==◌, if◌then◌else◌}

-- The letters of a text and those of another, side by side.
abbrev partner : String → String → Char → Char
partner String.[] t c = c
partner (String.◌∷◌ a s) String.[] c = c
partner (String.◌∷◌ a s) (String.◌∷◌ b t) c =
    let rest = partner s t c in if code a == code c then b else rest

abbrev uppercase_letters : String
uppercase_letters = "ABCDEFGHIJKLMNOPQRSTUVWXYZ"

abbrev lowercase_letters : String
lowercase_letters = "abcdefghijklmnopqrstuvwxyz"

-- `s.lower()`
unfoldable pub lower : String → String
lower String.[] = String.[]
lower (String.◌∷◌ c s) = String.◌∷◌ (partner uppercase_letters lowercase_letters c) (lower s)

-- `s.upper()`
unfoldable pub upper : String → String
upper String.[] = String.[]
upper (String.◌∷◌ c s) = String.◌∷◌ (partner lowercase_letters uppercase_letters c) (upper s)

-- `sep.join(parts)`
unfoldable pub join : String → List String → String
join sep [] = ""
join sep (s ∷ []) = s
join sep (s ∷ t ∷ r) = s ++ (sep ++ join sep (t ∷ r))

abbrev pub cons_head : Char → List String → List String
cons_head c [] = (String.◌∷◌ c String.[]) ∷ []
cons_head c (s ∷ r) = (String.◌∷◌ c s) ∷ r

-- `s.split(sep)` for a separator of one character: there is always at least one part.
unfoldable pub split : Char → String → List String
split sep String.[] = String.[] ∷ []
split sep (String.◌∷◌ c s) =
    let rest = split sep s in if code c == code sep then String.[] ∷ rest else cons_head c rest

-- What is left of a text behind a prefix, if it has that prefix.
abbrev pub strip_prefix : String → String → Option String
strip_prefix String.[] s = some s
strip_prefix (String.◌∷◌ p ps) String.[] = none
strip_prefix (String.◌∷◌ p ps) (String.◌∷◌ c s) =
    let rest = strip_prefix ps s in if code p == code c then rest else none

-- `s.removeprefix(p)`
unfoldable pub remove_prefix : String → String → String
remove_prefix p s = elim (strip_prefix p s) [ none ↦ s | some r ↦ r ]
