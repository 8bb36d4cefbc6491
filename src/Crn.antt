-- ===== src/Crn.antt =====
-- The instance CRN: gateway/core/domain/crn.py.
pub mod Laws
use Prim.Native.Char.{code}
use qiskit_serverless.Base.{
  Bool, List, Option, String, false, if◌then◌else◌, none, nonempty, some, zero, suc, ◌∷◌, ◌==◌, ℕ,
}
use qiskit_serverless.Base.Text.{remove_prefix, split, strip_prefix}

pub record Crn : Type 0 where
  pub region : String
  pub account : Option String

abbrev pub or_none : String → Option String
or_none s = if nonempty s then some s else none

-- What `parse` reads of the parts: the sixth is the region, the seventh the account.
unfoldable pub read_parts : List String → Option Crn
read_parts (a ∷ b ∷ c ∷ d ∷ e ∷ region ∷ account ∷ rest) =
    if nonempty region
    then some (record { region = region; account = or_none (remove_prefix "a/" account) })
    else none
read_parts parts = none

-- `Crn.parse`; a value that is not a text is `none`.
unfoldable pub parse : Option String → Option Crn
unfolding read_parts
parse none = none
parse (some value) = read_parts (split ":" value)

-- A text up to its first colon, and what comes behind that.
unfoldable pub cut_colon : String → Option (String × String)
cut_colon String.[] = none
cut_colon (String.◌∷◌ c s) =
    let later : Option (String × String) = elim (cut_colon s) [
      | none ↦ none
      | some (h, t) ↦ some (String.◌∷◌ c h, t)
    ] in
    if code c == b':' then some (String.[], s) else later

-- What `([^:]*:){n}` leaves of a text. There is one way to match it, since no part holds a colon.
unfoldable pub skip_segments : ℕ → String → Option String
unfolding cut_colon
skip_segments zero s = some s
skip_segments (suc n) s = elim (cut_colon s) [ none ↦ none | some (h, t) ↦ skip_segments n t ]

abbrev pub starts_colon : String → Bool
starts_colon String.[] = false
starts_colon (String.◌∷◌ c s) = code c == b':'

-- The region as it stands, and a colon behind it.
abbrev pub region_follows : String → String → Bool
region_follows region s = elim (strip_prefix region s) [
  | none ↦ false
  | some rest ↦ starts_colon rest
]

-- Whether a text matches `region_crn_regex(region)`.
unfoldable pub region_crn_regex : String → String → Bool
unfolding skip_segments
region_crn_regex region value = elim (skip_segments 5 value) [
  | none ↦ false
  | some rest ↦ region_follows region rest
]

-- The region that `parse` reads, as the views ask for it.
abbrev pub crn_region : Option String → Option String
crn_region crn = elim (parse crn) [ none ↦ none | some c ↦ some c.region ]
