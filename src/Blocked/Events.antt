-- ===== src/Blocked/Events.antt =====
-- What an event about a blocked resource does to the table: gateway/core/services/blocked_account_events.py.
use qiskit_serverless.Base.{
  Bool, List, Option, String, [], any, false, filter, if◌then◌else◌, ltb, none, nonempty, not, some,
  str_eq, suc, ℕ, ◌&&◌, ◌++◌, ◌∷◌,
}
use qiskit_serverless.Blocked.{BlockedCloudResource, scope, scope_eq}
use qiskit_serverless.Base.Text.{remove_prefix}

-- A value of a JSON payload. A field that is missing is read like null.
pub data Value : Type 0 where
  null : Value
  text : String → Value
  flag : Bool → Value
  other_value : Value  -- a number, a list or an object

abbrev pub EventPayload : Type 0
EventPayload = String → Value

-- Why an event can never be handled: each is an `InvalidEventError`.
pub data InvalidEvent : Type 0 where
  no_reason : InvalidEvent
  not_a_string : String → InvalidEvent  -- the field
  too_long : String → InvalidEvent  -- the field
  missing_fields : List String → InvalidEvent  -- the fields
  deleted_not_boolean : InvalidEvent

pub data Parsed {ℓ} (A : Type ℓ) : Type ℓ where
  accept : A → Parsed A
  refuse : InvalidEvent → Parsed A

infixl 5 ◌>>=◌
abbrev pub ◌>>=◌ {ℓ κ} : {A : Type ℓ} {B : Type κ} → Parsed A → (A → Parsed B) → Parsed B
accept a >>= f = f a
refuse e >>= f = refuse e

pub record Event : Type 0 where
  pub account : String
  pub plan : String
  pub subscription : String
  pub deleted : Bool

abbrev pub text_length : String → ℕ
text_length String.[] = 0
text_length (String.◌∷◌ c s) = suc (text_length s)

-- `max_length` of the three columns.
abbrev pub max_length : ℕ
max_length = 255

-- One field of the loop: `none` is put on the list of those that are missing.
unfoldable pub read_field : String → Value → Parsed (Option String)
read_field field null = accept none
read_field field (text s) =
    if not (nonempty s)
    then accept none
    else if ltb max_length (text_length s)
    then refuse (too_long field)
    else accept (some s)
read_field field (flag b) = refuse (not_a_string field)
read_field field other_value = refuse (not_a_string field)

-- Jobs store the bare account, so `a/` is dropped.
unfoldable pub bare_account : Value → Value
bare_account (text s) = text (remove_prefix "a/" s)
bare_account other = other

abbrev unless_some : String → Option String → List String
unless_some field none = field ∷ []
unless_some field (some s) = []

-- The three columns, if none is missing.
unfoldable pub complete :
    Option String → Option String → Option String → Parsed (String × String × String)
complete (some account) (some plan) (some subscription) = accept (account, plan, subscription)
complete account plan subscription = refuse (
    missing_fields (
      unless_some "account_id" account
      ++ (unless_some "plan_id" plan ++ unless_some "subscription_id" subscription)))

unfoldable pub read_deleted : Value → Parsed Bool
read_deleted null = accept false
read_deleted (flag b) = accept b
read_deleted (text s) = refuse deleted_not_boolean
read_deleted other_value = refuse deleted_not_boolean

-- `_parse_event`
unfoldable pub parse_event : EventPayload → Parsed Event
unfolding read_field bare_account complete read_deleted
parse_event payload = do
  account ← read_field "account_id" (bare_account (payload "account_id"))
  plan ← read_field "plan_id" (payload "plan_id")
  subscription ← read_field "subscription_id" (payload "subscription_id")
  columns ← complete account plan subscription
  deleted ← read_deleted (payload "deleted")
  accept (record {
    account = columns.0;
    plan = columns.1;
    subscription = columns.2;
    deleted = deleted;
  })

-- The row that an event is about.
abbrev pub event_row : Event → String → String → BlockedCloudResource
event_row event reason region = record {
  account = some event.account;
  plan = some event.plan;
  subscription = some event.subscription;
  reason = reason;
  region = region;
}

-- `objects.filter(**row)`: every column, where a column without a value is asked to be NULL.
unfoldable pub same_row : BlockedCloudResource → BlockedCloudResource → Bool
same_row a b =
    scope_eq (scope a) (scope b) && (str_eq a.reason b.reason && str_eq a.region b.region)

-- `get_or_create(**row)`
unfoldable pub get_or_create :
    BlockedCloudResource → List BlockedCloudResource → List BlockedCloudResource
get_or_create row rows = if any (same_row row) rows then rows else rows ++ (row ∷ [])

-- `filter(**row).delete()`
unfoldable pub delete_row :
    BlockedCloudResource → List BlockedCloudResource → List BlockedCloudResource
delete_row row rows = filter (λ r. not (same_row row r)) rows

abbrev pub apply_event :
    Parsed Event
    → String
    → String
    → List BlockedCloudResource
    → Parsed (Unit {0}) × List BlockedCloudResource
apply_event (refuse e) reason region rows = (refuse e, rows)
apply_event (accept event) reason region rows = (
  accept tt,
  if event.deleted
      then delete_row (event_row event reason region) rows
      else get_or_create (event_row event reason region) rows,
)

abbrev pub handle_reason :
    Option String
    → Parsed Event
    → String
    → List BlockedCloudResource
    → Parsed (Unit {0}) × List BlockedCloudResource
handle_reason none parsed region rows = (refuse no_reason, rows)
handle_reason (some reason) parsed region rows = apply_event parsed reason region rows

-- `handle`, with the reason of each topic.
unfoldable pub handle :
    (String → Option String)
    → EventPayload
    → String
    → String
    → List BlockedCloudResource
    → Parsed (Unit {0}) × List BlockedCloudResource
unfolding get_or_create delete_row parse_event same_row
handle topic_reasons payload region topic rows =
    handle_reason (topic_reasons topic) (parse_event payload) region rows
