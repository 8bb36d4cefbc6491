-- ===== src/Blocked/Filled.antt =====
-- An event that can be handled has three texts that are not empty.
use qiskit_serverless.Base.{
  nonempty, ltb, Bool, Bool-cases, Option, String, inl, inr, none, some, true, ◌≡◌,
}
use qiskit_serverless.Blocked.Events.{
  Value, bare_account, complete, read_field, read_deleted, null, flag, text, other_value,
  max_length, text_length, ◌>>=◌, Event, EventPayload, Parsed, accept, parse_event, refuse,
}

-- A property of what is accepted.
abbrev pub Accepts : {A : Type 0} → (A → Type 0) → Parsed A → Type 0
Accepts P (accept a) = P a
Accepts P (refuse e) = Unit

bind-Accepts :
    {A B : Type 0} (P : A → Type 0) (Q : B → Type 0) (r : Parsed A) (k : A → Parsed B)
    → Accepts P r
    → ((a : A) → P a → Accepts Q (k a))
    → Accepts Q (r >>= k)
bind-Accepts P Q (accept a) k h step = step a h
bind-Accepts P Q (refuse e) k h step = tt

-- A field that is missing, or a text that is not empty.
abbrev IfPresent : Option String → Type 0
IfPresent none = Unit
IfPresent (some s) = nonempty s ≡ true

abbrev ColumnsFilled : String × String × String → Type 0
ColumnsFilled columns =
    (nonempty columns.0 ≡ true) × (nonempty columns.1 ≡ true) × (nonempty columns.2 ≡ true)

abbrev pub EventFilled : Event → Type 0
EventFilled event =
    (nonempty event.account ≡ true)
    × (nonempty event.plan ≡ true)
    × (nonempty event.subscription ≡ true)

read_field-Accepts : (field : String) (v : Value) → Accepts IfPresent (read_field field v)
unfolding read_field
read_field-Accepts field null = tt
read_field-Accepts field (flag b) = tt
read_field-Accepts field other_value = tt
read_field-Accepts field (text s) = elim (Bool-cases (nonempty s)) [
  | inr empty ↦ rw empty tt
  | inl full ↦ elim (Bool-cases (ltb max_length (text_length s))) [
    | inl long ↦ rw full (rw long tt)
    | inr fits ↦ rw full (rw fits full)
  ]
]

complete-Accepts :
    (a p s : Option String)
    → IfPresent a
    → IfPresent p
    → IfPresent s
    → Accepts ColumnsFilled (complete a p s)
unfolding complete
complete-Accepts (some a) (some p) (some s) x y z = (x, y, z)
complete-Accepts (some a) (some p) none x y z = tt
complete-Accepts (some a) none s x y z = tt
complete-Accepts none p s x y z = tt

module _ (payload : EventPayload) where
  abbrev subscription_field : Parsed (Option String)
  subscription_field = read_field "subscription_id" (payload "subscription_id")

  abbrev plan_field : Parsed (Option String)
  plan_field = read_field "plan_id" (payload "plan_id")

  -- `_parse_event` from each of its steps on.
  abbrev from_columns : String × String × String → Parsed Event
  from_columns columns = do
    deleted ← read_deleted (payload "deleted")
    accept (record {
      account = columns.0;
      plan = columns.1;
      subscription = columns.2;
      deleted = deleted;
    })

  abbrev from_plan : Option String → Option String → Parsed Event
  from_plan a p = subscription_field >>= λ s. complete a p s >>= from_columns

  abbrev from_account : Option String → Parsed Event
  from_account a = plan_field >>= from_plan a

  from_columns-Accepts :
      (columns : String × String × String)
      → ColumnsFilled columns
      → Accepts EventFilled (from_columns columns)
  from_columns-Accepts columns filled = deleted_or_not (read_deleted (payload "deleted"))
    where
      deleted_or_not :
          (r : Parsed Bool)
          → Accepts EventFilled (
              r >>= λ deleted. accept (record {
                account = columns.0;
                plan = columns.1;
                subscription = columns.2;
                deleted = deleted;
              }))
      deleted_or_not (accept b) = filled
      deleted_or_not (refuse e) = tt

  from_plan-Accepts :
      (a p : Option String) → IfPresent a → IfPresent p → Accepts EventFilled (from_plan a p)
  from_plan-Accepts a p x y =
      bind-Accepts IfPresent EventFilled subscription_field (λ s. complete a p s >>= from_columns)
        (read_field-Accepts "subscription_id" (payload "subscription_id"))
        (λ s z.
          bind-Accepts ColumnsFilled EventFilled (complete a p s) from_columns
            (complete-Accepts a p s x y z) from_columns-Accepts)

  -- An event that can be handled fills the three columns.
  pub parse_event-Accepts : Accepts EventFilled (parse_event payload)
  unfolding parse_event
  parse_event-Accepts =
      bind-Accepts IfPresent EventFilled
        (read_field "account_id" (bare_account (payload "account_id"))) from_account
        (read_field-Accepts "account_id" (bare_account (payload "account_id")))
        (λ a x.
          bind-Accepts IfPresent EventFilled plan_field (from_plan a)
            (read_field-Accepts "plan_id" (payload "plan_id")) (λ p y. from_plan-Accepts a p x y))
