-- ===== src/Blocked/Constraints.antt =====
-- The constraints of the table: `unique_blocked_resource` and `blocked_resource_has_a_scope`.
use qiskit_serverless.Base.{
  nonempty, str_eq, opt_str_eq, str_eq_iff, ◌&&◌, ◌∙◌, sym, Bool, Bool-cases, List, Option, String,
  [], ap, arith, count, count-append, false, filter, if◌then◌else◌, inl, inr, is_some, none, not,
  refl, some, true, ◌++◌, ◌||◌, ◌∷◌, ◌≡◌, ◌≤◌,
}
use qiskit_serverless.Blocked.{BlockedCloudResource}
use qiskit_serverless.Blocked.Mirror.{holds}
use qiskit_serverless.Blocked.Events.{
  Event, EventPayload, Parsed, accept, delete_row, event_row, get_or_create, handle, handle_reason,
  parse_event, refuse, same_row,
}
use qiskit_serverless.Blocked.Filled.{Accepts, EventFilled, parse_event-Accepts}

abbrev has_scope : BlockedCloudResource → Bool
has_scope row = is_some row.account || (is_some row.plan || is_some row.subscription)

abbrev HaveScope : List BlockedCloudResource → Type 0
HaveScope [] = Unit
HaveScope (row ∷ rows) = (has_scope row ≡ true) × HaveScope rows

-- `Coalesce(column, Value(""))`
abbrev pub coalesce : Option String → String
coalesce none = ""
coalesce (some s) = s

-- What `unique_blocked_resource` compares: the coalesced columns, so that NULL counts as equal to NULL
-- and to an empty text.
abbrev pub same_key : BlockedCloudResource → BlockedCloudResource → Bool
same_key a b =
    str_eq (coalesce a.account) (coalesce b.account)
    && (str_eq (coalesce a.plan) (coalesce b.plan)
        && (str_eq (coalesce a.subscription) (coalesce b.subscription)
            && (str_eq a.reason b.reason && str_eq a.region b.region)))

-- The rows that have a given key are one at most, and each names an account, a plan or a subscription.
pub record IsConstrained (rows : List BlockedCloudResource) : Type 0 where
  pub unique_blocked_resource : (k : BlockedCloudResource) → count (same_key k) rows ≤ 1
  pub blocked_resource_has_a_scope : HaveScope rows

-- A column that holds a text which is not empty.
abbrev Filled : Option String → Type 0
Filled none = ⊥
Filled (some s) = nonempty s ≡ true

-- Beside such a column, NULL and an empty text are apart from every value, as they are to a filter.
coalesce-Filled :
    (a b : Option String)
    → Filled a
    → str_eq (coalesce a) (coalesce b) ≡ true
    → opt_str_eq a b ≡ true
coalesce-Filled none b f h = absurd f
coalesce-Filled (some s) (some t) f h = h
coalesce-Filled (some s) none f h =
    let e : s ≡ "" = (str_eq_iff s "").0 h in absurd (cc (sym (ap nonempty e) ∙ f))

abbrev IsFilled : BlockedCloudResource → Type 0
IsFilled row = Filled row.account × Filled row.plan × Filled row.subscription

same_key-same_row :
    (a b : BlockedCloudResource) → IsFilled a → same_key a b ≡ true → same_row a b ≡ true
unfolding same_row
same_key-same_row a b (account, plan, subscription) h = ground (
  arith,
  h,
  coalesce-Filled a.account b.account account,
  coalesce-Filled a.plan b.plan plan,
  coalesce-Filled a.subscription b.subscription subscription,
)

str_eq_swap : (k a b : String) → str_eq k a ≡ true → str_eq k b ≡ true → str_eq a b ≡ true
str_eq_swap k a b p q = (str_eq_iff a b).1 (sym ((str_eq_iff k a).0 p) ∙ (str_eq_iff k b).0 q)

same_key-swap :
    (k a b : BlockedCloudResource) → same_key k a ≡ true → same_key k b ≡ true → same_key a b ≡ true
same_key-swap k a b p q = ground (
  arith,
  p,
  q,
  str_eq_swap (coalesce k.account) (coalesce a.account) (coalesce b.account),
  str_eq_swap (coalesce k.plan) (coalesce a.plan) (coalesce b.plan),
  str_eq_swap (coalesce k.subscription) (coalesce a.subscription) (coalesce b.subscription),
  str_eq_swap k.reason a.reason b.reason,
  str_eq_swap k.region a.region b.region,
)

count-unheld :
    (row : BlockedCloudResource) (rows : List BlockedCloudResource)
    → IsFilled row
    → holds row rows ≡ false
    → count (same_key row) rows ≡ 0
count-unheld row [] f h = refl
count-unheld row (r ∷ rows) f h =
    ground (arith, count-unheld row rows f, h, same_key-same_row row r f)

count-same :
    (k row : BlockedCloudResource) (rows : List BlockedCloudResource)
    → same_key k row ≡ true
    → count (same_key k) rows ≤ count (same_key row) rows
count-same k row [] same = omega arith
count-same k row (r ∷ rows) same =
    ground (arith, count-same k row rows same, same_key-swap k row r same)

HaveScope-append :
    (row : BlockedCloudResource) (rows : List BlockedCloudResource)
    → has_scope row ≡ true
    → HaveScope rows
    → HaveScope (rows ++ (row ∷ []))
HaveScope-append row [] s h = (s, tt)
HaveScope-append row (r ∷ rows) s h = (h.0, HaveScope-append row rows s h.1)

HaveScope-filter :
    (p : BlockedCloudResource → Bool) (rows : List BlockedCloudResource)
    → HaveScope rows
    → HaveScope (filter p rows)
HaveScope-filter p [] h = tt
HaveScope-filter p (r ∷ rows) h = elim (Bool-cases (p r)) [
  | inl kept ↦ rw kept (h.0, HaveScope-filter p rows h.1)
  | inr dropped ↦ rw dropped (HaveScope-filter p rows h.1)
]

get_or_create-IsConstrained :
    (row : BlockedCloudResource) (rows : List BlockedCloudResource)
    → IsFilled row
    → has_scope row ≡ true
    → IsConstrained rows
    → IsConstrained (get_or_create row rows)
unfolding get_or_create
get_or_create-IsConstrained row rows f s h = elim (Bool-cases (holds row rows)) [
  | inl old ↦ rw old h
  | inr new ↦ rw new (record {
    unique_blocked_resource = λ k. rw (count-append (same_key k) rows (row ∷ [])) (
        ground
          (arith, h.unique_blocked_resource k, count-same k row rows, count-unheld row rows f new));
    blocked_resource_has_a_scope = HaveScope-append row rows s h.blocked_resource_has_a_scope;
  })
]

count-filter-drop :
    (p q : BlockedCloudResource → Bool) (rows : List BlockedCloudResource)
    → count p (filter q rows) ≤ count p rows
count-filter-drop p q [] = omega arith
count-filter-drop p q (r ∷ rows) = ground (arith, count-filter-drop p q rows)

delete_row-IsConstrained :
    (row : BlockedCloudResource) (rows : List BlockedCloudResource)
    → IsConstrained rows
    → IsConstrained (delete_row row rows)
unfolding delete_row
delete_row-IsConstrained row rows h = record {
  unique_blocked_resource = λ k. omega (
    arith,
    count-filter-drop (same_key k) (λ r. not (same_row row r)) rows,
    h.unique_blocked_resource k,
  );
  blocked_resource_has_a_scope =
      HaveScope-filter (λ r. not (same_row row r)) rows h.blocked_resource_has_a_scope;
}

-- Whatever a message holds, handling it keeps the constraints of the table: no two rows agree in
-- reason, region and the three columns with NULL taken for an empty text, and each has one of the three.
pub handle-IsConstrained :
    (topic_reasons : String → Option String) (payload : EventPayload) (region topic : String)
    (rows : List BlockedCloudResource)
    → IsConstrained rows
    → IsConstrained (handle topic_reasons payload region topic rows).1
unfolding handle
handle-IsConstrained topic_reasons payload region topic rows h =
    reasoned (topic_reasons topic) (parse_event payload) (parse_event-Accepts payload)
  where
    written :
        (event : Event) (reason : String) (deleted : Bool)
        → EventFilled event
        → IsConstrained (
            if deleted
            then delete_row (event_row event reason region) rows
            else get_or_create (event_row event reason region) rows)
    written event reason true f = delete_row-IsConstrained (event_row event reason region) rows h
    written event reason false f =
        get_or_create-IsConstrained (event_row event reason region) rows f refl h

    reasoned :
        (o : Option String) (p : Parsed Event)
        → Accepts EventFilled p
        → IsConstrained (handle_reason o p region rows).1
    reasoned none p f = h
    reasoned (some reason) (refuse e) f = h
    reasoned (some reason) (accept event) f = written event reason event.deleted f
