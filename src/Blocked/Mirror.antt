-- ===== src/Blocked/Mirror.antt =====
-- The table mirrors the blocked set that the events report.
use qiskit_serverless.Base.{
  Bool, Bool-cases, List, Option, String, [], any, ap, arith, false, if◌then◌else◌, inl, inr, none,
  not, opt_str_eq_iff, refl, some, str_eq_iff, str_eq_refl, true, ◌++◌, ◌||◌, ◌∙◌, ◌∷◌, ◌≡◌,
}
use qiskit_serverless.Blocked.{BlockedCloudResource, scope}
use qiskit_serverless.Blocked.Matching.{scope_eq-eq}
use qiskit_serverless.Blocked.Events.{
  Event, EventPayload, Parsed, accept, apply_event, delete_row, event_row, get_or_create, handle,
  handle_reason, parse_event, refuse, same_row,
}

pub same_row-eq : (a b : BlockedCloudResource) → same_row a b ≡ true → a ≡ b
unfolding same_row
same_row-eq a b h = ground (
  arith,
  scope_eq-eq (scope a) (scope b),
  str_eq_iff a.reason b.reason,
  str_eq_iff a.region b.region,
)

pub same_row_refl : (a : BlockedCloudResource) → same_row a a ≡ true
unfolding same_row
same_row_refl a = ground (
  arith,
  opt_str_eq_iff a.account a.account,
  opt_str_eq_iff a.plan a.plan,
  opt_str_eq_iff a.subscription a.subscription,
  str_eq_refl a.reason,
  str_eq_refl a.region,
)

-- The blocked set: the rows that the table holds.
abbrev pub holds : BlockedCloudResource → List BlockedCloudResource → Bool
holds row rows = any (same_row row) rows

holds-append :
    (k : BlockedCloudResource) (xs ys : List BlockedCloudResource)
    → holds k (xs ++ ys) ≡ (holds k xs || holds k ys)
holds-append k [] ys = refl
holds-append k (x ∷ xs) ys = ground (arith, holds-append k xs ys)

-- Equal rows are held alike.
holds-same :
    (k row : BlockedCloudResource) (rows : List BlockedCloudResource)
    → same_row k row ≡ true
    → holds k rows ≡ holds row rows
holds-same k row rows same = ap (λ r. holds r rows) (same_row-eq k row same)

holds-get_or_create :
    (k row : BlockedCloudResource) (rows : List BlockedCloudResource)
    → holds k (get_or_create row rows) ≡ (if same_row k row then true else holds k rows)
unfolding get_or_create
holds-get_or_create k row rows =
    ground (arith, holds-same k row rows, holds-append k rows (row ∷ []))

holds-delete_row :
    (k row : BlockedCloudResource) (rows : List BlockedCloudResource)
    → holds k (delete_row row rows) ≡ (if same_row k row then false else holds k rows)
unfolding delete_row
holds-delete_row k row [] = ground arith
holds-delete_row k row (r ∷ rows) = elim (Bool-cases (same_row row r)) [
  | inl own ↦
      let e : same_row k row ≡ same_row k r = ap (same_row k) (same_row-eq row r own) in
      rw own (ground (arith, e, holds-delete_row k row rows))
  | inr other ↦ elim (Bool-cases (same_row k row)) [
    | inl same ↦
        let apart : same_row k r ≡ false =
          ap (λ b. same_row b r) (same_row-eq k row same) ∙ other in
        rw other (ground (arith, apart, same, holds-delete_row k row rows))
    | inr differ ↦ rw other (ground (arith, differ, holds-delete_row k row rows))
  ]
]

-- What a message reports, if it can be handled: a row, and whether it recovered.
abbrev pub Report : Type 0
Report = Option (BlockedCloudResource × Bool)

abbrev report_event : Parsed Event → String → String → Report
report_event (refuse e) reason region = none
report_event (accept event) reason region = some (event_row event reason region, event.deleted)

abbrev pub report_reason : Option String → Parsed Event → String → Report
report_reason none parsed region = none
report_reason (some reason) parsed region = report_event parsed reason region

abbrev pub report : (String → Option String) → EventPayload → String → String → Report
report topic_reasons payload region topic =
    report_reason (topic_reasons topic) (parse_event payload) region

-- The blocked set after a report: changed at the one row that it is about.
abbrev pub updated_set : Report → BlockedCloudResource → Bool → Bool
updated_set none k blocked = blocked
updated_set (some (row, recovered)) k blocked = if same_row k row then not recovered else blocked

-- Handling a message changes the blocked set at the one row that it reports, for its own reason and
-- region: the row is held afterwards exactly if the message says that the resource became blocked.
-- A message that cannot be handled changes nothing.
pub handle_refines :
    (topic_reasons : String → Option String) (payload : EventPayload) (region topic : String)
    (rows : List BlockedCloudResource) (k : BlockedCloudResource)
    → holds k (handle topic_reasons payload region topic rows).1
      ≡ updated_set (report topic_reasons payload region topic) k (holds k rows)
unfolding handle
handle_refines topic_reasons payload region topic rows k = reasoned (topic_reasons topic)
  where
    written :
        (row : BlockedCloudResource) (deleted : Bool)
        → holds k (if deleted then delete_row row rows else get_or_create row rows)
          ≡ updated_set (some (row, deleted)) k (holds k rows)
    written row true = holds-delete_row k row rows
    written row false = holds-get_or_create k row rows

    parsed :
        (p : Parsed Event) (reason : String)
        → holds k (apply_event p reason region rows).1
          ≡ updated_set (report_event p reason region) k (holds k rows)
    parsed (refuse e) reason = refl
    parsed (accept event) reason = written (event_row event reason region) event.deleted

    reasoned :
        (o : Option String)
        → holds k (handle_reason o (parse_event payload) region rows).1
          ≡ updated_set (report_reason o (parse_event payload) region) k (holds k rows)
    reasoned none = refl
    reasoned (some reason) = parsed (parse_event payload) reason
