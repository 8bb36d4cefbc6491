-- ===== src/Blocked/Replay.antt =====
-- Messages that are delivered again, and the constraints of the table.
use qiskit_serverless.Base.{
  Bool, Bool-cases, List, Option, String, [], any, ap, arith, false, if◌then◌else◌, inl, inr, none,
  not, refl, some, sym, true, ◌∙◌, ◌∷◌, ◌≡◌,
}
use qiskit_serverless.Blocked.{BlockedCloudResource, Enforcement, Scope, blocks}
use qiskit_serverless.Blocked.Mirror.{
  Report, handle_refines, holds, report, same_row-eq, same_row_refl, updated_set,
}
use qiskit_serverless.Blocked.Events.{EventPayload, handle, same_row}

-- A message as the consumer hands it on.
pub record Received : Type 0 where
  pub payload : EventPayload
  pub region : String
  pub topic : String

module _ (topic_reasons : String → Option String) where
  -- The messages of a list handled in turn.
  abbrev pub handle_all : List Received → List BlockedCloudResource → List BlockedCloudResource
  handle_all [] rows = rows
  handle_all (m ∷ ms) rows = handle_all ms (handle topic_reasons m.payload m.region m.topic rows).1

  -- What the last message about a row says, if one does.
  abbrev pub last_word : BlockedCloudResource → List Received → Option Bool
  last_word k [] = none
  last_word k (m ∷ ms) = elim (last_word k ms) [
    | some b ↦ some b
    | none ↦ elim (report topic_reasons m.payload m.region m.topic) [
      | none ↦ none
      | some (row, recovered) ↦ if same_row k row then some (not recovered) else none
    ]
  ]

  abbrev pub or_before : Option Bool → Bool → Bool
  or_before none before = before
  or_before (some b) before = b

  one_word :
      (k : BlockedCloudResource) (later : Option Bool) (r : Report) (before : Bool)
      → or_before later (updated_set r k before)
        ≡ or_before
            (elim later [
              | some b ↦ some b
              | none ↦ elim r [
                | none ↦ none
                | some (row, recovered) ↦ if same_row k row then some (not recovered) else none
              ]
            ])
            before
  one_word k (some b) r before = refl
  one_word k none none before = refl
  one_word k none (some (row, recovered)) before = elim (Bool-cases (same_row k row)) [
    | inl own ↦ rw own refl
    | inr other ↦ rw other refl
  ]

  -- The blocked set after a list of messages: for each row, what the last message about it says.
  pub handle_all-last :
      (k : BlockedCloudResource) (ms : List Received) (rows : List BlockedCloudResource)
      → holds k (handle_all ms rows) ≡ or_before (last_word k ms) (holds k rows)
  handle_all-last k [] rows = refl
  handle_all-last k (m ∷ ms) rows =
      handle_all-last k ms (handle topic_reasons m.payload m.region m.topic rows).1
      ∙ ap (or_before (last_word k ms))
          (handle_refines topic_reasons m.payload m.region m.topic rows k)
      ∙ one_word k (last_word k ms) (report topic_reasons m.payload m.region m.topic) (holds k rows)

  or_before_twice : (o : Option Bool) (b : Bool) → or_before o (or_before o b) ≡ or_before o b
  or_before_twice none b = refl
  or_before_twice (some a) b = refl

  handled_twice :
      (k : BlockedCloudResource) (ms : List Received) (rows : List BlockedCloudResource)
      → holds k (handle_all ms (handle_all ms rows)) ≡ holds k (handle_all ms rows)
  handled_twice k ms rows =
      handle_all-last k ms (handle_all ms rows)
      ∙ ap (or_before (last_word k ms)) (handle_all-last k ms rows)
      ∙ or_before_twice (last_word k ms) (holds k rows)
      ∙ sym (handle_all-last k ms rows)

-- Tables with one blocked set.
abbrev pub SameSet : List BlockedCloudResource → List BlockedCloudResource → Type 0
SameSet xs ys = (k : BlockedCloudResource) → holds k xs ≡ holds k ys

module _ (p : BlockedCloudResource → Bool) where
  any-holds :
      (rows : List BlockedCloudResource)
      → any p rows ≡ true
      → (k : BlockedCloudResource) × (p k ≡ true) × (holds k rows ≡ true)
  any-holds [] h = absurd (cc h)
  any-holds (r ∷ rows) h = elim (Bool-cases (p r)) [
    | inl here ↦ (r, here, rw (same_row_refl r) refl)
    | inr not_here ↦
        let later = any-holds rows (rw not_here at h) in (later.0, later.1, ground (arith, later.2))
  ]

  holds-any :
      (k : BlockedCloudResource) (rows : List BlockedCloudResource)
      → p k ≡ true
      → holds k rows ≡ true
      → any p rows ≡ true
  holds-any k [] pk h = absurd (cc h)
  holds-any k (r ∷ rows) pk h = elim (Bool-cases (same_row k r)) [
    | inl here ↦ let e : p r ≡ true = sym (ap p (same_row-eq k r here)) ∙ pk in rw e refl
    | inr not_here ↦ ground (arith, holds-any k rows pk (rw not_here at h))
  ]

  any-SameSet :
      (xs ys : List BlockedCloudResource) → SameSet xs ys → any p xs ≡ true → any p ys ≡ true
  any-SameSet xs ys same h =
      let found = any-holds xs h in holds-any found.0 ys found.1 (sym (same found.0) ∙ found.2)

both_ways : (a b : Bool) → (a ≡ true → b ≡ true) → (b ≡ true → a ≡ true) → a ≡ b
both_ways true b f g = sym (f refl)
both_ways false true f g = g refl
both_ways false false f g = refl

pub blocks-SameSet :
    (enforcement : Enforcement) (xs ys : List BlockedCloudResource) (resource : Scope)
    (region : Option String)
    → SameSet xs ys
    → blocks enforcement xs resource region ≡ blocks enforcement ys resource region
unfolding blocks
blocks-SameSet enforcement xs ys resource region same =
    ap (λ b. if not enforcement.stop_enabled then false else b)
      (both_ways _ _ (any-SameSet _ xs ys same) (any-SameSet _ ys xs (λ k. sym (same k))))

-- Messages that are delivered and handled again, in the same order, change no answer about any
-- resource and region, under every setting.
pub redelivery_harmless :
    (topic_reasons : String → Option String) (ms : List Received) (rows : List BlockedCloudResource)
    (enforcement : Enforcement) (resource : Scope) (region : Option String)
    → blocks enforcement
        (handle_all topic_reasons ms (handle_all topic_reasons ms rows))
        resource
        region
      ≡ blocks enforcement (handle_all topic_reasons ms rows) resource region
redelivery_harmless topic_reasons ms rows enforcement resource region =
    blocks-SameSet enforcement _ _ resource region (λ k. handled_twice topic_reasons k ms rows)
