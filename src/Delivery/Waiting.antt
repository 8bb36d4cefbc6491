-- ===== src/Delivery/Waiting.antt =====
-- The rows that may still be tried before a given time, and how each write makes them fewer.
use qiskit_serverless.Base.{
  ==_iff, Bool, Bool-cases, List, Option, String, [], ap, arith, count, false, find, inl, inr, ltb,
  map, refl, some, true, ℕ, ◌&&◌, ◌+◌, ◌==◌, ◌∙◌, ◌∷◌, ◌≡◌, ◌≤◌,
}
use qiskit_serverless.Delivery.{
  DrainState, Outside, RetryConfig, bulk_update, delete_keys, has_key, is_pending, keep_for_retry,
  mark_unrecoverable, retried, write_columns,
}
use qiskit_serverless.Models.{Channel, Outbox}
use qiskit_serverless.Delivery.Order.{retry_wait_bounds}

-- The rows that are due before the horizon.
abbrev pub is_waiting : Channel → Option String → ℕ → Outbox → Bool
is_waiting channel region horizon row =
    is_pending channel region row && ltb row.next_attempt_at horizon

-- Those of them with this key.
abbrev pub waiting_at : (Outbox → Bool) → ℕ → Outbox → Bool
waiting_at p k r = r.pk == k && p r

module _ (p : Outbox → Bool) where
  pub delete-le : (ids : List ℕ) (xs : List Outbox) → count p (delete_keys ids xs) ≤ count p xs
  delete-le ids [] = omega arith
  delete-le ids (x ∷ xs) = ground (arith, delete-le ids xs)

  own_key :
      (r : Outbox) (k : ℕ) (ids : List ℕ) → (r.pk == k) ≡ true → has_key r.pk ids ≡ has_key k ids
  own_key r k ids h = ap (λ (n : ℕ). has_key n ids) ((==_iff r.pk k).0 h)

  pub delete-lt :
      (k : ℕ) (ids : List ℕ) (xs : List Outbox)
      → has_key k ids ≡ true
      → count (waiting_at p k) xs + count p (delete_keys ids xs) ≤ count p xs
  delete-lt k ids [] h = omega arith
  delete-lt k ids (x ∷ xs) h = elim (Bool-cases (x.pk == k)) [
    | inl own ↦
        let gone : has_key x.pk ids ≡ true = own_key x k ids own ∙ h in
        rw (own, gone) (omega (arith, delete-lt k ids xs h))
    | inr other ↦ rw other (ground (arith, delete-lt k ids xs h))
  ]

  pub delete_other :
      (k : ℕ) (ids : List ℕ) (xs : List Outbox)
      → has_key k ids ≡ false
      → count (waiting_at p k) (delete_keys ids xs) ≡ count (waiting_at p k) xs
  delete_other k ids [] h = refl
  delete_other k ids (x ∷ xs) h = elim (Bool-cases (x.pk == k)) [
    | inl own ↦
        let kept : has_key x.pk ids ≡ false = own_key x k ids own ∙ h in
        rw kept (ground (arith, delete_other k ids xs h))
    | inr other ↦ ground (arith, other, delete_other k ids xs h)
  ]

  map-le :
      (f : Outbox → Outbox) (xs : List Outbox)
      → ((r : Outbox) → p (f r) ≡ true → p r ≡ true)
      → count p (map f xs) ≤ count p xs
  map-le f [] h = omega arith
  map-le f (x ∷ xs) h = ground (arith, h x, map-le f xs h)

  pub map-lt :
      (f : Outbox → Outbox) (k : ℕ) (xs : List Outbox)
      → ((r : Outbox) → p (f r) ≡ true → p r ≡ true)
      → ((r : Outbox) → (r.pk == k) ≡ true → p (f r) ≡ false)
      → count (waiting_at p k) xs + count p (map f xs) ≤ count p xs
  map-lt f k [] h own = omega arith
  map-lt f k (x ∷ xs) h own = ground (arith, h x, own x, map-lt f k xs h own)

-- A list of rows that are all due after the horizon.
abbrev pub AllLate : ℕ → List Outbox → Type 0
AllLate horizon [] = Unit
AllLate horizon (r ∷ batch) = (horizon ≤ r.next_attempt_at) × AllLate horizon batch

module _ (channel : Channel) (region : Option String) (horizon : ℕ) where
  abbrev waits : Outbox → Bool
  waits = is_waiting channel region horizon

  late_columns :
      (n r : Outbox) → horizon ≤ n.next_attempt_at → waits (write_columns (some n) r) ≡ false
  late_columns n r h = ground (arith, h)

  written-waits :
      (updated : List Outbox) (r : Outbox)
      → AllLate horizon updated
      → waits (write_columns (find (λ n. n.pk == r.pk) updated) r) ≡ true
      → waits r ≡ true
  written-waits [] r late h = h
  written-waits (n ∷ updated) r (le, late) h = elim (Bool-cases (n.pk == r.pk)) [
    | inl own ↦ absurd (cc (late_columns n r le, rw own at h))
    | inr other ↦ written-waits updated r late (rw other at h)
  ]

  -- The wait of a failed row ends after the horizon.
  retried-AllLate :
      (config : RetryConfig) (now : ℕ) (reason : String) (batch : List Outbox)
      → horizon ≤ now + 1000000
      → AllLate horizon (map (retried config now reason) batch)
  unfolding retried
  retried-AllLate config now reason [] h = tt
  retried-AllLate config now reason (r ∷ batch) h =
      let least = (retry_wait_bounds config r.attempts r.attempts (omega arith)).0 in
      (omega (arith, least, h), retried-AllLate config now reason batch h)

  bulk_update-lt :
      (n : Outbox) (updated xs : List Outbox)
      → AllLate horizon (n ∷ updated)
      → count (waiting_at waits n.pk) xs + count waits (bulk_update (n ∷ updated) xs)
        ≤ count waits xs
  unfolding bulk_update
  bulk_update-lt n updated xs (le, late) =
      map-lt waits _ n.pk xs (λ r h. written-waits (n ∷ updated) r (le, late) h) own_late
    where
      own_late :
          (r : Outbox)
          → (r.pk == n.pk) ≡ true
          → waits (write_columns (find (λ m. m.pk == r.pk) (n ∷ updated)) r) ≡ false
      own_late r h =
          let own : (n.pk == r.pk) ≡ true = ground (arith, h) in rw own (late_columns n r le)

  -- A failed batch: its first row does not wait any more, and no other row begins to.
  pub keep_for_retry-lt :
      (outside : Outside) (config : RetryConfig) (row : Outbox) (others : List Outbox)
      (reason : String) (st : DrainState)
      → horizon ≤ outside.now st.asked + 1000000
      → count (waiting_at waits row.pk) st.outbox
          + count waits (keep_for_retry outside config (row ∷ others) reason st).outbox
        ≤ count waits st.outbox
  unfolding keep_for_retry retried
  keep_for_retry-lt outside config row others reason st h =
      bulk_update-lt (retried config (outside.now st.asked) reason row)
        (map (retried config (outside.now st.asked) reason) others) st.outbox
        (retried-AllLate config (outside.now st.asked) reason (row ∷ others) h)

  pub keep_for_retry-le :
      (outside : Outside) (config : RetryConfig) (batch : List Outbox) (reason : String)
      (st : DrainState)
      → horizon ≤ outside.now st.asked + 1000000
      → count waits (keep_for_retry outside config batch reason st).outbox ≤ count waits st.outbox
  unfolding keep_for_retry
  keep_for_retry-le outside config [] reason st h = omega arith
  keep_for_retry-le outside config (row ∷ others) reason st h =
      let lt = keep_for_retry-lt outside config row others reason st h in omega (arith, lt)

  -- A row that the destination never takes does not wait any more.
  pub mark_unrecoverable-lt :
      (row : Outbox) (reason : String) (st : DrainState)
      → count (waiting_at waits row.pk) st.outbox
          + count waits (mark_unrecoverable row reason st).outbox
        ≤ count waits st.outbox
  unfolding mark_unrecoverable
  mark_unrecoverable-lt row reason st =
      map-lt waits _ row.pk st.outbox (λ r h. ground (arith, h)) (λ r h. ground (arith, h))
