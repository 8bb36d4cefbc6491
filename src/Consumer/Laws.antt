-- ===== src/Consumer/Laws.antt =====
-- No message is lost: what a batch commits and what it rewinds.
use mathlib.Core.Path.{subst}
use qiskit_serverless.Base.{
  Bool, Bool-cases, List, Option, [], ap, arith, false, if◌then◌else◌, inl, inr, is_some, none,
  refl, some, str_eq_refl, sym, true, ℕ, ◌&&◌, ◌+◌, ◌<◌, ◌∙◌, ◌∷◌, ◌≡◌, ◌≤◌,
}
use qiskit_serverless.Consumer.{
  KafkaMessage, Offsets, Partition, is_delivered, keep_first, rewind_offsets, rewind_one,
  same_partition, set_default,
}

same_partition_refl : (p : Partition) → same_partition p p ≡ true
same_partition_refl (t, n) = ground (arith, str_eq_refl t)

-- The next offset of a partition: 0 before the first.
abbrev pub up_to : Option ℕ → ℕ
up_to none = 0
up_to (some n) = n

module _ (q : Partition) where
  -- A message of this partition, as opposed to an error that the client reports.
  abbrev pub in_partition : KafkaMessage → Bool
  in_partition m = is_delivered m && same_partition q m.partition

  -- The messages of the partition lie below an offset, or not below it.
  abbrev pub AllBelow : ℕ → List KafkaMessage → Type 0
  AllBelow c [] = Unit
  AllBelow c (m ∷ ms) = (in_partition m ≡ true → m.offset < c) × AllBelow c ms

  abbrev pub AllFrom : ℕ → List KafkaMessage → Type 0
  AllFrom c [] = Unit
  AllFrom c (m ∷ ms) = (in_partition m ≡ true → c ≤ m.offset) × AllFrom c ms

  -- The partition's offsets grow along a batch.
  abbrev pub Grows : List KafkaMessage → Type 0
  Grows [] = Unit
  Grows (m ∷ ms) = (in_partition m ≡ true → AllFrom (m.offset + 1) ms) × Grows ms

  -- A rewind seeks to an offset that no remaining message of the partition lies below, if one remains.
  abbrev pub Rewinds : Option ℕ → List KafkaMessage → Type 0
  Rewinds o [] = Unit
  Rewinds o (m ∷ ms) =
      (in_partition m ≡ true → (is_some o ≡ true) × (up_to o ≤ m.offset)) × Rewinds o ms

  pub AllBelow-le : (c c' : ℕ) (ms : List KafkaMessage) → c ≤ c' → AllBelow c ms → AllBelow c' ms
  AllBelow-le c c' [] le h = tt
  AllBelow-le c c' (m ∷ ms) le h = (λ here. omega (arith, h.0 here), AllBelow-le c c' ms le h.1)

  pub AllFrom-le : (c c' : ℕ) (ms : List KafkaMessage) → c' ≤ c → AllFrom c ms → AllFrom c' ms
  AllFrom-le c c' [] le h = tt
  AllFrom-le c c' (m ∷ ms) le h = (λ here. omega (arith, h.0 here), AllFrom-le c c' ms le h.1)

  rewind_one-keep_first :
      (m : KafkaMessage) (d : Offsets)
      → rewind_one m d q ≡ keep_first (in_partition m) m.offset (d q)
  rewind_one-keep_first m d = chosen (is_delivered m)
    where
      kept : (o : Option ℕ) → o ≡ keep_first false m.offset o
      kept none = refl
      kept (some n) = refl

      chosen :
          (b : Bool)
          → (if b then set_default m.partition m.offset d else d) q
            ≡ keep_first (b && same_partition q m.partition) m.offset (d q)
      chosen true = refl
      chosen false = kept (d q)

  -- A seek stays where it is once it is set.
  rewind-some :
      (n : ℕ) (ms : List KafkaMessage) (d : Offsets) → d q ≡ some n → rewind_offsets d ms q ≡ some n
  unfolding rewind_offsets
  rewind-some n [] d h = h
  rewind-some n (m ∷ ms) d h =
      rewind-some n ms (rewind_one m d)
        (rewind_one-keep_first m d ∙ ap (keep_first (in_partition m) m.offset) h)

  Rewinds-from : (n : ℕ) (ms : List KafkaMessage) → AllFrom n ms → Rewinds (some n) ms
  Rewinds-from n [] h = tt
  Rewinds-from n (m ∷ ms) h = (λ here. (refl, h.0 here), Rewinds-from n ms h.1)

  -- The rewind goes to the first that remains.
  pub rewind-Rewinds :
      (ms : List KafkaMessage) (d : Offsets)
      → d q ≡ none
      → Grows ms
      → Rewinds (rewind_offsets d ms q) ms
  unfolding rewind_offsets
  rewind-Rewinds [] d h g = tt
  rewind-Rewinds (m ∷ ms) d h g =
      let first = rewind_one-keep_first m d ∙ ap (keep_first (in_partition m) m.offset) h in
      elim (Bool-cases (in_partition m)) [
        | inl here ↦
            let set : rewind_one m d q ≡ some m.offset = rw here at first in
            let kept : rewind_offsets (rewind_one m d) ms q ≡ some m.offset =
              rewind-some m.offset ms (rewind_one m d) set in
            first_remains m ms kept (g.0 here)
        | inr other ↦ (
          λ own. absurd (cc (sym other ∙ own)),
          rewind-Rewinds ms (rewind_one m d) (rw other at first) g.1,
        )
      ]
    where
      first_remains :
          (m : KafkaMessage) (ms : List KafkaMessage) {o : Option ℕ}
          → o ≡ some m.offset
          → AllFrom (m.offset + 1) ms
          → Rewinds o (m ∷ ms)
      first_remains m ms e h =
          subst (λ o. Rewinds o (m ∷ ms)) (sym e)
            (
              (λ own. (refl, omega arith)),
              Rewinds-from m.offset ms (AllFrom-le (m.offset + 1) m.offset ms (omega arith) h),
            )
