-- ===== src/Schedule/Quota.antt =====
-- A tick respects the quota of every project and the slots that are left.
use mathlib.Core.Path.{subst}
use qiskit_serverless.Base.{
  ==_iff, ==_refl, Bool, Bool-cases, Option, ap, arith, false, if◌then◌else◌, inl, inr, is_some,
  none, refl, some, sym, true, ℕ, ◌+◌, ◌-◌, ◌==◌, ◌∙◌, ◌≡◌,
}
use qiskit_serverless.Schedule.{
  Free, FreeFleets, count_project, counted_project, finite, has_room, infinite, is_free, less_one,
  room, take_fleet,
}
use qiskit_serverless.Models.{CodeEngineProject, Job}

-- The job's fleet counts against the project with this id.
abbrev pub owns : ℕ → Option CodeEngineProject → Bool
owns p none = false
owns p (some project) = project.id == p

abbrev pub of_project : ℕ → Job → Bool
of_project p job = owns p (counted_project job)

module _ (count_fleets : CodeEngineProject → Option ℕ) (quota p : ℕ) where
  -- What the tick knows of the project with this id, and how many fleets it submitted to it: nothing
  -- and none, or that they could not be counted, or that what is left of the quota is what the count
  -- left less those fleets.
  abbrev pub Accounted : Option Free → ℕ → Type 0
  Accounted none c = c ≡ 0
  Accounted (some infinite) c =
      (project : CodeEngineProject) × (project.id ≡ p) × (count_fleets project ≡ none)
  Accounted (some (finite k)) c =
      (project : CodeEngineProject) × (n : ℕ) × (project.id ≡ p)
      × (count_fleets project ≡ some n)
      × (k + c ≡ quota - n)

  room-Accounted :
      (project : CodeEngineProject) (o : Option ℕ)
      → project.id ≡ p
      → count_fleets project ≡ o
      → Accounted (some (room quota o)) 0
  room-Accounted project none same e = (project, same, e)
  room-Accounted project (some n) same e = (project, n, same, e, omega arith)

  not_some : (o : Option Free) → is_some o ≡ false → o ≡ none
  not_some none h = refl
  not_some (some f) h = absurd (cc h)

  pub count_project-Accounted :
      (project : Option CodeEngineProject) (d : FreeFleets) (c : ℕ)
      → Accounted (d p) c
      → Accounted (count_project count_fleets quota project d p) c
  unfolding count_project
  count_project-Accounted none d c h = h
  count_project-Accounted (some project) d c h = elim (Bool-cases (is_some (d project.id))) [
    | inl known ↦ rw known h
    | inr unknown ↦ elim (Bool-cases (p == project.id)) [
      | inl same ↦
          let e : p ≡ project.id = (==_iff p project.id).0 same in
          let fresh : d p ≡ none = ap d e ∙ not_some (d project.id) unknown in
          let nothing_yet : c ≡ 0 = rw fresh at h in
          rw (unknown, same)
            (rw nothing_yet (room-Accounted project (count_fleets project) (sym e) refl))
      | inr other ↦ rw (unknown, other) h
    ]
  ]

  -- A project that was counted is known.
  abbrev pub IsKnown : Option CodeEngineProject → FreeFleets → Type 0
  IsKnown none d = Unit
  IsKnown (some project) d = is_some (d project.id) ≡ true

  pub count_project-IsKnown :
      (project : Option CodeEngineProject) (d : FreeFleets)
      → IsKnown project (count_project count_fleets quota project d)
  unfolding count_project
  count_project-IsKnown none d = tt
  count_project-IsKnown (some project) d = elim (Bool-cases (is_some (d project.id))) [
    | inl known ↦ rw known known
    | inr unknown ↦ rw unknown (rw (==_refl project.id) refl)
  ]

  less_one-Accounted :
      (o : Option Free) (c : ℕ)
      → is_some o ≡ true
      → is_free o ≡ true
      → Accounted o c
      → Accounted (some (less_one o)) (c + 1)
  less_one-Accounted none c known free h = absurd (cc known)
  less_one-Accounted (some infinite) c known free h = h
  less_one-Accounted (some (finite k)) c known free (project, n, same, e, left) =
      (project, n, same, e, ground (arith, free, left))

  pub take_fleet-Accounted :
      (project : Option CodeEngineProject) (d : FreeFleets) (c : ℕ)
      → IsKnown project d
      → has_room project d ≡ true
      → Accounted (d p) c
      → Accounted (take_fleet project d p) (c + (if owns p project then 1 else 0))
  unfolding take_fleet has_room
  take_fleet-Accounted none d c known free h = let e : c + 0 ≡ c = omega arith in rw e h
  take_fleet-Accounted (some project) d c known free h = elim (Bool-cases (p == project.id)) [
    | inl same ↦
        let e : p ≡ project.id = (==_iff p project.id).0 same in
        let back : (project.id == p) ≡ true = ground (arith, same) in
        rw (same, back)
          (less_one-Accounted (d project.id) c known free (subst (λ k. Accounted (d k) c) e h))
    | inr other ↦
        let back : (project.id == p) ≡ false = ground (arith, other) in
        let e : c + 0 ≡ c = omega arith in rw (other, back) (rw e h)
  ]
