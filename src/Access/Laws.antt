-- ===== src/Access/Laws.antt =====
-- Who gets in, by each way that there is.
use qiskit_serverless.Base.{
  ==_iff, Bool-cases, List, Option, Option-cases, String, arith, false, inl, inr, none, refl, some,
  true, ◌==◌, ◌↔◌, ◌≡◌, ◌⊎◌,
}
use qiskit_serverless.Access.{
  FunctionAccessEntry, FunctionAccessResult, User, can_access, check_provider_access, get_function,
  granted, has_permission_for_function, is_function_author, is_provider_admin, jobs_read,
  path_grants,
}
use qiskit_serverless.Models.{Job, Program, Provider}

-- The ways into a provider function for a permission.
pub data Way (programs : List Program) (user : User) (provider : Provider) (title : String)
    (permission : String) : Option FunctionAccessResult → Type 0 where
  -- Legacy authorization, or a result that asks for it, and an admin group of the provider.
  by_admin :
      {r : Option FunctionAccessResult}
      → ((result : FunctionAccessResult) → r ≡ some result → result.use_legacy_authorization ≡ true)
      → is_provider_admin user provider ≡ true
      → Way programs user provider title permission r
  -- Runtime instances, whose entry for exactly this function grants the permission.
  by_entry :
      {r : Option FunctionAccessResult} (result : FunctionAccessResult) (e : FunctionAccessEntry)
      → r ≡ some result
      → result.use_legacy_authorization ≡ false
      → get_function result provider.name title ≡ some e
      → granted permission e.permissions ≡ true
      → Way programs user provider title permission r
  -- The author of the function.
  by_author :
      {r : Option FunctionAccessResult}
      → is_function_author user provider title programs ≡ true
      → Way programs user provider title permission r

path_Way :
    (programs : List Program) (user : User) (provider : Provider) (title : String)
    (r : Option FunctionAccessResult) (permission : String)
    → path_grants user provider title r permission ≡ true
    → Way programs user provider title permission r
unfolding path_grants has_permission_for_function
path_Way programs user provider title none permission h = by_admin (λ result e. cc) h
path_Way programs user provider title (some result) permission h =
    elim (Bool-cases result.use_legacy_authorization) [
      | inl legacy ↦ by_admin (λ other e. cc) (rw legacy at h)
      | inr granular ↦ elim (Option-cases (get_function result provider.name title)) [
        | inl missing ↦ absurd (ground (arith, h, granular, missing))
        | inr (e, found) ↦
            by_entry result e refl granular found (ground (arith, h, granular, found))
      ]
    ]

entry_grants :
    (result : FunctionAccessResult) (e : FunctionAccessEntry) (provider : Provider)
    (title permission : String)
    → get_function result provider.name title ≡ some e
    → granted permission e.permissions ≡ true
    → has_permission_for_function result provider.name title permission ≡ true
unfolding has_permission_for_function
entry_grants result e provider title permission found g = rw (found, has_permission_for_function) g

Way-check :
    (programs : List Program) (user : User) (provider : Provider) (title : String)
    (r : Option FunctionAccessResult) (permission : String)
    → Way programs user provider title permission r
    → check_provider_access programs user provider title r permission ≡ true
unfolding check_provider_access path_grants
Way-check programs user provider title none permission (by_admin h a) = ground (arith, a)
Way-check programs user provider title (some result) permission (by_admin h a) =
    ground (arith, a, h result refl)
Way-check programs user provider title r permission (by_entry result e here granular found g) =
    let p = entry_grants result e provider title permission found g in
    rw here (ground (arith, granular, p))
Way-check programs user provider title r permission (by_author a) = ground (arith, a)

-- Access to a provider's function is granted exactly by one of the three ways.
pub check_provider_access_iff :
    (programs : List Program) (user : User) (provider : Provider) (title : String)
    (r : Option FunctionAccessResult) (permission : String)
    → (check_provider_access programs user provider title r permission ≡ true)
      ↔ Way programs user provider title permission r
check_provider_access_iff programs user provider title r permission = (forth, back)
  where
    forth :
        check_provider_access programs user provider title r permission ≡ true
        → Way programs user provider title permission r
    forth h = elim (Bool-cases (path_grants user provider title r permission)) [
      | inl granted_path ↦ path_Way programs user provider title r permission granted_path
      | inr refused ↦ by_author (unfold check_provider_access in (rw refused at h))
    ]

    back :
        Way programs user provider title permission r
        → check_provider_access programs user provider title r permission ≡ true
    back w = Way-check programs user provider title r permission w

-- The author of a job, or whoever has a way into the function that it is of, if a provider owns it.
abbrev pub Sees : List Program → User → Job → Option FunctionAccessResult → Type 0
Sees programs user job r =
    (user.id ≡ job.author_id)
    ⊎ ((program : Program) × (provider : Provider) × (job.program ≡ some program)
        × (program.provider ≡ some provider)
        × Way programs user provider program.title jobs_read r)

module _ (programs : List Program) (user : User) (job : Job) (r : Option FunctionAccessResult) where
  can_access-Sees : can_access programs user job r ≡ true → Sees programs user job r
  unfolding can_access
  can_access-Sees h = elim (Bool-cases (user.id == job.author_id)) [
    | inl own ↦ inl ((==_iff user.id job.author_id).0 own)
    | inr other ↦ elim (Option-cases job.program) [
      | inl custom ↦ absurd (cc (rw (other, custom) at h))
      | inr (program, has_program) ↦ elim (Option-cases program.provider) [
        | inl unowned ↦ absurd (cc (rw unowned at (rw has_program at (rw other at h))))
        | inr (provider, owned) ↦ inr (
          program,
          provider,
          has_program,
          owned,
          (check_provider_access_iff programs user provider program.title r jobs_read).0
              (rw owned at (rw has_program at (rw other at h))),
        )
      ]
    ]
  ]

  Sees-can_access : Sees programs user job r → can_access programs user job r ≡ true
  unfolding can_access
  Sees-can_access (inl own) = ground (arith, own)
  Sees-can_access (inr (program, provider, has_program, owned, way)) =
      let p = (check_provider_access_iff programs user provider program.title r jobs_read).1 way in
      elim (Bool-cases (user.id == job.author_id)) [
        | inl own ↦ rw own refl
        | inr other ↦ rw other (rw has_program (rw owned p))
      ]

  -- Who sees a job: its author, or whoever may retrieve the jobs of its provider's function. A job
  -- of a custom function is seen by its author alone.
  pub can_access_iff : (can_access programs user job r ≡ true) ↔ Sees programs user job r
  can_access_iff = (can_access-Sees, Sees-can_access)
