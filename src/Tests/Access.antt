-- ===== src/Tests/Access.antt =====
-- Access, for concrete users.
use qiskit_serverless.Base.{[], false, none, refl, some, str_eq, true, ◌∷◌, ◌≡◌}
use qiskit_serverless.Access.{
  FunctionAccessResult, User, can_access, check_provider_access, get_function, jobs_read,
}
use qiskit_serverless.Tests.Fixtures.{running_job}

abbrev admin : User
admin = record { id = 9 }

abbrev stranger : User
stranger = record { id = 3 }

abbrev granular : FunctionAccessResult
granular = record {
  use_legacy_authorization = false;
  functions =
      record {
        provider_name = "ibm";
        function_title = "solver";
        business_model = "TRIAL";
        permissions = jobs_read ∷ [];
      }
      ∷ [];
  custom_function_permissions = [];
}

-- The entry of exactly this function lets a stranger in; an admin of the provider has no entry.
entry_rules :
    (can_access [] stranger running_job (some granular) ≡ true)
    × (can_access [] admin running_job none ≡ true)
    × (can_access [] stranger running_job none ≡ false)
unfolding can_access check_provider_access get_function str_eq
entry_rules = (refl, refl, refl)
