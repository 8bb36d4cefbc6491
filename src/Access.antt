-- ===== src/Access.antt =====
-- Who may do what: gateway/api/access_policies and gateway/core/domain/authorization. Logging aside,
-- each policy is a Boolean function of the user, the job, what the Runtime API granted
-- (`none`: legacy authorization) and, for authorship, the table of functions.
pub mod Laws
use qiskit_serverless.Base.{
  Bool, List, Option, String, any, false, find, if◌then◌else◌, none, not, some, str_eq, true, ℕ,
  ◌&&◌, ◌==◌, ◌||◌,
}
use qiskit_serverless.Billing.{licensed_instead_of_subsidized}
use qiskit_serverless.Faults.{Result, err, ok, value_error}
use qiskit_serverless.Base.Text.{upper}
use qiskit_serverless.Models.{Job, Program, Provider, in_terminal_state}

pub record User : Type 0 where
  pub id : ℕ

-- `FunctionAccessEntry`
pub record FunctionAccessEntry : Type 0 where
  pub provider_name : String
  pub function_title : String
  pub business_model : String
  pub permissions : List String

-- `FunctionAccessEntry.__post_init__`: the model is read in upper case, under its present name, and
-- must be one of the three.
unfoldable pub make_entry : String → String → String → List String → Result FunctionAccessEntry
make_entry provider title business_model permissions =
    let m = licensed_instead_of_subsidized (upper business_model) in
    if str_eq m "TRIAL" || (str_eq m "LICENSED" || str_eq m "CONSUMPTION")
    then ok (record {
      provider_name = provider;
      function_title = title;
      business_model = m;
      permissions = permissions;
    })
    else err value_error

-- `FunctionAccessResult`
pub record FunctionAccessResult : Type 0 where
  pub use_legacy_authorization : Bool
  pub functions : List FunctionAccessEntry
  pub custom_function_permissions : List String

abbrev pub granted : String → List String → Bool
granted permission permissions = any (str_eq permission) permissions

-- `get_function`
unfoldable pub get_function : FunctionAccessResult → String → String → Option FunctionAccessEntry
get_function result provider title =
    find (λ e. str_eq e.provider_name provider && str_eq e.function_title title) result.functions

-- `has_permission_for_function`
unfoldable pub has_permission_for_function : FunctionAccessResult → String → String → String → Bool
has_permission_for_function result provider title permission =
    elim (get_function result provider title) [
      | none ↦ false
      | some entry ↦ granted permission entry.permissions
    ]

-- `has_permission_for_provider`
unfoldable pub has_permission_for_provider : FunctionAccessResult → String → String → Bool
has_permission_for_provider result provider permission =
    any (λ e. str_eq e.provider_name provider && granted permission e.permissions) result.functions

-- `has_custom_permission`
unfoldable pub has_custom_permission : FunctionAccessResult → String → Bool
has_custom_permission result permission = granted permission result.custom_function_permissions

-- `provider.admin_groups.filter(user=user).exists()`
unfoldable pub is_provider_admin : User → Provider → Bool
is_provider_admin user provider =
    any (λ group. any (λ id. id == user.id) group) provider.admin_groups

abbrev has_name : String → Option Provider → Bool
has_name name none = false
has_name name (some p) = str_eq p.name name

-- `Function.objects.filter(provider=provider, title=title, author=user).exists()`
unfoldable pub is_function_author : User → Provider → String → List Program → Bool
is_function_author user provider title programs =
    any (λ p. has_name provider.name p.provider && (str_eq p.title title && p.author_id == user.id))
      programs

-- The answer of the configured authorization path.
unfoldable pub path_grants : User → Provider → String → Option FunctionAccessResult → String → Bool
unfolding is_provider_admin has_permission_for_function
path_grants user provider title none permission = is_provider_admin user provider
path_grants user provider title (some result) permission =
    if result.use_legacy_authorization
    then is_provider_admin user provider
    else has_permission_for_function result provider.name title permission

-- `_check`
unfoldable pub check_provider_access :
    List Program → User → Provider → String → Option FunctionAccessResult → String → Bool
unfolding path_grants is_function_author
check_provider_access programs user provider title result permission =
    if path_grants user provider title result permission
    then true
    else is_function_author user provider title programs

-- The permissions of gateway/core/models.py.
abbrev pub function_write : String
function_write = "function.write"

abbrev pub jobs_read : String
jobs_read = "function-job.read"

abbrev pub provider_logs_read : String
provider_logs_read = "function-provider-logs.read"

abbrev pub provider_files_read : String
provider_files_read = "function-provider-files.read"

abbrev pub provider_files_write : String
provider_files_write = "function-provider-files.write"

abbrev pub custom_write : String
custom_write = "function-custom.write"

abbrev pub custom_run : String
custom_run = "function-custom.run"

module _ (programs : List Program) (user : User) where
  -- `ProviderAccessPolicy`: each policy asks for one permission.
  unfoldable pub can_retrieve_job : Provider → String → Option FunctionAccessResult → Bool
  can_retrieve_job provider title result =
      check_provider_access programs user provider title result jobs_read

  unfoldable pub can_read_logs : Provider → String → Option FunctionAccessResult → Bool
  can_read_logs provider title result =
      check_provider_access programs user provider title result provider_logs_read

  unfoldable pub can_list_jobs : Provider → String → Option FunctionAccessResult → Bool
  can_list_jobs provider title result =
      check_provider_access programs user provider title result jobs_read

  unfoldable pub can_read_files : Provider → String → Option FunctionAccessResult → Bool
  can_read_files provider title result =
      check_provider_access programs user provider title result provider_files_read

  unfoldable pub can_write_files : Provider → String → Option FunctionAccessResult → Bool
  can_write_files provider title result =
      check_provider_access programs user provider title result provider_files_write

  unfoldable pub can_upload_function : Provider → String → Option FunctionAccessResult → Bool
  can_upload_function provider title result =
      check_provider_access programs user provider title result function_write

  -- `JobAccessPolicies.can_access`
  unfoldable pub can_access : Job → Option FunctionAccessResult → Bool
  unfolding can_retrieve_job
  can_access job result = if user.id == job.author_id then true else elim job.program [
    | none ↦ false
    | some program ↦ elim program.provider [
      | none ↦ false
      | some provider ↦ can_retrieve_job provider program.title result
    ]
  ]

  -- `JobAccessPolicies.can_read_provider_logs`
  unfoldable pub can_read_provider_logs : Job → Option FunctionAccessResult → Bool
  unfolding can_read_logs
  can_read_provider_logs job result = elim job.program [
    | none ↦ false
    | some program ↦ elim program.provider [
      | none ↦ false
      | some provider ↦ can_read_logs provider program.title result
    ]
  ]

module _ (user : User) where
  -- The policies of `JobAccessPolicies` that only the author passes.
  unfoldable pub can_read_result : Job → Bool
  can_read_result job = user.id == job.author_id

  unfoldable pub can_read_user_logs : Job → Bool
  can_read_user_logs job = if user.id == job.author_id then true else false

  unfoldable pub can_save_result : Job → Bool
  can_save_result job = user.id == job.author_id

  unfoldable pub can_manage_runtime_jobs : Job → Bool
  can_manage_runtime_jobs job = user.id == job.author_id

  unfoldable pub can_update_sub_status : Job → Bool
  can_update_sub_status job = user.id == job.author_id

  unfoldable pub can_create_events : Job → Bool
  can_create_events job = user.id == job.author_id

  unfoldable pub can_read_events : Job → Bool
  can_read_events job = if user.id == job.author_id then true else false

  unfoldable pub can_stop : Job → Bool
  can_stop job = user.id == job.author_id

  unfoldable pub can_get_status_token : Job → Bool
  unfolding in_terminal_state
  can_get_status_token job = (user.id == job.author_id) && not (in_terminal_state job)

-- `JobAccessPolicies.can_create`: to run a custom function.
unfoldable pub can_run_custom : Option FunctionAccessResult → Bool
unfolding has_custom_permission
can_run_custom none = true
can_run_custom (some result) =
    if result.use_legacy_authorization then true else has_custom_permission result custom_run

-- `ProgramAccessPolicies.can_create`: to write a custom function.
unfoldable pub can_create_custom : Option FunctionAccessResult → Bool
unfolding has_custom_permission
can_create_custom none = true
can_create_custom (some result) =
    if result.use_legacy_authorization then true else has_custom_permission result custom_write
