-- ===== src/Env/Validate.antt =====
-- `ValidateEnvConfig` (backend/internal/common/env_config.go). It changes the configuration that it
-- is given, also if it returns an error behind that, so each check gives both.
use vocy.Prelude.{
  zero, suc, Bool, true, false, not, ◌&&◌, ◌||◌, Option, none, some, List, [], ◌∷◌, codes, length,
  ltb, if◌then◌else◌,
}
use vocy.Env.Schema.{
  Text, ℤ, pos, negsuc, EnvConfigSchema, db_provider_sqlite, db_provider_postgres,
  default_sqlite_conn_string, default_fs_upload_path, same, is_empty, has_prefix, trim_space,
  split_at,
}

pub data EnvError : Type 0 where
  invalid_log_level short_encryption_key invalid_app_url app_url_has_path : EnvError
  invalid_internal_app_url internal_app_url_has_path invalid_file_backend : EnvError
  invalid_range no_ipv6_range : Text → EnvError
  invalid_retention short_static_api_key : EnvError

-- What the checks ask of other packages: `sloggin.ParseLevel`, `url.Parse` with the path of its
-- result, and `net.ParseCIDR` with whether its network is an IPv4 one (`To4`).
pub record Parsers : Type 0 where
  pub is_level : Text → Bool
  pub url_path : Text → Option Text
  pub cidr_is_ipv4 : Text → Option Bool

abbrev pub Checked : Type 0
Checked = EnvConfigSchema × Option EnvError

-- The next check, unless this one has returned an error.
infixl 5 ◌then_check◌
abbrev pub ◌then_check◌ : Checked → (EnvConfigSchema → Checked) → Checked
(c, none) then_check next = next c
(c, some e) then_check next = (c, some e)

abbrev pub refuse_if : Bool → EnvError → EnvConfigSchema → Checked
refuse_if true e c = (c, some e)
refuse_if false e c = (c, none)

-- `shouldSkipEnvValidation`, on the arguments behind the program's name.
unfoldable pub should_skip_env_validation : List Text → Bool
should_skip_env_validation [] = false
should_skip_env_validation (arg ∷ args) =
    let rest = should_skip_env_validation args in
    if same arg (codes "-h")
      || same arg (codes "--help")
      || same arg (codes "help")
      || same arg (codes "version")
    then true
    else rest

unfoldable pub is_postgres : Text → Bool
is_postgres s = has_prefix s (codes "postgres://") || has_prefix s (codes "postgresql://")

-- The `switch` on the connection string.
unfoldable pub choose_db_provider : EnvConfigSchema → EnvConfigSchema
choose_db_provider c = record c {
  db_provider =
      if is_empty c.db_connection_string
      then db_provider_sqlite
      else if is_postgres c.db_connection_string
      then db_provider_postgres
      else db_provider_sqlite;
  db_connection_string =
      if is_empty c.db_connection_string
      then default_sqlite_conn_string
      else c.db_connection_string;
}

-- The loop over the ranges.
unfoldable pub range_error : Parsers → List Text → Option EnvError
range_error parsers [] = none
range_error parsers (r ∷ ranges) =
    let rest = range_error parsers ranges in
    let range = trim_space r in
    if is_empty range then rest else elim (parsers.cidr_is_ipv4 range) [
      | none ↦ some (invalid_range range)
      | some is_ipv4 ↦ if is_ipv4 then some (no_ipv6_range range) else rest
    ]

abbrev pub is_positive : ℤ → Bool
is_positive (pos zero) = false
is_positive (pos (suc n)) = true
is_positive (negsuc n) = false

-- A URL that parses and has no path.
unfoldable pub check_url : Parsers → Text → EnvError → EnvError → Option EnvError
check_url parsers url invalid has_path = elim (parsers.url_path url) [
  | none ↦ some invalid
  | some path ↦ if not (is_empty path) then some has_path else none
]

unfoldable pub check_app_url : Parsers → EnvConfigSchema → Checked
check_app_url parsers c = (c, check_url parsers c.app_url invalid_app_url app_url_has_path)

unfoldable pub check_internal_app_url : Parsers → EnvConfigSchema → Checked
check_internal_app_url parsers c = (
  record c {
    internal_app_url = if is_empty c.internal_app_url then c.app_url else c.internal_app_url;
  },
  if is_empty c.internal_app_url
      then none
      else check_url parsers c.internal_app_url invalid_internal_app_url internal_app_url_has_path,
)

-- The cases of the `switch` on the file backend.
abbrev pub is_remote : Text → Bool
is_remote backend = same backend (codes "s3") || same backend (codes "database")

abbrev pub is_local : Text → Bool
is_local backend = is_empty backend || same backend (codes "filesystem")

unfoldable pub check_file_backend : EnvConfigSchema → Checked
check_file_backend c = (
  record c {
    upload_path =
        if not (is_remote c.file_backend) && is_local c.file_backend && is_empty c.upload_path
        then default_fs_upload_path
        else c.upload_path;
  },
  if is_remote c.file_backend || is_local c.file_backend then none else some invalid_file_backend,
)

unfoldable pub check_log_level : Parsers → EnvConfigSchema → Checked
check_log_level parsers c = refuse_if (not (parsers.is_level c.log_level)) invalid_log_level c

unfoldable pub check_encryption_key : EnvConfigSchema → Checked
check_encryption_key c = refuse_if (ltb (length c.encryption_key) 16) short_encryption_key c

unfoldable pub check_ranges : Parsers → EnvConfigSchema → Checked
unfolding range_error
check_ranges parsers c = (c, range_error parsers (split_at b',' c.local_ipv6_ranges))

unfoldable pub check_retention : EnvConfigSchema → Checked
check_retention c = refuse_if (not (is_positive c.audit_log_retention_days)) invalid_retention c

unfoldable pub check_static_api_key : EnvConfigSchema → Checked
check_static_api_key c =
    refuse_if (not (is_empty c.static_api_key) && ltb (length c.static_api_key) 16)
      short_static_api_key c

-- The checks, in their order; the choice of the provider stands between the second and the third.
unfoldable pub run_checks : Parsers → EnvConfigSchema → Checked
run_checks parsers c =
    check_log_level parsers c
    then_check check_encryption_key
    then_check (λ c. (choose_db_provider c, none))
    then_check check_app_url parsers
    then_check check_internal_app_url parsers
    then_check check_file_backend
    then_check check_ranges parsers
    then_check check_retention
    then_check check_static_api_key

unfoldable pub validate_env_config : Parsers → List Text → EnvConfigSchema → Checked
unfolding run_checks should_skip_env_validation
validate_env_config parsers args c =
    if should_skip_env_validation args then (c, none) else run_checks parsers c
