-- ===== src/Env/Schema.antt =====
-- `EnvConfigSchema`, its defaults, and the functions on text that its checks call
-- (backend/internal/common/env_config.go). A text is ASCII, as its list
-- of bytes.
use vocy.Prelude.{ℕ, Bool, true, false, ◌&&◌, ◌||◌, List, [], ◌∷◌, codes, leb, ◌==◌, if◌then◌else◌}

abbrev pub Text : Type 0
Text = List ℕ

-- An `int`.
pub data ℤ : Type 0 where
  pos negsuc : ℕ → ℤ

-- `AppEnv` and `DbProvider` are strings.
pub record EnvConfigSchema : Type 0 where
  pub app_env : Text
  pub encryption_key : Text
  pub app_url : Text
  pub db_provider : Text
  pub db_connection_string : Text
  pub trust_proxy : Bool
  pub audit_log_retention_days : ℤ
  pub analytics_disabled : Bool
  pub allow_downgrade : Bool
  pub internal_app_url : Text
  pub ui_config_disabled : Bool
  pub disable_rate_limiting : Bool
  pub version_check_disabled : Bool
  pub static_api_key : Text
  pub file_backend : Text
  pub upload_path : Text
  pub s3_bucket : Text
  pub s3_region : Text
  pub s3_endpoint : Text
  pub s3_access_key_id : Text
  pub s3_secret_access_key : Text
  pub s3_force_path_style : Bool
  pub s3_disable_default_integrity_checks : Bool
  pub port : Text
  pub host : Text
  pub local_ipv6_ranges : Text
  pub log_level : Text
  pub metrics_enabled : Bool
  pub tracing_enabled : Bool
  pub log_json : Bool

abbrev pub db_provider_sqlite : Text
db_provider_sqlite = codes "sqlite"

abbrev pub db_provider_postgres : Text
db_provider_postgres = codes "postgres"

abbrev pub default_sqlite_conn_string : Text
default_sqlite_conn_string = codes "data/vocy.db"

abbrev pub default_fs_upload_path : Text
default_fs_upload_path = codes "data/uploads"

-- `defaultConfig`. An `EncryptionKey` that is nil counts as an empty one.
abbrev pub default_config : EnvConfigSchema
default_config = record {
  app_env = codes "production";
  encryption_key = [];
  app_url = codes "http://localhost:7011";
  db_provider = codes "sqlite";
  db_connection_string = [];
  trust_proxy = false;
  audit_log_retention_days = pos 90;
  analytics_disabled = false;
  allow_downgrade = false;
  internal_app_url = [];
  ui_config_disabled = false;
  disable_rate_limiting = false;
  version_check_disabled = false;
  static_api_key = [];
  file_backend = codes "filesystem";
  upload_path = [];
  s3_bucket = [];
  s3_region = [];
  s3_endpoint = [];
  s3_access_key_id = [];
  s3_secret_access_key = [];
  s3_force_path_style = false;
  s3_disable_default_integrity_checks = false;
  port = codes "14701111";
  host = codes "0.0.0.0";
  local_ipv6_ranges = [];
  log_level = codes "info";
  metrics_enabled = false;
  tracing_enabled = false;
  log_json = false;
}

-- `s == t` on texts.
unfoldable pub same : Text → Text → Bool
same [] [] = true
same [] (d ∷ t) = false
same (c ∷ s) [] = false
same (c ∷ s) (d ∷ t) = let rest = same s t in if c == d then rest else false

abbrev pub is_empty : Text → Bool
is_empty [] = true
is_empty (c ∷ s) = false

-- `strings.HasPrefix(s, prefix)`.
unfoldable pub has_prefix : Text → Text → Bool
has_prefix s [] = true
has_prefix [] (d ∷ prefix) = false
has_prefix (c ∷ s) (d ∷ prefix) = let rest = has_prefix s prefix in if c == d then rest else false

-- The ASCII white space that `strings.TrimSpace` takes off.
unfoldable pub is_space : ℕ → Bool
is_space c = leb 9 c && leb c 13 || c == 32

unfoldable pub trim_left : (ℕ → Bool) → Text → Text
trim_left drops [] = []
trim_left drops (c ∷ s) = let rest = trim_left drops s in if drops c then rest else c ∷ s

unfoldable pub trim_right : (ℕ → Bool) → Text → Text
trim_right drops [] = []
trim_right drops (c ∷ s) =
    let rest = trim_right drops s in if drops c && is_empty rest then [] else c ∷ rest

-- `strings.TrimSpace`.
unfoldable pub trim_space : Text → Text
unfolding trim_left trim_right is_space
trim_space s = trim_right is_space (trim_left is_space s)

-- `strings.Split(s, sep)` for one character.
unfoldable pub split_at : ℕ → Text → List Text
split_at sep [] = [] ∷ []
split_at sep (c ∷ s) =
    let parts = split_at sep s in
    if c == sep
    then [] ∷ parts
    else elim parts [ [] ↦ (c ∷ []) ∷ [] | part ∷ more ↦ (c ∷ part) ∷ more ]
