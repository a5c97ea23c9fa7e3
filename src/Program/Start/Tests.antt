-- ===== src/Program/Start/Tests.antt =====
-- Witness of the theorem on `main` (backend/cmd/main.go).
use vocy.Prelude.{◌≡◌, ◌≢◌, refl, ok, [], none, Result, codes}
use vocy.Env.Schema.{Text, EnvConfigSchema, same, has_prefix, split_at, trim_space}
use vocy.Env.Prepare.{
  Surroundings, prepare_env_config, prepare_fields, option_fields, prepare_field, apply_options,
  apply_option, tag_of, kind_of, resolve_file_based_env_variable,
}
use vocy.Env.Validate.{
  validate_env_config, should_skip_env_validation, run_checks, choose_db_provider, check_app_url,
  check_internal_app_url, check_file_backend, check_url, check_log_level, check_encryption_key,
  check_ranges, check_retention, check_static_api_key, range_error,
}
use vocy.Env.Tests.{parsers, keyed, serve, not_skipped}
use vocy.Sqlite.Connecting.{fails, no_connection_string, unsupported_provider, connect_database}
use vocy.Sqlite.Tests.{outside}
use vocy.Program.Start.{runs, main}
use vocy.Program.Start.Providers.{main_connects}

-- An environment without secret files.
abbrev os : Surroundings
os = record { getenv = λ name. []; read_file = λ path. none }

abbrev parsed : Result Text EnvConfigSchema
parsed = ok keyed

abbrev started_config : EnvConfigSchema
started_config = (validate_env_config parsers serve (prepare_env_config os keyed).0).0

main_runs : main os parsers serve parsed ≡ runs started_config
unfolding main validate_env_config run_checks should_skip_env_validation same check_log_level
    check_encryption_key choose_db_provider check_app_url check_internal_app_url check_file_backend
    check_url check_ranges check_retention check_static_api_key range_error split_at trim_space
    has_prefix prepare_env_config prepare_fields option_fields prepare_field apply_options
    apply_option tag_of kind_of resolve_file_based_env_variable vocy.Utils.CaseStyle.to_lower
main_runs = refl

main_connects_example :
    (connect_database outside started_config ≢ fails no_connection_string)
    × (connect_database outside started_config ≢ fails (unsupported_provider (codes "oracle")))
main_connects_example =
    main_connects outside os parsers serve parsed started_config (codes "oracle") not_skipped
      main_runs
