-- ===== src/Env/Tests.antt =====
-- Witnesses of the theorems on the environment's configuration.
use vocy.Prelude.{◌≡◌, ◌↔◌, refl, false, none, some, List, [], ◌∷◌, codes, if◌then◌else◌}
use vocy.Env.Schema.{Text, EnvConfigSchema, default_config, same, has_prefix, split_at, trim_space}
use vocy.Env.Prepare.{
  Surroundings, OptionField, static_api_key, app_url, get, prepare_field, apply_options,
  apply_option, tag_of, kind_of, prepare_fields, prepare_env_config, option_fields,
  resolve_file_based_env_variable,
}
use vocy.Env.Fields.{IsPrepared}
use vocy.Env.Prepared.{prepare_env_config-get}
use vocy.Env.Validate.{
  Parsers, validate_env_config, should_skip_env_validation, run_checks, choose_db_provider,
  check_app_url, check_internal_app_url, check_file_backend, check_url, check_log_level,
  check_encryption_key, check_ranges, check_retention, check_static_api_key, range_error,
}
use vocy.Env.Conditions.{IsValid}
use vocy.Env.Accepted.{Usable, validate_env_config_iff, validate_env_config-Usable}

-- Parsers that know one level, and no URL with a path.
abbrev pub parsers : Parsers
parsers = record {
  is_level = λ level. same level (codes "info");
  url_path = λ url. some [];
  cidr_is_ipv4 = λ range. some false;
}

abbrev pub keyed : EnvConfigSchema
keyed = record default_config {
  encryption_key = codes "0123456789abcdef";
  local_ipv6_ranges = codes "fd00::/8, ";
}

abbrev pub serve : List Text
serve = codes "serve" ∷ []

pub not_skipped : should_skip_env_validation serve ≡ false
unfolding should_skip_env_validation same
not_skipped = refl

accepted : (validate_env_config parsers serve keyed).1 ≡ none
unfolding validate_env_config run_checks should_skip_env_validation same check_log_level
    check_encryption_key choose_db_provider check_app_url check_internal_app_url check_file_backend
    check_url check_ranges check_retention check_static_api_key range_error split_at trim_space
    has_prefix
accepted = refl

validate_env_config_iff_example :
    ((validate_env_config parsers serve keyed).1 ≡ none) ↔ IsValid parsers keyed
validate_env_config_iff_example = validate_env_config_iff parsers keyed serve not_skipped

validate_env_config-Usable_example : Usable (validate_env_config parsers serve keyed).0
validate_env_config-Usable_example =
    validate_env_config-Usable parsers keyed serve not_skipped accepted

-- A secret file for the API key.
abbrev os : Surroundings
os = record {
  getenv = λ name. if same name (codes "STATIC_API_KEY_FILE") then codes "/run/key" else [];
  read_file = λ path. some (codes " secret ");
}

prepared : (prepare_env_config os keyed).1 ≡ none
unfolding prepare_env_config prepare_fields option_fields prepare_field apply_options apply_option
    tag_of kind_of resolve_file_based_env_variable same split_at
prepared = refl

prepare_env_config-get_example :
    ((prepare_env_config os keyed).1 ≡ none)
    ↔ ((f : OptionField) → IsPrepared os f (get keyed f) (get (prepare_env_config os keyed).0 f))
prepare_env_config-get_example = prepare_env_config-get os keyed

-- The secret is read without the blanks around it, and the URL loses its slashes.
reads_key :
    (get (prepare_env_config os keyed).0 static_api_key ≡ codes "secret")
    × (get (prepare_env_config os (record keyed { app_url = codes "HTTP://Vocy.Test//" })).0 app_url
        ≡ codes "http://vocy.test")
unfolding prepare_env_config prepare_fields option_fields prepare_field apply_options apply_option
    tag_of kind_of resolve_file_based_env_variable same split_at get trim_space
    vocy.Utils.CaseStyle.to_lower
reads_key = (refl, refl)
