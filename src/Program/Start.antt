-- ===== src/Program/Start.antt =====
-- `main` (backend/cmd/main.go) up to `Bootstrap`, with `init` and `parseEnvConfig` of
-- backend/internal/common/env_config.go. The package that reads the environment is an argument.
pub mod Providers
mod Tests
use vocy.Prelude.{Option, none, some, List, Result, ok, err}
use vocy.Env.Schema.{Text, EnvConfigSchema}
use vocy.Env.Prepare.{Surroundings, PrepareError, prepare_env_config}
use vocy.Env.Validate.{EnvError, Parsers, Checked, validate_env_config}

pub data ParseError (E : Type 0) : Type 0 where
  not_parsed : E → ParseError E
  not_prepared : PrepareError → ParseError E

abbrev pub prepared :
    {E : Type 0} → EnvConfigSchema × Option PrepareError → Result (ParseError E) EnvConfigSchema
prepared (c, none) = ok c
prepared (c, some e) = err (not_prepared e)

-- `parseEnvConfig`, with what `env.ParseWithOptions` makes of the defaults.
unfoldable pub parse_env_config :
    {E : Type 0} → Surroundings → Result E EnvConfigSchema → Result (ParseError E) EnvConfigSchema
parse_env_config os (err e) = err (not_parsed e)
parse_env_config os (ok c) = prepared (prepare_env_config os c)

-- The process exits with the status 1 before it starts, or it runs `Bootstrap` with a configuration.
pub data Started (E : Type 0) : Type 0 where
  no_configuration : ParseError E → Started E
  config_error : EnvError → Started E
  runs : EnvConfigSchema → Started E

abbrev pub after_validation : {E : Type 0} → Checked → Started E
after_validation (c, none) = runs c
after_validation (c, some e) = config_error e

abbrev pub after_parsing :
    {E : Type 0} → Parsers → List Text → Result (ParseError E) EnvConfigSchema → Started E
after_parsing parsers args (err e) = no_configuration e
after_parsing parsers args (ok c) = after_validation (validate_env_config parsers args c)

-- `init` and then `main`, with the arguments of the command line.
unfoldable pub main :
    {E : Type 0} → Surroundings → Parsers → List Text → Result E EnvConfigSchema → Started E
unfolding parse_env_config
main os parsers args parsed = after_parsing parsers args (parse_env_config os parsed)
