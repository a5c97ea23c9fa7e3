-- ===== src/ConfigService/Loading.antt =====
-- `loadDbConfigInternal` and `loadDbConfigFromEnv`
-- (backend/internal/service/app_config_service.go).
use vocy.Prelude.{
  ℕ, false, not, ◌&&◌, none, some, List, [], ◌∷◌, ◌++◌, Result, ok, err, ◌>>=◌, wrap, str_eq, codes,
  if◌then◌else◌,
}
use vocy.Config.Field.{Field, fields, key_of, attrs_of}
use vocy.Config.Values.{AppConfig, AppConfigVariable, default_config, set_value}
use vocy.Config.Access.{update_field}
use vocy.Utils.CaseStyle.{camel_case_to_screaming_snake_case}
use vocy.ConfigService.Database.{ConfigDb}
use vocy.ConfigService.State.{
  Environment, ServiceError, load_failed, process_failed, secret_unreadable, getenv,
  is_key_not_found, is_some,
}

module _ (db : ConfigDb) where
  open db use {Db, DbError}

  -- The loop of `loadDbConfigInternal` over the rows.
  unfoldable pub load_rows :
      List AppConfigVariable → AppConfig → Result (ServiceError DbError) AppConfig
  load_rows [] dest = ok dest
  load_rows (v ∷ vs) dest =
      let (dest', e) = update_field dest v.key v.value false in
      let rest = load_rows vs dest' in
      if is_some e && not (is_key_not_found e) then err (process_failed v.key) else rest

  -- A sensitive value may come from a file.
  unfoldable pub load_secret :
      Environment → List ℕ → Field → AppConfig → Result (ServiceError DbError) AppConfig
  load_secret env name f dest =
      let file = getenv (env.lookup_env (name ++ codes "_FILE")) in
      if str_eq file "" then ok dest else elim (env.read_file file) [
        | none ↦ err (secret_unreadable name)
        | some b ↦ ok (set_value dest f b)
      ]

  -- One round of the loop of `loadDbConfigFromEnv`.
  unfoldable pub load_field :
      Environment → Db → Field → AppConfig → Result (ServiceError DbError) AppConfig
  unfolding load_secret
  load_field env tx f dest =
      let name = camel_case_to_screaming_snake_case (codes (key_of f)) in
      if str_eq (attrs_of f) "internal"
      then elim (db.first_value tx (key_of f)) [ ok v ↦ ok (set_value dest f v) | err e ↦ ok dest ]
      else elim (env.lookup_env name) [
        | some v ↦ ok (set_value dest f v)
        | none ↦ if str_eq (attrs_of f) "sensitive" then load_secret env name f dest else ok dest
      ]

  unfoldable pub load_fields :
      Environment → Db → List Field → AppConfig → Result (ServiceError DbError) AppConfig
  unfolding load_field
  load_fields env tx [] dest = ok dest
  load_fields env tx (f ∷ fs) dest = do
    dest' ← load_field env tx f dest
    load_fields env tx fs dest'

  unfoldable pub load_db_config_from_env :
      Environment → Db → Result (ServiceError DbError) AppConfig
  unfolding load_fields
  load_db_config_from_env env tx = load_fields env tx fields default_config

  unfoldable pub load_db_config_internal :
      Environment → Db → Result (ServiceError DbError) AppConfig
  unfolding load_rows load_db_config_from_env
  load_db_config_internal env tx =
      if env.ui_config_disabled
      then load_db_config_from_env env tx
      else do loaded ← wrap load_failed (db.find tx); load_rows loaded default_config
