-- ===== src/ConfigService/Methods.antt =====
-- The methods of `AppConfigService` (backend/internal/service/app_config_service.go).
use mathlib.Core.Option
use vocy.Prelude.{
  String, ◌%◌, Bool, true, false, not, Option, none, some, List, [], ◌∷◌, Result, ok, err, ◌>>=◌,
  str_eq, ◌==◌, length, if◌then◌else◌,
}
use vocy.Config.Field.{instance_id}
use vocy.Config.Values.{AppConfig, AppConfigVariable}
use vocy.Config.Access.{to_app_config_variable_slice}
use vocy.ConfigService.Dto.{AppConfigUpdateDto, dto_fields}
use vocy.ConfigService.Database.{ConfigDb}
use vocy.ConfigService.State.{
  Environment, ServiceError, Failed, leaving, Service, odd_arguments, id_generation_failed,
  config_disabled,
}
use vocy.ConfigService.Loading.{load_db_config_internal}
use vocy.ConfigService.Staging.{start_transaction, write_and_commit, stage_values, stage_inputs}

module _ (db : ConfigDb) where
  open db use {Db, DbError}

  -- `s.dbConfig.Store(cfg)` after the commit, or the error and the database that the transaction left.
  unfoldable pub store_staged :
      Service Db
      → Result (Failed Db DbError) (AppConfig × Db)
      → Service Db × Option (ServiceError DbError)
  store_staged s (ok (cfg, d)) = (record { db_config = some cfg; database = d }, none)
  store_staged s (err (d, e)) = (record s { database = d }, some e)

  -- The transaction of `UpdateAppConfigValues`.
  unfoldable pub update_values_transaction :
      Environment → Db → List String → Result (Failed Db DbError) (AppConfig × Db)
  update_values_transaction env d keys_and_values = do
    tx ← start_transaction db d
    cfg ← leaving (db.rollback d tx) (load_db_config_internal db env tx)
    staged ← leaving (db.rollback d tx) (stage_values db env keys_and_values cfg [])
    d' ← write_and_commit db d tx staged.1
    ok (staged.0, d')

  unfoldable pub update_app_config_values :
      Environment → Service Db → List String → Service Db × Option (ServiceError DbError)
  unfolding store_staged update_values_transaction
  update_app_config_values env s keys_and_values =
      if not (length keys_and_values % 2 == 0)
      then (s, some odd_arguments)
      else store_staged s (update_values_transaction env s.database keys_and_values)

  -- The transaction of `UpdateAppConfig`.
  unfoldable pub update_transaction :
      Environment → Db → AppConfigUpdateDto → Result (Failed Db DbError) (AppConfig × Db)
  update_transaction env d input = do
    tx ← start_transaction db d
    cfg ← leaving (db.rollback d tx) (load_db_config_internal db env tx)
    staged ← leaving (db.rollback d tx) (stage_inputs db dto_fields input cfg [])
    d' ← write_and_commit db d tx staged.1
    ok (staged.0, d')

  -- The listing that `UpdateAppConfig` returns, of the configuration that it stored.
  unfoldable pub listed_result :
      Environment → Result (Failed Db DbError) (AppConfig × Db) → List AppConfigVariable
  listed_result env (ok (cfg, d)) =
      to_app_config_variable_slice env.ui_config_disabled cfg true false
  listed_result env (err e) = []

  unfoldable pub update_app_config :
      Environment
      → Service Db
      → AppConfigUpdateDto
      → Service Db × List AppConfigVariable × Option (ServiceError DbError)
  unfolding store_staged update_transaction listed_result
  update_app_config env s input =
      if env.ui_config_disabled
      then (s, [], some config_disabled)
      else let r = update_transaction env s.database input in
        let (s', e) = store_staged s r in (s', listed_result env r, e)

  -- `GetDbConfig`, whose panic on a nil pointer is `none`.
  abbrev pub get_db_config : Service Db → Option AppConfig
  get_db_config s = s.db_config

  -- `ListAppConfig`.
  unfoldable pub list_app_config : Environment → Service Db → Bool → Option (List AppConfigVariable)
  list_app_config env s show_all =
      Option.map (λ cfg. to_app_config_variable_slice env.ui_config_disabled cfg show_all true)
        (get_db_config s)

  unfoldable pub load_db_config :
      Environment → Service Db → Service Db × Option (ServiceError DbError)
  load_db_config env s = elim (load_db_config_internal db env s.database) [
    | ok dest ↦ (record s { db_config = some dest }, none)
    | err e ↦ (s, some e)
  ]

  -- `initInstanceID`; `new_id` is what `uuid.GenerateUUID` returns, `none` for its error.
  unfoldable pub init_instance_id :
      Environment
      → Option String
      → Service Db
      → AppConfig
      → Service Db × Option (ServiceError DbError)
  init_instance_id env new_id s cfg =
      if not (str_eq (cfg instance_id).value "") then (s, none) else elim new_id [
        | none ↦ (s, some id_generation_failed)
        | some id ↦ update_app_config_values env s ("instanceId" ∷ id ∷ [])
      ]

  -- What `NewAppConfigService` does after its call of `LoadDbConfig`.
  unfoldable pub init_loaded :
      Environment
      → Option String
      → Service Db × Option (ServiceError DbError)
      → Service Db × Option (ServiceError DbError)
  unfolding init_instance_id
  init_loaded env new_id (s, some e) = (s, some e)
  init_loaded env new_id (s, none) = elim (get_db_config s) [
    | none ↦ (s, none)
    | some cfg ↦ init_instance_id env new_id s cfg
  ]

  -- `NewAppConfigService`. After an error there is no service, and only the database of the state
  -- counts.
  unfoldable pub new_app_config_service :
      Environment → Option String → Db → Service Db × Option (ServiceError DbError)
  unfolding init_loaded
  new_app_config_service env new_id d =
      init_loaded env new_id (load_db_config env (record { db_config = none; database = d }))
