-- ===== src/ConfigService/Staging.antt =====
-- The transaction of an update and the loops that stage its values
-- (backend/internal/service/app_config_service.go).
use vocy.Prelude.{
  String, Bool, true, false, not, ◌&&◌, List, [], ◌∷◌, ◌++◌, Result, ok, err, ◌>>=◌, ◌>>◌, wrap,
  check, str_eq, if◌then◌else◌,
}
use vocy.Config.Values.{AppConfig, AppConfigVariable, default_config}
use vocy.Config.Access.{field_by_key, update_field}
use vocy.ConfigService.Dto.{DtoField, AppConfigUpdateDto, json_key}
use vocy.ConfigService.Database.{ConfigDb}
use vocy.Gorm.{Dialect, sqlite, postgres, other}
use vocy.ConfigService.State.{
  Environment, ServiceError, Failed, leaving, index_out_of_range, begin_failed, lock_failed,
  update_failed, commit_failed, invalid_key, field_failed, config_disabled, is_internal_forbidden,
  is_some,
}

module _ (db : ConfigDb) where
  open db use {Db, DbError}

  -- The lock of the table, which only Postgres takes.
  abbrev pub lock_by : Db → Db → Dialect → Result (Failed Db DbError) Db
  lock_by d tx postgres = do
    leaving (db.rollback d tx) (check lock_failed (db.lock_table tx))
    ok tx
  lock_by d tx sqlite = ok tx
  lock_by d tx (other name) = ok tx

  -- `updateAppConfigStartTransaction`.
  unfoldable pub start_transaction : Db → Result (Failed Db DbError) Db
  start_transaction d = do tx ← leaving d (wrap begin_failed (db.begin d)); lock_by d tx (db.name d)

  -- `updateAppConfigUpdateDatabase` and the commit behind it. The deferred `Rollback` does nothing to a
  -- transaction whose commit has returned.
  unfoldable pub write_and_commit : Db → Db → List AppConfigVariable → Result (Failed Db DbError) Db
  write_and_commit d tx rows = do
    tx' ← leaving (db.rollback d tx) (wrap update_failed (db.upsert tx rows))
    leaving (db.failed_commit d tx') (wrap commit_failed (db.commit tx'))

  -- One round of the loop of `UpdateAppConfigValues`: the checks on a key and the in-memory update.
  unfoldable pub stage_value :
      Environment → AppConfig → String → String → Result (ServiceError DbError) AppConfig
  stage_value env cfg key value =
      let (default_value, is_internal, e) = field_by_key default_config key in
      if is_some e
      then err (invalid_key key)
      else if not is_internal && env.ui_config_disabled
      then err config_disabled
      else let (cfg', e') =
          update_field cfg key (if str_eq value "" then default_value else value) false in
        if is_some e' then err (field_failed key) else ok cfg'

  -- The loop, `i += 2`. The caller has checked that the count is even, so that `keysAndValues[i+1]`
  -- is in range.
  unfoldable pub stage_values :
      Environment
      → List String
      → AppConfig
      → List AppConfigVariable
      → Result (ServiceError DbError) (AppConfig × List AppConfigVariable)
  unfolding stage_value
  stage_values env [] cfg rows = ok (cfg, rows)
  stage_values env (key ∷ []) cfg rows = err index_out_of_range
  stage_values env (key ∷ value ∷ rest) cfg rows = do
    cfg' ← stage_value env cfg key value
    stage_values env rest cfg' (rows ++ record { key = key; value = value } ∷ [])

  -- One round of the loop of `UpdateAppConfig`: the update, its error, and whether the row is saved.
  unfoldable pub stage_input :
      AppConfig → String → String → Result (ServiceError DbError) (AppConfig × Bool)
  stage_input cfg key value =
      let default_value = (field_by_key default_config key).0 in
      let (cfg', e) =
        update_field cfg key (if str_eq value "" then default_value else value) true in
      if is_internal_forbidden e
      then ok (cfg', false)
      else if is_some e
      then err (field_failed key)
      else ok (cfg', true)

  unfoldable pub stage_inputs :
      List DtoField
      → AppConfigUpdateDto
      → AppConfig
      → List AppConfigVariable
      → Result (ServiceError DbError) (AppConfig × List AppConfigVariable)
  unfolding stage_input
  stage_inputs [] input cfg rows = ok (cfg, rows)
  stage_inputs (f ∷ fs) input cfg rows = do
    staged ← stage_input cfg (json_key f) (input f)
    stage_inputs fs input staged.0
        (if staged.1 then rows ++ record { key = json_key f; value = input f } ∷ [] else rows)
