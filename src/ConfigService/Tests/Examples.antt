-- ===== src/ConfigService/Tests/Examples.antt =====
-- Witnesses of the theorems on the configuration service.
use vocy.Prelude.{String, ◌≡◌, ◌≢◌, refl, false, Option, none, some, List, [], ◌∷◌, Result, ok, err}
use vocy.Config.Field
use vocy.Config.Field.{fields, key_of}
use vocy.Config.Values.{AppConfig, AppConfigVariable, default_config}
use vocy.ConfigService.State.{Environment, Service, ServiceError}
use vocy.Config.Access.{field_by_key, update_field, is_internal}
use vocy.ConfigService.Staging.{start_transaction, write_and_commit, stage_values}
use vocy.ConfigService.Loading.{load_db_config_internal}
use vocy.ConfigService.Methods.{update_app_config_values}
use vocy.ConfigService.Reload.{last_value, reload-update_app_config_values, reload_loses_default}
use vocy.ConfigService.Tests.Table.{table, table_laws}

abbrev plain_environment : Environment
plain_environment = record {
  ui_config_disabled = false;
  lookup_env = λ name. none;
  read_file = λ path. none;
}

abbrev fresh : Service (List AppConfigVariable)
fresh = record { db_config = none; database = record { key = "smtpHost"; value = "mail" } ∷ [] }

abbrev renaming : List String
renaming = "appName" ∷ "" ∷ "smtpPort" ∷ "25" ∷ []

abbrev renamed : Service (List AppConfigVariable)
renamed = (update_app_config_values table plain_environment fresh renaming).0

abbrev memory_of : Option AppConfig → AppConfig
memory_of none = default_config
memory_of (some c) = c

abbrev loaded_of : Result (ServiceError (Unit {0})) AppConfig → AppConfig
loaded_of (ok c) = c
loaded_of (err e) = default_config

abbrev in_memory : AppConfig
in_memory = memory_of renamed.db_config

abbrev reloaded : AppConfig
reloaded = loaded_of (load_db_config_internal table plain_environment renamed.database)

renaming_done : update_app_config_values table plain_environment fresh renaming ≡ (renamed, none)
unfolding update_app_config_values start_transaction load_db_config_internal stage_values
    write_and_commit field_by_key update_field key_of fields is_internal default_config
renaming_done = refl

renaming_kept : renamed.db_config ≡ some in_memory
unfolding update_app_config_values start_transaction load_db_config_internal stage_values
    write_and_commit field_by_key update_field key_of fields is_internal default_config
renaming_kept = refl

renaming_reloads : load_db_config_internal table plain_environment renamed.database ≡ ok reloaded
unfolding update_app_config_values start_transaction load_db_config_internal stage_values
    write_and_commit field_by_key update_field key_of fields is_internal default_config
renaming_reloads = refl

port_given : last_value renaming Field.smtp_port ≢ some ""
unfolding key_of
port_given e = cc

name_emptied : last_value renaming Field.app_name ≡ some ""
unfolding key_of
name_emptied = refl

reload-update_app_config_values_example : reloaded Field.smtp_port ≡ in_memory Field.smtp_port
reload-update_app_config_values_example =
    reload-update_app_config_values table table_laws plain_environment fresh renamed renaming
      in_memory reloaded Field.smtp_port refl renaming_done renaming_kept renaming_reloads
      port_given

reload_loses_default_example :
    ((in_memory Field.app_name).value ≡ (default_config Field.app_name).value)
    × ((reloaded Field.app_name).value ≡ "")
reload_loses_default_example =
    reload_loses_default table table_laws plain_environment fresh renamed renaming in_memory
      reloaded Field.app_name refl renaming_done renaming_kept renaming_reloads name_emptied
