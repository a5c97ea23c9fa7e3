-- ===== src/ConfigService/Tests/Updates.antt =====
-- Witnesses of the theorems on `UpdateAppConfig`, on a start and on the environment.
use vocy.Prelude.{
  String, ◌≡◌, ◌≢◌, refl, ap, true, false, Option, none, some, List, [], ◌∷◌, map, Result, ok, err,
  str_eq, arith, eq_iff, if◌then◌else◌,
}
use vocy.Config.Field
use vocy.Config.Field.{fields, key_of, attrs_of, instance_id}
use vocy.Config.Values.{AppConfig, AppConfigVariable, default_config}
use vocy.Config.Access.{field_by_key, update_field, is_internal}
use vocy.ConfigService.Dto.{DtoField, AppConfigUpdateDto, dto_fields, json_key, json_tag}
use vocy.ConfigService.Inputs.{target, input_rows}
use vocy.ConfigService.Rows.{written}
use vocy.ConfigService.Staging.{
  start_transaction, write_and_commit, stage_values, stage_inputs, stage_input,
}
use vocy.ConfigService.State.{Environment, Service, ServiceError}
use vocy.ConfigService.Loading.{
  load_db_config_internal, load_db_config_from_env, load_fields, load_field, load_secret,
}
use vocy.ConfigService.Methods.{
  update_app_config_values, update_app_config, new_app_config_service, init_loaded,
  init_instance_id, load_db_config,
}
use vocy.ConfigService.Outcomes.{update_app_config_stores}
use vocy.ConfigService.Failures.{IsAtomic, failed_update_keeps}
use vocy.ConfigService.Staged.{pairs}
use vocy.ConfigService.Inputs.{input_rows}
use vocy.ConfigService.FromEnv.{external_value, load_from_env}
use vocy.ConfigService.Startup.{HasInstanceId, start-HasInstanceId}
use vocy.ConfigService.Success.{update_app_config_succeeds}
use vocy.ConfigService.Tests.Table.{table, table_laws}

abbrev open_env : Environment
open_env = record {
  ui_config_disabled = false;
  lookup_env = λ name. none;
  read_file = λ path. none;
}

abbrev closed_env : Environment
closed_env = record {
  ui_config_disabled = true;
  lookup_env = λ name. some "no";
  read_file = λ path. some "secret";
}

abbrev rows : List AppConfigVariable
rows =
    record { key = "instanceId"; value = "id-1" } ∷ record { key = "smtpHost"; value = "mail" } ∷ []

abbrev service : Service (List AppConfigVariable)
service = record { db_config = none; database = rows }

abbrev form : AppConfigUpdateDto
form DtoField.app_name = ""
form _ = "x"

abbrev memory_of : Option AppConfig → AppConfig
memory_of none = default_config
memory_of (some c) = c

abbrev loaded_of : Result (ServiceError (Unit {0})) AppConfig → AppConfig
loaded_of (ok c) = c
loaded_of (err e) = default_config

abbrev rows_of : Result (Unit {0}) (List AppConfigVariable) → List AppConfigVariable
rows_of (ok d) = d
rows_of (err e) = []

failed_update_keeps_example :
    IsAtomic table table_laws
      (pairs ("appName" ∷ "x" ∷ []))
      service
      (update_app_config_values table closed_env service ("appName" ∷ "x" ∷ []))
    × IsAtomic table table_laws (input_rows form dto_fields) service (
      (update_app_config table closed_env service form).0,
      (update_app_config table closed_env service form).2,
    )
failed_update_keeps_example =
    failed_update_keeps table table_laws closed_env service ("appName" ∷ "x" ∷ []) form

abbrev new_id : List String
new_id = "instanceId" ∷ "id-2" ∷ []

abbrev with_new_id : Service (List AppConfigVariable)
with_new_id = (update_app_config_values table closed_env service new_id).0

new_id_stored : update_app_config_values table closed_env service new_id ≡ (with_new_id, none)
unfolding update_app_config_values start_transaction load_db_config_internal stage_values
    write_and_commit load_db_config_from_env load_fields load_field load_secret field_by_key
    update_field key_of attrs_of fields is_internal default_config
new_id_stored = refl

abbrev updated : Service (List AppConfigVariable)
updated = (update_app_config table open_env service form).0

form_stored : (update_app_config table open_env service form).2 ≡ none
unfolding update_app_config start_transaction load_db_config_internal stage_inputs stage_input
    write_and_commit field_by_key update_field key_of attrs_of fields is_internal default_config
    dto_fields json_key json_tag
form_stored = refl

form_kept : updated.db_config ≡ some (memory_of updated.db_config)
unfolding update_app_config start_transaction load_db_config_internal stage_inputs stage_input
    write_and_commit field_by_key update_field key_of attrs_of fields is_internal default_config
    dto_fields json_key json_tag
form_kept = refl

abbrev reloaded : AppConfig
reloaded = loaded_of (load_db_config_internal table open_env updated.database)

form_reloads : load_db_config_internal table open_env updated.database ≡ ok reloaded
unfolding update_app_config start_transaction load_db_config_internal stage_inputs stage_input
    write_and_commit field_by_key update_field key_of attrs_of fields is_internal default_config
    dto_fields json_key json_tag
form_reloads = refl

update_app_config_stores_example :
    ((memory_of updated.db_config (target DtoField.app_name)).value ≡ (
      if str_eq (form DtoField.app_name) ""
      then (default_config (target DtoField.app_name)).value
      else form DtoField.app_name))
    × ((reloaded (target DtoField.app_name)).value ≡ form DtoField.app_name)
    × (memory_of updated.db_config instance_id ≡ reloaded instance_id)
    × (reloaded instance_id
        ≡ written (default_config instance_id) (table_laws.row rows (key_of instance_id)))
update_app_config_stores_example =
    update_app_config_stores table table_laws open_env service form (memory_of updated.db_config)
      reloaded DtoField.app_name form_stored form_kept form_reloads

abbrev from_env : AppConfig
from_env = loaded_of (load_db_config_internal table closed_env rows)

env_loads : load_db_config_internal table closed_env rows ≡ ok from_env
unfolding load_db_config_internal load_db_config_from_env load_fields load_field load_secret key_of
    attrs_of fields default_config
env_loads = refl

load_from_env_example :
    from_env Field.smtp_password
    ≡ written
        (default_config Field.smtp_password)
        (external_value table closed_env rows Field.smtp_password)
load_from_env_example =
    load_from_env table closed_env rows from_env Field.smtp_password refl env_loads

abbrev started : Service (List AppConfigVariable)
started = (new_app_config_service table open_env (some "id-3") []).0

starts : new_app_config_service table open_env (some "id-3") [] ≡ (started, none)
unfolding new_app_config_service init_loaded init_instance_id load_db_config
    update_app_config_values start_transaction load_db_config_internal stage_values write_and_commit
    field_by_key update_field key_of attrs_of fields is_internal default_config
starts = refl

abbrev id : Option String
id = some "id-3"

id_not_empty : id ≢ some ""
id_not_empty e =
    ground (
      arith,
      (eq_iff "id-3" "").1 (ap (λ (o : Option String). elim o [ none ↦ "" | some x ↦ x ]) e),
    )

start-HasInstanceId_example : HasInstanceId table_laws started
start-HasInstanceId_example =
    start-HasInstanceId table table_laws open_env [] (some "id-3") started id_not_empty starts

abbrev saved : List AppConfigVariable
saved = rows_of (table.upsert rows (input_rows form dto_fields))

distinct_rows : table.find rows ≡ ok rows
distinct_rows = refl

update_app_config_succeeds_example :
    (cfg : AppConfig) × (update_app_config table open_env service form ≡ (
      record { db_config = some cfg; database = saved },
      map (λ f. record { key = key_of f; value = (cfg f).value }) fields,
      none,
    ))
update_app_config_succeeds_example =
    update_app_config_succeeds table open_env service form rows saved saved rows refl refl refl
      distinct_rows refl refl
