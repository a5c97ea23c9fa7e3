-- ===== src/ConfigService/Success.antt =====
-- When `UpdateAppConfig` goes through (backend/internal/service/app_config_service.go).
use vocy.Prelude.{◌≡◌, refl, ◌∙◌, false, none, some, List, [], map, ok, arith}
use vocy.Config.Field.{key_of, fields}
use vocy.Config.Values.{AppConfig, AppConfigVariable, default_config}
use vocy.Config.Access.Listing.{full_listing}
use vocy.ConfigService.Database.{ConfigDb, row_after}
use vocy.ConfigService.Dto.{AppConfigUpdateDto, dto_fields}
use vocy.ConfigService.State.{Environment, Service}
use vocy.ConfigService.Loading.{load_db_config_internal}
use vocy.ConfigService.Staging.{start_transaction, write_and_commit}
use vocy.ConfigService.Methods.{store_staged, listed_result, update_transaction, update_app_config}
use vocy.ConfigService.Rows.{written, load_rows-written}
use vocy.ConfigService.Inputs.{input_rows, stage_inputs-written}

module _ (db : ConfigDb) (env : Environment) (s : Service db.Db) (input : AppConfigUpdateDto)
    (tx saved d : db.Db) (rows : List AppConfigVariable) (on : env.ui_config_disabled ≡ false)
    (begun : db.begin s.database ≡ ok tx) (locked : db.lock_table tx ≡ none)
    (found : db.find tx ≡ ok rows)
    (upserted : db.upsert tx (input_rows input dto_fields) ≡ ok saved)
    (committed : db.commit saved ≡ ok d) where
  started : start_transaction db s.database ≡ ok tx
  unfolding start_transaction
  started = ground arith

  loaded : (cfg : AppConfig) × (load_db_config_internal db env tx ≡ ok cfg)
  unfolding load_db_config_internal
  loaded = (
    λ f. written (default_config f) (row_after rows (key_of f) none),
    simp (on, found) (load_rows-written db rows default_config),
  )

  stored : write_and_commit db s.database tx (input_rows input dto_fields) ≡ ok d
  unfolding write_and_commit
  stored = rw (upserted, committed)

  transaction_done : (cfg : AppConfig) × (update_transaction db env s.database input ≡ ok (cfg, d))
  unfolding update_transaction
  transaction_done =
      let (cfg, load_eq) = loaded in
      let (cfg', staged, values) = stage_inputs-written db dto_fields input cfg [] in
      (cfg', rw (started, load_eq, staged, stored))

  enabled :
      let r = update_transaction db env s.database input in
      update_app_config db env s input
      ≡ ((store_staged db s r).0, listed_result db env r, (store_staged db s r).1)
  unfolding update_app_config
  enabled = simp on refl

  -- If the UI configuration is enabled and each call of the database succeeds, `UpdateAppConfig`
  -- returns no error, leaves the committed database, and lists every field of the configuration
  -- that it stored, in the order of the struct and without redaction: no input makes it fail.
  pub update_app_config_succeeds :
      (cfg : AppConfig) × (update_app_config db env s input ≡ (
        record { db_config = some cfg; database = d },
        map (λ f. record { key = key_of f; value = (cfg f).value }) fields,
        none,
      ))
  unfolding store_staged listed_result
  update_app_config_succeeds =
      let (cfg, done) = transaction_done in (cfg, enabled ∙ rw (done, full_listing))
