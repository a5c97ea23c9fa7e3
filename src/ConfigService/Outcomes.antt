-- ===== src/ConfigService/Outcomes.antt =====
-- The outcomes of `UpdateAppConfig` and `UpdateAppConfigValues`
-- (backend/internal/service/app_config_service.go): a refusal, success, and what it stores.
use mathlib.Core.Path.{subst}
use vocy.Prelude.{
  String, ◌≡◌, refl, sym, ◌∙◌, ap, true, false, Option, none, some, List, [], ◌∷◌, ◌++◌, ok,
  >>=-eq-ok, ok-injective, str_eq, All, arith, inl, inr, Bool-cases, if◌then◌else◌,
}
use vocy.Config.Field.{Field, key_of, instance_id}
use vocy.Config.Values.{AppConfig, AppConfigVariable, default_config}
use vocy.Config.Access.{field_by_key}
use vocy.Config.Access.Lookup.{
  found_value, field_by_key-found, find_field, find_field_sound, internal-eq,
}
use vocy.ConfigService.Database.{ConfigDb, ConfigDbLaws, row_after}
use vocy.ConfigService.Dto.{DtoField, AppConfigUpdateDto, dto_fields}
use vocy.ConfigService.State.{Environment, ServiceError, Service, config_disabled}
use vocy.ConfigService.Loading.{load_db_config_internal}
use vocy.ConfigService.Staging.{stage_value, stage_values, stage_inputs}
use vocy.ConfigService.Methods.{
  store_staged, update_transaction, update_app_config_values, update_app_config,
}
use vocy.ConfigService.Rows.{written, or_old, row_after-or_old, written-written, load-row}
use vocy.ConfigService.Staged.{pairs, in_memory}
use vocy.ConfigService.Inputs.{
  target, input_rows, row_after-input_rows, row_after-input_rows_instance_id, stage_inputs-written,
}
use vocy.ConfigService.Transactions.{
  Steps, store_staged-eq-none, update_values_committed, update_values_transaction-Steps,
  update_transaction-Steps, row-write_and_commit,
}

module _ (db : ConfigDb) where
  stage_value-internal :
      (env : Environment) (cfg cfg' : AppConfig) (key value : String)
      → env.ui_config_disabled ≡ true
      → stage_value db env cfg key value ≡ ok cfg'
      → key ≡ key_of instance_id
  unfolding stage_value
  stage_value-internal env cfg cfg' key value off h =
      named (find_field key) refl (rw field_by_key-found at facts)
    where
      facts :
          ((field_by_key default_config key).2 ≡ none)
          × ((field_by_key default_config key).1 ≡ true)
      facts = ground arith

      named :
          (o : Option Field)
          → find_field key ≡ o
          → ((found_value o default_config key).2 ≡ none)
            × ((found_value o default_config key).1 ≡ true)
          → key ≡ key_of instance_id
      named none e k = ground arith
      named (some f) e k = sym (find_field_sound key f e) ∙ ap key_of (internal-eq f k.1)

  stage_values-internal :
      (env : Environment) (kvs : List String) (cfg cfg' : AppConfig)
      (rows rows' : List AppConfigVariable)
      → env.ui_config_disabled ≡ true
      → stage_values db env kvs cfg rows ≡ ok (cfg', rows')
      → All (λ r. r.key ≡ key_of instance_id) (pairs kvs)
  unfolding stage_values
  stage_values-internal env [] cfg cfg' rows rows' off h = tt
  stage_values-internal env (key ∷ []) cfg cfg' rows rows' off h = tt
  stage_values-internal env (key ∷ value ∷ rest) cfg cfg' rows rows' off h =
      let row : AppConfigVariable = record { key = key; value = value } in
      let (cfg1, first, more) =
        >>=-eq-ok (stage_value db env cfg key value)
          (λ c. stage_values db env rest c (rows ++ row ∷ [])) h in
      (
        stage_value-internal env cfg cfg1 key value off first,
        stage_values-internal env rest cfg1 cfg' (rows ++ row ∷ []) rows' off more,
      )

  -- With the UI configuration disabled, an update that succeeds has touched nothing but the
  -- instance id: every key that it was given is that of the instance id.
  pub disabled_update_internal :
      (env : Environment) (s s' : Service db.Db) (keys_and_values : List String)
      → env.ui_config_disabled ≡ true
      → update_app_config_values db env s keys_and_values ≡ (s', none)
      → All (λ r. r.key ≡ key_of instance_id) (pairs keys_and_values)
  disabled_update_internal env s s' kvs off h =
      let (cfg, d, committed, after) = update_values_committed db env s s' kvs h in
      let st = update_values_transaction-Steps db env s.database d kvs cfg committed in
      stage_values-internal env kvs st.loaded cfg [] st.rows off st.staged

  update_enabled :
      (env : Environment) (s : Service db.Db) (input : AppConfigUpdateDto)
      → env.ui_config_disabled ≡ false
      → let r = store_staged db s (update_transaction db env s.database input) in
        ((update_app_config db env s input).0 ≡ r.0) × ((update_app_config db env s input).2 ≡ r.1)
  unfolding update_app_config
  update_enabled env s input on = (simp on refl, simp on refl)

  update_disabled :
      (env : Environment) (s : Service db.Db) (input : AppConfigUpdateDto)
      → env.ui_config_disabled ≡ true
      → (update_app_config db env s input).2 ≡ some config_disabled
  unfolding update_app_config
  update_disabled env s input off = simp off refl

  pub update_committed :
      (env : Environment) (s : Service db.Db) (input : AppConfigUpdateDto)
      → (update_app_config db env s input).2 ≡ none
      → (env.ui_config_disabled ≡ false)
        × ((cfg : AppConfig) × (d : db.Db) × (update_transaction db env s.database input
              ≡ ok (cfg, d))
            × ((update_app_config db env s input).0
                ≡ record { db_config = some cfg; database = d }))
  update_committed env s input h = elim (Bool-cases env.ui_config_disabled) [
    | inl off ↦ cc (update_disabled env s input off)
    | inr on ↦
        let (after, none_eq) = update_enabled env s input on in
        let r = store_staged db s (update_transaction db env s.database input) in
        let (cfg, d, committed, stored) =
          store_staged-eq-none db s r.0 (update_transaction db env s.database input)
            (ap (λ (e : Option (ServiceError db.DbError)). (r.0, e)) (sym none_eq ∙ h)) in
        (on, (cfg, d, committed, after ∙ stored))
  ]

  module _ (laws : ConfigDbLaws db) where
    open laws use {row, row-begin}

    input_memory_and_reload :
        (env : Environment) (d d' : db.Db) (input : AppConfigUpdateDto) (memory c : AppConfig)
        (g : Field)
        → env.ui_config_disabled ≡ false
        → Steps db env d d' (λ l. stage_inputs db dto_fields input l []) memory
        → load_db_config_internal db env d' ≡ ok c
        → let last = row_after (input_rows input dto_fields) (key_of g) none in
          (memory g ≡ written (default_config g) (or_old (in_memory g last) (row d (key_of g))))
          × (c g ≡ written (default_config g) (or_old last (row d (key_of g))))
    input_memory_and_reload env d d' input memory c g ui st h =
        let (cfg', staged, values) = stage_inputs-written db dto_fields input st.loaded [] in
        let both = ok-injective (sym staged ∙ st.staged) in
        let mem_eq = ap (λ (p : AppConfig × List AppConfigVariable). p.0 g) both in
        let rows_eq = ap (λ (p : AppConfig × List AppConfigVariable). p.1) both in
        let old = ap (λ (r : String → Option String). r (key_of g)) (row-begin d st.tx st.begun) in
        (
          sym mem_eq
              ∙ rw (
                values g,
                load-row db laws env st.tx st.loaded g ui st.load_eq,
                written-written,
                old,
              ),
          rw (
            load-row db laws env d' c g ui h,
            row-write_and_commit db laws d st.tx d' st.rows (key_of g) st.saved,
            ← rows_eq,
            row_after-or_old,
            old,
          ),
        )

    -- After an `UpdateAppConfig` without an error, memory holds for each input field its value, or
    -- the default where it is empty; a load from the database has the value itself; and in both the
    -- instance id is the one that the database held before.
    pub update_app_config_stores :
        (env : Environment) (s : Service db.Db) (input : AppConfigUpdateDto) (memory c : AppConfig)
        (f : DtoField)
        → (update_app_config db env s input).2 ≡ none
        → (update_app_config db env s input).0.db_config ≡ some memory
        → load_db_config_internal db env (update_app_config db env s input).0.database ≡ ok c
        → ((memory (target f)).value
            ≡ (if str_eq (input f) "" then (default_config (target f)).value else input f))
          × ((c (target f)).value ≡ input f)
          × (memory instance_id ≡ c instance_id)
          × (c instance_id
              ≡ written (default_config instance_id) (row s.database (key_of instance_id)))
    update_app_config_stores env s input memory c f done kept h =
        let (ui, (cfg, d, committed, stored)) = update_committed env s input done in
        let same : cfg ≡ memory = cc (ap (λ (x : Service db.Db). x.db_config) stored, kept) in
        let st = update_transaction-Steps db env s.database d input cfg committed in
        let there =
          subst (λ x. load_db_config_internal db env x ≡ ok c)
            (ap (λ (x : Service db.Db). x.database) stored) h in
        let at =
          λ (g : Field). input_memory_and_reload env s.database d input cfg c g ui st there in
        let (in_mem, reloaded) = at (target f) in
        let (kept_id, reloaded_id) = at instance_id in
        (
          ap (λ (x : AppConfig). (x (target f)).value) (sym same)
              ∙ ap (λ (x : AppConfigVariable). x.value) (rw row_after-input_rows at in_mem),
          ap (λ (x : AppConfigVariable). x.value) (rw row_after-input_rows at reloaded),
          ap (λ (x : AppConfig). x instance_id) (sym same)
              ∙ (rw row_after-input_rows_instance_id at kept_id)
              ∙ sym (rw row_after-input_rows_instance_id at reloaded_id),
          (rw row_after-input_rows_instance_id at reloaded_id),
        )
