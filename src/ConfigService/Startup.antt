-- ===== src/ConfigService/Startup.antt =====
-- The start of the configuration service: `NewAppConfigService` and `initInstanceID`
-- (backend/internal/service/app_config_service.go).
use vocy.Prelude.{
  String, ◌≡◌, ◌≢◌, refl, sym, ◌∙◌, ap, Option, none, some, List, [], ◌∷◌, Result, ok, err,
  Result-cases, str_eq, eq_iff, arith, inl, inr, Bool-cases,
}
use vocy.Config.Field.{key_of, instance_id}
use vocy.Config.Values.{AppConfig, AppConfigVariable, default_config}
use vocy.Config.Access.Lookup.{attrs_of-instance_id}
use vocy.ConfigService.Database.{ConfigDb, ConfigDbLaws, row_after}
use vocy.ConfigService.State.{Environment, ServiceError, Service}
use vocy.ConfigService.Loading.{load_db_config_internal}
use vocy.ConfigService.Methods.{
  update_app_config_values, load_db_config, init_instance_id, new_app_config_service,
}
use vocy.ConfigService.Rows.{written, load-row}
use vocy.ConfigService.Staged.{in_memory, pairs, stage_values-written}
use vocy.ConfigService.FromEnv.{ok_value, load_from_env}
use vocy.ConfigService.Transactions.{
  update_values_committed, update_values_transaction-Steps, row-write_and_commit,
}

-- What a started service has: a configuration whose instance id is not empty and stands in the
-- database.
pub record HasInstanceId {db : ConfigDb} (laws : ConfigDbLaws db) (s : Service db.Db) : Type 0 where
  pub memory : AppConfig
  pub loaded : s.db_config ≡ some memory
  pub nonempty : (memory instance_id).value ≢ ""
  pub persisted : laws.row s.database (key_of instance_id) ≡ some (memory instance_id).value

default_instance_id : (default_config instance_id).value ≡ ""
unfolding default_config
default_instance_id = refl

given_row :
    (id : String) (old : Option String)
    → row_after (pairs ("instanceId" ∷ id ∷ [])) (key_of instance_id) old ≡ some id
unfolding key_of
given_row id old = refl

id_in_memory :
    (x : AppConfigVariable) (id : String)
    → id ≢ ""
    → (written x (in_memory instance_id (some id))).value ≡ id
id_in_memory x id full = elim (Bool-cases (str_eq id "")) [
  | inl e ↦ absurd (full ((eq_iff id "").0 e))
  | inr e ↦ rw e
]

module _ (db : ConfigDb) (laws : ConfigDbLaws db) (env : Environment) where
  open laws use {row, row-first_value}

  written_row :
      (x : AppConfigVariable) (o : Option String)
      → x ≡ written (default_config instance_id) o
      → x.value ≢ ""
      → o ≡ some x.value
  written_row x none e h =
      absurd (h (ap (λ (y : AppConfigVariable). y.value) e ∙ default_instance_id))
  written_row x (some v) e h = ap some (sym (ap (λ (y : AppConfigVariable). y.value) e))

  read_row :
      (t : db.Db) (v : String) (r : Result db.DbError String)
      → db.first_value t (key_of instance_id) ≡ r
      → ok_value r ≡ some v
      → row t (key_of instance_id) ≡ some v
  read_row t v (ok w) e h = row-first_value t (key_of instance_id) w e ∙ h
  read_row t v (err x) e h = ground arith

  -- An instance id that a load finds stands in the database, whichever way it was loaded.
  loaded-row :
      (t : db.Db) (c : AppConfig)
      → load_db_config_internal db env t ≡ ok c
      → (c instance_id).value ≢ ""
      → row t (key_of instance_id) ≡ some (c instance_id).value
  loaded-row t c h full = elim (Bool-cases env.ui_config_disabled) [
    | inl off ↦ read_row t _ _ refl (
        written_row (c instance_id) _
          (load_from_env db env t c instance_id off h ∙ rw attrs_of-instance_id) full)
    | inr on ↦ written_row (c instance_id) _ (load-row db laws env t c instance_id on h) full
  ]

  new_id_saved :
      (s s' : Service db.Db) (id : String)
      → id ≢ ""
      → update_app_config_values db env s ("instanceId" ∷ id ∷ []) ≡ (s', none)
      → HasInstanceId laws s'
  new_id_saved s s' id full h =
      let kvs : List String = "instanceId" ∷ id ∷ [] in
      let (cfg, d, committed, after) = update_values_committed db env s s' kvs h in
      let st = update_values_transaction-Steps db env s.database d kvs cfg committed in
      let (rows_eq, values) = stage_values-written db env kvs st.loaded cfg [] st.rows st.staged in
      let in_mem : (cfg instance_id).value ≡ id =
        ap (λ (x : AppConfigVariable). x.value) (rw given_row at (values instance_id))
        ∙ id_in_memory (st.loaded instance_id) id full in
      let in_row : row d (key_of instance_id) ≡ some id =
        row-write_and_commit db laws s.database st.tx d st.rows (key_of instance_id) st.saved
        ∙ rw (rows_eq, given_row) in
      record {
        memory = cfg;
        loaded = ap (λ (x : Service db.Db). x.db_config) after;
        nonempty = λ e. full (sym in_mem ∙ e);
        persisted =
            ap (λ (x : Service db.Db). row x.database (key_of instance_id)) after
            ∙ in_row
            ∙ ap some (sym in_mem);
      }

  found_id :
      (d : db.Db) (cfg : AppConfig) (s : Service db.Db)
      → load_db_config_internal db env d ≡ ok cfg
      → (cfg instance_id).value ≢ ""
      → s ≡ record { db_config = some cfg; database = d }
      → HasInstanceId laws s
  found_id d cfg s l full after = record {
    memory = cfg;
    loaded = ap (λ (x : Service db.Db). x.db_config) after;
    nonempty = full;
    persisted =
        ap (λ (x : Service db.Db). row x.database (key_of instance_id)) after
        ∙ loaded-row d cfg l full;
  }

  init_instance_id-HasInstanceId :
      (d : db.Db) (new_id : Option String) (cfg : AppConfig) (s : Service db.Db)
      → new_id ≢ some ""
      → load_db_config_internal db env d ≡ ok cfg
      → init_instance_id db env new_id (record { db_config = some cfg; database = d }) cfg
        ≡ (s, none)
      → HasInstanceId laws s
  unfolding init_instance_id
  init_instance_id-HasInstanceId d none cfg s full l h =
      elim (Bool-cases (str_eq (cfg instance_id).value "")) [
        | inl e ↦ absurd (ground arith)
        | inr e ↦
            found_id d cfg s l (λ q. cc (e, (eq_iff (cfg instance_id).value "").1 q))
              (sym (ap (λ (p : Service db.Db × Option (ServiceError db.DbError)). p.0) (rw e at h)))
      ]
  init_instance_id-HasInstanceId d (some id) cfg s full l h =
      elim (Bool-cases (str_eq (cfg instance_id).value "")) [
        | inl e ↦
            new_id_saved (record { db_config = some cfg; database = d }) s id
              (λ q. full (ap some q)) (rw e at h)
        | inr e ↦
            found_id d cfg s l (λ q. cc (e, (eq_iff (cfg instance_id).value "").1 q))
              (sym (ap (λ (p : Service db.Db × Option (ServiceError db.DbError)). p.0) (rw e at h)))
      ]

  load_db_config_ok :
      (d : db.Db) (cfg : AppConfig)
      → load_db_config_internal db env d ≡ ok cfg
      → load_db_config db env (record { db_config = none; database = d })
        ≡ (record { db_config = some cfg; database = d }, none)
  unfolding load_db_config
  load_db_config_ok d cfg e = rw (e, load_db_config)

  load_db_config_err :
      (d : db.Db) (x : ServiceError db.DbError) (new_id : Option String) (s : Service db.Db)
      → load_db_config_internal db env d ≡ err x
      → ¬ (new_app_config_service db env new_id d ≡ (s, none))
  unfolding new_app_config_service load_db_config
  load_db_config_err d x new_id s e h = ground arith

  -- A service that starts without an error has an instance id: it is not empty, and it stands in
  -- the database. This supposes that a generated id is not the empty text.
  pub start-HasInstanceId :
      (d : db.Db) (new_id : Option String) (s : Service db.Db)
      → new_id ≢ some ""
      → new_app_config_service db env new_id d ≡ (s, none)
      → HasInstanceId laws s
  unfolding new_app_config_service
  start-HasInstanceId d new_id s full h = elim (Result-cases (load_db_config_internal db env d)) [
    | inl (cfg, e) ↦
        init_instance_id-HasInstanceId d new_id cfg s full e (rw (load_db_config_ok d cfg e) at h)
    | inr (x, e) ↦ absurd (load_db_config_err d x new_id s e h)
  ]
