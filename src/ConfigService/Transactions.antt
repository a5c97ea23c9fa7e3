-- ===== src/ConfigService/Transactions.antt =====
-- The transactions of the configuration service taken apart
-- (backend/internal/service/app_config_service.go): what a committed one did to the table.
use vocy.Prelude.{
  String, ◌≡◌, refl, sym, ◌∙◌, ap, Option, none, some, List, [], ◌%◌, Result, ok, err, ◌>>=◌, wrap,
  >>=-eq-ok, wrap-eq-ok, ok-injective, ◌==◌, length, arith, inl, inr, Bool-cases,
}
use vocy.Config.Values.{AppConfig, AppConfigVariable}
use vocy.ConfigService.Database.{ConfigDb, ConfigDbLaws, row_after}
use vocy.ConfigService.State.{
  Environment, ServiceError, Failed, leaving, leaving-eq-ok, Service, update_failed, commit_failed,
}
use vocy.ConfigService.Dto.{AppConfigUpdateDto, dto_fields}
use vocy.ConfigService.Loading.{load_db_config_internal}
use vocy.ConfigService.Staging.{start_transaction, write_and_commit, stage_values, stage_inputs}
use vocy.ConfigService.Methods.{
  store_staged, update_values_transaction, update_transaction, update_app_config_values,
}

module _ (db : ConfigDb) where
  pub start_transaction-begin : (d tx : db.Db) → start_transaction db d ≡ ok tx → db.begin d ≡ ok tx
  unfolding start_transaction
  start_transaction-begin d tx h = ground arith

  pub store_staged-eq-none :
      (s s' : Service db.Db) (r : Result (Failed db.Db db.DbError) (AppConfig × db.Db))
      → store_staged db s r ≡ (s', none)
      → (cfg : AppConfig) × (d : db.Db) × (r ≡ ok (cfg, d))
        × (s' ≡ record { db_config = some cfg; database = d })
  unfolding store_staged
  store_staged-eq-none s s' (ok (cfg, d)) h =
      (cfg, d, refl, sym (ap (λ (p : Service db.Db × Option (ServiceError db.DbError)). p.0) h))
  store_staged-eq-none s s' (err e) h = ground arith

  -- A call without an error committed its transaction and stored what it staged.
  pub update_values_committed :
      (env : Environment) (s s' : Service db.Db) (keys_and_values : List String)
      → update_app_config_values db env s keys_and_values ≡ (s', none)
      → (cfg : AppConfig) × (d : db.Db) × (update_values_transaction db env s.database
            keys_and_values
          ≡ ok (cfg, d))
        × (s' ≡ record { db_config = some cfg; database = d })
  unfolding update_app_config_values
  update_values_committed env s s' kvs h = elim (Bool-cases (length kvs % 2 == 0)) [
    | inl even ↦
        store_staged-eq-none s s' (update_values_transaction db env s.database kvs) (rw even at h)
    | inr odd ↦ absurd (ground arith)
  ]

  -- The steps of a transaction, each of them successful; `stage` is its loop over the new values.
  pub record Steps (env : Environment) (d d' : db.Db)
      (stage : AppConfig → Result (ServiceError db.DbError) (AppConfig × List AppConfigVariable))
      (cfg : AppConfig) : Type 0 where
    pub tx : db.Db
    pub begun : db.begin d ≡ ok tx
    pub loaded : AppConfig
    pub load_eq : load_db_config_internal db env tx ≡ ok loaded
    pub rows : List AppConfigVariable
    pub staged : stage loaded ≡ ok (cfg, rows)
    pub saved : write_and_commit db d tx rows ≡ ok d'

  -- The transaction behind its start, in two parts.
  abbrev pub saved_with :
      db.Db
      → db.Db
      → AppConfig × List AppConfigVariable
      → Result (Failed db.Db db.DbError) (AppConfig × db.Db)
  saved_with d tx staged = do d'' ← write_and_commit db d tx staged.1; ok (staged.0, d'')

  module _ (env : Environment) (d : db.Db)
      (stage : AppConfig
        → Result (ServiceError db.DbError) (AppConfig × List AppConfigVariable)) where
    abbrev pub load_and_save : db.Db → Result (Failed db.Db db.DbError) (AppConfig × db.Db)
    load_and_save tx = do
      loaded ← leaving (db.rollback d tx) (load_db_config_internal db env tx)
      staged ← leaving (db.rollback d tx) (stage loaded)
      saved_with d tx staged

    by_committing :
        (d' : db.Db) (cfg : AppConfig)
        → (start_transaction db d >>= load_and_save) ≡ ok (cfg, d')
        → Steps env d d' stage cfg
    by_committing d' cfg h =
        let (tx, started, h1) = >>=-eq-ok (start_transaction db d) load_and_save h in
        let (loaded, load_eq, h2) =
          >>=-eq-ok (leaving (db.rollback d tx) (load_db_config_internal db env tx))
            (λ c. leaving (db.rollback d tx) (stage c) >>= saved_with d tx) h1 in
        let (staged, stage_eq, h3) =
          >>=-eq-ok (leaving (db.rollback d tx) (stage loaded)) (saved_with d tx) h2 in
        let (d'', saved, same) =
          >>=-eq-ok (write_and_commit db d tx staged.1) (λ x. ok (staged.0, x)) h3 in
        let both = ok-injective same in
        record {
          tx = tx;
          begun = start_transaction-begin d tx started;
          loaded = loaded;
          load_eq = leaving-eq-ok (db.rollback d tx) (load_db_config_internal db env tx) load_eq;
          rows = staged.1;
          staged =
              leaving-eq-ok (db.rollback d tx) (stage loaded) stage_eq
              ∙ ap (λ (p : AppConfig × db.Db). ok (p.0, staged.1)) both;
          saved = saved ∙ ap (λ (p : AppConfig × db.Db). ok p.1) both;
        }

  pub update_values_transaction-Steps :
      (env : Environment) (d d' : db.Db) (keys_and_values : List String) (cfg : AppConfig)
      → update_values_transaction db env d keys_and_values ≡ ok (cfg, d')
      → Steps env d d' (λ c. stage_values db env keys_and_values c []) cfg
  unfolding update_values_transaction
  update_values_transaction-Steps env d d' kvs cfg h =
      by_committing env d (λ c. stage_values db env kvs c []) d' cfg h

  pub update_transaction-Steps :
      (env : Environment) (d d' : db.Db) (input : AppConfigUpdateDto) (cfg : AppConfig)
      → update_transaction db env d input ≡ ok (cfg, d')
      → Steps env d d' (λ c. stage_inputs db dto_fields input c []) cfg
  unfolding update_transaction
  update_transaction-Steps env d d' input cfg h =
      by_committing env d (λ c. stage_inputs db dto_fields input c []) d' cfg h

  module _ (laws : ConfigDbLaws db) where
    open laws use {row, row-upsert, row-commit}

    pub row-write_and_commit :
        (d0 tx d : db.Db) (rows : List AppConfigVariable) (k : String)
        → write_and_commit db d0 tx rows ≡ ok d
        → row d k ≡ row_after rows k (row tx k)
    unfolding write_and_commit
    row-write_and_commit d0 tx d rows k h =
        let (tx', written, committed) =
          >>=-eq-ok (leaving (db.rollback d0 tx) (wrap update_failed (db.upsert tx rows)))
            (λ t. leaving (db.failed_commit d0 t) (wrap commit_failed (db.commit t))) h in
        ap (λ (r : String → Option String). r k)
          (row-commit tx' d (
            wrap-eq-ok commit_failed (db.commit tx') (
              leaving-eq-ok (db.failed_commit d0 tx') (wrap commit_failed (db.commit tx'))
                committed)))
        ∙ row-upsert tx tx' rows k (
            wrap-eq-ok update_failed (db.upsert tx rows)
              (leaving-eq-ok (db.rollback d0 tx) (wrap update_failed (db.upsert tx rows)) written))
