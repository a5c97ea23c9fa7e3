-- ===== src/ConfigService/Failures.antt =====
-- What a failed update of the configuration leaves
-- (backend/internal/service/app_config_service.go).
use mathlib.Core.Path.{subst}
use vocy.Prelude.{
  String, ◌≡◌, ◌⊎◌, refl, sym, ◌∙◌, ap, Option, none, some, List, [], ◌%◌, Result, ok, err, ◌>>=◌,
  wrap, check, wrap-eq-ok, >>=-eq-err, Result-cases, ok-injective, ◌==◌, length, arith, inl, inr,
  Bool-cases,
}
use vocy.Gorm.{Dialect, sqlite, postgres, other}
use vocy.Config.Values.{AppConfig, AppConfigVariable}
use vocy.ConfigService.Database.{ConfigDb, ConfigDbLaws, row_after}
use vocy.ConfigService.State.{
  Environment, ServiceError, Failed, leaving, leaving-eq-err, leaving-eq-ok, Service, odd_arguments,
  config_disabled, begin_failed, lock_failed, update_failed, commit_failed,
}
use vocy.ConfigService.Dto.{AppConfigUpdateDto, dto_fields}
use vocy.ConfigService.Loading.{load_db_config_internal}
use vocy.ConfigService.Staging.{
  lock_by, start_transaction, write_and_commit, stage_values, stage_inputs,
}
use vocy.ConfigService.Methods.{
  store_staged, update_values_transaction, update_transaction, update_app_config_values,
  update_app_config,
}
use vocy.ConfigService.Staged.{pairs, stage_values-written}
use vocy.ConfigService.Inputs.{input_rows, stage_inputs-written}
use vocy.ConfigService.Transactions.{start_transaction-begin, saved_with, load_and_save}

module _ (db : ConfigDb) (laws : ConfigDbLaws db) where
  open laws use {row, row-begin, row-upsert, row-rollback, row-failed_commit}

  -- What is left of a database by a failed update to some rows: all that it held, or, if the commit
  -- returned the error, all of it with the rows written.
  pub record Left (rows : List AppConfigVariable) (before after : db.Db)
      (e : ServiceError db.DbError) : Type 0 where
    pub content :
        (row after ≡ row before)
        ⊎ (((x : db.DbError) × (e ≡ commit_failed x))
            × ((k : String) → row after k ≡ row_after rows k (row before k)))

  unchanged :
      (rows : List AppConfigVariable) (d d' : db.Db) (e : ServiceError db.DbError)
      → row d' ≡ row d
      → Left rows d d' e
  unchanged rows d d' e h = record { content = inl h }

  rolled_back :
      {A : Type 0} (rows : List AppConfigVariable) (d tx d' : db.Db)
      (r : Result (ServiceError db.DbError) A) (e : ServiceError db.DbError)
      → leaving (db.rollback d tx) r ≡ err (d', e)
      → Left rows d d' e
  rolled_back rows d tx d' r e h =
      unchanged rows d d' e (ap row (leaving-eq-err (db.rollback d tx) d' r h) ∙ row-rollback d tx)

  locked-Left :
      (rows : List AppConfigVariable) (d tx d' : db.Db) (e : ServiceError db.DbError)
      (dialect : Dialect)
      → lock_by db d tx dialect ≡ err (d', e)
      → Left rows d d' e
  locked-Left rows d tx d' e sqlite h = absurd (ground arith)
  locked-Left rows d tx d' e (other name) h = absurd (ground arith)
  locked-Left rows d tx d' e postgres h =
      elim (>>=-eq-err (leaving (db.rollback d tx) (check lock_failed (db.lock_table tx)))
        (λ done. ok tx) h) [
          | inl refused ↦ rolled_back rows d tx d' (check lock_failed (db.lock_table tx)) e refused
          | inr (u, locked, behind) ↦ absurd (ground arith)
        ]

  start_transaction-Left :
      (rows : List AppConfigVariable) (d d' : db.Db) (e : ServiceError db.DbError)
      → start_transaction db d ≡ err (d', e)
      → Left rows d d' e
  unfolding start_transaction
  start_transaction-Left rows d d' e h =
      elim (>>=-eq-err (leaving d (wrap begin_failed (db.begin d))) _ h) [
        | inl at_begin ↦
            unchanged rows d d' e
              (ap row (leaving-eq-err d d' (wrap begin_failed (db.begin d)) at_begin))
        | inr (tx, begun, behind) ↦ locked-Left rows d tx d' e (db.name d) behind
      ]

  committing-Left :
      (rows : List AppConfigVariable) (d tx tx' d' : db.Db) (e : ServiceError db.DbError)
      → db.begin d ≡ ok tx
      → db.upsert tx rows ≡ ok tx'
      → leaving (db.failed_commit d tx') (wrap commit_failed (db.commit tx')) ≡ err (d', e)
      → Left rows d d' e
  committing-Left rows d tx tx' d' e begun written h = elim (Result-cases (db.commit tx')) [
    | inl (c, fine) ↦ absurd (ground (arith, rw fine at h))
    | inr (x, failed) ↦
        let left : d' ≡ db.failed_commit d tx' =
          leaving-eq-err (db.failed_commit d tx') d' (wrap commit_failed (db.commit tx')) h in
        let reason : e ≡ commit_failed x = ground (arith, rw failed at h) in
        elim (row-failed_commit d tx') [
          | inl before ↦ unchanged rows d d' e (ap row left ∙ before)
          | inr after ↦ record {
            content = inr (
              (x, reason),
              λ k.
                  ap (λ (r : String → Option String). r k) (ap row left ∙ after)
                  ∙ row-upsert tx tx' rows k written
                  ∙ ap (λ (r : String → Option String). row_after rows k (r k))
                      (row-begin d tx begun),
            );
          }
        ]
  ]

  write_and_commit-Left :
      (rows : List AppConfigVariable) (d tx d' : db.Db) (e : ServiceError db.DbError)
      → db.begin d ≡ ok tx
      → write_and_commit db d tx rows ≡ err (d', e)
      → Left rows d d' e
  unfolding write_and_commit
  write_and_commit-Left rows d tx d' e begun h =
      elim (>>=-eq-err (leaving (db.rollback d tx) (wrap update_failed (db.upsert tx rows)))
        (λ t. leaving (db.failed_commit d t) (wrap commit_failed (db.commit t))) h) [
          | inl refused ↦
              rolled_back rows d tx d' (wrap update_failed (db.upsert tx rows)) e refused
          | inr (tx', written, behind) ↦
              committing-Left rows d tx tx' d' e begun
                (wrap-eq-ok update_failed (db.upsert tx rows) (
                  leaving-eq-ok (db.rollback d tx) (wrap update_failed (db.upsert tx rows))
                    written))
                behind
        ]

  module _ (env : Environment) (d : db.Db) (rows : List AppConfigVariable)
      (stage : AppConfig → Result (ServiceError db.DbError) (AppConfig × List AppConfigVariable))
      (stages : (c c' : AppConfig) (rows' : List AppConfigVariable)
        → stage c ≡ ok (c', rows')
        → rows' ≡ rows) where
    -- A transaction that fails at any of its steps.
    failing :
        (d' : db.Db) (e : ServiceError db.DbError)
        → (start_transaction db d >>= load_and_save db env d stage) ≡ err (d', e)
        → Left rows d d' e
    failing d' e h = elim (>>=-eq-err (start_transaction db d) (load_and_save db env d stage) h) [
      | inl at_start ↦ start_transaction-Left rows d d' e at_start
      | inr (tx, started, h1) ↦
          elim (>>=-eq-err (leaving (db.rollback d tx) (load_db_config_internal db env tx))
            (λ c. leaving (db.rollback d tx) (stage c) >>= saved_with db d tx) h1) [
              | inl unloaded ↦
                  rolled_back rows d tx d' (load_db_config_internal db env tx) e unloaded
              | inr (c, loaded, h2) ↦
                  elim (>>=-eq-err (leaving (db.rollback d tx) (stage c)) (saved_with db d tx) h2) [
                    | inl unstaged ↦ rolled_back rows d tx d' (stage c) e unstaged
                    | inr (staged, stage_eq, h3) ↦
                        elim (>>=-eq-err (write_and_commit db d tx staged.1) (λ x. ok (staged.0, x))
                          h3) [
                            | inr (x, saved, done) ↦ absurd (ground arith)
                            | inl unsaved ↦
                                let same_rows =
                                  stages c staged.0 staged.1
                                    (leaving-eq-ok (db.rollback d tx) (stage c) stage_eq) in
                                subst (λ r. Left r d d' e) same_rows
                                  (write_and_commit-Left staged.1 d tx d' e
                                    (start_transaction-begin db d tx started) unsaved)
                          ]
                  ]
            ]
    ]

  -- An update to some rows ends without an error, or it leaves the configuration in memory as it was
  -- and the database as `Left` says.
  abbrev pub IsAtomic :
      List AppConfigVariable
      → Service db.Db
      → Service db.Db × Option (ServiceError db.DbError)
      → Type 0
  IsAtomic rows s (s', none) = Unit
  IsAtomic rows s (s', some e) = (s'.db_config ≡ s.db_config) × Left rows s.database s'.database e

  store_staged-IsAtomic :
      (rows : List AppConfigVariable) (s : Service db.Db)
      (r : Result (Failed db.Db db.DbError) (AppConfig × db.Db))
      → ((d' : db.Db) (e : ServiceError db.DbError) → r ≡ err (d', e) → Left rows s.database d' e)
      → IsAtomic rows s (store_staged db s r)
  unfolding store_staged
  store_staged-IsAtomic rows s (ok (c, d)) h = tt
  store_staged-IsAtomic rows s (err (d, e)) h = (refl, h d e refl)

  refused-IsAtomic :
      (rows : List AppConfigVariable) (s : Service db.Db) (e : ServiceError db.DbError)
      → IsAtomic rows s (s, some e)
  refused-IsAtomic rows s e = (refl, unchanged rows s.database s.database e refl)

  values_transaction-Left :
      (env : Environment) (d d' : db.Db) (kvs : List String) (e : ServiceError db.DbError)
      → update_values_transaction db env d kvs ≡ err (d', e)
      → Left (pairs kvs) d d' e
  unfolding update_values_transaction
  values_transaction-Left env d d' kvs e h =
      failing env d (pairs kvs) (λ c. stage_values db env kvs c [])
        (λ c c' rows staged. (stage_values-written db env kvs c c' [] rows staged).0) d' e h

  transaction-Left :
      (env : Environment) (d d' : db.Db) (input : AppConfigUpdateDto) (e : ServiceError db.DbError)
      → update_transaction db env d input ≡ err (d', e)
      → Left (input_rows input dto_fields) d d' e
  unfolding update_transaction
  transaction-Left env d d' input e h =
      failing env d (input_rows input dto_fields) (λ c. stage_inputs db dto_fields input c [])
        (λ c c' rows staged.
          let (c'', written, values) = stage_inputs-written db dto_fields input c [] in
          ap (λ (p : AppConfig × List AppConfigVariable). p.1)
            (ok-injective (sym staged ∙ written)))
        d' e h

  -- Both updates are atomic, wherever they fail: one that returns an error leaves the configuration in
  -- memory as it was, and the rows of the database too, unless the error is that of the commit. A
  -- commit that returns an error may have taken effect: then the database has every row of the update,
  -- and the rest as it was.
  pub failed_update_keeps :
      (env : Environment) (s : Service db.Db) (keys_and_values : List String)
      (input : AppConfigUpdateDto)
      → IsAtomic (pairs keys_and_values) s (update_app_config_values db env s keys_and_values)
        × IsAtomic
            (input_rows input dto_fields)
            s
            ((update_app_config db env s input).0, (update_app_config db env s input).2)
  unfolding update_app_config_values update_app_config
  failed_update_keeps env s kvs input = (
    elim (Bool-cases (length kvs % 2 == 0)) [
      | inl even ↦ rw even (
          store_staged-IsAtomic (pairs kvs) s (update_values_transaction db env s.database kvs)
            (λ d' e h. values_transaction-Left env s.database d' kvs e h))
      | inr odd ↦ rw odd (refused-IsAtomic (pairs kvs) s odd_arguments)
    ],
    elim (Bool-cases env.ui_config_disabled) [
      | inl off ↦ rw off (refused-IsAtomic (input_rows input dto_fields) s config_disabled)
      | inr on ↦ simp on (
          store_staged-IsAtomic (input_rows input dto_fields) s
            (update_transaction db env s.database input)
            (λ d' e h. transaction-Left env s.database d' input e h))
    ],
  )
