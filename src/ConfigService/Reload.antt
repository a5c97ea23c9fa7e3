-- ===== src/ConfigService/Reload.antt =====
-- The configuration in memory after `UpdateAppConfigValues`, and the one that a later load makes
-- from the database (backend/internal/service/app_config_service.go).
use mathlib.Core.Path.{subst}
use vocy.Prelude.{
  Bool-cases, inl, inr, String, ◌≡◌, ◌≢◌, refl, sym, ◌∙◌, ap, false, Option, none, some, List, [],
  ok, str_eq, eq_iff,
}
use vocy.Config.Field.{Field, key_of}
use vocy.Config.Values.{AppConfig, AppConfigVariable, default_config}
use vocy.ConfigService.Database.{ConfigDb, ConfigDbLaws, row_after}
use vocy.ConfigService.State.{Environment, Service}
use vocy.ConfigService.Loading.{load_db_config_internal}
use vocy.ConfigService.Staging.{stage_values}
use vocy.ConfigService.Methods.{update_app_config_values}
use vocy.ConfigService.Rows.{written, or_old, written-written, row_after-or_old, load-row}
use vocy.ConfigService.Staged.{pairs, in_memory, stage_values-written}
use vocy.ConfigService.Transactions.{
  Steps, update_values_committed, update_values_transaction-Steps, row-write_and_commit,
}

-- The value that a list of keys and values gives last to the key of a field.
abbrev pub last_value : List String → Field → Option String
last_value keys_and_values f = row_after (pairs keys_and_values) (key_of f) none

nonempty_in_memory :
    (f : Field) (o p : Option String)
    → o ≢ some ""
    → written (default_config f) (or_old (in_memory f o) p)
      ≡ written (default_config f) (or_old o p)
nonempty_in_memory f none p h = refl
nonempty_in_memory f (some v) p h = elim (Bool-cases (str_eq v "")) [
  | inl e ↦ absurd (h (ap some ((eq_iff v "").0 e)))
  | inr e ↦ rw e
]

module _ (db : ConfigDb) (laws : ConfigDbLaws db) (env : Environment) where
  open laws use {row, row-begin}

  -- Memory and a later load, from the same start: the loaded value, then the last value given.
  memory_and_reload :
      (d d' : db.Db) (kvs : List String) (memory c : AppConfig) (f : Field)
      → env.ui_config_disabled ≡ false
      → Steps db env d d' (λ l. stage_values db env kvs l []) memory
      → load_db_config_internal db env d' ≡ ok c
      → (memory f
          ≡ written (default_config f) (or_old (in_memory f (last_value kvs f)) (row d (key_of f))))
        × (c f ≡ written (default_config f) (or_old (last_value kvs f) (row d (key_of f))))
  memory_and_reload d d' kvs memory c f ui st h =
      let (rows_eq, values) =
        stage_values-written db env kvs st.loaded memory [] st.rows st.staged in
      let old = ap (λ (r : String → Option String). r (key_of f)) (row-begin d st.tx st.begun) in
      (
        rw (values f, load-row db laws env st.tx st.loaded f ui st.load_eq, written-written, old),
        rw (
          load-row db laws env d' c f ui h,
          row-write_and_commit db laws d st.tx d' st.rows (key_of f) st.saved,
          rows_eq,
          row_after-or_old,
          old,
        ),
      )

  memory_and_load :
      (s s' : Service db.Db) (kvs : List String) (memory c : AppConfig) (f : Field)
      → env.ui_config_disabled ≡ false
      → update_app_config_values db env s kvs ≡ (s', none)
      → s'.db_config ≡ some memory
      → load_db_config_internal db env s'.database ≡ ok c
      → (memory f
          ≡ written
              (default_config f)
              (or_old (in_memory f (last_value kvs f)) (row s.database (key_of f))))
        × (c f ≡ written (default_config f) (or_old (last_value kvs f) (row s.database (key_of f))))
  memory_and_load s s' kvs memory c f ui done kept h =
      let (cfg, d, committed, after) = update_values_committed db env s s' kvs done in
      let same : cfg ≡ memory = cc (ap (λ (x : Service db.Db). x.db_config) after, kept) in
      let st = update_values_transaction-Steps db env s.database d kvs cfg committed in
      let there =
        subst (λ x. load_db_config_internal db env x ≡ ok c)
          (ap (λ (x : Service db.Db). x.database) after) h in
      let (in_mem, loaded) = memory_and_reload s.database d kvs cfg c f ui st there in
      (ap (λ (g : AppConfig). g f) (sym same) ∙ in_mem, loaded)

  -- Where no empty value was saved, a load after an update agrees with memory: for every field
  -- whose last new value is not the empty text, given or not, the configuration that the update
  -- stored and the one loaded from the database afterwards hold the same variable.
  pub reload-update_app_config_values :
      (s s' : Service db.Db) (keys_and_values : List String) (memory c : AppConfig) (f : Field)
      → env.ui_config_disabled ≡ false
      → update_app_config_values db env s keys_and_values ≡ (s', none)
      → s'.db_config ≡ some memory
      → load_db_config_internal db env s'.database ≡ ok c
      → last_value keys_and_values f ≢ some ""
      → c f ≡ memory f
  reload-update_app_config_values s s' kvs memory c f ui done kept h full =
      let (in_mem, loaded) = memory_and_load s s' kvs memory c f ui done kept h in
      loaded
      ∙ sym (in_mem ∙ nonempty_in_memory f (last_value kvs f) (row s.database (key_of f)) full)

  -- Where the empty text is saved, they part: memory has the default value, and a later load has the
  -- empty text.
  pub reload_loses_default :
      (s s' : Service db.Db) (keys_and_values : List String) (memory c : AppConfig) (f : Field)
      → env.ui_config_disabled ≡ false
      → update_app_config_values db env s keys_and_values ≡ (s', none)
      → s'.db_config ≡ some memory
      → load_db_config_internal db env s'.database ≡ ok c
      → last_value keys_and_values f ≡ some ""
      → ((memory f).value ≡ (default_config f).value) × ((c f).value ≡ "")
  reload_loses_default s s' kvs memory c f ui done kept h empty =
      let (in_mem, loaded) = memory_and_load s s' kvs memory c f ui done kept h in
      (
        ap (λ (x : AppConfigVariable). x.value) (rw empty at in_mem),
        ap (λ (x : AppConfigVariable). x.value) (rw empty at loaded),
      )
