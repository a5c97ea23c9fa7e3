-- ===== src/ConfigService/State.antt =====
-- The state of the configuration service, its surroundings and its errors.
use vocy.Prelude.{
  ℕ, String, Bool, true, false, Option, none, some, List, Result, ok, err, ◌≡◌, arith,
}
use vocy.Config.Values.{AppConfig}
use vocy.Config.Access.{ConfigError, key_not_found, internal_forbidden}

-- What the process reads from outside: one setting of `common.EnvConfig`, the variables of the
-- environment and the files (`none` if a file cannot be read).
pub record Environment : Type 0 where
  pub ui_config_disabled : Bool
  pub lookup_env : List ℕ → Option String
  pub read_file : String → Option String

pub data ServiceError (E : Type 0) : Type 0 where
  -- `common.UiConfigDisabledError`
  config_disabled : ServiceError E
  odd_arguments index_out_of_range : ServiceError E
  begin_failed lock_failed load_failed update_failed commit_failed : E → ServiceError E
  process_failed invalid_key field_failed : String → ServiceError E
  secret_unreadable : List ℕ → ServiceError E
  id_generation_failed : ServiceError E

-- The error of a transaction, with the database that it leaves.
abbrev pub Failed : Type 0 → Type 0 → Type 0
Failed Db E = Db × ServiceError E

abbrev pub leaving : {Db E A : Type 0} → Db → Result (ServiceError E) A → Result (Failed Db E) A
leaving d (ok a) = ok a
leaving d (err e) = err (d, e)

pub leaving-eq-ok :
    {Db E A : Type 0} (d : Db) (r : Result (ServiceError E) A) {a : A}
    → leaving d r ≡ ok a
    → r ≡ ok a
leaving-eq-ok d (ok b) h = ground arith
leaving-eq-ok d (err e) h = ground arith

pub leaving-eq-err :
    {Db E A : Type 0} (d d' : Db) (r : Result (ServiceError E) A) {e : ServiceError E}
    → leaving d r ≡ err (d', e)
    → d' ≡ d
leaving-eq-err d d' (ok b) h = ground arith
leaving-eq-err d d' (err e) h = ground arith

-- `os.Getenv`.
abbrev pub getenv : Option String → String
getenv none = ""
getenv (some v) = v

-- `errors.Is(err, AppConfigKeyNotFoundError{})`, false for a nil error.
abbrev pub is_key_not_found : Option ConfigError → Bool
is_key_not_found (some (key_not_found k)) = true
is_key_not_found _ = false

-- `errors.Is(err, AppConfigInternalForbiddenError{})`.
abbrev pub is_internal_forbidden : Option ConfigError → Bool
is_internal_forbidden (some (internal_forbidden k)) = true
is_internal_forbidden _ = false

abbrev pub is_some {ℓ} : {A : Type ℓ} → Option A → Bool
is_some none = false
is_some (some a) = true

-- `AppConfigService`: the configuration that is loaded, if any, and the database.
pub record Service (Db : Type 0) : Type 0 where
  pub db_config : Option AppConfig
  pub database : Db
