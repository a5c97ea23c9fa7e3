-- ===== src/Env/Accepted.antt =====
-- What `ValidateEnvConfig` promises (backend/internal/common/env_config.go).
use mathlib.Core.Path.{subst}
use vocy.Prelude.{
  ◌≡◌, ◌≢◌, ◌≤◌, ◌↔◌, ◌⊎◌, refl, sym, ap, ◌∙◌, Bool, true, false, not, ◌&&◌, ◌||◌, none, List, [],
  ◌∷◌, length, Bool-cases, inl, inr, arith, if◌then◌else◌,
}
use vocy.Env.Schema.{
  Text, EnvConfigSchema, db_provider_sqlite, db_provider_postgres, default_sqlite_conn_string,
  default_fs_upload_path, is_empty, has_prefix,
}
use vocy.Env.Validate.{
  EnvError, invalid_app_url, app_url_has_path, invalid_internal_app_url, internal_app_url_has_path,
  Parsers, is_postgres, choose_db_provider, is_remote, is_local, check_url, check_internal_app_url,
  check_file_backend, should_skip_env_validation, validate_env_config,
}
use vocy.Env.Conditions.{IsValid, Passes-IsValid}
use vocy.Env.Valid.{Passes, resolved, run_checks-Passes, Passes-run_checks}

abbrev or_default : Text → Text → Text
or_default s d = if is_empty s then d else s

abbrev provider_of : Text → Text
provider_of s =
    if is_empty s
    then db_provider_sqlite
    else if is_postgres s
    then db_provider_postgres
    else db_provider_sqlite

provider_of_default :
    (s : Text) → provider_of (or_default s default_sqlite_conn_string) ≡ provider_of s
unfolding is_postgres has_prefix
provider_of_default [] = refl
provider_of_default (c ∷ s) = refl

or_default_idem : (s d : Text) → or_default (or_default s d) d ≡ or_default s d
or_default_idem [] [] = refl
or_default_idem [] (c ∷ d) = refl
or_default_idem (c ∷ s) d = refl

abbrev upload_of : Bool → Bool → Text → Text
upload_of remote local path =
    if not remote && local && is_empty path then default_fs_upload_path else path

upload_of_idem :
    (remote local : Bool) (path : Text)
    → upload_of remote local (upload_of remote local path) ≡ upload_of remote local path
upload_of_idem true local path = refl
upload_of_idem false true [] = refl
upload_of_idem false true (c ∷ path) = refl
upload_of_idem false false path = refl

any_error :
    (parsers : Parsers) (url : Text) (e1 e2 e3 e4 : EnvError)
    → check_url parsers url e1 e2 ≡ none
    → check_url parsers url e3 e4 ≡ none
unfolding check_url
any_error parsers url e1 e2 e3 e4 h = ground arith

internal_url_again :
    (parsers : Parsers) (url app : Text)
    → (if is_empty url
        then none
        else check_url parsers url invalid_internal_app_url internal_app_url_has_path)
      ≡ none
    → check_url parsers app invalid_app_url app_url_has_path ≡ none
    → (if is_empty (or_default url app)
        then none
        else check_url parsers
            (or_default url app)
            invalid_internal_app_url
            internal_app_url_has_path)
      ≡ none
internal_url_again parsers [] [] h k = refl
internal_url_again parsers [] (c ∷ app) h k = any_error parsers (c ∷ app) _ _ _ _ k
internal_url_again parsers (c ∷ url) app h k = h

-- The settings of a configuration on which the program can rely.
pub record Usable (d : EnvConfigSchema) : Type 0 where
  pub key : 16 ≤ length d.encryption_key
  pub connection : d.db_connection_string ≢ []
  pub provider :
      d.db_provider
      ≡ (if is_postgres d.db_connection_string then db_provider_postgres else db_provider_sqlite)
  pub upload : (is_remote d.file_backend ≡ true) ⊎ (d.upload_path ≢ [])

or_default-ne-empty : (s : Text) → or_default s default_sqlite_conn_string ≢ []
or_default-ne-empty [] e = ground arith
or_default-ne-empty (c ∷ s) e = ground arith

provider_of-or_default :
    (s : Text)
    → provider_of s ≡ (
        if is_postgres (or_default s default_sqlite_conn_string)
        then db_provider_postgres
        else db_provider_sqlite)
unfolding is_postgres has_prefix
provider_of-or_default [] = refl
provider_of-or_default (c ∷ s) = refl

upload_of-usable :
    (remote local : Bool) (path : Text)
    → remote || local ≡ true
    → (remote ≡ true) ⊎ (upload_of remote local path ≢ [])
upload_of-usable true local path h = inl refl
upload_of-usable false true [] h = inr (λ e. ground arith)
upload_of-usable false true (c ∷ path) h = inr (λ e. ground arith)
upload_of-usable false false path h = ground arith

resolved-Usable :
    (parsers : Parsers) (c : EnvConfigSchema) → Passes parsers c → Usable (resolved parsers c)
unfolding choose_db_provider check_internal_app_url check_file_backend
resolved-Usable parsers c p = record {
  key = ground (arith, p.key);
  connection = or_default-ne-empty c.db_connection_string;
  provider = provider_of-or_default c.db_connection_string;
  upload =
      upload_of-usable (is_remote c.file_backend) (is_local c.file_backend) c.upload_path p.backend;
}

module _ (parsers : Parsers) (c : EnvConfigSchema) where
  resolved_idem : resolved parsers (resolved parsers c) ≡ resolved parsers c
  unfolding choose_db_provider check_internal_app_url check_file_backend
  resolved_idem =
      rw
        (
          provider_of_default c.db_connection_string,
          or_default_idem c.db_connection_string default_sqlite_conn_string,
          or_default_idem c.internal_app_url c.app_url,
          upload_of_idem (is_remote c.file_backend) (is_local c.file_backend) c.upload_path,
        )
        refl

  resolved-Passes : Passes parsers c → Passes parsers (resolved parsers c)
  unfolding choose_db_provider check_internal_app_url check_file_backend
  resolved-Passes p = record {
    level = p.level;
    key = p.key;
    app = p.app;
    internal = internal_url_again parsers c.internal_app_url c.app_url p.internal p.app;
    backend = p.backend;
    ranges = p.ranges;
    retention = p.retention;
    static_key = p.static_key;
  }

  module _ (args : List Text) where
    -- Unless an argument asks for help or the version, `ValidateEnvConfig` returns nil exactly for the
    -- configurations whose log level is known, whose encryption key has at least 16 bytes, whose
    -- application URL is parsed and has no path, as has the internal one if there is one, whose file
    -- backend is `s3`, `database`, `filesystem` or empty, whose ranges between the commas are blank or
    -- IPv6, whose retention is positive, and whose API key, if there is one, has at least 16 bytes.
    pub validate_env_config_iff :
        should_skip_env_validation args ≡ false
        → ((validate_env_config parsers args c).1 ≡ none) ↔ IsValid parsers c
    unfolding validate_env_config
    validate_env_config_iff h =
        let (valid, passes) = Passes-IsValid parsers c in
        rw h (
          λ accepted. valid (Passes-run_checks parsers c accepted),
          λ v. ap (λ x. x.1) (run_checks-Passes parsers c (passes v)),
        )

    -- A configuration that `ValidateEnvConfig` has accepted it accepts again, and leaves as it is.
    pub validate_env_config_idem :
        (validate_env_config parsers args c).1 ≡ none
        → validate_env_config parsers args (validate_env_config parsers args c).0
          ≡ ((validate_env_config parsers args c).0, none)
    unfolding validate_env_config
    validate_env_config_idem h = elim (Bool-cases (should_skip_env_validation args)) [
      | inl skips ↦ rw skips refl
      | inr checks ↦
          let p = Passes-run_checks parsers c (rw checks at h) in
          let first = run_checks-Passes parsers c p in
          let again =
            run_checks-Passes parsers (resolved parsers c) (resolved-Passes p)
            ∙ ap (λ d. (d, none)) resolved_idem in
          let done : validate_env_config parsers args c ≡ (resolved parsers c, none) =
            rw checks first in
          subst (λ (d : EnvConfigSchema). validate_env_config parsers args d ≡ (d, none))
            (sym (ap (λ x. x.0) done)) (rw checks again)
    ]

    validated :
        should_skip_env_validation args ≡ false
        → (validate_env_config parsers args c).1 ≡ none
        → (Passes parsers c) × (validate_env_config parsers args c ≡ (resolved parsers c, none))
    unfolding validate_env_config
    validated checks h =
        let p = Passes-run_checks parsers c (rw checks at h) in
        (p, rw checks (run_checks-Passes parsers c p))

    -- Unless the validation is skipped, an accepted configuration has an encryption key of at least
    -- 16 bytes, a connection string, the provider that this string names, and, if files are kept
    -- locally, a path for them.
    pub validate_env_config-Usable :
        should_skip_env_validation args ≡ false
        → (validate_env_config parsers args c).1 ≡ none
        → Usable (validate_env_config parsers args c).0
    validate_env_config-Usable checks h =
        let (p, done) = validated checks h in
        subst Usable (sym (ap (λ x. x.0) done)) (resolved-Usable parsers c p)
