-- ===== src/Env/Valid.antt =====
-- When `ValidateEnvConfig` accepts a configuration, and what it makes of it
-- (backend/internal/common/env_config.go).
use vocy.Prelude.{
  ◌≡◌, refl, sym, ap, ◌∙◌, Bool, true, false, not, ◌&&◌, ◌||◌, Option, none, some, length, ltb,
  arith, if◌then◌else◌,
}
use vocy.Env.Schema.{EnvConfigSchema, is_empty, split_at}
use vocy.Env.Validate.{
  Checked, ◌then_check◌, refuse_if, EnvError, Parsers, choose_db_provider, range_error, is_positive,
  is_remote, is_local, check_url, check_app_url, check_internal_app_url, check_file_backend,
  check_log_level, check_encryption_key, check_ranges, check_retention, check_static_api_key,
  run_checks, invalid_internal_app_url, internal_app_url_has_path, invalid_app_url,
  app_url_has_path,
}

-- What a configuration must meet.
pub record Passes (parsers : Parsers) (c : EnvConfigSchema) : Type 0 where
  pub level : parsers.is_level c.log_level ≡ true
  pub key : ltb (length c.encryption_key) 16 ≡ false
  pub app : check_url parsers c.app_url invalid_app_url app_url_has_path ≡ none
  pub internal :
      (if is_empty c.internal_app_url
        then none
        else check_url parsers c.internal_app_url invalid_internal_app_url
            internal_app_url_has_path)
      ≡ none
  pub backend : is_remote c.file_backend || is_local c.file_backend ≡ true
  pub ranges : range_error parsers (split_at b',' c.local_ipv6_ranges) ≡ none
  pub retention : is_positive c.audit_log_retention_days ≡ true
  pub static_key : not (is_empty c.static_api_key) && ltb (length c.static_api_key) 16 ≡ false

-- The configuration that the checks leave: the provider follows the connection string, and what is
-- empty has its default.
abbrev pub resolved : Parsers → EnvConfigSchema → EnvConfigSchema
resolved parsers c =
    (check_file_backend (check_internal_app_url parsers (choose_db_provider c)).0).0

pass_on :
    {m : Checked} (next : EnvConfigSchema → Checked) {c d : EnvConfigSchema}
    → m ≡ (c, none)
    → next c ≡ (d, none)
    → m then_check next ≡ (d, none)
pass_on next h k = ap (λ m. m then_check next) h ∙ k

next_passes :
    {m : Checked} (next : EnvConfigSchema → Checked) {c : EnvConfigSchema}
    → m ≡ (c, none)
    → (m then_check next).1 ≡ none
    → (next c).1 ≡ none
next_passes next h k = sym (ap (λ m. (m then_check next).1) h) ∙ k

first_passes :
    (m : Checked) (next : EnvConfigSchema → Checked) → (m then_check next).1 ≡ none → m.1 ≡ none
first_passes (c, none) next h = refl
first_passes (c, some e) next h = ground arith

not-false : (b : Bool) → not b ≡ false → b ≡ true
not-false true h = refl
not-false false h = ground arith

refused : (b : Bool) (e : EnvError) (c : EnvConfigSchema) → (refuse_if b e c).1 ≡ none → b ≡ false
refused true e c h = ground arith
refused false e c h = refl

accepted_backend :
    (b : Bool) (e : EnvError)
    → ◌≡◌ {A = Option EnvError} (if b then none else some e) none
    → b ≡ true
accepted_backend true e h = refl
accepted_backend false e h = ground arith

module _ (parsers : Parsers) (c : EnvConfigSchema) where
  abbrev chosen : EnvConfigSchema
  chosen = choose_db_provider c

  abbrev derived : EnvConfigSchema
  derived = (check_internal_app_url parsers chosen).0

  level_passes : parsers.is_level c.log_level ≡ true → check_log_level parsers c ≡ (c, none)
  unfolding check_log_level
  level_passes h = rw h

  key_passes : ltb (length c.encryption_key) 16 ≡ false → check_encryption_key c ≡ (c, none)
  unfolding check_encryption_key
  key_passes h = rw h

  app_passes :
      check_url parsers c.app_url invalid_app_url app_url_has_path ≡ none
      → check_app_url parsers chosen ≡ (chosen, none)
  unfolding check_app_url choose_db_provider
  app_passes h = rw h

  internal_passes :
      (check_internal_app_url parsers chosen).1 ≡ none
      → check_internal_app_url parsers chosen ≡ (derived, none)
  internal_passes h = ap (λ e. (derived, e)) h

  backend_passes :
      (check_file_backend derived).1 ≡ none
      → check_file_backend derived ≡ (resolved parsers c, none)
  backend_passes h = ap (λ e. (resolved parsers c, e)) h

  ranges_pass :
      range_error parsers (split_at b',' c.local_ipv6_ranges) ≡ none
      → check_ranges parsers (resolved parsers c) ≡ (resolved parsers c, none)
  unfolding check_ranges choose_db_provider check_internal_app_url check_file_backend
  ranges_pass h = rw h

  retention_passes :
      is_positive c.audit_log_retention_days ≡ true
      → check_retention (resolved parsers c) ≡ (resolved parsers c, none)
  unfolding check_retention choose_db_provider check_internal_app_url check_file_backend
  retention_passes h = rw h

  static_key_passes :
      not (is_empty c.static_api_key) && ltb (length c.static_api_key) 16 ≡ false
      → check_static_api_key (resolved parsers c) ≡ (resolved parsers c, none)
  unfolding check_static_api_key choose_db_provider check_internal_app_url check_file_backend
  static_key_passes h = rw h

  pub run_checks-Passes : Passes parsers c → run_checks parsers c ≡ (resolved parsers c, none)
  unfolding run_checks check_internal_app_url check_file_backend choose_db_provider
  run_checks-Passes p =
      pass_on check_static_api_key
        (pass_on check_retention
          (pass_on (check_ranges parsers)
            (pass_on check_file_backend
              (pass_on (check_internal_app_url parsers)
                (pass_on (check_app_url parsers)
                  (pass_on (λ c. (choose_db_provider c, none))
                    (pass_on check_encryption_key (level_passes p.level) (key_passes p.key)) refl)
                  (app_passes p.app))
                (internal_passes p.internal))
              (backend_passes (rw p.backend refl)))
            (ranges_pass p.ranges))
          (retention_passes p.retention))
        (static_key_passes p.static_key)

  pub Passes-run_checks : (run_checks parsers c).1 ≡ none → Passes parsers c
  unfolding run_checks check_log_level check_encryption_key choose_db_provider check_app_url
      check_internal_app_url check_file_backend check_ranges check_retention check_static_api_key
  Passes-run_checks h =
      let n8 = first_passes _ check_static_api_key h in
      let n7 = first_passes _ check_retention n8 in
      let n6 = first_passes _ (check_ranges parsers) n7 in
      let n5 = first_passes _ check_file_backend n6 in
      let n4 = first_passes _ (check_internal_app_url parsers) n5 in
      let n3 = first_passes _ (check_app_url parsers) n4 in
      let n2 = first_passes _ (λ c. (choose_db_provider c, none)) n3 in
      let n1 = first_passes _ check_encryption_key n2 in
      let level = not-false (parsers.is_level c.log_level) (refused _ _ c n1) in
      let e1 = level_passes level in
      let key = refused _ _ c (next_passes check_encryption_key e1 n2) in
      let e3 =
        pass_on (λ c. (choose_db_provider c, none))
          (pass_on check_encryption_key e1 (key_passes key)) refl in
      let app = next_passes (check_app_url parsers) e3 n4 in
      let e4 = pass_on (check_app_url parsers) e3 (app_passes app) in
      let internal = next_passes (check_internal_app_url parsers) e4 n5 in
      let e5 = pass_on (check_internal_app_url parsers) e4 (internal_passes internal) in
      let backend = next_passes check_file_backend e5 n6 in
      let e6 = pass_on check_file_backend e5 (backend_passes backend) in
      let ranges = next_passes (check_ranges parsers) e6 n7 in
      let e7 = pass_on (check_ranges parsers) e6 (ranges_pass ranges) in
      let retention =
        not-false _ (refused _ _ (resolved parsers c) (next_passes check_retention e7 n8)) in
      let e8 = pass_on check_retention e7 (retention_passes retention) in
      record {
        level = level;
        key = key;
        app = app;
        internal = internal;
        backend = accepted_backend _ _ backend;
        ranges = ranges;
        retention = retention;
        static_key = refused _ _ (resolved parsers c) (next_passes check_static_api_key e8 h);
      }
