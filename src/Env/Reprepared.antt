-- ===== src/Env/Reprepared.antt =====
-- `prepareEnvConfig` twice (backend/internal/common/env_config.go).
use vocy.Prelude.{ℕ, ◌≡◌, refl, ◌∙◌, Bool, ◌&&◌, none, [], ◌∷◌, ◌==◌, arith, Bool-cases, inl, inr}
use vocy.Utils.CaseStyle.{to_lower, is_upper}
use vocy.Utils.CaseStyle.Laws.{map-to_lower_idem}
use vocy.Env.Schema.{Text, EnvConfigSchema, is_empty, trim_right}
use vocy.Env.Prepare.{
  Surroundings, OptionField, app_env, encryption_key, app_url, db_connection_string, static_api_key,
  file_backend, host, log_level, get, lower, trim_trailing_slash, prepare_field, prepare_env_config,
  resolve_file_based_env_variable, apply_options, apply_option, tag_of, kind_of,
}
use vocy.Env.Prepared.{get-prepare_env_config, same_errors}

trim_right_idem :
    (drops : ℕ → Bool) (s : Text) → trim_right drops (trim_right drops s) ≡ trim_right drops s
unfolding trim_right
trim_right_idem drops [] = refl
trim_right_idem drops (c ∷ s) = elim (Bool-cases (drops c && is_empty (trim_right drops s))) [
  | inl e ↦ rw (e, trim_right)
  | inr e ↦ rw (e, trim_right, trim_right_idem drops s, e)
]

is_empty-lower : (s : Text) → is_empty (lower s) ≡ is_empty s
is_empty-lower [] = refl
is_empty-lower (c ∷ s) = refl

lower_slash : (c : ℕ) → (to_lower c == b'/') ≡ (c == b'/')
unfolding to_lower is_upper
lower_slash c = ground arith

lower-trim_trailing_slash :
    (s : Text) → trim_trailing_slash (lower s) ≡ lower (trim_trailing_slash s)
unfolding trim_right
lower-trim_trailing_slash [] = refl
lower-trim_trailing_slash (c ∷ s) =
    rw (lower-trim_trailing_slash s, is_empty-lower, lower_slash) (ground arith)

module _ (os : Surroundings) where
  prepare_field_idem :
      (f : OptionField) (v : Text)
      → (prepare_field os f (prepare_field os f v).0).0 ≡ (prepare_field os f v).0
  unfolding prepare_field apply_options apply_option tag_of kind_of resolve_file_based_env_variable
      vocy.Env.Schema.split_at vocy.Env.Schema.same
  prepare_field_idem app_env v = map-to_lower_idem v
  prepare_field_idem encryption_key v = ground arith
  prepare_field_idem app_url v =
      rw (← lower-trim_trailing_slash, map-to_lower_idem, trim_right_idem)
  prepare_field_idem db_connection_string v = ground arith
  prepare_field_idem static_api_key v = ground arith
  prepare_field_idem file_backend v = map-to_lower_idem v
  prepare_field_idem host v = map-to_lower_idem v
  prepare_field_idem log_level v = map-to_lower_idem v

  -- In unchanged surroundings, to prepare a configuration again that was prepared without an error
  -- succeeds and changes no field that has options.
  pub prepare_env_config_idem :
      (c : EnvConfigSchema) (f : OptionField)
      → (prepare_env_config os c).1 ≡ none
      → let again = prepare_env_config os (prepare_env_config os c).0 in
        (again.1 ≡ none) × (get again.0 f ≡ get (prepare_env_config os c).0 f)
  prepare_env_config_idem c f h =
      let d = (prepare_env_config os c).0 in
      let ok_again = same_errors os c d h in
      (
        ok_again,
        get-prepare_env_config os d f ok_again
            ∙ rw (get-prepare_env_config os c f h) (prepare_field_idem f (get c f)),
      )
