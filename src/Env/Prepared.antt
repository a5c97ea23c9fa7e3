-- ===== src/Env/Prepared.antt =====
-- What `prepareEnvConfig` leaves (backend/internal/common/env_config.go).
use vocy.Prelude.{
  ◌≡◌, ◌↔◌, refl, sym, ap, ◌∙◌, Option, none, some, List, [], ◌∷◌, All, Option-cases, inl, inr,
}
use vocy.Env.Schema.{Text, EnvConfigSchema}
use vocy.Env.Prepare.{
  Surroundings, PrepareError, OptionField, app_env, encryption_key, app_url, db_connection_string,
  static_api_key, file_backend, host, log_level, option_fields, get, set, prepare_field,
  prepare_fields, prepare_env_config,
}
use vocy.Env.Fields.{IsPrepared, prepare_field-IsPrepared, IsPrepared-prepare_field, field_errors}

module _ (os : Surroundings) where
  field_passes :
      (f : OptionField) (fs : List OptionField) (c : EnvConfigSchema)
      → (prepare_field os f (get c f)).1 ≡ none
      → prepare_fields os (f ∷ fs) c
        ≡ prepare_fields os fs (set c f (prepare_field os f (get c f)).0)
  unfolding prepare_fields
  field_passes f fs c h = rw (h, prepare_fields)

  field_fails :
      (f : OptionField) (fs : List OptionField) (c : EnvConfigSchema) (x : PrepareError)
      → (prepare_field os f (get c f)).1 ≡ some x
      → (prepare_fields os (f ∷ fs) c).1 ≡ some x
  unfolding prepare_fields
  field_fails f fs c x h = rw (h, prepare_fields)

  first_field :
      (f : OptionField) (fs : List OptionField) (c : EnvConfigSchema)
      → (prepare_fields os (f ∷ fs) c).1 ≡ none
      → (prepare_field os f (get c f)).1 ≡ none
  first_field f fs c h = elim (Option-cases (prepare_field os f (get c f)).1) [
    | inl e ↦ e
    | inr (x, e) ↦ cc (field_fails f fs c x e, h)
  ]

  -- The fields one after the other, each with what its options make of it.
  abbrev all_set : List OptionField → EnvConfigSchema → EnvConfigSchema
  all_set [] c = c
  all_set (f ∷ fs) c = all_set fs (set c f (prepare_field os f (get c f)).0)

  prepare_fields-all_set :
      (fs : List OptionField) (c : EnvConfigSchema)
      → (prepare_fields os fs c).1 ≡ none
      → prepare_fields os fs c ≡ (all_set fs c, none)
  unfolding prepare_fields
  prepare_fields-all_set [] c h = refl
  prepare_fields-all_set (f ∷ fs) c h =
      let step = field_passes f fs c (first_field f fs c h) in
      step
      ∙ prepare_fields-all_set fs (set c f (prepare_field os f (get c f)).0)
          (sym (ap (λ x. x.1) step) ∙ h)

  get-all_set :
      (f : OptionField) (c : EnvConfigSchema)
      → get (all_set option_fields c) f ≡ (prepare_field os f (get c f)).0
  unfolding option_fields get set
  get-all_set app_env c = refl
  get-all_set encryption_key c = refl
  get-all_set app_url c = refl
  get-all_set db_connection_string c = refl
  get-all_set static_api_key c = refl
  get-all_set file_backend c = refl
  get-all_set host c = refl
  get-all_set log_level c = refl

  pub get-prepare_env_config :
      (c : EnvConfigSchema) (f : OptionField)
      → (prepare_env_config os c).1 ≡ none
      → get (prepare_env_config os c).0 f ≡ (prepare_field os f (get c f)).0
  unfolding prepare_env_config
  get-prepare_env_config c f h =
      ap (λ (x : EnvConfigSchema × Option PrepareError). get x.0 f)
        (prepare_fields-all_set option_fields c h)
      ∙ get-all_set f c

  fields_errors :
      (fs : List OptionField) (c d : EnvConfigSchema)
      → (prepare_fields os fs c).1 ≡ none
      → (prepare_fields os fs d).1 ≡ none
  unfolding prepare_fields
  fields_errors [] c d h = refl
  fields_errors (f ∷ fs) c d h =
      let first = first_field f fs c h in
      ap (λ x. x.1) (field_passes f fs d (field_errors os f (get c f) (get d f) first))
      ∙ fields_errors fs (set c f (prepare_field os f (get c f)).0)
          (set d f (prepare_field os f (get d f)).0)
          (sym (ap (λ x. x.1) (field_passes f fs c first)) ∙ h)

  pub same_errors :
      (c d : EnvConfigSchema)
      → (prepare_env_config os c).1 ≡ none
      → (prepare_env_config os d).1 ≡ none
  unfolding prepare_env_config
  same_errors c d h = fields_errors option_fields c d h

  prepare_field_fine :
      (fs : List OptionField) (c : EnvConfigSchema)
      → (prepare_fields os fs c).1 ≡ none
      → All (λ f. (v : Text) → (prepare_field os f v).1 ≡ none) fs
  prepare_field_fine [] c h = tt
  prepare_field_fine (f ∷ fs) c h =
      let first = first_field f fs c h in
      (
        λ v. field_errors os f (get c f) v first,
        prepare_field_fine fs (set c f (prepare_field os f (get c f)).0)
            (sym (ap (λ x. x.1) (field_passes f fs c first)) ∙ h),
      )

  field_succeeds :
      (f : OptionField) (c : EnvConfigSchema)
      → (prepare_env_config os c).1 ≡ none
      → (v : Text) → (prepare_field os f v).1 ≡ none
  unfolding prepare_env_config option_fields
  field_succeeds app_env c h = (prepare_field_fine option_fields c h).0
  field_succeeds encryption_key c h = (prepare_field_fine option_fields c h).1.0
  field_succeeds app_url c h = (prepare_field_fine option_fields c h).1.1.0
  field_succeeds db_connection_string c h = (prepare_field_fine option_fields c h).1.1.1.0
  field_succeeds static_api_key c h = (prepare_field_fine option_fields c h).1.1.1.1.0
  field_succeeds file_backend c h = (prepare_field_fine option_fields c h).1.1.1.1.1.0
  field_succeeds host c h = (prepare_field_fine option_fields c h).1.1.1.1.1.1.0
  field_succeeds log_level c h = (prepare_field_fine option_fields c h).1.1.1.1.1.1.1.0

  fields_succeed :
      (fs : List OptionField) (c : EnvConfigSchema)
      → ((f : OptionField) (u : Text) → (prepare_field os f u).1 ≡ none)
      → (prepare_fields os fs c).1 ≡ none
  unfolding prepare_fields
  fields_succeed [] c fine = refl
  fields_succeed (f ∷ fs) c fine =
      ap (λ x. x.1) (field_passes f fs c (fine f (get c f)))
      ∙ fields_succeed fs (set c f (prepare_field os f (get c f)).0) fine

  -- `prepareEnvConfig` returns no error just if it has made each field with options what it is meant
  -- to be, from the field's own value alone: the application's environment, the file backend, the host
  -- and the log level are in lower case, the application's URL too and without slashes at its end, and
  -- each of the three secrets is the content of the file that its variable with the suffix `_FILE`
  -- names (as it is for the encryption key, without surrounding blanks for the two others), or its own
  -- value if that variable is empty.
  pub prepare_env_config-get :
      (c : EnvConfigSchema)
      → ((prepare_env_config os c).1 ≡ none)
        ↔ ((f : OptionField) → IsPrepared os f (get c f) (get (prepare_env_config os c).0 f))
  unfolding prepare_env_config
  prepare_env_config-get c = (
    λ h f.
        rw (get-prepare_env_config c f h)
          (prepare_field-IsPrepared os f (get c f) (field_succeeds f c h (get c f))),
    λ prepared. fields_succeed option_fields c (λ f u.
        IsPrepared-prepare_field os f (get c f) (get (prepare_env_config os c).0 f) u (prepared f)),
  )
