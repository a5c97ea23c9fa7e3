-- ===== src/Env/Fields.antt =====
-- What the tags of one field do to its value (backend/internal/common/env_config.go).
use vocy.Prelude.{
  ◌≡◌, ◌≢◌, refl, sym, ◌∙◌, Option, none, some, [], ◌∷◌, ◌++◌, ◌⊎◌, codes, arith, Bool-cases,
  Option-cases, inl, inr, ap,
}
use vocy.Env.Schema.{Text, is_empty, trim_space}
use vocy.Env.Conditions.{is_empty-eq}
use vocy.Env.Prepare.{
  Surroundings, PrepareError, OptionField, app_env, encryption_key, app_url, db_connection_string,
  static_api_key, file_backend, host, log_level, Kind, string, byte_slice, content_of, lower,
  trim_trailing_slash, prepare_field, apply_options, apply_option, tag_of, kind_of,
  resolve_file_based_env_variable,
}

-- What becomes of a secret `v`: it stays if the variable that could name a file for it is empty, and is
-- otherwise a form of the content of that file, which can be read.
unfoldable pub IsSecret : Surroundings → Text → (Text → Text) → Text → Text → Type 0
IsSecret os variable form v w =
    ((os.getenv variable ≡ []) × (w ≡ v))
    ⊎ ((content : Text) × (os.getenv variable ≢ [])
        × (os.read_file (os.getenv variable) ≡ some content)
        × (w ≡ form content))

-- The value `w` that the field is meant to have for the value `v` in the environment.
unfoldable pub IsPrepared : Surroundings → OptionField → Text → Text → Type 0
IsPrepared os app_env v w = w ≡ lower v
IsPrepared os encryption_key v w =
    IsSecret os (codes "ENCRYPTION_KEY_FILE") (λ content. content) v w
IsPrepared os app_url v w = w ≡ trim_trailing_slash (lower v)
IsPrepared os db_connection_string v w =
    IsSecret os (codes "DB_CONNECTION_STRING_FILE") trim_space v w
IsPrepared os static_api_key v w = IsSecret os (codes "STATIC_API_KEY_FILE") trim_space v w
IsPrepared os file_backend v w = w ≡ lower v
IsPrepared os host v w = w ≡ lower v
IsPrepared os log_level v w = w ≡ lower v

module _ (os : Surroundings) where
  resolve-IsSecret :
      (kind : Kind) (name v : Text)
      → (resolve_file_based_env_variable os kind name v).1 ≡ none
      → IsSecret os
          (name ++ codes "_FILE")
          (content_of kind)
          v
          (resolve_file_based_env_variable os kind name v).0
  unfolding resolve_file_based_env_variable IsSecret
  resolve-IsSecret kind name v h =
      let path = os.getenv (name ++ codes "_FILE") in
      elim (Bool-cases (is_empty path)) [
        | inl e ↦ inl (is_empty-eq path e, rw (e, resolve_file_based_env_variable))
        | inr e ↦ elim (Option-cases (os.read_file path)) [
          | inl failed ↦
              absurd (ground (arith, rw (resolve_file_based_env_variable, e, failed) at h))
          | inr (content, read) ↦ inr (
            content,
            λ n. ground (arith, e, ap is_empty n),
            read,
            rw (e, read, resolve_file_based_env_variable),
          )
        ]
      ]

  one_option :
      (kind : Kind) (env option v : Text)
      → apply_options os kind env (option ∷ []) v ≡ apply_option os kind env option v
  unfolding apply_options
  one_option kind env option v =
      let v' = (apply_option os kind env option v).0 in
      elim (Option-cases (apply_option os kind env option v).1) [
        | inl e ↦ rw (apply_options, e) (ap (λ (y : Option PrepareError). (v', y)) (sym e))
        | inr (x, e) ↦ rw (apply_options, e) (ap (λ (y : Option PrepareError). (v', y)) (sym e))
      ]

  -- A field whose one option is `file`.
  file_option :
      (kind : Kind) (name v : Text)
      → (apply_options os kind name (codes "file" ∷ []) v).1 ≡ none
      → IsSecret os
          (name ++ codes "_FILE")
          (content_of kind)
          v
          (apply_options os kind name (codes "file" ∷ []) v).0
  unfolding apply_option vocy.Env.Schema.same
  file_option kind name v h =
      let same_result = one_option kind name (codes "file") v in
      rw (same_result) (resolve-IsSecret kind name v (ap (λ x. x.1) (sym same_result) ∙ h))

  pub prepare_field-IsPrepared :
      (f : OptionField) (v : Text)
      → (prepare_field os f v).1 ≡ none
      → IsPrepared os f v (prepare_field os f v).0
  unfolding IsPrepared prepare_field apply_options apply_option tag_of kind_of
      resolve_file_based_env_variable vocy.Env.Schema.split_at vocy.Env.Schema.same
  prepare_field-IsPrepared app_env v h = refl
  prepare_field-IsPrepared encryption_key v h = file_option byte_slice (codes "ENCRYPTION_KEY") v h
  prepare_field-IsPrepared app_url v h = refl
  prepare_field-IsPrepared db_connection_string v h =
      file_option string (codes "DB_CONNECTION_STRING") v h
  prepare_field-IsPrepared static_api_key v h = file_option string (codes "STATIC_API_KEY") v h
  prepare_field-IsPrepared file_backend v h = refl
  prepare_field-IsPrepared host v h = refl
  prepare_field-IsPrepared log_level v h = refl

  secret_resolves :
      (kind : Kind) (name : Text) (form : Text → Text) (v w u : Text)
      → IsSecret os (name ++ codes "_FILE") form v w
      → (resolve_file_based_env_variable os kind name u).1 ≡ none
  unfolding resolve_file_based_env_variable IsSecret
  secret_resolves kind name form v w u (inl (unset, kept)) =
      rw (resolve_file_based_env_variable, unset)
  secret_resolves kind name form v w u (inr (content, named, read, made)) =
      elim (Bool-cases (is_empty (os.getenv (name ++ codes "_FILE")))) [
        | inl e ↦ rw (resolve_file_based_env_variable, e)
        | inr e ↦ rw (resolve_file_based_env_variable, e, read)
      ]

  file_option_passes :
      (kind : Kind) (name : Text) (form : Text → Text) (v w u : Text)
      → IsSecret os (name ++ codes "_FILE") form v w
      → (apply_options os kind name (codes "file" ∷ []) u).1 ≡ none
  unfolding apply_option vocy.Env.Schema.same
  file_option_passes kind name form v w u secret =
      ap (λ x. x.1) (one_option kind name (codes "file") u)
      ∙ secret_resolves kind name form v w u secret

  pub IsPrepared-prepare_field :
      (f : OptionField) (v w u : Text) → IsPrepared os f v w → (prepare_field os f u).1 ≡ none
  unfolding IsPrepared prepare_field apply_options apply_option tag_of kind_of
      resolve_file_based_env_variable vocy.Env.Schema.split_at vocy.Env.Schema.same
  IsPrepared-prepare_field app_env v w u h = refl
  IsPrepared-prepare_field encryption_key v w u h =
      file_option_passes byte_slice (codes "ENCRYPTION_KEY") (λ content. content) v w u h
  IsPrepared-prepare_field app_url v w u h = refl
  IsPrepared-prepare_field db_connection_string v w u h =
      file_option_passes string (codes "DB_CONNECTION_STRING") trim_space v w u h
  IsPrepared-prepare_field static_api_key v w u h =
      file_option_passes string (codes "STATIC_API_KEY") trim_space v w u h
  IsPrepared-prepare_field file_backend v w u h = refl
  IsPrepared-prepare_field host v w u h = refl
  IsPrepared-prepare_field log_level v w u h = refl

  pub field_errors :
      (f : OptionField) (v w : Text)
      → (prepare_field os f v).1 ≡ none
      → (prepare_field os f w).1 ≡ none
  unfolding prepare_field apply_options apply_option tag_of kind_of resolve_file_based_env_variable
      vocy.Env.Schema.split_at vocy.Env.Schema.same
  field_errors app_env v w h = refl
  field_errors encryption_key v w h = ground arith
  field_errors app_url v w h = refl
  field_errors db_connection_string v w h = ground arith
  field_errors static_api_key v w h = ground arith
  field_errors file_backend v w h = refl
  field_errors host v w h = refl
  field_errors log_level v w h = refl
