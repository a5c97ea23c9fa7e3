-- ===== src/ConfigService/FromEnv.antt =====
-- What `loadDbConfigFromEnv` gives each field
-- (backend/internal/service/app_config_service.go).
use vocy.Prelude.{
  ℕ, String, ◌≡◌, refl, sym, ◌∙◌, ap, true, Option, none, some, List, [], ◌∷◌, ◌++◌, Result, ok,
  err, >>=-eq-ok, ok-injective, str_eq, eq_iff, codes, arith, inl, inr, Bool-cases, if◌then◌else◌,
}
use vocy.Config.Field.{Field, fields, key_of, attrs_of}
use vocy.Config.Values.{AppConfig, default_config, set_value}
use vocy.Config.Access.Lookup.{key_of-injective}
use vocy.Utils.CaseStyle.{camel_case_to_screaming_snake_case}
use vocy.ConfigService.Database.{ConfigDb}
use vocy.ConfigService.State.{Environment, getenv}
use vocy.ConfigService.Loading.{
  load_field, load_fields, load_db_config_from_env, load_db_config_internal,
}
use vocy.ConfigService.Rows.{written, or_old, set_value-written, written-written}

-- The environment variable of a field.
abbrev pub env_name : Field → List ℕ
env_name f = camel_case_to_screaming_snake_case (codes (key_of f))

abbrev first_some : Option String → Option String → Option String
first_some none b = b
first_some (some v) b = some v

abbrev pub ok_value : {E : Type 0} → Result E String → Option String
ok_value (ok v) = some v
ok_value (err e) = none

-- The content of the file that `<name>_FILE` names, if it names one.
abbrev pub secret : Environment → Field → Option String
secret env f =
    let path = getenv (env.lookup_env (env_name f ++ codes "_FILE")) in
    if str_eq path "" then none else env.read_file path

abbrev set_some : AppConfig → Field → Option String → AppConfig
set_some c f none = c
set_some c f (some v) = set_value c f v

set_some-written :
    (c : AppConfig) (f : Field) (o : Option String) (g : Field)
    → set_some c f o g ≡ written (c g) (if str_eq (key_of f) (key_of g) then o else none)
set_some-written c f none g = ground arith
set_some-written c f (some v) g = set_value-written c f g v

or_old_self : (o : Option String) → or_old o o ≡ o
or_old_self none = refl
or_old_self (some v) = refl

or_old-none : (o : Option String) → or_old o none ≡ o
or_old-none none = refl
or_old-none (some v) = refl

module _ (db : ConfigDb) (env : Environment) (tx : db.Db) where
  -- The value that a field takes instead of its default: the database's for the internal field; for
  -- the others the environment's, and for the sensitive one, failing that, the secret file's.
  abbrev pub external_value : Field → Option String
  external_value f =
      if str_eq (attrs_of f) "internal"
      then ok_value (db.first_value tx (key_of f))
      else first_some (env.lookup_env (env_name f))
          (if str_eq (attrs_of f) "sensitive" then secret env f else none)

  load_field-external :
      (f : Field) (dest dest' : AppConfig)
      → load_field db env tx f dest ≡ ok dest'
      → dest' ≡ set_some dest f (external_value f)
  unfolding load_field
  load_field-external f dest dest' h = ground arith

  among : List Field → Field → Option String
  among [] g = none
  among (f ∷ fs) g =
      let rest = among fs g in if str_eq (key_of f) (key_of g) then external_value g else rest

  -- A second visit of a field would read the same value.
  or_old-among :
      (fs : List Field) (g : Field) → or_old (among fs g) (external_value g) ≡ external_value g
  unfolding among
  or_old-among [] g = refl
  or_old-among (f ∷ fs) g = elim (Bool-cases (str_eq (key_of f) (key_of g))) [
    | inl e ↦ rw e (or_old_self (external_value g))
    | inr e ↦ rw e (or_old-among fs g)
  ]

  load_field-written :
      (f : Field) (dest dest' : AppConfig) (g : Field)
      → load_field db env tx f dest ≡ ok dest'
      → dest' g ≡ written (dest g) (if str_eq (key_of f) (key_of g) then external_value g else none)
  load_field-written f dest dest' g h = elim (Bool-cases (str_eq (key_of f) (key_of g))) [
    | inl e ↦
        let same = key_of-injective f g ((eq_iff (key_of f) (key_of g)).0 e) in
        ap (λ (c : AppConfig). c g) (load_field-external f dest dest' h)
        ∙ set_some-written dest f (external_value f) g
        ∙ rw (e, same)
    | inr e ↦
        ap (λ (c : AppConfig). c g) (load_field-external f dest dest' h)
        ∙ set_some-written dest f (external_value f) g
        ∙ rw e
  ]

  load_fields-among :
      (fs : List Field) (dest c : AppConfig) (g : Field)
      → load_fields db env tx fs dest ≡ ok c
      → c g ≡ written (dest g) (among fs g)
  unfolding load_fields among
  load_fields-among [] dest c g h = ap (λ (x : AppConfig). x g) (sym (ok-injective h))
  load_fields-among (f ∷ fs) dest c g h =
      let (dest1, first, more) =
        >>=-eq-ok (load_field db env tx f dest) (λ x. load_fields db env tx fs x) h in
      load_fields-among fs dest1 c g more
      ∙ rw (load_field-written f dest dest1 g first, written-written)
          (elim (Bool-cases (str_eq (key_of f) (key_of g))) [
            | inl e ↦ rw (e, or_old-among) refl
            | inr e ↦ rw (e, or_old-none) refl
          ])

  among-fields : (g : Field) → among fields g ≡ external_value g
  unfolding among fields key_of
  among-fields Field.app_name = refl
  among-fields _ = refl

  -- With the UI configuration disabled, a load that succeeds gives every field its value from
  -- outside, or else its default.
  pub load_from_env :
      (c : AppConfig) (f : Field)
      → env.ui_config_disabled ≡ true
      → load_db_config_internal db env tx ≡ ok c
      → c f ≡ written (default_config f) (external_value f)
  unfolding load_db_config_internal load_db_config_from_env
  load_from_env c f off h =
      load_fields-among fields default_config c f (rw off at h) ∙ rw among-fields
