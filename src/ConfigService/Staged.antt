-- ===== src/ConfigService/Staged.antt =====
-- What the loop of `UpdateAppConfigValues` leaves in memory and hands to the database
-- (backend/internal/service/app_config_service.go).
use vocy.Prelude.{
  String, ◌≡◌, refl, sym, ◌∙◌, ap, false, Option, none, some, List, [], ◌∷◌, ◌++◌, ok, >>=-eq-ok,
  ok-injective, str_eq, eq_iff, arith, inl, inr, Bool-cases, if◌then◌else◌,
}
use mathlib.Core.List.{append_assoc, append-nil}
use vocy.Config.Field.{Field, key_of}
use vocy.Config.Values.{AppConfig, AppConfigVariable, default_config}
use vocy.Config.Access.{field_by_key, update_field}
use vocy.Config.Access.Lookup.{find_field-key_of, field_by_key-found}
use vocy.ConfigService.Database.{ConfigDb, row_after}
use vocy.ConfigService.State.{Environment}
use vocy.ConfigService.Staging.{stage_value, stage_values}
use vocy.ConfigService.Rows.{
  written, or_old, update_field-written, row_after-or_old, written-written,
}

-- The rows that a list of keys and values stands for.
abbrev pub pairs : List String → List AppConfigVariable
pairs [] = []
pairs (key ∷ []) = []
pairs (key ∷ value ∷ rest) = record { key = key; value = value } ∷ pairs rest

-- The value that memory holds for a value that is saved: the default stands for the empty text.
abbrev pub in_memory : Field → Option String → Option String
in_memory f none = none
in_memory f (some v) = some (if str_eq v "" then (default_config f).value else v)

pub in_memory-or_old :
    (f : Field) (o p : Option String)
    → in_memory f (or_old o p) ≡ or_old (in_memory f o) (in_memory f p)
in_memory-or_old f none p = refl
in_memory-or_old f (some v) p = refl

default_by_key : (f : Field) → (field_by_key default_config (key_of f)).0 ≡ (default_config f).value
default_by_key f = rw (field_by_key-found, find_field-key_of)

used_in_memory :
    (cfg : AppConfig) (key value : String) (f : Field)
    → written (cfg f) (
        if str_eq key (key_of f)
        then some (if str_eq value "" then (field_by_key default_config key).0 else value)
        else none)
      ≡ written (cfg f) (in_memory f (if str_eq key (key_of f) then some value else none))
used_in_memory cfg key value f = elim (Bool-cases (str_eq key (key_of f))) [
  | inl e ↦ rw (e, (eq_iff key (key_of f)).0 e, default_by_key f)
  | inr e ↦ rw e
]

module _ (db : ConfigDb) (env : Environment) where
  stage_value-update :
      (cfg cfg' : AppConfig) (key value : String)
      → stage_value db env cfg key value ≡ ok cfg'
      → cfg'
        ≡ (update_field cfg key
            (if str_eq value "" then (field_by_key default_config key).0 else value)
            false).0
  unfolding stage_value
  stage_value-update cfg cfg' key value h = ground arith

  stage_value-written :
      (cfg cfg' : AppConfig) (key value : String) (f : Field)
      → stage_value db env cfg key value ≡ ok cfg'
      → cfg' f ≡ written (cfg f) (in_memory f (if str_eq key (key_of f) then some value else none))
  stage_value-written cfg cfg' key value f h =
      let used = if str_eq value "" then (field_by_key default_config key).0 else value in
      ap (λ (g : AppConfig). g f) (stage_value-update cfg cfg' key value h)
      ∙ update_field-written cfg key used f
      ∙ used_in_memory cfg key value f

  -- The rows are the given pairs, and memory has for each field what its last pair says.
  pub stage_values-written :
      (keys_and_values : List String) (cfg cfg' : AppConfig) (rows rows' : List AppConfigVariable)
      → stage_values db env keys_and_values cfg rows ≡ ok (cfg', rows')
      → (rows' ≡ rows ++ pairs keys_and_values)
        × ((f : Field)
            → cfg' f
              ≡ written (cfg f) (in_memory f (row_after (pairs keys_and_values) (key_of f) none)))
  unfolding stage_values
  stage_values-written [] cfg cfg' rows rows' h =
      let same = ok-injective h in
      (
        sym (ap (λ (p : AppConfig × List AppConfigVariable). p.1) same) ∙ sym (append-nil rows),
        λ f. sym (ap (λ (p : AppConfig × List AppConfigVariable). p.0 f) same),
      )
  stage_values-written (key ∷ []) cfg cfg' rows rows' h = ground arith
  stage_values-written (key ∷ value ∷ rest) cfg cfg' rows rows' h =
      let row : AppConfigVariable = record { key = key; value = value } in
      let (cfg1, first, more) =
        >>=-eq-ok (stage_value db env cfg key value)
          (λ c. stage_values db env rest c (rows ++ row ∷ [])) h in
      let (rows_eq, ih) = stage_values-written rest cfg1 cfg' (rows ++ row ∷ []) rows' more in
      (
        rows_eq ∙ append_assoc rows (row ∷ []) (pairs rest),
        λ f. rw (
          ih f,
          stage_value-written cfg cfg1 key value f first,
          written-written,
          ← in_memory-or_old,
          ← row_after-or_old,
        ),
      )
