-- ===== src/ConfigService/Inputs.antt =====
-- What `UpdateAppConfig` does with each field of its input
-- (backend/internal/service/app_config_service.go).
use mathlib.Core.List.{append_assoc, append-nil}
use vocy.Prelude.{
  String, ◌≡◌, refl, ◌∙◌, ap, true, false, none, some, List, [], ◌∷◌, ◌++◌, ok, str_eq, eq_iff, inl,
  inr, Bool-cases, if◌then◌else◌,
}
use vocy.Config.Field.{Field, key_of, attrs_of}
use vocy.Config.Values.{AppConfig, AppConfigVariable, default_config, set_value}
use vocy.Config.Access.Lookup.{
  find_field-key_of, update_field-found, field_by_key-found, key_of-injective,
}
use vocy.ConfigService.Database.{ConfigDb, row_after}
use vocy.ConfigService.Dto.{DtoField, AppConfigUpdateDto, json_key, dto_fields}
use vocy.ConfigService.Staging.{stage_input, stage_inputs}
use vocy.ConfigService.Rows.{written, set_value-written, written-written, row_after-or_old}
use vocy.ConfigService.Staged.{in_memory, in_memory-or_old}

-- The field of the configuration that a field of the input is for.
pub target : DtoField → Field
target DtoField.app_name = Field.app_name
target DtoField.session_duration = Field.session_duration
target DtoField.home_page_url = Field.home_page_url
target DtoField.emails_verified = Field.emails_verified
target DtoField.disable_animations = Field.disable_animations
target DtoField.allow_own_account_edit = Field.allow_own_account_edit
target DtoField.allow_user_signups = Field.allow_user_signups
target DtoField.signup_default_user_group_ids = Field.signup_default_user_group_ids
target DtoField.signup_default_custom_claims = Field.signup_default_custom_claims
target DtoField.accent_color = Field.accent_color
target DtoField.require_user_email = Field.require_user_email
target DtoField.smtp_host = Field.smtp_host
target DtoField.smtp_port = Field.smtp_port
target DtoField.smtp_from = Field.smtp_from
target DtoField.smtp_user = Field.smtp_user
target DtoField.smtp_password = Field.smtp_password
target DtoField.smtp_tls = Field.smtp_tls
target DtoField.smtp_skip_cert_verify = Field.smtp_skip_cert_verify
target DtoField.email_one_time_access_as_admin_enabled =
    Field.email_one_time_access_as_admin_enabled
target DtoField.email_one_time_access_as_unauthenticated_enabled =
    Field.email_one_time_access_as_unauthenticated_enabled
target DtoField.email_login_notification_enabled = Field.email_login_notification_enabled
target DtoField.email_api_key_expiration_enabled = Field.email_api_key_expiration_enabled
target DtoField.email_verification_enabled = Field.email_verification_enabled

-- The `json` tag of an input field is the key of its target.
pub json_key-target : (f : DtoField) → json_key f ≡ key_of (target f)
unfolding json_key key_of target
json_key-target DtoField.app_name = refl
json_key-target _ = refl

target-not_internal : (f : DtoField) → str_eq (attrs_of (target f)) "internal" ≡ false
unfolding attrs_of target
target-not_internal DtoField.app_name = refl
target-not_internal _ = refl

-- The rows that an input is saved as.
abbrev pub input_rows : AppConfigUpdateDto → List DtoField → List AppConfigVariable
input_rows input [] = []
input_rows input (f ∷ fs) = record { key = json_key f; value = input f } ∷ input_rows input fs

-- Every field but the instance id has its row among them.
pub row_after-input_rows :
    (input : AppConfigUpdateDto) (f : DtoField)
    → row_after (input_rows input dto_fields) (key_of (target f)) none ≡ some (input f)
unfolding dto_fields json_key key_of target
row_after-input_rows input DtoField.app_name = refl
row_after-input_rows input _ = refl

pub row_after-input_rows_instance_id :
    (input : AppConfigUpdateDto)
    → row_after (input_rows input dto_fields) (key_of Field.instance_id) none ≡ none
unfolding dto_fields json_key key_of
row_after-input_rows_instance_id input = refl

abbrev used_value : Field → String → String
used_value g v = if str_eq v "" then (default_config g).value else v

set_in_memory :
    (cfg : AppConfig) (f : DtoField) (v : String) (g : Field)
    → set_value cfg (target f) (used_value (target f) v) g
      ≡ written (cfg g) (in_memory g (if str_eq (json_key f) (key_of g) then some v else none))
set_in_memory cfg f v g =
    rw (json_key-target, set_value-written)
      (elim (Bool-cases (str_eq (key_of (target f)) (key_of g))) [
        | inl e ↦
            rw (e, key_of-injective (target f) g ((eq_iff (key_of (target f)) (key_of g)).0 e))
        | inr e ↦ rw e
      ])

module _ (db : ConfigDb) where
  -- No input field is unknown or internal: every round of the loop sets its target.
  stage_input-set_value :
      (cfg : AppConfig) (f : DtoField) (v : String)
      → stage_input db cfg (json_key f) v
        ≡ ok (set_value cfg (target f) (used_value (target f) v), true)
  unfolding stage_input
  stage_input-set_value cfg f v =
      rw
        (
          json_key-target, field_by_key-found, find_field-key_of, update_field-found,
          find_field-key_of, target-not_internal,
        )
        refl

  pub stage_inputs-written :
      (fs : List DtoField) (input : AppConfigUpdateDto) (cfg : AppConfig)
      (rows : List AppConfigVariable)
      → (cfg' : AppConfig) × (stage_inputs db fs input cfg rows
          ≡ ok (cfg', rows ++ input_rows input fs))
        × ((g : Field)
            → cfg' g
              ≡ written (cfg g) (in_memory g (row_after (input_rows input fs) (key_of g) none)))
  unfolding stage_inputs
  stage_inputs-written [] input cfg rows = (cfg, rw append-nil, λ g. refl)
  stage_inputs-written (f ∷ fs) input cfg rows =
      let row : AppConfigVariable = record { key = json_key f; value = input f } in
      let cfg1 = set_value cfg (target f) (used_value (target f) (input f)) in
      let (cfg', staged, values) = stage_inputs-written fs input cfg1 (rows ++ row ∷ []) in
      (
        cfg',
        rw stage_input-set_value (
            staged
            ∙ ap (λ (r : List AppConfigVariable). ok (cfg', r))
                (append_assoc rows (row ∷ []) (input_rows input fs))),
        λ g. rw (
          values g,
          set_in_memory cfg f (input f) g,
          written-written,
          ← in_memory-or_old,
          ← row_after-or_old,
        ),
      )
