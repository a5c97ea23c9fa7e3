-- ===== src/Config/Values.antt =====
-- The configuration and its default (`AppConfig`, `AppConfigVariable`, `getDefaultDbConfig`).
-- All fields of the struct are variables, so a configuration is a function from its fields.
use vocy.Prelude.{String, ite}
use vocy.Config.Field.{Field, Field-discrete}

pub record AppConfigVariable : Type 0 where
  pub key : String
  pub value : String

abbrev pub AppConfig : Type 0
AppConfig = Field → AppConfigVariable

-- A literal `AppConfigVariable{Value: v}`, whose key is the zero value.
abbrev pub valued : String → AppConfigVariable
valued v = record { key = ""; value = v }

-- `rv.Field(i).FieldByName("Value").SetString(v)`.
unfoldable pub set_value : AppConfig → Field → String → AppConfig
set_value c f v g = ite (Field-discrete f g) (record { key = (c g).key; value = v }) (c g)

-- The default configuration of the service.
unfoldable pub default_config : AppConfig
default_config Field.app_name = valued "vocy"
default_config Field.session_duration = valued "60"
default_config Field.home_page_url = valued "/settings/account"
default_config Field.emails_verified = valued "false"
default_config Field.accent_color = valued "default"
default_config Field.disable_animations = valued "false"
default_config Field.allow_own_account_edit = valued "true"
default_config Field.allow_user_signups = valued "disabled"
default_config Field.signup_default_user_group_ids = valued "[]"
default_config Field.signup_default_custom_claims = valued "[]"
default_config Field.instance_id = valued ""
default_config Field.require_user_email = valued "true"
default_config Field.smtp_host = valued ""
default_config Field.smtp_port = valued ""
default_config Field.smtp_from = valued ""
default_config Field.smtp_user = valued ""
default_config Field.smtp_password = valued ""
default_config Field.smtp_tls = valued "none"
default_config Field.smtp_skip_cert_verify = valued "false"
default_config Field.email_login_notification_enabled = valued "false"
default_config Field.email_one_time_access_as_unauthenticated_enabled = valued "false"
default_config Field.email_one_time_access_as_admin_enabled = valued "false"
default_config Field.email_api_key_expiration_enabled = valued "false"
default_config Field.email_verification_enabled = valued "false"
