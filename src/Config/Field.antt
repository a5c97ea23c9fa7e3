-- ===== src/Config/Field.antt =====
-- The struct `AppConfig` of backend/internal/model/app_config.go: its fields, their tags, and the
-- two parts of a tag that the program cuts out of it.
use vocy.Prelude.{String, List, [], ◌∷◌, cut}

-- The fields of the struct, in the order in which reflection visits them.
pub data Field : Type 0 where
  app_name session_duration home_page_url : Field
  emails_verified accent_color disable_animations : Field
  allow_own_account_edit allow_user_signups signup_default_user_group_ids : Field
  signup_default_custom_claims instance_id require_user_email : Field
  smtp_host smtp_port smtp_from : Field
  smtp_user smtp_password smtp_tls : Field
  smtp_skip_cert_verify email_login_notification_enabled
        email_one_time_access_as_unauthenticated_enabled :
      Field
  email_one_time_access_as_admin_enabled email_api_key_expiration_enabled
        email_verification_enabled :
      Field

pub Field-discrete : Discrete Field
Field-discrete = hlevel

-- `key:"..."` of each field.
unfoldable pub key_tag : Field → String
key_tag app_name = "appName,public"
key_tag session_duration = "sessionDuration"
key_tag home_page_url = "homePageUrl,public"
key_tag emails_verified = "emailsVerified"
key_tag accent_color = "accentColor,public"
key_tag disable_animations = "disableAnimations,public"
key_tag allow_own_account_edit = "allowOwnAccountEdit,public"
key_tag allow_user_signups = "allowUserSignups,public"
key_tag signup_default_user_group_ids = "signupDefaultUserGroupIDs"
key_tag signup_default_custom_claims = "signupDefaultCustomClaims"
key_tag instance_id = "instanceId,internal"
key_tag require_user_email = "requireUserEmail,public"
key_tag smtp_host = "smtpHost"
key_tag smtp_port = "smtpPort"
key_tag smtp_from = "smtpFrom"
key_tag smtp_user = "smtpUser"
key_tag smtp_password = "smtpPassword,sensitive"
key_tag smtp_tls = "smtpTls"
key_tag smtp_skip_cert_verify = "smtpSkipCertVerify"
key_tag email_login_notification_enabled = "emailLoginNotificationEnabled"
key_tag email_one_time_access_as_unauthenticated_enabled =
    "emailOneTimeAccessAsUnauthenticatedEnabled,public"
key_tag email_one_time_access_as_admin_enabled = "emailOneTimeAccessAsAdminEnabled,public"
key_tag email_api_key_expiration_enabled = "emailApiKeyExpirationEnabled"
key_tag email_verification_enabled = "emailVerificationEnabled,public"

-- What stands before the comma of the tag, `strings.Cut(tag, ",")`.
unfoldable pub key_of : Field → String
unfolding key_tag cut
key_of f = (cut (key_tag f) b',').0

-- What stands behind it.
unfoldable pub attrs_of : Field → String
unfolding key_tag cut
attrs_of f = (cut (key_tag f) b',').1

-- `for i := range rt.NumField()`.
unfoldable pub fields : List Field
fields =
    app_name ∷ session_duration ∷ home_page_url ∷ emails_verified ∷ accent_color
    ∷ disable_animations ∷ allow_own_account_edit ∷ allow_user_signups
    ∷ signup_default_user_group_ids ∷ signup_default_custom_claims ∷ instance_id
    ∷ require_user_email ∷ smtp_host ∷ smtp_port ∷ smtp_from ∷ smtp_user ∷ smtp_password ∷ smtp_tls
    ∷ smtp_skip_cert_verify ∷ email_login_notification_enabled
    ∷ email_one_time_access_as_unauthenticated_enabled ∷ email_one_time_access_as_admin_enabled
    ∷ email_api_key_expiration_enabled ∷ email_verification_enabled ∷ []
