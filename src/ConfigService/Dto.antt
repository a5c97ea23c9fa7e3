-- ===== src/ConfigService/Dto.antt =====
-- The struct `AppConfigUpdateDto` of backend/internal/dto/app_config_dto.go, as reflection sees it:
-- its fields and their `json` tags. All its fields are strings, so a value is a function from them.
use vocy.Prelude.{String, List, [], ◌∷◌, cut}

pub data DtoField : Type 0 where
  app_name session_duration home_page_url : DtoField
  emails_verified disable_animations allow_own_account_edit : DtoField
  allow_user_signups signup_default_user_group_ids signup_default_custom_claims : DtoField
  accent_color require_user_email smtp_host : DtoField
  smtp_port smtp_from smtp_user : DtoField
  smtp_password smtp_tls smtp_skip_cert_verify : DtoField
  email_one_time_access_as_admin_enabled email_one_time_access_as_unauthenticated_enabled
        email_login_notification_enabled :
      DtoField
  email_api_key_expiration_enabled email_verification_enabled : DtoField

abbrev pub AppConfigUpdateDto : Type 0
AppConfigUpdateDto = DtoField → String

unfoldable pub json_tag : DtoField → String
json_tag app_name = "appName"
json_tag session_duration = "sessionDuration"
json_tag home_page_url = "homePageUrl"
json_tag emails_verified = "emailsVerified"
json_tag disable_animations = "disableAnimations"
json_tag allow_own_account_edit = "allowOwnAccountEdit"
json_tag allow_user_signups = "allowUserSignups"
json_tag signup_default_user_group_ids = "signupDefaultUserGroupIDs"
json_tag signup_default_custom_claims = "signupDefaultCustomClaims"
json_tag accent_color = "accentColor"
json_tag require_user_email = "requireUserEmail"
json_tag smtp_host = "smtpHost"
json_tag smtp_port = "smtpPort"
json_tag smtp_from = "smtpFrom"
json_tag smtp_user = "smtpUser"
json_tag smtp_password = "smtpPassword"
json_tag smtp_tls = "smtpTls"
json_tag smtp_skip_cert_verify = "smtpSkipCertVerify"
json_tag email_one_time_access_as_admin_enabled = "emailOneTimeAccessAsAdminEnabled"
json_tag email_one_time_access_as_unauthenticated_enabled =
    "emailOneTimeAccessAsUnauthenticatedEnabled"
json_tag email_login_notification_enabled = "emailLoginNotificationEnabled"
json_tag email_api_key_expiration_enabled = "emailApiKeyExpirationEnabled"
json_tag email_verification_enabled = "emailVerificationEnabled"

unfoldable pub json_key : DtoField → String
unfolding json_tag cut
json_key f = (cut (json_tag f) b',').0

unfoldable pub dto_fields : List DtoField
dto_fields =
    app_name ∷ session_duration ∷ home_page_url ∷ emails_verified ∷ disable_animations
    ∷ allow_own_account_edit ∷ allow_user_signups ∷ signup_default_user_group_ids
    ∷ signup_default_custom_claims ∷ accent_color ∷ require_user_email ∷ smtp_host ∷ smtp_port
    ∷ smtp_from ∷ smtp_user ∷ smtp_password ∷ smtp_tls ∷ smtp_skip_cert_verify
    ∷ email_one_time_access_as_admin_enabled ∷ email_one_time_access_as_unauthenticated_enabled
    ∷ email_login_notification_enabled ∷ email_api_key_expiration_enabled
    ∷ email_verification_enabled ∷ []
