-- ===== src/Config/Tests.antt =====
-- Witnesses of the theorems on the configuration's keys.
use vocy.Config.Durations.{as_duration_minutes}
use vocy.Env.Schema.{negsuc}
use vocy.Prelude.{
  ◌≤◌, ◌*◌, codes, itoa, String, ◌≡◌, ◌≢◌, ◌↔◌, ◌⊎◌, refl, true, false, none, some, map, str_eq,
  if◌then◌else◌, arith, eq_iff,
}
use vocy.Config.Field.{fields, key_of, attrs_of, smtp_password}
use vocy.Config.Values.{AppConfigVariable, default_config, set_value}
use vocy.Config.Access.{
  is_internal, field_by_key, update_field, update_field_from, to_app_config_variable_slice,
}
use vocy.Config.Access.Update.{field_by_key-update_field}
use vocy.Config.Access.Listing.{listing_hides_secret}

renames : (update_field default_config "appName" "Post" true).1 ≡ none
unfolding update_field update_field_from key_of attrs_of fields is_internal
renames = refl

field_by_key-update_field_example :
    field_by_key (update_field default_config "appName" "Post" true).0 "smtpHost" ≡ (
      if str_eq "appName" "smtpHost"
      then ("Post", (field_by_key default_config "appName").1, none)
      else field_by_key default_config "smtpHost")
field_by_key-update_field_example =
    field_by_key-update_field default_config "appName" "smtpHost" "Post" true renames

full : (s : String) → str_eq s "" ≡ false → s ≢ ""
full s h e = ground (arith, (eq_iff s "").1 e, h)

listing_hides_secret_example :
    to_app_config_variable_slice true (set_value default_config smtp_password "hunter2") true true
    ≡ to_app_config_variable_slice true
        (set_value default_config smtp_password "swordfish")
        true
        true
listing_hides_secret_example =
    listing_hides_secret default_config "hunter2" "swordfish" true (full "hunter2" refl)
      (full "swordfish" refl)

abbrev hour : AppConfigVariable
hour = record { key = "sessionDuration"; value = "60" }

sixty : codes hour.value ≡ itoa 60
unfolding itoa
sixty = refl

abbrev ages : AppConfigVariable
ages = record { key = "sessionDuration"; value = "153722868" }

-- One minute more than fits is a duration below zero.
ages_negative : as_duration_minutes ages ≡ negsuc 9_223_371_993_709_551_615
unfolding as_duration_minutes vocy.Prelude.all_decimal vocy.Prelude.number_from
ages_negative = refl
