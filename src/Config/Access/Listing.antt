-- ===== src/Config/Access/Listing.antt =====
-- What `ToAppConfigVariableSlice` shows, and to whom.
use vocy.Prelude.{
  String, ◌≡◌, ◌≢◌, refl, ap, fun_ext, Bool, true, false, not, ◌&&◌, ◌||◌, List, [], ◌∷◌, map,
  str_eq, eq_iff, arith, inl, inr, Bool-cases, if◌then◌else◌,
}
use vocy.Config.Field.{Field, Field-discrete, fields, key_of, attrs_of, smtp_password}
use vocy.Config.Values.{AppConfig, AppConfigVariable, set_value}
use vocy.Config.Access.{to_app_config_variable_slice, to_slice_from, shown_value}
use vocy.Config.Access.Lookup.{set_value_self, set_value_ne}

-- The fields that the source marks as public.
abbrev pub public_fields : List Field
public_fields =
    Field.app_name ∷ Field.home_page_url ∷ Field.accent_color ∷ Field.disable_animations
    ∷ Field.allow_own_account_edit ∷ Field.allow_user_signups ∷ Field.require_user_email
    ∷ Field.email_one_time_access_as_unauthenticated_enabled
    ∷ Field.email_one_time_access_as_admin_enabled ∷ Field.email_verification_enabled ∷ []

is_shown : Bool → Field → Bool
is_shown show_all f = not (str_eq (key_of f) "") && (show_all || str_eq (attrs_of f) "public")

-- The variable that the listing makes of a field.
abbrev pub listed : Bool → Bool → AppConfig → Field → AppConfigVariable
listed ui redact c f = record { key = key_of f; value = shown_value ui redact f (c f).value }

shown_fields : Bool → List Field → List Field
shown_fields show_all [] = []
shown_fields show_all (f ∷ fs) =
    let rest = shown_fields show_all fs in if is_shown show_all f then f ∷ rest else rest

to_slice_from-map :
    (ui : Bool) (fs : List Field) (c : AppConfig) (show_all redact : Bool)
    → to_slice_from ui fs c show_all redact ≡ map (listed ui redact c) (shown_fields show_all fs)
unfolding to_slice_from shown_fields is_shown
to_slice_from-map ui [] c show_all redact = refl
to_slice_from-map ui (f ∷ fs) c show_all redact =
    ground (arith, to_slice_from-map ui fs c show_all redact)

shown_public : shown_fields false fields ≡ public_fields
unfolding shown_fields is_shown fields key_of attrs_of
shown_public = refl

shown_all : shown_fields true fields ≡ fields
unfolding shown_fields is_shown fields key_of attrs_of
shown_all = refl

not_sensitive :
    (f : Field) → str_eq (attrs_of f) "public" ≡ true → str_eq (attrs_of f) "sensitive" ≡ false
not_sensitive f h = elim (Bool-cases (str_eq (attrs_of f) "sensitive")) [
  | inl e ↦ cc ((eq_iff (attrs_of f) "public").0 h, (eq_iff (attrs_of f) "sensitive").0 e)
  | inr e ↦ e
]

-- A value that is neither empty nor secret to the listing stands in it as it is.
plain : AppConfig → Field → AppConfigVariable
plain c f = record { key = key_of f; value = (c f).value }

listed_public :
    (ui redact : Bool) (c : AppConfig) (fs : List Field)
    → map (listed ui redact c) (shown_fields false fs) ≡ map (plain c) (shown_fields false fs)
unfolding shown_fields is_shown shown_value plain
listed_public ui redact c [] = refl
listed_public ui redact c (f ∷ fs) = ground (arith, not_sensitive f, listed_public ui redact c fs)

-- A caller that may not see all variables gets exactly the public ones, in the order of the struct,
-- each with its value unchanged, whether or not redaction is asked for.
pub public_listing :
    (ui redact : Bool) (c : AppConfig)
    → to_app_config_variable_slice ui c false redact
      ≡ map (λ f. record { key = key_of f; value = (c f).value }) public_fields
unfolding to_app_config_variable_slice plain
public_listing ui redact c = rw (to_slice_from-map, listed_public, shown_public)

-- Without redaction the full listing has every field with its key and value.
pub full_listing :
    (ui : Bool) (c : AppConfig)
    → to_app_config_variable_slice ui c true false
      ≡ map (λ f. record { key = key_of f; value = (c f).value }) fields
unfolding to_app_config_variable_slice shown_value
full_listing ui c =
    rw (to_slice_from-map, shown_all)
      (ap (λ (g : Field → AppConfigVariable). map g fields) (fun_ext (λ f. ground arith)))

password_sensitive : str_eq (attrs_of smtp_password) "sensitive" ≡ true
unfolding attrs_of
password_sensitive = refl

listed_secret :
    (c : AppConfig) (v w : String) (f : Field)
    → v ≢ ""
    → w ≢ ""
    → listed true true (set_value c smtp_password v) f
      ≡ listed true true (set_value c smtp_password w) f
unfolding shown_value
listed_secret c v w f hv hw = elim (Field-discrete smtp_password f) [
  | yes p ↦
      rw (← p, set_value_self, set_value_self)
        (ground (arith, eq_iff v "", eq_iff w "", password_sensitive))
  | no n ↦ rw (set_value_ne c smtp_password f v n, set_value_ne c smtp_password f w n)
]

-- With the UI configuration disabled, a redacted listing is the same for any two passwords that are
-- not empty: it tells nothing of the SMTP password but that there is one.
pub listing_hides_secret :
    (c : AppConfig) (v w : String) (show_all : Bool)
    → v ≢ ""
    → w ≢ ""
    → to_app_config_variable_slice true (set_value c smtp_password v) show_all true
      ≡ to_app_config_variable_slice true (set_value c smtp_password w) show_all true
unfolding to_app_config_variable_slice
listing_hides_secret c v w show_all hv hw =
    rw (to_slice_from-map, to_slice_from-map)
      (ap (λ (g : Field → AppConfigVariable). map g (shown_fields show_all fields))
        (fun_ext (λ f. listed_secret c v w f hv hw)))
