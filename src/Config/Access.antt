-- ===== src/Config/Access.antt =====
-- The operations of `AppConfig` (backend/internal/model/app_config.go): `FieldByKey`,
-- `UpdateField`, `ToAppConfigVariableSlice` and `IsTrue`. An operation that returns an `error`
-- beside a changed receiver returns both.
pub mod Lookup
pub mod Update
pub mod Listing
use vocy.Prelude.{
  String, Bool, true, false, not, ◌&&◌, ◌||◌, Option, none, some, List, [], ◌∷◌, str_eq, split,
  contains, if◌then◌else◌,
}
use vocy.Config.Field.{Field, fields, key_tag, key_of, attrs_of}
use vocy.Config.Values.{AppConfig, AppConfigVariable, set_value}

pub data ConfigError : Type 0 where
  key_not_found internal_forbidden : String → ConfigError

-- The second reading of a tag, `slices.Contains(strings.Split(tag, ","), "internal")`.
unfoldable pub is_internal : Field → Bool
unfolding key_tag split contains
is_internal f = contains (split (key_tag f) b',') "internal"

-- The loop of `FieldByKey`: the value, whether the field is internal, and the error.
unfoldable pub field_by_key_from :
    List Field → AppConfig → String → String × Bool × Option ConfigError
field_by_key_from [] c key = ("", false, some (key_not_found key))
field_by_key_from (f ∷ fs) c key =
    let rest = field_by_key_from fs c key in
    if not (str_eq (key_of f) key) then rest else ((c f).value, is_internal f, none)

unfoldable pub field_by_key : AppConfig → String → String × Bool × Option ConfigError
unfolding field_by_key_from
field_by_key = field_by_key_from fields

-- The loop of `UpdateField`. `CanSet` holds of every field of a struct behind a pointer, so the
-- branch on it has no case here.
unfoldable pub update_field_from :
    List Field → AppConfig → String → String → Bool → AppConfig × Option ConfigError
update_field_from [] c key value no_internal = (c, some (key_not_found key))
update_field_from (f ∷ fs) c key value no_internal =
    let rest = update_field_from fs c key value no_internal in
    if not (str_eq (key_of f) key)
    then rest
    else if no_internal && str_eq (attrs_of f) "internal"
    then (c, some (internal_forbidden key))
    else (set_value c f value, none)

unfoldable pub update_field : AppConfig → String → String → Bool → AppConfig × Option ConfigError
unfolding update_field_from
update_field = update_field_from fields

-- The value that the listing shows: a sensitive value is redacted if the UI configuration is
-- disabled.
unfoldable pub shown_value : Bool → Bool → Field → String → String
shown_value ui_config_disabled redact f value =
    if not (str_eq value "") && ui_config_disabled && redact && str_eq (attrs_of f) "sensitive"
    then "XXXXXXXXXX"
    else value

-- The loop of `ToAppConfigVariableSlice`; `ui_config_disabled` is `common.EnvConfig`'s.
unfoldable pub to_slice_from : Bool → List Field → AppConfig → Bool → Bool → List AppConfigVariable
unfolding shown_value
to_slice_from ui [] c show_all redact = []
to_slice_from ui (f ∷ fs) c show_all redact =
    let rest = to_slice_from ui fs c show_all redact in
    if str_eq (key_of f) ""
    then rest
    else if not show_all && not (str_eq (attrs_of f) "public")
    then rest
    else record { key = key_of f; value = shown_value ui redact f (c f).value } ∷ rest

unfoldable pub to_app_config_variable_slice :
    Bool → AppConfig → Bool → Bool → List AppConfigVariable
unfolding to_slice_from
to_app_config_variable_slice ui c show_all redact = to_slice_from ui fields c show_all redact

-- `strconv.ParseBool`, whose error leaves `false`.
unfoldable pub is_true : AppConfigVariable → Bool
unfolding contains
is_true v = contains ("1" ∷ "t" ∷ "T" ∷ "TRUE" ∷ "true" ∷ "True" ∷ []) v.value
