-- ===== src/Env/Prepare.antt =====
-- `prepareEnvConfig` (backend/internal/common/env_config.go): the options of the fields' tags.
use vocy.Prelude.{Option, none, some, List, [], ◌∷◌, ◌++◌, map, codes, ◌==◌, if◌then◌else◌}
use vocy.Utils.CaseStyle.{to_lower}
use vocy.Env.Schema.{Text, EnvConfigSchema, is_empty, same, split_at, trim_right, trim_space}

-- The environment (`os.Getenv`, empty for a variable that is not set) and the files, `none` for one
-- that cannot be read.
pub record Surroundings : Type 0 where
  pub getenv : Text → Text
  pub read_file : Text → Option Text

pub data PrepareError : Type 0 where
  unreadable_file : Text → PrepareError

-- What a field with the option `file` is.
pub data Kind : Type 0 where
  string byte_slice : Kind

abbrev pub content_of : Kind → Text → Text
content_of string content = trim_space content
content_of byte_slice content = content

-- `resolveFileBasedEnvVariable` for a field with the tag `env:"name"` and one of the two kinds. The
-- source cuts the tag at its own length, so a tag with a comma would be taken whole.
unfoldable pub resolve_file_based_env_variable :
    Surroundings → Kind → Text → Text → Text × Option PrepareError
resolve_file_based_env_variable os kind name old =
    let path = os.getenv (name ++ codes "_FILE") in
    if is_empty path then (old, none) else elim (os.read_file path) [
      | none ↦ (old, some (unreadable_file (name ++ codes "_FILE")))
      | some content ↦ (content_of kind content, none)
    ]

-- The fields whose tags have options. No other field changes.
pub data OptionField : Type 0 where
  app_env encryption_key app_url db_connection_string static_api_key file_backend host log_level :
      OptionField

unfoldable pub option_fields : List OptionField
option_fields =
    app_env ∷ encryption_key ∷ app_url ∷ db_connection_string ∷ static_api_key ∷ file_backend ∷ host
    ∷ log_level ∷ []

unfoldable pub get : EnvConfigSchema → OptionField → Text
get c app_env = c.app_env
get c encryption_key = c.encryption_key
get c app_url = c.app_url
get c db_connection_string = c.db_connection_string
get c static_api_key = c.static_api_key
get c file_backend = c.file_backend
get c host = c.host
get c log_level = c.log_level

unfoldable pub set : EnvConfigSchema → OptionField → Text → EnvConfigSchema
set c app_env v = record c { app_env = v }
set c encryption_key v = record c { encryption_key = v }
set c app_url v = record c { app_url = v }
set c db_connection_string v = record c { db_connection_string = v }
set c static_api_key v = record c { static_api_key = v }
set c file_backend v = record c { file_backend = v }
set c host v = record c { host = v }
set c log_level v = record c { log_level = v }

abbrev pub lower : Text → Text
lower = map to_lower

-- `strings.TrimRight(s, "/")`.
abbrev pub trim_trailing_slash : Text → Text
trim_trailing_slash = trim_right (λ c. c == b'/')

-- The tags of a field, `env` and `options`.
pub record Tag : Type 0 where
  pub env : Text
  pub options : Text

unfoldable pub tag_of : OptionField → Tag
tag_of app_env = record { env = codes "APP_ENV"; options = codes "toLower" }
tag_of encryption_key = record { env = codes "ENCRYPTION_KEY"; options = codes "file" }
tag_of app_url = record { env = codes "APP_URL"; options = codes "toLower,trimTrailingSlash" }
tag_of db_connection_string = record { env = codes "DB_CONNECTION_STRING"; options = codes "file" }
tag_of static_api_key = record { env = codes "STATIC_API_KEY"; options = codes "file" }
tag_of file_backend = record { env = codes "FILE_BACKEND"; options = codes "toLower" }
tag_of host = record { env = codes "HOST"; options = codes "toLower" }
tag_of log_level = record { env = codes "LOG_LEVEL"; options = codes "toLower" }

-- `field.Kind()`.
unfoldable pub kind_of : OptionField → Kind
kind_of encryption_key = byte_slice
kind_of _ = string

-- A change of the fields that are strings.
abbrev pub if_string : Kind → (Text → Text) → Text → Text
if_string string change v = change v
if_string byte_slice change v = v

-- The `switch` on an option.
unfoldable pub apply_option : Surroundings → Kind → Text → Text → Text → Text × Option PrepareError
unfolding resolve_file_based_env_variable
apply_option os kind env option v =
    if same option (codes "toLower")
    then (if_string kind lower v, none)
    else if same option (codes "file")
    then resolve_file_based_env_variable os kind env v
    else if same option (codes "trimTrailingSlash")
    then (if_string kind trim_trailing_slash v, none)
    else (v, none)

-- The loop over the options.
unfoldable pub apply_options :
    Surroundings → Kind → Text → List Text → Text → Text × Option PrepareError
unfolding apply_option
apply_options os kind env [] v = (v, none)
apply_options os kind env (option ∷ options) v =
    let (v', e) = apply_option os kind env option v in
    let rest = apply_options os kind env options v' in
    elim e [ none ↦ rest | some x ↦ (v', some x) ]

-- What the tags of a field do to its value.
unfoldable pub prepare_field : Surroundings → OptionField → Text → Text × Option PrepareError
unfolding apply_options tag_of kind_of
prepare_field os f v =
    apply_options os (kind_of f) (tag_of f).env (split_at b',' (tag_of f).options) v

-- The loop over the fields.
unfoldable pub prepare_fields :
    Surroundings → List OptionField → EnvConfigSchema → EnvConfigSchema × Option PrepareError
unfolding prepare_field get set
prepare_fields os [] c = (c, none)
prepare_fields os (f ∷ fs) c =
    let (v, e) = prepare_field os f (get c f) in
    let rest = prepare_fields os fs (set c f v) in
    elim e [ none ↦ rest | some x ↦ (set c f v, some x) ]

unfoldable pub prepare_env_config :
    Surroundings → EnvConfigSchema → EnvConfigSchema × Option PrepareError
unfolding prepare_fields option_fields
prepare_env_config os = prepare_fields os option_fields
