-- ===== src/Sqlite/Connecting.antt =====
-- `parseSqliteConnectionString` and `ConnectDatabase`
-- (backend/internal/bootstrap/db_bootstrap.go). The functions of `net/url`, gorm and the operating
-- system are arguments.
pub mod Connected
use vocy.Prelude.{
  ℕ, zero, suc, ◌+◌, Bool, true, false, not, Option, none, some, List, [], ◌∷◌, ◌++◌, Result, ok,
  err, ◌>>=◌, wrap, check, drop, codes, ◌==◌, if◌then◌else◌,
}
use vocy.Env.Schema.{
  Text, EnvConfigSchema, db_provider_sqlite, db_provider_postgres, same, is_empty, has_prefix,
}
use vocy.Storage.Paths.{elements, drop_last, absolute, names}
use vocy.Sqlite.Values.{Values}
use vocy.Sqlite.Options.{
  SqliteError, convert_sqlite_pragma_args, add_sqlite_default_parameters, is_sqlite_in_memory,
}
use vocy.Sqlite.Folders.{
  Stat, FolderError, Variables, ensure_sqlite_database_dir, ensure_sqlite_temp_dir,
  connect_with_retries,
}

pub data Dialector : Type 0 where
  sqlite postgres : Text → Dialector

-- What is outside: `url.Parse` and `URL.String` on the part before the query and the query,
-- `url.ParseQuery`, `filepath.Abs`; `os.Stat` and `os.MkdirAll` on the folder of the database;
-- `utils.IsWritableDir`, `os.Setenv` and the environment; `gorm.Open` at each attempt, and
-- `db.DB()` on what it returns.
pub record Outside (E C : Type 0) : Type 0 where
  pub parse_url : Text → Result E (Text × Values)
  pub print_url : Text × Values → Text
  pub parse_query : Text → Values
  pub abs : Text → Result E Text
  pub stat : Text → Stat E
  pub mkdir : Option E
  pub is_writable_dir : Text → Result E Bool
  pub setenv : Option E
  pub variables : Variables
  pub opens : Dialector → ℕ → Result E C
  pub sql_db : C → Option E

pub data ConnectError (E : Type 0) : Type 0 where
  not_parsed not_absolute : E → ConnectError E
  invalid_options : SqliteError → ConnectError E
  no_connection_string : ConnectError E
  unsupported_provider : Text → ConnectError E
  no_database_dir no_temp_dir : FolderError E → ConnectError E
  not_connected : Option E → ConnectError E

-- What `parseSqliteConnectionString` returns.
pub record Parsed : Type 0 where
  pub conn_string : Text
  pub db_path : Text
  pub is_memory_db : Bool

-- The text before the first question mark.
unfoldable pub before_query : Text → Text
before_query [] = []
before_query (c ∷ s) = let rest = before_query s in if c == b'?' then [] else c ∷ rest

abbrev pub with_scheme : Text → Text
with_scheme s = if has_prefix s (codes "file:") then s else codes "file:" ++ s

-- `filepath.Dir` of a clean absolute path.
unfoldable pub dir : Text → Text
dir path = absolute (drop_last (names (elements path)))

-- What the connection is made for: the dialector, and whether it is limited to one connection.
pub record Plan : Type 0 where
  pub dialector : Dialector
  pub is_single : Bool

-- `ConnectDatabase` ends with a connection, the limit on its open connections and the variables of
-- the environment, or with an error, or it panics as it sets the limit on no connection.
pub data Outcome (E C : Type 0) : Type 0 where
  connected : C → Option ℕ → Outcome E C
  fails : ConnectError E → Outcome E C
  panics : Outcome E C

module _ {E C : Type 0} (os : Outside E C) where
  unfoldable pub parse_sqlite_connection_string : Text → Result (ConnectError E) Parsed
  unfolding before_query
  parse_sqlite_connection_string given =
      let conn_string = with_scheme given in
      let memory = is_sqlite_in_memory os.parse_query conn_string in
      wrap not_parsed (os.parse_url conn_string) >>= λ url.
      wrap invalid_options (add_sqlite_default_parameters (convert_sqlite_pragma_args url.1) memory)
      >>= λ qs.
          let parsed = os.print_url (url.0, qs) in
          wrap not_absolute (os.abs (before_query (drop 5 parsed))) >>= λ path.
          ok (record { conn_string = parsed; db_path = path; is_memory_db = memory })

  -- The folders of a database in a file, and the one for temporary files.
  unfoldable pub ensure_folders : Parsed → Result (ConnectError E) (Unit {0})
  unfolding dir
  ensure_folders p =
      (if p.is_memory_db
        then ok tt
        else check no_database_dir
            (ensure_sqlite_database_dir (os.stat (dir p.db_path)) os.mkdir).1)
      >>= λ made.
          check no_temp_dir
            (ensure_sqlite_temp_dir os.is_writable_dir os.setenv os.variables (dir p.db_path)).1

  -- The `switch` of `ConnectDatabase`.
  unfoldable pub choose : EnvConfigSchema → Result (ConnectError E) Plan
  unfolding parse_sqlite_connection_string ensure_folders
  choose config =
      if same config.db_provider db_provider_sqlite
      then (if is_empty config.db_connection_string
          then err no_connection_string
          else (parse_sqlite_connection_string config.db_connection_string >>= λ p.
              ensure_folders p >>= λ made.
              ok (record { dialector = sqlite p.conn_string; is_single = p.is_memory_db })))
      else if same config.db_provider db_provider_postgres
      then (if is_empty config.db_connection_string
          then err no_connection_string
          else ok (record { dialector = postgres config.db_connection_string; is_single = false }))
      else err (unsupported_provider config.db_provider)

  -- `onConnFn`. Where `db.DB()` fails, its connection is nil.
  abbrev pub limited : Bool → C → Outcome E C
  limited false c = connected c none
  limited true c = elim (os.sql_db c) [ none ↦ connected c (some 1) | some e ↦ panics ]

  abbrev pub opened : Bool → Result (Option E) C → Outcome E C
  opened single (err e) = fails (not_connected e)
  opened single (ok c) = limited single c

  abbrev pub connect_plan : Result (ConnectError E) Plan → Outcome E C
  connect_plan (err e) = fails e
  connect_plan (ok plan) = opened plan.is_single (connect_with_retries (os.opens plan.dialector))

  unfoldable pub connect_database : EnvConfigSchema → Outcome E C
  unfolding choose
  connect_database config = connect_plan (choose config)
