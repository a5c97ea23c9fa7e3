-- ===== src/Sqlite/Tests.antt =====
-- Tests and witnesses on the database bootstrap (backend/internal/bootstrap/db_bootstrap.go).
use vocy.Prelude.{
  All, ℕ, true, drop, ◌++◌, ◌≡◌, ◌≢◌, refl, Bool, false, none, arith, if◌then◌else◌, ◌==◌, [], ◌∷◌,
  Result, ok, err, codes,
}
use vocy.Env.Schema.{Text, same, has_prefix}
use vocy.Utils.CaseStyle.{to_lower, is_upper}
use vocy.Sqlite.Values.{Values, values_of, put}
use vocy.Sqlite.Options.{
  SqliteError, call, convert_sqlite_pragma_args, add_sqlite_default_parameters, keep_first,
  is_value, scan_pragmas, with_txlock,
}
use vocy.Sqlite.Folders.{
  Variables, temp_dirs, with_temp_dir, find_writable, ensure_sqlite_temp_dir, connect_with_retries,
  SomeWritable,
}
use vocy.Sqlite.Folders.{missing}
use vocy.Sqlite.Connecting.{Dialector, Outside, connected, connect_database}
use vocy.Env.Schema.{EnvConfigSchema, default_config, db_provider_sqlite}

abbrev query : Values
query = (codes "mode", codes "RO" ∷ []) ∷ (codes "_pragma", codes "busy_timeout(100)" ∷ []) ∷ []

abbrev values : Result SqliteError Values → Values
values (ok qs) = qs
values (err e) = []

completes :
    add_sqlite_default_parameters query false
    ≡ ok (values (add_sqlite_default_parameters query false))
unfolding add_sqlite_default_parameters keep_first is_value scan_pragmas with_txlock values_of put
    same has_prefix to_lower is_upper
completes = refl

-- Two options of the older form around another one.
abbrev old_query : Values
old_query =
    (codes "_FK", codes "1" ∷ [])
    ∷ (codes "mode", codes "ro" ∷ [])
    ∷ (codes "_sync", codes "2" ∷ [])
    ∷ []

no_pragma : All (λ o. same o.0 (codes "_pragma") ≡ false) old_query
unfolding same
no_pragma = (refl, (refl, (refl, tt)))

-- No directory is writable.
abbrev no_dir : Text → Result Text Bool
no_dir dir = ok false

abbrev unset : Variables
unset name = []

abbrev data_dir : Text
data_dir = codes "data"

set_up : ensure_sqlite_temp_dir no_dir none unset data_dir ≡ (with_temp_dir unset data_dir, none)
unfolding ensure_sqlite_temp_dir find_writable
set_up = refl

named : data_dir ≢ []
named e = ground arith

-- The second attempt succeeds.
abbrev second : ℕ → Result Text ℕ
second k = if k == 2 then ok 7 else err (codes "refused")

-- The second attempt succeeds.
abbrev pub opens_second : Dialector → ℕ → Result Text Text
opens_second d k = if k == 2 then ok (codes "db") else err (codes "busy")

abbrev pub outside : Outside Text Text
outside = record {
  parse_url = λ s. ok (drop 5 s, []);
  print_url = λ (path, qs). codes "file:" ++ path ++ codes "?_txlock=immediate";
  parse_query = λ s. [];
  abs = λ path. ok (codes "/app/" ++ path);
  stat = λ path. missing;
  mkdir = none;
  is_writable_dir = λ path. ok true;
  setenv = none;
  variables = λ name. [];
  opens = opens_second;
  sql_db = λ c. none;
}

abbrev pub file_config : EnvConfigSchema
file_config = record default_config { db_connection_string = codes "data/vocy.db" }

pub connects_second : connect_database outside file_config ≡ connected (codes "db") none
unfolding connect_database same add_sqlite_default_parameters values_of convert_sqlite_pragma_args
    put vocy.Sqlite.Options.is_sqlite_in_memory has_prefix to_lower
    vocy.Sqlite.Folders.ensure_sqlite_database_dir ensure_sqlite_temp_dir connect_with_retries
connects_second = refl

pub names_sqlite : same file_config.db_provider db_provider_sqlite ≡ true
unfolding same
names_sqlite = refl
