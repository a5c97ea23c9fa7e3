-- ===== src/Sqlite/Options.antt =====
-- `convertSqlitePragmaArgs`, `addSqliteDefaultParameters` and `isSqliteInMemory`
-- (backend/internal/bootstrap/db_bootstrap.go).
use vocy.Prelude.{
  Bool, true, false, ◌||◌, Option, none, some, List, [], ◌∷◌, ◌++◌, Result, ok, err, codes, ◌==◌,
  if◌then◌else◌,
}
use vocy.Env.Schema.{Text, same, has_prefix}
use vocy.Env.Prepare.{lower}
use vocy.Sqlite.Values.{Values, values_of, put, add, first}

-- The pragma that an option of the older driver stands for; the option is in lower case.
unfoldable pub pragma_of : Text → Option Text
pragma_of k =
    if same k (codes "_auto_vacuum") || same k (codes "_vacuum")
    then some (codes "auto_vacuum")
    else if same k (codes "_busy_timeout") || same k (codes "_timeout")
    then some (codes "busy_timeout")
    else if same k (codes "_case_sensitive_like") || same k (codes "_cslike")
    then some (codes "case_sensitive_like")
    else if same k (codes "_foreign_keys") || same k (codes "_fk")
    then some (codes "foreign_keys")
    else if same k (codes "_locking_mode") || same k (codes "_locking")
    then some (codes "locking_mode")
    else if same k (codes "_secure_delete")
    then some (codes "secure_delete")
    else if same k (codes "_synchronous") || same k (codes "_sync")
    then some (codes "synchronous")
    else none

abbrev pub call : Text → Text → Text
call name argument = name ++ codes "(" ++ argument ++ codes ")"

-- One round of the loop of `convertSqlitePragmaArgs`.
unfoldable pub convert_option : Values → Text → List Text → Values
unfolding pragma_of
convert_option qs k v = elim (pragma_of (lower k)) [
  | none ↦ put qs k v
  | some name ↦ add qs (codes "_pragma") (call name (first v))
]

unfoldable pub convert_options : Values → Values → Values
unfolding convert_option
convert_options [] qs = qs
convert_options ((k, v) ∷ query) qs = convert_options query (convert_option qs k v)

-- `convertSqlitePragmaArgs`, from the query to the new one.
unfoldable pub convert_sqlite_pragma_args : Values → Values
unfolding convert_options
convert_sqlite_pragma_args query = convert_options query []

-- The first value of an option in lower case, in place of all its values, if it has one.
unfoldable pub keep_first : Text → Values → Values
keep_first k qs = elim (values_of qs k) [ [] ↦ qs | v ∷ vs ↦ put qs k (lower v ∷ []) ]

unfoldable pub is_value : Values → Text → Text → Bool
is_value qs k expected = elim (values_of qs k) [ [] ↦ false | v ∷ vs ↦ same v expected ]

pub data SqliteError : Type 0 where
  forbidden_foreign_keys : SqliteError

-- The loop over the pragmas: whether one sets the busy timeout, whether one sets the journal mode.
unfoldable pub scan_pragmas : List Text → Bool → Bool → Result SqliteError (Bool × Bool)
scan_pragmas [] busy journal = ok (busy, journal)
scan_pragmas (p ∷ ps) busy journal =
    let has_busy = scan_pragmas ps true journal in
    let has_journal = scan_pragmas ps busy true in
    let rest = scan_pragmas ps busy journal in
    if has_prefix (lower p) (codes "busy_timeout")
    then has_busy
    else if has_prefix (lower p) (codes "journal_mode")
    then has_journal
    else if has_prefix (lower p) (codes "foreign_keys")
    then err forbidden_foreign_keys
    else rest

unfoldable pub journal_pragma : Bool → Bool → Text
journal_pragma is_memory_db is_read_only =
    if is_memory_db
    then codes "journal_mode(MEMORY)"
    else if is_read_only
    then codes "journal_mode(DELETE)"
    else codes "journal_mode(WAL)"

-- The pragmas with the defaults and foreign keys behind them.
unfoldable pub complete_pragmas : List Text → Bool × Bool → Bool → Bool → List Text
unfolding journal_pragma
complete_pragmas ps (busy, journal) is_memory_db is_read_only =
    ps
    ++ (if busy then [] else codes "busy_timeout(2500)" ∷ [])
    ++ (if journal then [] else journal_pragma is_memory_db is_read_only ∷ [])
    ++ codes "foreign_keys(1)" ∷ []

-- `_txlock`, kept in lower case or set.
unfoldable pub with_txlock : Values → Values
with_txlock qs = elim (values_of qs (codes "_txlock")) [
  | [] ↦ put qs (codes "_txlock") (codes "immediate" ∷ [])
  | v ∷ vs ↦ put qs (codes "_txlock") (lower v ∷ [])
]

-- `addSqliteDefaultParameters`, on the query.
unfoldable pub add_sqlite_default_parameters : Values → Bool → Result SqliteError Values
unfolding keep_first is_value scan_pragmas complete_pragmas with_txlock
add_sqlite_default_parameters query is_memory_db =
    let qs = keep_first (codes "immutable") (keep_first (codes "mode") query) in
    let is_read_only =
      is_value qs (codes "mode") (codes "ro") || is_value qs (codes "immutable") (codes "1") in
    let locked = with_txlock qs in
    let ps = values_of locked (codes "_pragma") in
    elim (scan_pragmas ps false false) [
      | err e ↦ err e
      | ok found ↦
          ok (put locked (codes "_pragma") (complete_pragmas ps found is_memory_db is_read_only))
    ]

-- The text behind the first question mark.
unfoldable pub query_of : Text → Option Text
query_of [] = none
query_of (c ∷ s) = let rest = query_of s in if c == b'?' then some s else rest

-- `isSqliteInMemory`; `parse_query` is `url.ParseQuery`, whose error the source drops.
unfoldable pub is_sqlite_in_memory : (Text → Values) → Text → Bool
unfolding query_of is_value
is_sqlite_in_memory parse_query conn_string =
    let lc = lower conn_string in
    if has_prefix lc (codes ":memory:") || has_prefix lc (codes "file::memory:")
    then true
    else elim (query_of lc) [
      | none ↦ false
      | some query ↦ is_value (parse_query query) (codes "mode") (codes "memory")
    ]
