-- ===== src/Sqlite/Folders.antt =====
-- `ensureSqliteDatabaseDir`, `ensureSqliteTempDir` and the retries of `ConnectDatabase`
-- (backend/internal/bootstrap/db_bootstrap.go).
use vocy.Prelude.{
  ℕ, zero, suc, ◌+◌, ◌≡◌, ◌⊎◌, Bool, true, false, not, ◌||◌, Option, none, some, List, [], ◌∷◌,
  Result, ok, err, Result-cases, codes, arith, inl, inr, if◌then◌else◌,
}
use vocy.Env.Schema.{Text, same, is_empty}

-- What `os.Stat` says of a path.
pub data Stat (E : Type 0) : Type 0 where
  is_directory not_directory missing : Stat E
  unknown : E → Stat E

pub data FolderError (E : Type 0) : Type 0 where
  no_directory : FolderError E
  create_failed check_failed set_failed : E → FolderError E

-- `ensureSqliteDatabaseDir`: what `os.Stat` says of the directory, and the error of `os.MkdirAll`.
-- The result is whether the directory was created, and the error.
unfoldable pub ensure_sqlite_database_dir :
    {E : Type 0} → Stat E → Option E → Bool × Option (FolderError E)
ensure_sqlite_database_dir is_directory mkdir = (false, none)
ensure_sqlite_database_dir not_directory mkdir = (false, some no_directory)
ensure_sqlite_database_dir missing none = (true, none)
ensure_sqlite_database_dir missing (some e) = (false, some (create_failed e))
ensure_sqlite_database_dir (unknown e) mkdir = (false, some (check_failed e))

-- The environment's variables.
abbrev pub Variables : Type 0
Variables = Text → Text

abbrev pub temp_dirs : List Text
temp_dirs = codes "/var/tmp" ∷ codes "/usr/tmp" ∷ codes "/tmp" ∷ []

-- The loop over the directories: whether one of them is writable.
unfoldable pub find_writable :
    {E : Type 0} → (Text → Result E Bool) → List Text → Result (FolderError E) Bool
find_writable is_writable_dir [] = ok false
find_writable is_writable_dir (dir ∷ dirs) =
    let rest = find_writable is_writable_dir dirs in
    elim (is_writable_dir dir) [
      | err e ↦ err (check_failed e)
      | ok writable ↦ if writable then ok true else rest
    ]

-- `os.Setenv("SQLITE_TMPDIR", path)`.
abbrev pub with_temp_dir : Variables → Text → Variables
with_temp_dir env path name = if same name (codes "SQLITE_TMPDIR") then path else env name

-- `ensureSqliteTempDir`; `setenv` is the error of `os.Setenv`, which then has set nothing.
unfoldable pub ensure_sqlite_temp_dir :
    {E : Type 0}
    → (Text → Result E Bool)
    → Option E
    → Variables
    → Text
    → Variables × Option (FolderError E)
unfolding find_writable
ensure_sqlite_temp_dir is_writable_dir setenv env db_path =
    if not (is_empty (env (codes "SQLITE_TMPDIR"))) || not (is_empty (env (codes "TMPDIR")))
    then (env, none)
    else elim (find_writable is_writable_dir temp_dirs) [
      | err e ↦ (env, some e)
      | ok found ↦ if found then (env, none) else elim setenv [
        | some e ↦ (env, some (set_failed e))
        | none ↦ (with_temp_dir env db_path, none)
      ]
    ]

-- The loop of `ConnectDatabase` over attempts of `gorm.Open`, with `left` of them to go.
unfoldable pub connect_from :
    {E C : Type 0} → ℕ → ℕ → (ℕ → Result E C) → Option E → Result (Option E) C
connect_from zero i opens last = err last
connect_from (suc left) i opens last = elim (opens i) [
  | ok db ↦ ok db
  | err e ↦ connect_from left (i + 1) opens (some e)
]

-- From the first attempt on, three of them.
unfoldable pub connect_with_retries : {E C : Type 0} → (ℕ → Result E C) → Result (Option E) C
unfolding connect_from
connect_with_retries opens = connect_from 3 1 opens none

-- A directory of the list that is writable.
abbrev pub SomeWritable : {E : Type 0} → (Text → Result E Bool) → List Text → Type 0
SomeWritable is_writable_dir [] = ⊥
SomeWritable is_writable_dir (dir ∷ dirs) =
    (is_writable_dir dir ≡ ok true) ⊎ SomeWritable is_writable_dir dirs

module _ {E : Type 0} (is_writable_dir : Text → Result E Bool) where
  pub find_writable-SomeWritable :
      (dirs : List Text)
      → find_writable is_writable_dir dirs ≡ ok true
      → SomeWritable is_writable_dir dirs
  unfolding find_writable
  find_writable-SomeWritable [] h = ground arith
  find_writable-SomeWritable (dir ∷ dirs) h = elim (Result-cases (is_writable_dir dir)) [
    | inl (true, e) ↦ inl e
    | inl (false, e) ↦ inr (find_writable-SomeWritable dirs (rw (e, find_writable) at h))
    | inr (x, e) ↦ absurd (ground (arith, rw (e, find_writable) at h))
  ]
