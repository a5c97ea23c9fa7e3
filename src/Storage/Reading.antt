-- ===== src/Storage/Reading.antt =====
-- `NewFilesystemStorage`, `Open` and `List` (backend/internal/storage/filesystem.go).
use vocy.Prelude.{
  ℕ, Bool, true, false, not, ◌||◌, Option, none, some, List, [], ◌∷◌, ◌++◌, Result, ok, err, ◌>>=◌,
  wrap, check, codes, ◌==◌, if◌then◌else◌,
}
use vocy.Env.Schema.{Text, same, is_empty}
use vocy.Storage.Paths.{elements, drop_last, absolute, resolve, relative}
use vocy.Storage.Walk.{ObjectInfo}

pub data NewError (E : Type 0) : Type 0 where
  not_created not_opened no_absolute_path : E → NewError E

-- `filesystemStorage`: the handle of the root (`os.Root`), and its absolute path.
pub record FilesystemStorage (R : Type 0) : Type 0 where
  pub root : R
  pub absolute_root_path : Text

-- `NewFilesystemStorage`, by what `os.MkdirAll`, `os.OpenRoot` and `filepath.Abs` return.
unfoldable pub new_filesystem_storage :
    {E R : Type 0}
    → Option E
    → Result E R
    → Result E Text
    → Result (NewError E) (FilesystemStorage R)
new_filesystem_storage mkdir open_root abs = check not_created mkdir >>= λ made.
    wrap not_opened open_root >>= λ root.
    wrap no_absolute_path abs >>= λ path. ok (record { root = root; absolute_root_path = path })

-- A handle that is left open or closed by the call.
pub data Handle (F : Type 0) : Type 0 where
  not_open : Handle F
  closed left_open : F → Handle F

-- `Open`, by what `Open` and `Stat` return: the handle that the call leaves, and the result, with the
-- size.
unfoldable pub open_file :
    {E F : Type 0} → Result E F → (F → Result E ℕ) → Handle F × Result E (F × ℕ)
open_file opened stat = elim opened [
  | err e ↦ (not_open, err e)
  | ok f ↦ elim (stat f) [ err e ↦ (closed f, err e) | ok size ↦ (left_open f, ok (f, size)) ]
]

-- `filepath.Clean` of a relative path keeps each `..` that has nothing before it to take away.
unfoldable pub last_is_up : List Text → Bool
last_is_up [] = true
last_is_up (e ∷ []) = same e (codes "..")
last_is_up (e ∷ f ∷ es) = last_is_up (f ∷ es)

unfoldable pub enter_relative : List Text → Text → List Text
unfolding last_is_up drop_last
enter_relative before e =
    if is_empty e || same e (codes ".")
    then before
    else if not (same e (codes "..")) || last_is_up before
    then before ++ e ∷ []
    else drop_last before

unfoldable pub resolve_relative : List Text → List Text → List Text
unfolding enter_relative
resolve_relative before [] = before
resolve_relative before (e ∷ es) = resolve_relative (enter_relative before e) es

abbrev pub is_rooted : Text → Bool
is_rooted [] = false
is_rooted (c ∷ s) = c == b'/'

unfoldable pub clean_any : Text → Text
unfolding absolute resolve relative resolve_relative
clean_any path =
    if is_rooted path
    then absolute (resolve [] (elements path))
    else relative (resolve_relative [] (elements path))

-- `filepath.Join(path, name)` for a name, which is not empty.
unfoldable pub join_any : Text → Text → Text
unfolding clean_any
join_any path name = clean_any (if is_empty path then name else path ++ codes "/" ++ name)

-- An entry of a directory: its name, whether it is one itself, and what `Info` returns.
pub record DirEntry (E : Type 0) : Type 0 where
  pub name : Text
  pub is_dir : Bool
  pub info : Result E (ℕ × ℕ)

abbrev pub info_at : Text → Text → ℕ × ℕ → ObjectInfo
info_at path name (size, mod_time) = record {
  path = join_any path name;
  size = size;
  mod_time = mod_time;
}

-- The loop of `List`, with the objects so far.
unfoldable pub list_entries :
    {E : Type 0} → Text → List (DirEntry E) → List ObjectInfo → Result E (List ObjectInfo)
unfolding join_any
list_entries path [] found = ok found
list_entries path (e ∷ es) found = if e.is_dir then list_entries path es found else elim e.info [
  | err x ↦ err x
  | ok info ↦ list_entries path es (found ++ info_at path e.name info ∷ [])
]

-- `List`, by what the opening of the directory and `ReadDir` return.
unfoldable pub list :
    {E : Type 0} → Text → Option E → Result E (List (DirEntry E)) → Result E (List ObjectInfo)
unfolding list_entries
list path opened entries = elim opened [
  | some e ↦ err e
  | none ↦ entries >>= λ es. list_entries path es []
]
