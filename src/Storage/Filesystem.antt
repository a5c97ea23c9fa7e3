-- ===== src/Storage/Filesystem.antt =====
-- `filesystemStorage` (backend/internal/storage/filesystem.go): `Save`, `Delete` and `DeleteAll`. The
-- state is the content of the files below the root by their path; a directory matters only where a
-- call fails on it. On the systems with `/` as the separator `filepath.FromSlash` changes nothing.
use vocy.Prelude.{◌||◌, Option, none, some, List, [], ◌∷◌, ◌++◌, codes, if◌then◌else◌}
use vocy.Env.Schema.{Text, same, has_prefix, is_empty}

abbrev pub Files : Type 0
Files = Text → Option Text

abbrev pub with_file : Files → Text → Option Text → Files
with_file files name content q = if same q name then content else files q

-- How the calls of `Save` end: their errors, and for a copy that fails what it has written.
pub record SaveFaults (E : Type 0) : Type 0 where
  pub mkdir : Option E
  pub create : Option E
  pub close : Option E
  pub rename : Option E
  pub remove : Option E
  pub copy : Option (E × Text)

pub data SaveError (E : Type 0) : Type 0 where
  no_directories not_created not_written not_closed not_moved : E → SaveError E

abbrev pub tmp_name : Text → Text → Text
tmp_name path id = path ++ codes "." ++ id ++ codes "-tmp"

-- `_ = s.root.Remove(tmpName)`, whose error is dropped.
abbrev pub cleaned : {E : Type 0} → Option E → Files → Text → Files
cleaned none files tmp = with_file files tmp none
cleaned (some e) files tmp = files

-- The end of `Save`, with the temporary file closed.
unfoldable pub move_into_place :
    {E : Type 0} → SaveFaults E → Text → Text → Files → Files × Option (SaveError E)
move_into_place faults path tmp files = elim faults.rename [
  | some e ↦ (cleaned faults.remove files tmp, some (not_moved e))
  | none ↦ (with_file (with_file files path (files tmp)) tmp none, none)
]

-- `Save`, where `id` is what `uuid.NewString` returns.
unfoldable pub save :
    {E : Type 0} → SaveFaults E → Text → Text → Text → Files → Files × Option (SaveError E)
unfolding move_into_place
save faults id path data_read files =
    let tmp = tmp_name path id in
    elim faults.mkdir [
      | some e ↦ (files, some (no_directories e))
      | none ↦ elim faults.create [
        | some e ↦ (files, some (not_created e))
        | none ↦ elim faults.copy [
          | some (e, written) ↦
              (cleaned faults.remove (with_file files tmp (some written)) tmp, some (not_written e))
          | none ↦ elim faults.close [
            | some e ↦ (
              cleaned faults.remove (with_file files tmp (some data_read)) tmp,
              some (not_closed e),
            )
            | none ↦ move_into_place faults path tmp (with_file files tmp (some data_read))
          ]
        ]
      ]
    ]

-- How `Remove` of a file ends, if the file is there.
abbrev pub removed : {E : Type 0} → Option E → Files → Text → Files × Option E
removed none files path = (with_file files path none, none)
removed (some e) files path = (files, some e)

-- `Delete`. A file that does not exist is no error.
unfoldable pub delete : {E : Type 0} → Option E → Text → Files → Files × Option E
delete fault path files = elim (files path) [
  | none ↦ (files, none)
  | some content ↦ removed fault files path
]

-- `RemoveAll` of a name: the file, or what stands below the directory.
abbrev pub without_all : Files → Text → Files
without_all files name q = if same q name || has_prefix q (name ++ codes "/") then none else files q

-- The loop of `DeleteAll` over the entries of the root; `fault` is the error of `RemoveAll` on one.
unfoldable pub delete_entries :
    {E : Type 0} → (Text → Option E) → List Text → Files → Files × Option E
delete_entries fault [] files = (files, none)
delete_entries fault (name ∷ names) files =
    let rest = delete_entries fault names (without_all files name) in
    elim (fault name) [ some e ↦ (files, some e) | none ↦ rest ]

-- `DeleteAll`; `listed` is what the listing of the root gives, an error or its entries.
unfoldable pub delete_all :
    {E : Type 0} → (Text → Option E) → Option E → List Text → Text → Files → Files × Option E
unfolding delete_entries
delete_all fault listing_error entries path files =
    if is_empty path || same path (codes "/") || same path (codes ".")
    then elim listing_error [ some e ↦ (files, some e) | none ↦ delete_entries fault entries files ]
    else elim (fault path) [ some e ↦ (files, some e) | none ↦ (without_all files path, none) ]
