-- ===== src/Storage/Walk.antt =====
-- `filesystemStorage.Walk` (backend/internal/storage/filesystem.go) over a tree of files, with
-- `filepath.WalkDir` of the standard library. A folder's entries are in lexical order.
pub mod Within
pub mod Visits
use vocy.Prelude.{
  ℕ, Bool, true, false, not, Option, none, some, List, [], ◌∷◌, ◌++◌, Result, ok, err, codes,
  if◌then◌else◌,
}
use vocy.Env.Schema.{Text, has_prefix}
use vocy.Storage.Paths.{clean, join, rel}

pub record ObjectInfo : Type 0 where
  pub path : Text
  pub size : ℕ
  pub mod_time : ℕ

-- `fs.SkipDir` and `fs.SkipAll`, and the other errors.
pub data WalkError (E : Type 0) : Type 0 where
  skip_dir skip_all : WalkError E
  invalid_root : Text → WalkError E
  failed : E → WalkError E

-- A file with what `Info` returns, its size and time; a folder with the error of `ReadDir`.
mutual
  pub data Node (E : Type 0) : Type 0 where
    file : Result E (ℕ × ℕ) → Node E
    folder : Option E → Entries E → Node E

  pub data Entries (E : Type 0) : Type 0 where
    empty : Entries E
    entry : Text → Node E → Entries E → Entries E

-- The callback `fn` on a state that it keeps.
abbrev pub Visitor : Type 0 → Type 0 → Type 0
Visitor E S = ObjectInfo → S → S × Option (WalkError E)

-- The closure that `Walk` passes on, at a file.
abbrev pub visit_file :
    {E S : Type 0} → Visitor E S → Text → Text → Result E (ℕ × ℕ) → S → S × Option (WalkError E)
visit_file fn base full (err e) s = (s, some (failed e))
visit_file fn base full (ok (size, mod_time)) s =
    fn (record { path = rel base full; size = size; mod_time = mod_time }) s

-- What an error at an entry means to the loop over a folder: `fs.SkipDir` ends the folder.
abbrev pub after_entry :
    {E S : Type 0}
    → S × Option (WalkError E)
    → (S → S × Option (WalkError E))
    → S × Option (WalkError E)
after_entry (s, none) next = next s
after_entry (s, some skip_dir) next = (s, none)
after_entry (s, some e) next = (s, some e)

unfoldable mutual
  -- `walkDir`.
  pub walk_node : {E S : Type 0} → Visitor E S → Text → Text → Node E → S → S × Option (WalkError E)
  walk_node fn base full (file info) s = visit_file fn base full info s
  walk_node fn base full (folder (some e) entries) s = (s, some (failed e))
  walk_node fn base full (folder none entries) s = walk_entries fn base full entries s

  pub walk_entries :
      {E S : Type 0} → Visitor E S → Text → Text → Entries E → S → S × Option (WalkError E)
  walk_entries fn base full empty s = (s, none)
  walk_entries fn base full (entry name node entries) s =
      after_entry (walk_node fn base (join full name) node s) (walk_entries fn base full entries)

abbrev pub without_skips : {E S : Type 0} → S × Option (WalkError E) → S × Option (WalkError E)
without_skips (s, some skip_dir) = (s, none)
without_skips (s, some skip_all) = (s, none)
without_skips (s, result) = (s, result)

-- `filepath.WalkDir`; `lstat` finds what stands at a path.
unfoldable pub walk_dir :
    {E S : Type 0}
    → (Text → Result E (Node E))
    → Visitor E S
    → Text
    → Text
    → S
    → S × Option (WalkError E)
unfolding walk_node
walk_dir lstat fn base full s = elim (lstat full) [
  | err e ↦ (s, some (failed e))
  | ok node ↦ without_skips (walk_node fn base full node s)
]

unfoldable pub full_path : Text → Text → Text
full_path base root = clean (join base root)

unfoldable pub is_within : Text → Text → Bool
is_within base full = has_prefix (full ++ codes "/") (base ++ codes "/")

-- `Walk`; `base` is `absoluteRootPath`.
unfoldable pub walk :
    {E S : Type 0}
    → (Text → Result E (Node E))
    → Text
    → Visitor E S
    → Text
    → S
    → S × Option (WalkError E)
unfolding full_path is_within walk_dir
walk lstat base fn root s =
    if not (is_within base (full_path base root))
    then (s, some (invalid_root root))
    else walk_dir lstat fn base (full_path base root) s
