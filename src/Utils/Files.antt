-- ===== src/Utils/Files.antt =====
-- The helpers on files of backend/internal/utils/file_util.go. A name is ASCII.
pub mod Names
use vocy.Prelude.{
  ℕ, zero, suc, ◌+◌, ◌-◌, Bool, true, false, not, ◌&&◌, ◌||◌, Option, none, some, List, [], ◌∷◌,
  ◌++◌, Result, ok, err, take, drop, length, codes, ◌==◌, if◌then◌else◌,
}
use vocy.Env.Schema.{Text, same, trim_space}
use vocy.Env.Prepare.{lower}

-- `strings.LastIndex(s, c)` for one character; `none` is -1.
unfoldable pub last_index : ℕ → Text → Option ℕ
last_index c [] = none
last_index c (d ∷ s) = elim (last_index c s) [
  | some i ↦ some (suc i)
  | none ↦ if d == c then some 0 else none
]

-- `SplitFileName`.
unfoldable pub split_file_name : Text → Text × Text
unfolding last_index
split_file_name name = elim (last_index b'.' name) [
  | none ↦ (name, [])
  | some zero ↦ (name, [])
  | some (suc i) ↦ (take (suc i) name, drop (suc (suc i)) name)
]

unfoldable pub has_code : ℕ → Text → Bool
has_code c [] = false
has_code c (d ∷ s) = let more = has_code c s in if d == c then true else more

-- `filepath.Ext`: from the last dot of the last element on.
unfoldable pub ext : Text → Text
unfolding has_code
ext [] = []
ext (c ∷ s) = elim (ext s) [
  | d ∷ more ↦ d ∷ more
  | [] ↦ if c == b'.' && not (has_code b'/' s) then c ∷ s else []
]

-- `GetFileExtension`.
unfoldable pub get_file_extension : Text → Text
unfolding ext
get_file_extension filename = elim (ext filename) [
  | [] ↦ filename
  | c ∷ rest ↦ if c == b'.' then rest else filename
]

-- `GetImageMimeType`.
unfoldable pub get_image_mime_type : Text → Text
get_image_mime_type e =
    if same e (codes "jpg") || same e (codes "jpeg")
    then codes "image/jpeg"
    else if same e (codes "png")
    then codes "image/png"
    else if same e (codes "svg")
    then codes "image/svg+xml"
    else if same e (codes "ico")
    then codes "image/x-icon"
    else if same e (codes "gif")
    then codes "image/gif"
    else if same e (codes "webp")
    then codes "image/webp"
    else if same e (codes "avif")
    then codes "image/avif"
    else if same e (codes "heic")
    then codes "image/heic"
    else []

-- The switch of `GetImageExtensionFromMimeType`.
unfoldable pub extension_of : Text → Text
extension_of mt =
    if same mt (codes "image/jpeg") || same mt (codes "image/jpg")
    then codes "jpg"
    else if same mt (codes "image/png")
    then codes "png"
    else if same mt (codes "image/svg+xml")
    then codes "svg"
    else if same mt (codes "image/x-icon") || same mt (codes "image/vnd.microsoft.icon")
    then codes "ico"
    else if same mt (codes "image/gif")
    then codes "gif"
    else if same mt (codes "image/webp")
    then codes "webp"
    else if same mt (codes "image/avif")
    then codes "avif"
    else if same mt (codes "image/heic") || same mt (codes "image/heif")
    then codes "heic"
    else []

-- `GetImageExtensionFromMimeType`; the argument is `mime.ParseMediaType`, without the parameters.
unfoldable pub get_image_extension_from_mime_type : (Text → Option Text) → Text → Text
unfolding extension_of
get_image_extension_from_mime_type parse_media_type mime_type =
    let mt = trim_space (lower mime_type) in
    elim (parse_media_type mt) [ some v ↦ extension_of v | none ↦ extension_of mt ]

-- What `os.Stat` says.
pub data Stat (E : Type 0) : Type 0 where
  is_file is_dir missing : Stat E
  unknown : E → Stat E

-- `FileExists`.
abbrev pub file_exists : {E : Type 0} → Stat E → Result E Bool
file_exists is_file = ok true
file_exists is_dir = ok false
file_exists missing = ok false
file_exists (unknown e) = err e

pub data DirError (E : Type 0) : Type 0 where
  not_statted no_random_bytes no_test_file : E → DirError E

-- How `os.Create` of the test file ends; the refusals are those of the permission and of a file
-- system that is read-only.
pub data Creation (E : Type 0) : Type 0 where
  created refused : Creation E
  failed : E → Creation E

-- The files that are there, as the names that a directory has: the test file is created, and the
-- deferred `os.Remove` takes it away again.
abbrev pub Names : Type 0
Names = Text → Bool

abbrev pub test_file : Text → Text
test_file suffix = codes ".vocy_test_write_" ++ suffix

abbrev pub with_name : Names → Text → Bool → Names
with_name names name here q = if same q name then here else names q

-- `IsWritableDir`: the names in the directory afterwards, and the result. `random` is what the
-- reader of randomness gives, in hexadecimal.
unfoldable pub is_writable_dir :
    {E : Type 0} → Stat E → Result E Text → Creation E → Names → Names × Result (DirError E) Bool
is_writable_dir missing random creation names = (names, ok false)
is_writable_dir (unknown e) random creation names = (names, err (not_statted e))
is_writable_dir is_file random creation names = (names, ok false)
is_writable_dir is_dir (err e) creation names = (names, err (no_random_bytes e))
is_writable_dir is_dir (ok suffix) created names =
    (with_name (with_name names (test_file suffix) true) (test_file suffix) false, ok true)
is_writable_dir is_dir (ok suffix) refused names =
    (with_name names (test_file suffix) false, ok false)
is_writable_dir is_dir (ok suffix) (failed e) names =
    (with_name names (test_file suffix) false, err (no_test_file e))
