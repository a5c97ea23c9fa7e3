-- ===== src/Storage/Paths.antt =====
-- The functions of `path/filepath` that the file storage calls, on Unix: `Clean`, `Join` and `Rel`,
-- on absolute paths (backend/internal/storage/filesystem.go).
pub mod Names
pub mod Below
pub mod Resolve
use vocy.Prelude.{Bool, true, false, ◌||◌, List, [], ◌∷◌, ◌++◌, codes, ◌==◌, if◌then◌else◌}
use vocy.Env.Schema.{Text, same, is_empty, split_at}

-- The elements of a path, between its slashes.
abbrev pub elements : Text → List Text
elements = split_at b'/'

unfoldable pub drop_last : List Text → List Text
drop_last [] = []
drop_last (e ∷ []) = []
drop_last (e ∷ f ∷ es) = e ∷ drop_last (f ∷ es)

-- What an element does to the elements before it; the root has no parent.
unfoldable pub enter : List Text → Text → List Text
unfolding drop_last
enter above e =
    if is_empty e || same e (codes ".")
    then above
    else if same e (codes "..")
    then drop_last above
    else above ++ e ∷ []

unfoldable pub resolve : List Text → List Text → List Text
unfolding enter
resolve above [] = above
resolve above (e ∷ es) = resolve (enter above e) es

unfoldable pub slashed : List Text → Text
slashed [] = []
slashed (e ∷ es) = b'/' ∷ e ++ slashed es

-- The path from the root through these elements.
unfoldable pub absolute : List Text → Text
unfolding slashed
absolute [] = codes "/"
absolute (e ∷ es) = slashed (e ∷ es)

-- `filepath.Clean` of an absolute path.
unfoldable pub clean : Text → Text
unfolding absolute resolve
clean path = absolute (resolve [] (elements path))

-- `filepath.Join` of an absolute path and another one, which it leaves out if it is empty.
unfoldable pub join : Text → Text → Text
unfolding clean
join path more = clean (if is_empty more then path else path ++ codes "/" ++ more)

-- The elements of a clean path.
unfoldable pub names : List Text → List Text
names [] = []
names (e ∷ es) = let rest = names es in if is_empty e then rest else e ∷ rest

-- Elements with slashes between them.
unfoldable pub relative : List Text → Text
relative [] = codes "."
relative (e ∷ []) = e
relative (e ∷ f ∷ es) = e ++ codes "/" ++ relative (f ∷ es)

unfoldable pub parents : List Text → List Text
parents [] = []
parents (e ∷ es) = codes ".." ∷ parents es

-- The way from one path to another: up from what they do not share, and down again.
unfoldable pub way : List Text → List Text → List Text
unfolding parents
way [] target = target
way (b ∷ base) [] = parents (b ∷ base)
way (b ∷ base) (t ∷ target) =
    let rest = way base target in if same b t then rest else parents (b ∷ base) ++ t ∷ target

-- `filepath.Rel` of clean absolute paths, between which there is always a way.
unfoldable pub rel : Text → Text → Text
unfolding relative way names
rel base target = relative (way (names (elements base)) (names (elements target)))
