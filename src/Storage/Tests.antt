-- ===== src/Storage/Tests.antt =====
-- Tests and witnesses on the file storage (backend/internal/storage/filesystem.go).
use vocy.Prelude.{
  ◌↔◌, Option, List, [], ◌∷◌, ◌++◌, All, Result, ok, true, arith, ◌≡◌, ◌≢◌, ◌⊎◌, refl, false, none,
  some, codes, if◌then◌else◌,
}
use vocy.Env.Schema.{Text, same}
use vocy.Storage.Filesystem.{Files, SaveFaults, tmp_name, save}
use vocy.Storage.Atomic.{save_atomic}
use vocy.Storage.Paths.{clean, absolute, rel}
use vocy.Storage.Paths.Names.{IsName}
use vocy.Storage.Walk.{
  ObjectInfo, invalid_root, Node, file, folder, empty, entry, full_path, is_within, walk,
}
use vocy.Storage.Walk.Within.{target, is_within_iff}
use vocy.Storage.Walk.Visits.{
  objects, IsReadable, as_walk_error, visitor, until_error, walk_visits, walk_outside,
}

-- The rename fails, and so does the clean-up.
abbrev faults : SaveFaults Text
faults = record {
  mkdir = none;
  create = none;
  close = none;
  rename = some (codes "busy");
  remove = some (codes "busy");
  copy = none;
}

abbrev logo : Text
logo = codes "logo.png"

abbrev stored : Files
stored q = if same q logo then some (codes "old") else none

not_temporary : same logo (tmp_name logo (codes "7")) ≡ false
unfolding same
not_temporary = refl

save_atomic_example :
    ((save faults (codes "7") logo (codes "new") stored).1 ≡ none)
      × ((save faults (codes "7") logo (codes "new") stored).0 logo
          ≡ (if same logo logo then some (codes "new") else stored logo))
    ⊎ ((save faults (codes "7") logo (codes "new") stored).1 ≢ none)
      × ((save faults (codes "7") logo (codes "new") stored).0 logo ≡ stored logo)
save_atomic_example = save_atomic faults (codes "7") logo (codes "new") stored logo not_temporary

abbrev uploads : List Text
uploads = codes "srv" ∷ codes "uploads" ∷ []

uploads_names : All IsName uploads
unfolding vocy.Storage.Paths.Names.has_slash same
uploads_names = ((refl, refl, refl, refl), ((refl, refl, refl, refl), tt))

abbrev inside : Text
inside = codes "logos/../images"

images_target : target uploads inside ≡ codes "srv" ∷ (codes "uploads" ∷ [] ++ codes "images" ∷ [])
unfolding vocy.Storage.Paths.resolve vocy.Env.Schema.split_at same
images_target = refl

is_within_iff_example :
    (is_within (absolute uploads) (full_path (absolute uploads) inside) ≡ true) ↔ (
      (below : List Text) × (target uploads inside ≡ codes "srv" ∷ (codes "uploads" ∷ [] ++ below)))
is_within_iff_example = is_within_iff (codes "srv") (codes "uploads" ∷ []) inside uploads_names

abbrev images : Node Text
images = folder none (
    entry (codes "a.png") (file (ok (10, 1)))
      (entry (codes "old") (folder none (entry (codes "b.png") (file (ok (20, 2))) empty)) empty))

-- The callback collects the objects and refuses a third one.
abbrev collect : ObjectInfo → List ObjectInfo → List ObjectInfo × Option Text
collect o [] = (o ∷ [], none)
collect o (p ∷ []) = (p ∷ o ∷ [], none)
collect o (p ∷ q ∷ ps) = (p ∷ q ∷ ps, some (codes "full"))

abbrev lstat : Text → Result Text (Node Text)
lstat path = ok images

images-IsReadable : IsReadable images
unfolding IsReadable vocy.Storage.Paths.Names.has_slash same
images-IsReadable = (
  (refl, refl, refl, refl),
  tt,
  ((refl, refl, refl, refl), ((refl, refl, refl, refl), tt, tt), tt),
)

images-objects :
    objects (codes "images" ∷ []) images
    ≡ record { path = codes "images/a.png"; size = 10; mod_time = 1 }
      ∷ record { path = codes "images/old/b.png"; size = 20; mod_time = 2 }
      ∷ []
unfolding objects vocy.Storage.Paths.relative
images-objects = refl

images_names : All IsName (codes "images" ∷ [])
unfolding same vocy.Storage.Paths.Names.has_slash
images_names = ((refl, refl, refl, refl), tt)

walk_visits_example :
    walk lstat (absolute uploads) (visitor collect) inside []
    ≡ as_walk_error (until_error collect (objects (codes "images" ∷ []) images) [])
walk_visits_example =
    walk_visits collect (codes "srv") (codes "uploads" ∷ []) uploads_names inside
      (codes "images" ∷ []) lstat images [] images_target images_names refl images-IsReadable

abbrev outside : Text
outside = codes "../uploads-old"

outside-target :
    (below : List Text) → target uploads outside ≢ codes "srv" ∷ (codes "uploads" ∷ [] ++ below)
unfolding vocy.Storage.Paths.resolve vocy.Env.Schema.split_at same
outside-target below e = ground arith

walk_outside_example :
    walk lstat (absolute uploads) (visitor collect) outside [] ≡ ([], some (invalid_root outside))
walk_outside_example =
    walk_outside lstat (visitor collect) (codes "srv") (codes "uploads" ∷ []) outside []
      uploads_names outside-target

-- A storage at the root of the file system refuses every path below it.
root_refuses : is_within (codes "/") (full_path (codes "/") (codes "images")) ≡ false
unfolding is_within full_path vocy.Env.Schema.has_prefix clean vocy.Env.Schema.split_at
    vocy.Storage.Paths.join same
root_refuses = refl
