-- ===== src/Storage/Walk/Visits.antt =====
-- What `Walk` visits (backend/internal/storage/filesystem.go).
use vocy.Prelude.{
  ◌≡◌, ◌≢◌, refl, sym, ap, ◌∙◌, fun_ext, true, Option, none, some, List, [], ◌∷◌, ◌++◌,
  append_assoc, All, Result, ok, err, inl, inr, Bool-cases,
}
use vocy.Env.Schema.{Text}
use vocy.Storage.Paths.{absolute, relative}
use vocy.Storage.Paths.Names.{IsName, join_name}
use vocy.Storage.Paths.Below.{rel-absolute, All-append}
use vocy.Storage.Walk.Within.{target, full_path-absolute, is_within_iff}
use vocy.Storage.Walk.{
  ObjectInfo, WalkError, invalid_root, failed, Node, file, folder, Entries, empty, entry, Visitor,
  after_entry, walk_node, walk_entries, without_skips, walk_dir, full_path, is_within, walk,
}

-- The files of a tree in their order, by their path below the root of the storage.
unfoldable mutual
  pub objects : {E : Type 0} → List Text → Node E → List ObjectInfo
  objects below (file (ok (size, mod_time))) =
      record { path = relative below; size = size; mod_time = mod_time } ∷ []
  objects below (file (err e)) = []
  objects below (folder fault entries) = entry_objects below entries

  pub entry_objects : {E : Type 0} → List Text → Entries E → List ObjectInfo
  entry_objects below empty = []
  entry_objects below (entry name node entries) =
      objects (below ++ name ∷ []) node ++ entry_objects below entries

-- A tree in which no call fails and whose entries have names.
unfoldable mutual
  pub IsReadable : {E : Type 0} → Node E → Type 0
  IsReadable (file (ok info)) = Unit
  IsReadable (file (err e)) = ⊥
  IsReadable (folder none entries) = AllReadable entries
  IsReadable (folder (some e) entries) = ⊥

  pub AllReadable : {E : Type 0} → Entries E → Type 0
  AllReadable empty = Unit
  AllReadable (entry name node entries) = IsName name × IsReadable node × AllReadable entries

-- A callback whose errors are none of those with a meaning to `WalkDir`.
abbrev pub as_walk_error : {E S : Type 0} → S × Option E → S × Option (WalkError E)
as_walk_error (s, none) = (s, none)
as_walk_error (s, some e) = (s, some (failed e))

abbrev pub visitor : {E S : Type 0} → (ObjectInfo → S → S × Option E) → Visitor E S
visitor g o s = as_walk_error (g o s)

-- The callback on one object after the other, until it returns an error.
abbrev pub and_then : {E S : Type 0} → S × Option E → (S → S × Option E) → S × Option E
and_then (s, none) next = next s
and_then (s, some e) next = (s, some e)

unfoldable pub until_error :
    {E S : Type 0} → (ObjectInfo → S → S × Option E) → List ObjectInfo → S → S × Option E
until_error g [] s = (s, none)
until_error g (o ∷ os) s = and_then (g o s) (until_error g os)

starts_walk_dir :
    {E S : Type 0} (lstat : Text → Result E (Node E)) (fn : Visitor E S) (base root : Text) (s : S)
    → is_within base (full_path base root) ≡ true
    → walk lstat base fn root s ≡ walk_dir lstat fn base (full_path base root) s
unfolding walk
starts_walk_dir lstat fn base root s within = rw within

module _ {E S : Type 0} (g : ObjectInfo → S → S × Option E) where
  and_then_assoc :
      (x : S × Option E) (f h : S → S × Option E)
      → and_then (and_then x f) h ≡ and_then x (λ s. and_then (f s) h)
  and_then_assoc (s, none) f h = refl
  and_then_assoc (s, some e) f h = refl

  until_error-append :
      (xs ys : List ObjectInfo) (s : S)
      → until_error g (xs ++ ys) s ≡ and_then (until_error g xs s) (until_error g ys)
  unfolding until_error
  until_error-append [] ys s = refl
  until_error-append (x ∷ xs) ys s =
      ap (and_then (g x s)) (fun_ext (λ t. until_error-append xs ys t))
      ∙ sym (and_then_assoc (g x s) (until_error g xs) (until_error g ys))

  after_entry-as_walk_error :
      (x : S × Option E) (f : S → S × Option E)
      → after_entry (as_walk_error x) (λ s. as_walk_error (f s)) ≡ as_walk_error (and_then x f)
  after_entry-as_walk_error (s, none) f = refl
  after_entry-as_walk_error (s, some e) f = refl

  single : (x : S × Option E) → and_then x (λ s. (s, none)) ≡ x
  single (s, none) = refl
  single (s, some e) = refl

  without_skips-as_walk_error :
      (x : S × Option E) → without_skips (as_walk_error x) ≡ as_walk_error x
  without_skips-as_walk_error (s, none) = refl
  without_skips-as_walk_error (s, some e) = refl

  module _ (r : Text) (rs : List Text) (h : All IsName (r ∷ rs)) where
    mutual
      unfolding walk_node objects IsReadable until_error

      walk_node_visits :
          (below : List Text) (node : Node E) (s : S)
          → All IsName below
          → IsReadable node
          → walk_node (visitor g) (absolute (r ∷ rs)) (absolute (r ∷ (rs ++ below))) node s
            ≡ as_walk_error (until_error g (objects below node) s)
      walk_node_visits below (file (ok (size, mod_time))) s n readable =
          ap (λ p. visitor g (record { path = p; size = size; mod_time = mod_time }) s)
            (rel-absolute (r ∷ rs) below h (All-append (r ∷ rs) below h n))
          ∙ ap as_walk_error (
              sym
                (single (g (record { path = relative below; size = size; mod_time = mod_time }) s)))
      walk_node_visits below (file (err e)) s n readable = absurd readable
      walk_node_visits below (folder (some e) entries) s n readable = absurd readable
      walk_node_visits below (folder none entries) s n readable =
          walk_entries_visits below entries s n readable

      walk_entries_visits :
          (below : List Text) (entries : Entries E) (s : S)
          → All IsName below
          → AllReadable entries
          → walk_entries (visitor g) (absolute (r ∷ rs)) (absolute (r ∷ (rs ++ below))) entries s
            ≡ as_walk_error (until_error g (entry_objects below entries) s)
      walk_entries_visits below empty s n readable = refl
      walk_entries_visits below (entry name node entries) s n readable =
          let base = absolute (r ∷ rs) in
          let others = walk_entries (visitor g) base (absolute (r ∷ (rs ++ below))) entries in
          let inner = All-append below (name ∷ []) n (readable.0, tt) in
          ap (λ p. after_entry (walk_node (visitor g) base p node s) others)
            (join_name r (rs ++ below) name (All-append (r ∷ rs) below h n) readable.0
              ∙ ap (λ l. absolute (r ∷ l)) (append_assoc rs below (name ∷ [])))
          ∙ ap (λ x. after_entry x others)
              (walk_node_visits (below ++ name ∷ []) node s inner readable.1)
          ∙ ap (after_entry (as_walk_error (until_error g (objects (below ++ name ∷ []) node) s)))
              (fun_ext (λ t. walk_entries_visits below entries t n readable.2))
          ∙ after_entry-as_walk_error (until_error g (objects (below ++ name ∷ []) node) s)
              (until_error g (entry_objects below entries))
          ∙ ap as_walk_error (
              sym (
                until_error-append (objects (below ++ name ∷ []) node) (entry_objects below entries)
                  s))

    -- From a path below the root of the storage, `Walk` calls the function on the files of the tree
    -- that stands there, in their order and with their paths below the root, until it returns an
    -- error, which is then what `Walk` returns. This supposes that the root is a clean path other
    -- than `/`, that no call on the tree fails, and that the function's errors are not `fs.SkipDir`
    -- or `fs.SkipAll`.
    pub walk_visits :
        (root : Text) (below : List Text) (lstat : Text → Result E (Node E)) (node : Node E) (s : S)
        → target (r ∷ rs) root ≡ r ∷ (rs ++ below)
        → All IsName below
        → lstat (absolute (r ∷ (rs ++ below))) ≡ ok node
        → IsReadable node
        → walk lstat (absolute (r ∷ rs)) (visitor g) root s
          ≡ as_walk_error (until_error g (objects below node) s)
    unfolding walk walk_dir
    walk_visits root below lstat node s leads n stands readable =
        let within = (is_within_iff r rs root h).1 (below, leads) in
        let base = absolute (r ∷ rs) in
        let start = full_path-absolute r rs root h ∙ ap absolute leads in
        starts_walk_dir lstat (visitor g) base root s within
        ∙ ap (λ p. walk_dir lstat (visitor g) base p s) start
        ∙ rw (walk_dir, stands, walk_node_visits below node s n readable)
            (without_skips-as_walk_error (until_error g (objects below node) s))

-- A path that leads out of the root of the storage is refused: `Walk` returns an error and calls
-- neither the function nor the file system. This supposes that the root is a clean path other than
-- `/`.
pub walk_outside :
    {E S : Type 0} (lstat : Text → Result E (Node E)) (fn : Visitor E S) (r : Text) (rs : List Text)
    (root : Text) (s : S)
    → All IsName (r ∷ rs)
    → ((below : List Text) → target (r ∷ rs) root ≢ r ∷ (rs ++ below))
    → walk lstat (absolute (r ∷ rs)) fn root s ≡ (s, some (invalid_root root))
unfolding walk
walk_outside lstat fn r rs root s h outside =
    elim (Bool-cases (is_within (absolute (r ∷ rs)) (full_path (absolute (r ∷ rs)) root))) [
      | inl e ↦ let (below, leads) = (is_within_iff r rs root h).0 e in absurd (outside below leads)
      | inr e ↦ rw e
    ]
