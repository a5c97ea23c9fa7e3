-- ===== src/Storage/Atomic.antt =====
-- `Save` is atomic (backend/internal/storage/filesystem.go).
use vocy.Prelude.{◌≡◌, ◌≢◌, ◌⊎◌, false, none, some, arith, if◌then◌else◌}
use vocy.Env.Schema.{Text, same}
use vocy.Sqlite.Values.{same_refl}
use vocy.Storage.Filesystem.{Files, SaveFaults, tmp_name, move_into_place, save}

module _ {E : Type 0} (faults : SaveFaults E) (id path content : Text) (files : Files) where
  -- `Save` either returns nil, and the path has the new content, or it returns an error, and the
  -- path has what it had, even if the clean-up fails. In both cases no file changes but this one and
  -- the temporary one.
  pub save_atomic :
      (q : Text)
      → same q (tmp_name path id) ≡ false
      → ((save faults id path content files).1 ≡ none)
          × ((save faults id path content files).0 q
              ≡ (if same q path then some content else files q))
        ⊎ ((save faults id path content files).1 ≢ none)
          × ((save faults id path content files).0 q ≡ files q)
  unfolding save move_into_place
  save_atomic q other = ground (arith, other, same_refl (tmp_name path id))
