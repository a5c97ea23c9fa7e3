-- ===== src/Storage/Walk/Within.antt =====
-- The test of `Walk` that its path is below the root (backend/internal/storage/filesystem.go).
use vocy.Prelude.{◌≡◌, ◌↔◌, ap, ◌∙◌, true, List, ◌∷◌, ◌++◌, All}
use vocy.Env.Schema.{Text}
use vocy.Storage.Paths.{elements, resolve, absolute, clean}
use vocy.Storage.Paths.Names.{IsName, join-absolute, clean-absolute}
use vocy.Storage.Paths.Below.{has_prefix_below, below_has_prefix}
use vocy.Storage.Paths.Resolve.{elements-IsSlashless, resolve-IsName}
use vocy.Storage.Walk.{full_path, is_within}

-- The elements of the path that `Walk` starts at.
abbrev pub target : List Text → Text → List Text
target rs root = resolve rs (elements root)

module _ (r : Text) (rs : List Text) (root : Text) (h : All IsName (r ∷ rs)) where
  pub target-IsName : All IsName (target (r ∷ rs) root)
  target-IsName = resolve-IsName (r ∷ rs) (elements root) h (elements-IsSlashless root)

  pub full_path-absolute : full_path (absolute (r ∷ rs)) root ≡ absolute (target (r ∷ rs) root)
  unfolding full_path
  full_path-absolute = ap clean (join-absolute r rs root h) ∙ clean-absolute _ target-IsName

  -- The test of `Walk` holds just if the path that it was given leads, element by element, to a path
  -- below the root of the storage. This supposes that the root is a clean path other than `/`.
  pub is_within_iff :
      (is_within (absolute (r ∷ rs)) (full_path (absolute (r ∷ rs)) root) ≡ true)
      ↔ ((below : List Text) × (target (r ∷ rs) root ≡ r ∷ (rs ++ below)))
  unfolding is_within
  is_within_iff = (
    (λ within.
        has_prefix_below (target (r ∷ rs) root) r rs target-IsName h
          (rw full_path-absolute at within)),
    (λ (below, e). rw (full_path-absolute, e) (below_has_prefix r rs below)),
  )
