-- ===== src/Migrations/Versions.antt =====
-- The version that the embedded migrations lead to (backend/internal/utils/db_migration_util.go).
use vocy.Prelude.{
  ℕ, ◌≤◌, ◌≡◌, ◌⊎◌, refl, ap, none, some, List, [], ◌∷◌, ok, All, arith, ltb, inl, inr, Bool-cases,
  Option-cases, if◌then◌else◌,
}
use vocy.Migrations.{version_of, Entry, max_version, get_required_migration_version}

-- The versions that the files of a directory are named for.
unfoldable pub versions : List Entry → List ℕ
versions [] = []
versions (e ∷ es) =
    let rest = versions es in
    if e.is_dir then rest else elim (version_of e.name) [ none ↦ rest | some v ↦ v ∷ rest ]

abbrev pub IsOne : ℕ → List ℕ → Type 0
IsOne v [] = ⊥
IsOne v (w ∷ ws) = (v ≡ w) ⊎ IsOne v ws

abbrev pub greatest : ℕ → List ℕ → ℕ
greatest max [] = max
greatest max (v ∷ vs) = greatest (if ltb max v then v else max) vs

max_version-greatest : (es : List Entry) (max : ℕ) → max_version max es ≡ greatest max (versions es)
unfolding max_version versions
max_version-greatest [] max = refl
max_version-greatest (e ∷ es) max = elim (Bool-cases e.is_dir) [
  | inl dir ↦ rw (max_version, versions, dir) (max_version-greatest es max)
  | inr file ↦ elim (Option-cases (version_of e.name)) [
    | inl other ↦ rw (max_version, versions, file, other) (max_version-greatest es max)
    | inr (v, named) ↦ rw (max_version, versions, file, named) (max_version-greatest es _)
  ]
]

abbrev IsGreatest : ℕ → List ℕ → ℕ → Type 0
IsGreatest max vs g = (max ≤ g) × All (λ v. v ≤ g) vs × ((g ≡ max) ⊎ IsOne g vs)

IsGreatest-widens :
    (max v g : ℕ) (vs : List ℕ)
    → IsGreatest (if ltb max v then v else max) vs g
    → IsGreatest max (v ∷ vs) g
IsGreatest-widens max v g vs h = elim (Bool-cases (ltb max v)) [
  | inl up ↦
      let (low, all, one) = rw up at h in
      (ground (arith, up, low), (low, all), elim one [ inl e ↦ inr (inl e) | inr i ↦ inr (inr i) ])
  | inr kept ↦
      let (low, all, one) = rw kept at h in
      (low, (ground (arith, kept, low), all), elim one [ inl e ↦ inl e | inr i ↦ inr (inr i) ])
]

greatest_bounds : (vs : List ℕ) (max : ℕ) → IsGreatest max vs (greatest max vs)
greatest_bounds [] max = (omega arith, tt, inl refl)
greatest_bounds (v ∷ vs) max =
    IsGreatest-widens max v _ vs (greatest_bounds vs (if ltb max v then v else max))

-- The required version is the greatest of the versions that the names of the files begin with, or 0
-- if there is none.
pub get_required_migration_version_greatest :
    {E : Type 0} (es : List Entry)
    → (r : ℕ) × (get_required_migration_version {E = E} (ok es) ≡ ok r)
      × All (λ v. v ≤ r) (versions es)
      × ((r ≡ 0) ⊎ IsOne r (versions es))
unfolding get_required_migration_version
get_required_migration_version_greatest es =
    let whole = max_version-greatest es 0 in
    let (low, all, one) = greatest_bounds (versions es) 0 in
    (greatest 0 (versions es), ap ok whole, all, one)
