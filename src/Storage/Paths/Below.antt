-- ===== src/Storage/Paths/Below.antt =====
-- Paths below another: the test by `strings.HasPrefix`, and `Rel`
-- (backend/internal/storage/filesystem.go).
use vocy.Prelude.{
  ◌≡◌, refl, ap, ◌∙◌, true, false, List, [], ◌∷◌, ◌++◌, append_assoc, All, codes, arith,
}
use vocy.Env.Schema.{Text, has_prefix, split_at}
use vocy.Sqlite.Values.{same_refl}
use vocy.Storage.Paths.{elements, slashed, absolute, names, relative, way, rel}
use vocy.Storage.Paths.Names.{has_slash, IsName, elements_of_path}

has_prefix_name :
    (e r s t : Text)
    → has_slash e ≡ false
    → has_slash r ≡ false
    → has_prefix (e ++ b'/' ∷ s) (r ++ b'/' ∷ t) ≡ true
    → (e ≡ r) × (has_prefix s t ≡ true)
unfolding has_slash has_prefix
has_prefix_name [] [] s t he hr h = (refl, h)
has_prefix_name [] (d ∷ r) s t he hr h = absurd (ground (arith, h, hr))
has_prefix_name (c ∷ e) [] s t he hr h = absurd (ground (arith, h, he))
has_prefix_name (c ∷ e) (d ∷ r) s t he hr h =
    let heads : c ≡ d = ground arith in
    let (tails, rest) = has_prefix_name e r s t (ground arith) (ground arith) (ground arith) in
    (cc (heads, tails), rest)

has_prefix_append : (a s t : Text) → has_prefix (a ++ s) (a ++ t) ≡ has_prefix s t
unfolding has_prefix
has_prefix_append [] s t = refl
has_prefix_append (c ∷ a) s t = ground (arith, has_prefix_append a s t)

slashed-append : (es fs : List Text) → slashed (es ++ fs) ≡ slashed es ++ slashed fs
unfolding slashed
slashed-append [] fs = refl
slashed-append (e ∷ es) fs = ap (λ t. b'/' ∷ t) (rw (slashed-append es fs, append_assoc) refl)

slashed_starts : (es : List Text) → (t : Text) × (slashed es ++ codes "/" ≡ b'/' ∷ t)
unfolding slashed
slashed_starts [] = ([], refl)
slashed_starts (e ∷ es) = (_, refl)

slashed_prefix :
    (es rs : List Text)
    → All IsName es
    → All IsName rs
    → has_prefix (slashed es ++ codes "/") (slashed rs ++ codes "/") ≡ true
    → (below : List Text) × (es ≡ rs ++ below)
unfolding has_prefix slashed
slashed_prefix es [] he hr h = (es, refl)
slashed_prefix [] ([] ∷ rs) he hr h = absurd (ground (arith, hr.0.0))
slashed_prefix [] ((c ∷ r) ∷ rs) he hr h = absurd (ground (arith, h))
slashed_prefix (e ∷ es) (r ∷ rs) he hr h =
    let (s, es_starts) = slashed_starts es in
    let (t, rs_starts) = slashed_starts rs in
    let both : has_prefix (e ++ b'/' ∷ s) (r ++ b'/' ∷ t) ≡ true =
      rw (append_assoc, append_assoc, es_starts, rs_starts) at h in
    let (heads, rest) = has_prefix_name e r s t he.0.3 hr.0.3 both in
    let tails : has_prefix (slashed es ++ codes "/") (slashed rs ++ codes "/") ≡ true =
      rw (es_starts, rs_starts) rest in
    let (below, end) = slashed_prefix es rs he.1 hr.1 tails in (below, cc (heads, end))

prefix_slashed :
    (rs below : List Text)
    → has_prefix (slashed (rs ++ below) ++ codes "/") (slashed rs ++ codes "/") ≡ true
unfolding has_prefix slashed
prefix_slashed rs below =
    rw (slashed-append rs below, append_assoc, has_prefix_append)
      (let (t, starts) = slashed_starts below in rw starts refl)

-- The test by `HasPrefix` with a slash behind both paths holds just of the paths below.
pub has_prefix_below :
    (es : List Text) (r : Text) (rs : List Text)
    → All IsName es
    → All IsName (r ∷ rs)
    → has_prefix (absolute es ++ codes "/") (absolute (r ∷ rs) ++ codes "/") ≡ true
    → (below : List Text) × (es ≡ r ∷ (rs ++ below))
unfolding has_prefix absolute slashed has_slash
has_prefix_below [] [] rs he hr h = absurd (ground (arith, hr.0.0))
has_prefix_below [] (c ∷ r) rs he hr h = absurd (ground (arith, h, hr.0.3))
has_prefix_below (e ∷ es) r rs he hr h = slashed_prefix (e ∷ es) (r ∷ rs) he hr h

pub below_has_prefix :
    (r : Text) (rs below : List Text)
    → has_prefix (absolute (r ∷ (rs ++ below)) ++ codes "/") (absolute (r ∷ rs) ++ codes "/") ≡ true
unfolding absolute
below_has_prefix r rs below = prefix_slashed (r ∷ rs) below

names-All : (es : List Text) → All IsName es → names es ≡ es
unfolding names
names-All [] h = refl
names-All (e ∷ es) h = rw (h.0.0, names-All es h.1) refl

names-absolute : (es : List Text) → All IsName es → names (elements (absolute es)) ≡ es
unfolding names absolute slashed split_at
names-absolute [] h = refl
names-absolute (e ∷ es) h = ap names (elements_of_path e es h) ∙ names-All (e ∷ es) h

way_below : (rs below : List Text) → way rs (rs ++ below) ≡ below
unfolding way
way_below [] below = refl
way_below (r ∷ rs) below = rw (same_refl r) (way_below rs below)

-- `Rel` of a path of names to one below it.
pub rel-absolute :
    (rs below : List Text)
    → All IsName rs
    → All IsName (rs ++ below)
    → rel (absolute rs) (absolute (rs ++ below)) ≡ relative below
unfolding rel
rel-absolute rs below hr hb =
    rw (names-absolute rs hr, names-absolute (rs ++ below) hb, way_below rs below) refl

pub All-append : (es fs : List Text) → All IsName es → All IsName fs → All IsName (es ++ fs)
All-append [] fs h k = k
All-append (e ∷ es) fs h k = (h.0, All-append es fs h.1 k)
