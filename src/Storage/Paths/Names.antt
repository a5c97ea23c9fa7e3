-- ===== src/Storage/Paths/Names.antt =====
-- Paths of names: how the functions of `path/filepath` act on them
-- (backend/internal/storage/filesystem.go).
use vocy.Prelude.{
  ◌≡◌, refl, sym, ap, ◌∙◌, Bool, true, false, List, [], ◌∷◌, ◌++◌, append_assoc, append_empty, All,
  codes, arith, ◌==◌, if◌then◌else◌,
}
use vocy.Env.Schema.{Text, same, is_empty, split_at}
use vocy.Storage.Paths.{elements, enter, resolve, slashed, absolute, clean, join}

unfoldable pub has_slash : Text → Bool
has_slash [] = false
has_slash (c ∷ s) = let rest = has_slash s in if c == b'/' then true else rest

-- What may stand as a name in a directory.
abbrev pub IsName : Text → Type 0
IsName e =
    (is_empty e ≡ false)
    × (same e (codes ".") ≡ false)
    × (same e (codes "..") ≡ false)
    × (has_slash e ≡ false)

elements_slashless : (e : Text) → has_slash e ≡ false → elements e ≡ e ∷ []
unfolding has_slash split_at
elements_slashless [] h = refl
elements_slashless (c ∷ e) h =
    let other : (c == b'/') ≡ false = ground arith in
    rw (other, elements_slashless e (ground arith)) refl

elements_slash : (e s : Text) → has_slash e ≡ false → elements (e ++ b'/' ∷ s) ≡ e ∷ elements s
unfolding has_slash split_at
elements_slash [] s h = refl
elements_slash (c ∷ e) s h =
    let other : (c == b'/') ≡ false = ground arith in
    rw (other, elements_slash e s (ground arith)) refl

elements_of_names :
    (r : Text) (rs : List Text) (s : Text)
    → All IsName (r ∷ rs)
    → elements (r ++ (slashed rs ++ b'/' ∷ s)) ≡ r ∷ (rs ++ elements s)
unfolding slashed
elements_of_names r [] s h = elements_slash r s h.0.3
elements_of_names r (q ∷ qs) s h =
    elements_slash r ((q ++ slashed qs) ++ b'/' ∷ s) h.0.3
    ∙ ap (λ l. r ∷ l) (rw append_assoc (elements_of_names q qs s h.1))

pub elements_of_path :
    (r : Text) (rs : List Text) → All IsName (r ∷ rs) → elements (r ++ slashed rs) ≡ r ∷ rs
unfolding slashed
elements_of_path r [] h = rw append_empty (elements_slashless r h.0.3)
elements_of_path r (q ∷ qs) h =
    elements_slash r (q ++ slashed qs) h.0.3 ∙ ap (λ l. r ∷ l) (elements_of_path q qs h.1)

enter_name : (above : List Text) (e : Text) → IsName e → enter above e ≡ above ++ e ∷ []
unfolding enter
enter_name above e (filled, dot, up, slash) = rw (filled, dot, up)

pub resolve_names :
    (above rs es : List Text) → All IsName rs → resolve above (rs ++ es) ≡ resolve (above ++ rs) es
unfolding resolve
resolve_names above [] es h = rw append_empty refl
resolve_names above (r ∷ rs) es h =
    ap (λ a. resolve a (rs ++ es)) (enter_name above r h.0)
    ∙ resolve_names (above ++ r ∷ []) rs es h.1
    ∙ ap (λ a. resolve a es) (append_assoc above (r ∷ []) rs)

resolve_path : (r : Text) (rs : List Text) → All IsName (r ∷ rs) → resolve [] (r ∷ rs) ≡ r ∷ rs
unfolding resolve
resolve_path r rs h =
    ap (λ l. resolve [] l) (sym (append_empty (r ∷ rs))) ∙ resolve_names [] (r ∷ rs) [] h

-- A slash at the front adds an empty element, which `resolve` leaves out.
resolve_rooted : (s : Text) → resolve [] (elements (b'/' ∷ s)) ≡ resolve [] (elements s)
unfolding resolve enter split_at
resolve_rooted s = refl

resolve_nothing : (above : List Text) → resolve above (elements []) ≡ above
unfolding resolve enter split_at
resolve_nothing above = refl

-- `Join` of a path of names resolves the elements of the other path from there.
pub join-absolute :
    (r : Text) (rs : List Text) (more : Text)
    → All IsName (r ∷ rs)
    → join (absolute (r ∷ rs)) more ≡ absolute (resolve (r ∷ rs) (elements more))
unfolding join clean absolute slashed
join-absolute r rs [] h =
    ap absolute (
      resolve_rooted (r ++ slashed rs)
      ∙ ap (λ l. resolve [] l) (elements_of_path r rs h)
      ∙ resolve_path r rs h)
    ∙ ap absolute (sym (resolve_nothing (r ∷ rs)))
join-absolute r rs (c ∷ more) h = ap absolute (
    resolve_rooted _
    ∙ ap (λ l. resolve [] (elements l))
        (append_assoc (r ++ slashed rs) (codes "/") (c ∷ more)
          ∙ append_assoc r (slashed rs) (b'/' ∷ c ∷ more))
    ∙ ap (λ l. resolve [] l) (elements_of_names r rs (c ∷ more) h)
    ∙ resolve_names [] (r ∷ rs) (elements (c ∷ more)) h)

pub join_name :
    (r : Text) (rs : List Text) (name : Text)
    → All IsName (r ∷ rs)
    → IsName name
    → join (absolute (r ∷ rs)) name ≡ absolute (r ∷ (rs ++ name ∷ []))
unfolding resolve
join_name r rs name h n =
    join-absolute r rs name h
    ∙ ap (λ l. absolute (resolve (r ∷ rs) l)) (elements_slashless name n.3)
    ∙ ap absolute (resolve_names (r ∷ rs) (name ∷ []) [] (n, tt))

-- A path of names is clean.
pub clean-absolute : (es : List Text) → All IsName es → clean (absolute es) ≡ absolute es
unfolding clean absolute slashed
clean-absolute [] h = ap absolute (resolve_rooted [] ∙ resolve_nothing [])
clean-absolute (e ∷ es) h = ap absolute (
    resolve_rooted (e ++ slashed es)
    ∙ ap (λ l. resolve [] l) (elements_of_path e es h)
    ∙ resolve_path e es h)
