-- ===== src/Storage/Paths/Resolve.antt =====
-- `Clean` leaves names only: the elements of a path have no slashes, and none that is kept is `.` or
-- `..` (backend/internal/storage/filesystem.go).
use vocy.Prelude.{
  ℕ, ◌≡◌, refl, false, ◌||◌, List, [], ◌∷◌, All, codes, arith, ◌==◌, inl, inr, Bool-cases,
}
use vocy.Env.Schema.{Text, same, is_empty, split_at}
use vocy.Storage.Paths.{elements, drop_last, enter, resolve}
use vocy.Storage.Paths.Names.{has_slash, IsName}
use vocy.Storage.Paths.Below.{All-append}

abbrev pub IsSlashless : Text → Type 0
IsSlashless e = has_slash e ≡ false

starts-IsSlashless :
    (c : ℕ) (parts : List Text)
    → (c == b'/') ≡ false
    → All IsSlashless parts
    → All IsSlashless (elim parts [ [] ↦ (c ∷ []) ∷ [] | part ∷ more ↦ (c ∷ part) ∷ more ])
unfolding has_slash
starts-IsSlashless c [] other h = (rw other refl, tt)
starts-IsSlashless c (part ∷ more) other h = (rw other (h.0), h.1)

pub elements-IsSlashless : (s : Text) → All IsSlashless (elements s)
unfolding split_at has_slash
elements-IsSlashless [] = (refl, tt)
elements-IsSlashless (c ∷ s) = elim (Bool-cases (c == b'/')) [
  | inl slash ↦ rw slash (refl, elements-IsSlashless s)
  | inr other ↦ rw other (starts-IsSlashless c (elements s) other (elements-IsSlashless s))
]

drop_last-IsName : (es : List Text) → All IsName es → All IsName (drop_last es)
unfolding drop_last
drop_last-IsName [] h = tt
drop_last-IsName (e ∷ []) h = tt
drop_last-IsName (e ∷ f ∷ es) h = (h.0, drop_last-IsName (f ∷ es) h.1)

enter-IsName :
    (above : List Text) (e : Text) → All IsName above → IsSlashless e → All IsName (enter above e)
unfolding enter
enter-IsName above e h slash = elim (Bool-cases (is_empty e || same e (codes "."))) [
  | inl left_out ↦ rw left_out h
  | inr kept ↦ elim (Bool-cases (same e (codes ".."))) [
    | inl up ↦ rw (kept, up) (drop_last-IsName above h)
    | inr down ↦
        rw (kept, down)
          (All-append above (e ∷ []) h
            ((ground (arith, kept), ground (arith, kept), down, slash), tt))
  ]
]

pub resolve-IsName :
    (above es : List Text) → All IsName above → All IsSlashless es → All IsName (resolve above es)
unfolding resolve
resolve-IsName above [] h k = h
resolve-IsName above (e ∷ es) h k =
    resolve-IsName (enter above e) es (enter-IsName above e h k.0) k.1
