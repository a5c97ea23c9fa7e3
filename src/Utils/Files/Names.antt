-- ===== src/Utils/Files/Names.antt =====
-- Names of files and their types (backend/internal/utils/file_util.go).
use vocy.Prelude.{
  ℕ, zero, suc, ◌≡◌, ◌≢◌, ◌⊎◌, refl, ap, ◌∙◌, Bool, true, false, none, some, [], ◌∷◌, ◌++◌, take,
  drop, arith, ◌==◌, inl, inr, Option-cases, if◌then◌else◌,
}
use vocy.Env.Schema.{Text}
use vocy.Utils.Files.{last_index, split_file_name}

-- A character that a text does not have.
unfoldable pub lacks : ℕ → Text → Bool
lacks c [] = true
lacks c (d ∷ s) = let rest = lacks c s in if d == c then false else rest

last_index-lacks : (c : ℕ) (s : Text) → last_index c s ≡ none → lacks c s ≡ true
unfolding last_index lacks
last_index-lacks c [] h = refl
last_index-lacks c (d ∷ s) h = elim (Option-cases (last_index c s)) [
  | inl e ↦ ground (arith, rw (last_index, e) at h, last_index-lacks c s e)
  | inr (i, e) ↦ absurd (ground (arith, rw (last_index, e) at h))
]

last_index_splits :
    (c : ℕ) (s : Text) (i : ℕ)
    → last_index c s ≡ some i
    → (s ≡ take i s ++ c ∷ drop (suc i) s) × (lacks c (drop (suc i) s) ≡ true)
unfolding last_index
last_index_splits c [] i h = absurd (ground arith)
last_index_splits c (d ∷ s) zero h = elim (Option-cases (last_index c s)) [
  | inl e ↦
      let here : d ≡ c = ground (arith, rw (last_index, e) at h) in
      (ap (λ x. x ∷ s) here, last_index-lacks c s e)
  | inr (k, e) ↦ absurd (ground (arith, rw (last_index, e) at h))
]
last_index_splits c (d ∷ s) (suc i) h = elim (Option-cases (last_index c s)) [
  | inl e ↦ absurd (ground (arith, rw (last_index, e) at h))
  | inr (k, e) ↦
      let same_place : k ≡ i = ground (arith, rw (last_index, e) at h) in
      let (whole, rest) = last_index_splits c s i (e ∙ ap some same_place) in
      (ap (λ t. d ∷ t) whole, rest)
]

take_filled : (i : ℕ) (s : Text) → last_index b'.' s ≡ some (suc i) → take (suc i) s ≢ []
unfolding last_index
take_filled i [] h = λ e. ground arith
take_filled i (c ∷ s) h = λ e. ground arith

-- `SplitFileName` loses nothing but the dot: the two parts with a dot between them are the name, the
-- first part is not empty and the second has no dot, unless the name has no extension; then it has
-- no dot, or only the one at its front, and is returned as it is.
pub split_file_name_joins :
    (name : Text)
    → ((name ≡ (split_file_name name).0 ++ b'.' ∷ (split_file_name name).1)
        × ((split_file_name name).0 ≢ [])
        × (lacks b'.' (split_file_name name).1 ≡ true))
      ⊎ (split_file_name name ≡ (name, []))
        × ((lacks b'.' name ≡ true) ⊎ (lacks b'.' (drop 1 name) ≡ true))
unfolding split_file_name
split_file_name_joins name = elim (Option-cases (last_index b'.' name)) [
  | inl e ↦ inr (rw (split_file_name, e), inl (last_index-lacks b'.' name e))
  | inr (zero, e) ↦ inr (rw (split_file_name, e), inr (last_index_splits b'.' name 0 e).1)
  | inr (suc i, e) ↦
      let (whole, rest) = last_index_splits b'.' name (suc i) e in
      inl (
        rw (split_file_name, e) whole,
        rw (split_file_name, e) (take_filled i name e),
        rw (split_file_name, e) rest,
      )
]
