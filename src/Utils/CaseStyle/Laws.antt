-- ===== src/Utils/CaseStyle/Laws.antt =====
-- What the conversions of names keep and what they leave alone.
use vocy.Prelude.{
  ℕ, ◌≡◌, refl, ◌∙◌, false, ◌&&◌, ◌||◌, List, [], ◌∷◌, map, arith, ◌==◌, All, inl, inr, Bool-cases,
  if◌then◌else◌,
}
use vocy.Utils.CaseStyle.{
  is_upper, is_lower, is_digit, to_lower, to_upper, split_acronyms, split_words,
  camel_case_to_snake_case, camel_case_to_screaming_snake_case,
}

-- A text without its underscores, in lower case.
pub letters : List ℕ → List ℕ
letters [] = []
letters (c ∷ s) = let rest = letters s in if c == b'_' then rest else to_lower c ∷ rest

letters-split_acronyms : (s : List ℕ) → letters (split_acronyms s) ≡ letters s
unfolding letters split_acronyms
letters-split_acronyms [] = refl
letters-split_acronyms (a ∷ []) = refl
letters-split_acronyms (a ∷ b ∷ []) = refl
letters-split_acronyms (a ∷ b ∷ c ∷ s) =
    elim (Bool-cases (is_upper a && is_upper b && is_lower c)) [
      | inl t ↦ rw (t, letters-split_acronyms (b ∷ c ∷ s))
      | inr t ↦ rw (t, letters-split_acronyms (b ∷ c ∷ s))
    ]

letters-split_words : (s : List ℕ) → letters (split_words s) ≡ letters s
unfolding letters split_words
letters-split_words [] = refl
letters-split_words (a ∷ []) = refl
letters-split_words (a ∷ b ∷ s) = elim (Bool-cases ((is_lower a || is_digit a) && is_upper b)) [
  | inl t ↦ rw (t, letters-split_words (b ∷ s))
  | inr t ↦ rw (t, letters-split_words (b ∷ s))
]

letters-to_lower : (s : List ℕ) → letters (map to_lower s) ≡ letters s
unfolding letters to_lower
letters-to_lower [] = refl
letters-to_lower (c ∷ s) = ground (arith, letters-to_lower s)

letters-to_upper : (s : List ℕ) → letters (map to_upper s) ≡ letters s
unfolding letters to_lower to_upper
letters-to_upper [] = refl
letters-to_upper (c ∷ s) = ground (arith, letters-to_upper s)

-- Both conversions keep a name's letters and digits in their order: they change only the case and
-- the underscores.
pub letters-snake_case :
    (s : List ℕ)
    → (letters (camel_case_to_snake_case s) ≡ letters s)
      × (letters (camel_case_to_screaming_snake_case s) ≡ letters s)
unfolding camel_case_to_snake_case camel_case_to_screaming_snake_case
letters-snake_case s = (
  letters-to_lower (split_words (split_acronyms s))
      ∙ letters-split_words (split_acronyms s)
      ∙ letters-split_acronyms s,
  letters-to_upper (split_words (split_acronyms s))
      ∙ letters-split_words (split_acronyms s)
      ∙ letters-split_acronyms s,
)

abbrev HasNoCapital : List ℕ → Type 0
HasNoCapital = All (λ c. is_upper c ≡ false)

map-to_lower-HasNoCapital : (s : List ℕ) → HasNoCapital (map to_lower s)
unfolding to_lower is_upper
map-to_lower-HasNoCapital [] = tt
map-to_lower-HasNoCapital (c ∷ s) = (ground arith, map-to_lower-HasNoCapital s)

split_acronyms-HasNoCapital : (s : List ℕ) → HasNoCapital s → split_acronyms s ≡ s
unfolding split_acronyms
split_acronyms-HasNoCapital [] h = refl
split_acronyms-HasNoCapital (a ∷ []) h = refl
split_acronyms-HasNoCapital (a ∷ b ∷ []) h = refl
split_acronyms-HasNoCapital (a ∷ b ∷ c ∷ s) h =
    rw (h.0, split_acronyms-HasNoCapital (b ∷ c ∷ s) h.1)

split_words-HasNoCapital : (s : List ℕ) → HasNoCapital s → split_words s ≡ s
unfolding split_words
split_words-HasNoCapital [] h = refl
split_words-HasNoCapital (a ∷ []) h = refl
split_words-HasNoCapital (a ∷ b ∷ s) h = ground (arith, h.1.0, split_words-HasNoCapital (b ∷ s) h.1)

pub map-to_lower_idem : (s : List ℕ) → map to_lower (map to_lower s) ≡ map to_lower s
unfolding to_lower is_upper
map-to_lower_idem [] = refl
map-to_lower_idem (c ∷ s) = ground (arith, map-to_lower_idem s)

-- Snake case is a fixed point: converting a converted name changes nothing.
pub camel_case_to_snake_case_idem :
    (s : List ℕ)
    → camel_case_to_snake_case (camel_case_to_snake_case s) ≡ camel_case_to_snake_case s
unfolding camel_case_to_snake_case
camel_case_to_snake_case_idem s =
    let small = map-to_lower-HasNoCapital (split_words (split_acronyms s)) in
    rw (split_acronyms-HasNoCapital _ small, split_words-HasNoCapital _ small, map-to_lower_idem)
