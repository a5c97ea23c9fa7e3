-- ===== src/Utils/CaseStyle.antt =====
-- `CamelCaseToSnakeCase` and `CamelCaseToScreamingSnakeCase` of
-- backend/internal/utils/string_util.go, on ASCII text as its list of bytes.
pub mod Laws
use vocy.Prelude.{
  ℕ, ◌+◌, ◌-◌, ◌≡◌, refl, ap, ◌∙◌, Bool, true, false, ◌&&◌, ◌||◌, List, [], ◌∷◌, map, arith, leb,
  codes, inl, inr, Bool-cases, if◌then◌else◌,
}

unfoldable pub is_upper : ℕ → Bool
is_upper c = leb b'A' c && leb c b'Z'

unfoldable pub is_lower : ℕ → Bool
is_lower c = leb b'a' c && leb c b'z'

unfoldable pub is_digit : ℕ → Bool
is_digit c = leb b'0' c && leb c b'9'

-- `strings.ToLower` and `strings.ToUpper` of a byte.
unfoldable pub to_lower : ℕ → ℕ
unfolding is_upper
to_lower c = if is_upper c then c + 32 else c

unfoldable pub to_upper : ℕ → ℕ
unfolding is_lower
to_upper c = if is_lower c then c - 32 else c

-- `reAcronymBoundary.ReplaceAllString(s, "${1}_${2}")` for `([A-Z]+)([A-Z][a-z])`. A match is a
-- whole run of two or more capitals and the small letter behind it, and the underscore goes before
-- the last capital of the run.
unfoldable pub split_acronyms : List ℕ → List ℕ
unfolding is_upper is_lower
split_acronyms [] = []
split_acronyms (a ∷ []) = a ∷ []
split_acronyms (a ∷ b ∷ []) = a ∷ b ∷ []
split_acronyms (a ∷ b ∷ c ∷ s) =
    let rest = split_acronyms (b ∷ c ∷ s) in
    if is_upper a && is_upper b && is_lower c then a ∷ b'_' ∷ rest else a ∷ rest

-- `reLowerToUpper.ReplaceAllString(s, "${1}_${2}")` for `([a-z0-9])([A-Z])`. Two matches never
-- share a byte.
unfoldable pub split_words : List ℕ → List ℕ
unfolding is_upper is_lower is_digit
split_words [] = []
split_words (a ∷ []) = a ∷ []
split_words (a ∷ b ∷ s) =
    let rest = split_words (b ∷ s) in
    if (is_lower a || is_digit a) && is_upper b then a ∷ b'_' ∷ rest else a ∷ rest

unfoldable pub camel_case_to_snake_case : List ℕ → List ℕ
unfolding split_acronyms split_words to_lower
camel_case_to_snake_case s = map to_lower (split_words (split_acronyms s))

unfoldable pub camel_case_to_screaming_snake_case : List ℕ → List ℕ
unfolding split_acronyms split_words to_upper
camel_case_to_screaming_snake_case s = map to_upper (split_words (split_acronyms s))
