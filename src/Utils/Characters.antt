-- ===== src/Utils/Characters.antt =====
-- `CapitalizeFirstLetter`, `GetFirstCharacter` and `GetHostnameFromURL`
-- (backend/internal/utils/string_util.go). A text is ASCII.
use vocy.Prelude.{◌≡◌, refl, Bool-cases, inl, inr, Option, none, some, [], ◌∷◌, take, if◌then◌else◌}
use vocy.Utils.CaseStyle.{to_upper}
use vocy.Env.Schema.{Text, is_space, trim_left}

-- The loop writes the first letter in upper case and the others as they are.
unfoldable pub capitalize_first_letter : Text → Text
capitalize_first_letter [] = []
capitalize_first_letter (c ∷ s) = to_upper c ∷ s

unfoldable pub get_first_character : Text → Text
get_first_character [] = []
get_first_character (c ∷ s) =
    let rest = get_first_character s in if is_space c then rest else c ∷ []

-- `GetHostnameFromURL`, with the host name of the URL that `url.Parse` returns.
unfoldable pub get_hostname_from_url : Option Text → Text
get_hostname_from_url none = []
get_hostname_from_url (some hostname) = hostname

-- The first character is that of the text without the space at its front.
pub get_first_character-trim_left :
    (s : Text) → get_first_character s ≡ take 1 (trim_left is_space s)
unfolding get_first_character trim_left
get_first_character-trim_left [] = refl
get_first_character-trim_left (c ∷ s) = elim (Bool-cases (is_space c)) [
  | inl space ↦ rw space (get_first_character-trim_left s)
  | inr other ↦ rw other
]
