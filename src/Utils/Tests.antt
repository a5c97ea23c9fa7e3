-- ===== src/Utils/Tests.antt =====
-- Tests and witnesses on the helpers (backend/internal/utils).
use vocy.Prelude.{
  ℕ, ◌≡◌, refl, arith, ◌≤◌, some, List, [], ◌∷◌, Result, ok, take, length, All, codes,
}
use vocy.Env.Schema.{Text, pos}
use vocy.Utils.RandomString.{Outcome, returned, generate_random_string, alphanumeric}
use vocy.Utils.RandomString.Picks.{draws, picked, generate_random_string_picks}
use vocy.Utils.RandomString.Bounds.{IsIn, generate_random_string_bounds}
use vocy.Utils.Files.{split_file_name, get_image_mime_type, get_image_extension_from_mime_type}
use vocy.Utils.CaseStyle.{camel_case_to_snake_case, camel_case_to_screaming_snake_case}

-- A source whose second byte stands for no character.
abbrev reads : ℕ → Result Text (List ℕ)
reads k = ok (0 ∷ 63 ∷ 1 ∷ 2 ∷ 3 ∷ [])

-- After the byte that is left out, the first byte of the buffer is taken once more, and the last
-- one never.
byte_taken_twice : generate_random_string 9 reads (pos 4) alphanumeric ≡ returned (codes "abca")
unfolding generate_random_string
byte_taken_twice = refl

five_draws : draws reads 4 5 0 0 [] ≡ ok (0 ∷ 63 ∷ 1 ∷ 2 ∷ 0 ∷ [])
unfolding draws vocy.Utils.RandomString.draw
five_draws = refl

abbrev drawn : List ℕ
drawn = 0 ∷ 63 ∷ 1 ∷ 2 ∷ 0 ∷ []

four_picked : 4 ≤ length (picked alphanumeric drawn)
unfolding picked
four_picked = omega arith

generate_random_string_picks_example :
    generate_random_string 6 reads (pos 4) alphanumeric
    ≡ returned (take 4 (picked alphanumeric drawn))
generate_random_string_picks_example =
    generate_random_string_picks reads alphanumeric 3 5 drawn five_draws four_picked

generate_random_string_bounds_example :
    (length (codes "abca") ≡ 4) × All (IsIn alphanumeric) (codes "abca")
generate_random_string_bounds_example =
    generate_random_string_bounds 9 reads 4 alphanumeric (codes "abca") byte_taken_twice

hidden_file : split_file_name (codes ".gitignore") ≡ (codes ".gitignore", [])
unfolding split_file_name
hidden_file = refl

svg_type :
    get_image_extension_from_mime_type (λ mt. some mt) (get_image_mime_type (codes "svg"))
    ≡ codes "svg"
unfolding get_image_extension_from_mime_type get_image_mime_type vocy.Env.Schema.same
    vocy.Env.Schema.trim_space vocy.Utils.CaseStyle.to_lower
svg_type = refl
