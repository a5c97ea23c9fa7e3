-- ===== src/Prelude/Text.antt =====
-- Text: the functions of the Go package `strings` that the program calls on tags and keys.
use Prim.Native.Nat.{ℕ}
use Prim.Native.Char.{code}
use Prim.Native.String
use Prim.Native.String.{String}
use mathlib.Core.Bool.{Bool, true, false}
use mathlib.Core.List.{List, [], ◌∷◌}
use text.Mathlib.Text.{◌==◌ as str_eq}
use vocy.Prelude.Tests.{◌==◌, if◌then◌else◌}

-- The code points of a text: its bytes, if it is ASCII.
abbrev pub codes : String → List ℕ
codes String.[] = []
codes (String.◌∷◌ c s) = code c ∷ codes s

-- `strings.Cut(s, sep)` for a separator of one byte.
unfoldable pub cut : String → ℕ → String × String × Bool
cut String.[] sep = ("", "", false)
cut (String.◌∷◌ c s) sep =
    let (before, after, found) = cut s sep in
    if code c == sep then ("", s, true) else (String.◌∷◌ c before, after, found)

prepend : String → List String → List String
prepend c [] = c ∷ []
prepend c (p ∷ ps) = String.◌++◌ c p ∷ ps

-- `strings.Split(s, sep)` for a separator of one byte.
unfoldable pub split : String → ℕ → List String
unfolding prepend
split String.[] sep = "" ∷ []
split (String.◌∷◌ c s) sep =
    let parts = split s sep in if code c == sep then "" ∷ parts else prepend (String.◌∷◌ c "") parts

-- `slices.Contains(l, s)`.
unfoldable pub contains : List String → String → Bool
contains [] s = false
contains (x ∷ xs) s = let rest = contains xs s in if str_eq x s then true else rest
