-- ===== src/Prelude/Decimals.antt =====
-- Numbers in decimal digits, as `strconv.Itoa` writes them and `strconv` and `fmt` read them.
use Prim.Native.Nat.{ℕ, zero, suc, ◌+◌, ◌-◌, ◌*◌, ◌/◌, ◌%◌, ◌<◌}
use mathlib.Core.Path.{◌≡◌, refl}
use mathlib.Core.Logic.{◌≢◌, inl, inr}
use mathlib.Core.Bool.{Bool, true, false, ◌&&◌}
use mathlib.Core.List.{List, [], ◌∷◌, ◌++◌}
use native.Mathlib.Omega.{arith}
use vocy.Prelude.Tests.{ltb, leb, if◌then◌else◌, Bool-cases}

-- The decimal digits of a number (`strconv.Itoa`), with fuel for its digits.
unfoldable pub digits : ℕ → ℕ → List ℕ
digits zero n = []
digits (suc fuel) n =
    let more = digits fuel (n / 10) in
    if ltb n 10 then (b'0' + n) ∷ [] else more ++ (b'0' + n % 10) ∷ []

unfoldable pub itoa : ℕ → List ℕ
unfolding digits
itoa n = digits (suc n) n

-- The number that a text of digits stands for.
unfoldable pub number_from : ℕ → List ℕ → ℕ
number_from n [] = n
number_from n (d ∷ ds) = number_from (n * 10 + (d - b'0')) ds

number_from-append :
    (n : ℕ) (s : List ℕ) (d : ℕ) → number_from n (s ++ d ∷ []) ≡ number_from n s * 10 + (d - b'0')
unfolding number_from
number_from-append n [] d = refl
number_from-append n (c ∷ s) d = number_from-append (n * 10 + (c - b'0')) s d

pub number_from-digits : (fuel n : ℕ) → n < fuel → number_from 0 (digits fuel n) ≡ n
unfolding digits number_from
number_from-digits zero n h = absurd (omega arith)
number_from-digits (suc fuel) n h = elim (Bool-cases (ltb n 10)) [
  | inl small ↦ rw small (omega arith)
  | inr large ↦
      rw (large, number_from-append 0 (digits fuel (n / 10)) (b'0' + n % 10))
        (omega (arith, number_from-digits fuel (n / 10) (ground arith)))
]

unfoldable pub is_decimal : ℕ → Bool
is_decimal c = leb b'0' c && leb c b'9'

unfoldable pub all_decimal : List ℕ → Bool
unfolding is_decimal
all_decimal [] = true
all_decimal (c ∷ s) = let rest = all_decimal s in if is_decimal c then rest else false

all_decimal-append :
    (s : List ℕ) (d : ℕ)
    → all_decimal s ≡ true
    → is_decimal d ≡ true
    → all_decimal (s ++ d ∷ []) ≡ true
unfolding all_decimal
all_decimal-append [] d h k = ground (arith, k)
all_decimal-append (c ∷ s) d h k = ground (arith, h, k, all_decimal-append s d)

all_decimal-digits : (fuel n : ℕ) → all_decimal (digits fuel n) ≡ true
unfolding digits all_decimal is_decimal
all_decimal-digits zero n = refl
all_decimal-digits (suc fuel) n = elim (Bool-cases (ltb n 10)) [
  | inl small ↦ rw small (ground (arith, small))
  | inr large ↦ rw large (
      all_decimal-append (digits fuel (n / 10)) (b'0' + n % 10) (all_decimal-digits fuel (n / 10))
        (ground arith))
]

snoc_filled : (s : List ℕ) (d : ℕ) → s ++ d ∷ [] ≢ []
snoc_filled [] d h = ground arith
snoc_filled (c ∷ s) d h = ground arith

pub itoa_filled : (n : ℕ) → itoa n ≢ []
unfolding itoa digits
itoa_filled n = elim (Bool-cases (ltb n 10)) [
  | inl small ↦ rw small (λ h. ground arith)
  | inr large ↦ rw large (snoc_filled (digits n (n / 10)) (b'0' + n % 10))
]

-- What `itoa` writes has only digits, and stands for the number.
pub itoa_digits : (n : ℕ) → (all_decimal (itoa n) ≡ true) × (number_from 0 (itoa n) ≡ n)
unfolding itoa
itoa_digits n = (all_decimal-digits (suc n) n, number_from-digits (suc n) n (omega arith))
