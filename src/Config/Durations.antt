-- ===== src/Config/Durations.antt =====
-- `AppConfigVariable.AsDurationMinutes` (backend/internal/model/app_config.go). A duration is an
-- `int64` of nanoseconds, and an `int` has 64 bits.
pub mod Bounds
use vocy.Prelude.{
  ℕ, zero, suc, ◌+◌, ◌-◌, ◌*◌, ◌%◌, ◌^◌, Bool, true, false, ◌&&◌, Option, none, some, List, [], ◌∷◌,
  codes, number_from, all_decimal, ltb, leb, ◌==◌, if◌then◌else◌,
}
use vocy.Config.Values.{AppConfigVariable}
use vocy.Env.Schema.{Text, ℤ, pos, negsuc, is_empty}

-- `-n`.
abbrev pub negative : ℕ → ℤ
negative zero = pos 0
negative (suc n) = negsuc n

-- The digits of `strconv.Atoi` behind the sign; a text that has none, or another character, is an
-- error, and so is a number out of range.
unfoldable pub unsigned : Text → Option ℕ
unsigned [] = none
unsigned (c ∷ s) = if all_decimal (c ∷ s) then some (number_from 0 (c ∷ s)) else none

abbrev pub positive_in_range : Option ℕ → Option ℤ
positive_in_range none = none
positive_in_range (some n) = if ltb n (2 ^ 63) then some (pos n) else none

abbrev pub negative_in_range : Option ℕ → Option ℤ
negative_in_range none = none
negative_in_range (some n) = if leb n (2 ^ 63) then some (negative n) else none

-- `strconv.Atoi`.
unfoldable pub atoi : Text → Option ℤ
unfolding unsigned
atoi [] = none
atoi (c ∷ s) =
    if c == b'-'
    then negative_in_range (unsigned s)
    else if c == b'+'
    then positive_in_range (unsigned s)
    else positive_in_range (unsigned (c ∷ s))

abbrev pub minute : ℕ
minute = 60_000_000_000

-- The `int64` of a pattern of 64 bits.
abbrev pub signed64 : ℕ → ℤ
signed64 w = if ltb w (2 ^ 63) then pos w else negsuc (2 ^ 64 - w - 1)

-- `time.Duration(val) * time.Minute`, which wraps around.
unfoldable pub times_minute : ℤ → ℤ
times_minute (pos n) = signed64 (n * minute % 2 ^ 64)
times_minute (negsuc n) = signed64 ((2 ^ 64 - suc n * minute % 2 ^ 64) % 2 ^ 64)

unfoldable pub as_duration_minutes : AppConfigVariable → ℤ
unfolding atoi times_minute
as_duration_minutes a = elim (atoi (codes a.value)) [ none ↦ pos 0 | some val ↦ times_minute val ]
