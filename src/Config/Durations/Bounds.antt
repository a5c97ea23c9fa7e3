-- ===== src/Config/Durations/Bounds.antt =====
-- Where a duration in minutes is exact (backend/internal/model/app_config.go).
use vocy.Prelude.{
  ℕ, suc, ◌*◌, ◌^◌, ◌≤◌, ◌≡◌, ◌↔◌, ◌≢◌, is_decimal, itoa_filled, refl, sym, ap, ◌∙◌, true, false,
  some, [], ◌∷◌, codes, arith, number_from, all_decimal, itoa, itoa_digits, ltb, leb, ◌==◌, inl,
  inr, Bool-cases,
}
use vocy.Config.Values.{AppConfigVariable}
use vocy.Env.Schema.{Text, pos, negsuc}
use vocy.Config.Durations.{
  negative, unsigned, positive_in_range, negative_in_range, atoi, minute, times_minute,
  as_duration_minutes,
}

-- The number of minutes that an `int64` of nanoseconds holds.
abbrev pub most_minutes : ℕ
most_minutes = 153_722_867

times_minute_exact : (n : ℕ) → (n ≤ most_minutes) ↔ (times_minute (pos n) ≡ pos (n * minute))
unfolding times_minute
times_minute_exact n = ((λ h. ground (arith, h)), (λ h. ground (arith, h)))

times_minute_exact_negative :
    (n : ℕ) → (suc n ≤ most_minutes) ↔ (times_minute (negsuc n) ≡ negative (suc n * minute))
unfolding times_minute
times_minute_exact_negative n = ((λ h. ground (arith, h)), (λ h. ground (arith, h)))

unsigned-itoa : (n : ℕ) (s : Text) → s ≡ itoa n → s ≢ [] → unsigned s ≡ some n
unfolding unsigned
unsigned-itoa n [] e filled = absurd (filled refl)
unsigned-itoa n (c ∷ s) e filled =
    let (decimal, value) = itoa_digits n in
    rw (rw (sym e) at decimal) (ap some (ap (number_from 0) e ∙ value))

decimal_head :
    (c : ℕ) (s : Text) → all_decimal (c ∷ s) ≡ true → ((c == b'-') ≡ false) × ((c == b'+') ≡ false)
unfolding all_decimal is_decimal
decimal_head c s h = (ground (arith, h), ground (arith, h))

atoi-itoa : (n : ℕ) (s : Text) → s ≡ itoa n → atoi s ≡ positive_in_range (some n)
unfolding atoi
atoi-itoa n [] e = absurd (itoa_filled n (sym e))
atoi-itoa n (c ∷ s) e =
    let (decimal, value) = itoa_digits n in
    let (minus, plus) = decimal_head c s (rw (sym e) at decimal) in
    rw (minus, plus) (ap positive_in_range (unsigned-itoa n (c ∷ s) e (λ h. ground (arith, h))))

atoi_negative :
    (n : ℕ) (s : Text) → s ≡ b'-' ∷ itoa (suc n) → atoi s ≡ negative_in_range (some (suc n))
unfolding atoi
atoi_negative n s e =
    ap atoi e
    ∙ ap negative_in_range (unsigned-itoa (suc n) (itoa (suc n)) refl (itoa_filled (suc n)))

-- The duration of a setting that holds a number of minutes is that number of minutes just if there
-- are at most 153722867 of them; a greater number wraps around, or is out of range and counts as
-- none.
pub as_duration_minutes_exact :
    (a : AppConfigVariable) (n : ℕ)
    → codes a.value ≡ itoa n
    → (n ≤ most_minutes) ↔ (as_duration_minutes a ≡ pos (n * minute))
unfolding as_duration_minutes
as_duration_minutes_exact a n e = elim (Bool-cases (ltb n (2 ^ 63))) [
  | inl small ↦
      rw (as_duration_minutes, atoi-itoa n (codes a.value) e, small) (times_minute_exact n)
  | inr large ↦
      rw (as_duration_minutes, atoi-itoa n (codes a.value) e, large)
        ((λ h. absurd (ground (arith, h, large))), (λ h. absurd (ground (arith, h, large))))
]

-- The same of a number of minutes below zero.
pub as_duration_minutes_exact_negative :
    (a : AppConfigVariable) (n : ℕ)
    → codes a.value ≡ b'-' ∷ itoa (suc n)
    → (suc n ≤ most_minutes) ↔ (as_duration_minutes a ≡ negative (suc n * minute))
unfolding as_duration_minutes
as_duration_minutes_exact_negative a n e =
    let minus = atoi_negative n (codes a.value) e in
    elim (Bool-cases (leb (suc n) (2 ^ 63))) [
      | inl small ↦ rw (as_duration_minutes, minus, small) (times_minute_exact_negative n)
      | inr large ↦
          rw (as_duration_minutes, minus, large)
            ((λ h. absurd (ground (arith, h, large))), (λ h. absurd (ground (arith, h, large))))
    ]
