-- ===== src/Utils/RandomString/Bounds.antt =====
-- The length and the characters of a random string (backend/internal/utils/string_util.go).
use mathlib.Core.Path.{subst}
use vocy.Prelude.{
  ℕ, zero, suc, ◌+◌, ◌%◌, ◌≤◌, ◌<◌, ◌≡◌, refl, sym, ap, ◌∙◌, Bool, true, false, List, [], ◌∷◌, ◌++◌,
  length-append, Result, All, length, arith, ltb, ◌==◌, inl, inr, Bool-cases, Result-cases,
  if◌then◌else◌,
}
use vocy.Env.Schema.{Text, pos}
use vocy.Utils.RandomString.{nth, draw, Outcome, returned, generate_from, generate_random_string}

-- A character of a set.
unfoldable pub is_in : Text → ℕ → Bool
is_in [] c = false
is_in (d ∷ charset) c = let rest = is_in charset c in if d == c then true else rest

abbrev pub IsIn : Text → ℕ → Type 0
IsIn charset c = is_in charset c ≡ true

nth-IsIn : (charset : Text) (k : ℕ) → k < length charset → IsIn charset (nth charset k)
unfolding is_in nth
nth-IsIn [] k h = absurd (omega arith)
nth-IsIn (d ∷ charset) zero h = ground arith
nth-IsIn (d ∷ charset) (suc k) h = ground (arith, nth-IsIn charset k (omega arith))

All-snoc :
    (charset result : Text) (c : ℕ)
    → All (IsIn charset) result
    → IsIn charset c
    → All (IsIn charset) (result ++ c ∷ [])
All-snoc charset [] c h k = (k, tt)
All-snoc charset (d ∷ result) c h k = (h.0, All-snoc charset result c h.1 k)

returned-injective :
    {E : Type 0} {s t : Text} → ◌≡◌ {A = Outcome E} (returned s) (returned t) → s ≡ t
returned-injective h = cc

module _ {E : Type 0} (reads : ℕ → Result E (List ℕ)) (n : ℕ) (charset : Text) where
  generate_from_bounds :
      (rounds i j k : ℕ) (buffer : List ℕ) (result t : Text)
      → length result ≡ i
      → i ≤ n
      → All (IsIn charset) result
      → generate_from rounds reads n charset i j k buffer result ≡ returned t
      → (length t ≡ n) × All (IsIn charset) t
  unfolding generate_from
  generate_from_bounds zero i j k buffer result t size hi inside h = absurd (ground arith)
  generate_from_bounds (suc rounds) i j k buffer result t size hi inside h =
      elim (Bool-cases (ltb i n)) [
        | inr done ↦
            let same_text : result ≡ t = returned-injective (rw (generate_from, done) at h) in
            let full : i ≡ n = ground (arith, hi, done) in
            (sym (ap length same_text) ∙ size ∙ full, subst (All (IsIn charset)) same_text inside)
        | inl more ↦ elim (Result-cases (draw reads n j k buffer)) [
          | inr (e, failed) ↦ absurd (ground (arith, rw (generate_from, more, failed) at h))
          | inl (d, drawn) ↦ elim (Bool-cases (ltb (d.byte % 64) (length charset))) [
            | inl taken ↦
                generate_from_bounds rounds (i + 1) (j + 1) d.reads_done d.buffer
                  (result ++ nth charset (d.byte % 64) ∷ []) t
                  (length-append result _ ∙ omega (arith, size)) (ground (arith, more))
                  (All-snoc charset result _ inside
                    (nth-IsIn charset (d.byte % 64) (ground (arith, taken))))
                  (rw (generate_from, more, drawn, taken) at h)
            | inr dropped ↦
                generate_from_bounds rounds i (j + 1) d.reads_done d.buffer result t size hi inside
                  (rw (generate_from, more, drawn, dropped) at h)
          ]
        ]
      ]

-- A random string that is returned has exactly the length that was asked for, and each of its
-- characters is one of the set.
pub generate_random_string_bounds :
    {E : Type 0} (rounds : ℕ) (reads : ℕ → Result E (List ℕ)) (n : ℕ) (charset t : Text)
    → generate_random_string rounds reads (pos n) charset ≡ returned t
    → (length t ≡ n) × All (IsIn charset) t
unfolding generate_random_string
generate_random_string_bounds rounds reads zero charset t h = absurd (ground arith)
generate_random_string_bounds rounds reads (suc n) charset t h =
    generate_from_bounds reads (suc n) charset rounds 0 0 0 [] [] t refl (omega arith) tt h
