-- ===== src/Utils/RandomString.antt =====
-- `GenerateRandomString` and its two callers (backend/internal/utils/string_util.go). A character
-- set is ASCII. The source of randomness is given by its reads of a whole buffer.
pub mod Picks
pub mod Bounds
use vocy.Prelude.{
  ℕ, zero, suc, ◌+◌, ◌*◌, ◌/◌, ◌%◌, Bool, true, false, List, [], ◌∷◌, ◌++◌, Result, ok, err, ◌>>=◌,
  length, codes, ltb, ◌==◌, if◌then◌else◌,
}
use vocy.Env.Schema.{Text, ℤ, pos, negsuc}

-- `l[n]`, which is in range wherever it is called.
unfoldable pub nth : List ℕ → ℕ → ℕ
nth [] n = 0
nth (x ∷ xs) zero = x
nth (x ∷ xs) (suc n) = nth xs n

-- `int(float64(length) * 1.3)`, exact below 2 ^ 49.
unfoldable pub buffer_size : ℕ → ℕ
buffer_size count = count * 13 / 10

pub record Draw : Type 0 where
  pub byte : ℕ
  pub reads_done : ℕ
  pub buffer : List ℕ

-- The bytes of one round: the buffer is filled again at each multiple of its size, and the byte is
-- taken at the remainder by the length.
unfoldable pub draw : {E : Type 0} → (ℕ → Result E (List ℕ)) → ℕ → ℕ → ℕ → List ℕ → Result E Draw
unfolding nth buffer_size
draw reads count j reads_done buffer =
    if j % buffer_size count == 0
    then (reads reads_done >>= λ filled.
        ok (record { byte = nth filled (j % count); reads_done = reads_done + 1; buffer = filled }))
    else ok (record { byte = nth buffer (j % count); reads_done = reads_done; buffer = buffer })

pub data Outcome (E : Type 0) : Type 0 where
  returned : Text → Outcome E
  not_positive : Outcome E
  no_randomness : E → Outcome E
  still_running : Outcome E

-- The loop, for a number of rounds.
unfoldable pub generate_from :
    {E : Type 0} → ℕ → (ℕ → Result E (List ℕ)) → ℕ → Text → ℕ → ℕ → ℕ → List ℕ → Text → Outcome E
unfolding draw nth
generate_from zero reads count charset i j reads_done buffer result = still_running
generate_from (suc rounds) reads count charset i j reads_done buffer result =
    let drawn = draw reads count j reads_done buffer in
    elim (ltb i count) [
      | false ↦ returned result
      | true ↦ elim drawn [
        | err e ↦ no_randomness e
        | ok d ↦ elim (ltb (d.byte % 64) (length charset)) [
          | true ↦
              generate_from rounds reads count charset (i + 1) (j + 1) d.reads_done d.buffer
                (result ++ nth charset (d.byte % 64) ∷ [])
          | false ↦ generate_from rounds reads count charset i (j + 1) d.reads_done d.buffer result
        ]
      ]
    ]

-- `GenerateRandomString`.
unfoldable pub generate_random_string :
    {E : Type 0} → ℕ → (ℕ → Result E (List ℕ)) → ℤ → Text → Outcome E
unfolding generate_from
generate_random_string rounds reads (negsuc n) charset = not_positive
generate_random_string rounds reads (pos zero) charset = not_positive
generate_random_string rounds reads (pos (suc n)) charset =
    generate_from rounds reads (suc n) charset 0 0 0 [] []

abbrev pub alphanumeric : Text
alphanumeric = codes "abcdefghijklmnopqrstuvwxyzABCDEFGHIJKLMNOPQRSTUVWXYZ0123456789"

abbrev pub unambiguous : Text
unambiguous = codes "abcdefghjkmnpqrstuvwxyzABCDEFGHJKMNPQRSTUVWXYZ23456789"

abbrev pub generate_random_alphanumeric_string :
    {E : Type 0} → ℕ → (ℕ → Result E (List ℕ)) → ℤ → Outcome E
generate_random_alphanumeric_string rounds reads n =
    generate_random_string rounds reads n alphanumeric

abbrev pub generate_random_unambiguous_string :
    {E : Type 0} → ℕ → (ℕ → Result E (List ℕ)) → ℤ → Outcome E
generate_random_unambiguous_string rounds reads n =
    generate_random_string rounds reads n unambiguous
