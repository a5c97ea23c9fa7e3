-- ===== src/Utils/RandomString/Picks.antt =====
-- What `GenerateRandomString` returns (backend/internal/utils/string_util.go).
use vocy.Prelude.{
  ℕ, zero, suc, ◌+◌, ◌-◌, ◌%◌, ◌≤◌, ◌<◌, ◌≡◌, refl, sym, ap, ◌∙◌, true, false, List, [], ◌∷◌, ◌++◌,
  append_assoc, append_empty, Result, ok, ◌>>=◌, >>=-eq-ok, ok-injective, take, length, arith, ltb,
  inl, inr, Bool-cases, if◌then◌else◌,
}
use vocy.Env.Schema.{Text, pos}
use vocy.Utils.RandomString.{nth, Draw, draw, returned, generate_from, generate_random_string}

module _ {E : Type 0} (reads : ℕ → Result E (List ℕ)) (n : ℕ) where
  -- The bytes that a number of rounds look at.
  unfoldable pub draws : ℕ → ℕ → ℕ → List ℕ → Result E (List ℕ)
  draws zero j reads_done buffer = ok []
  draws (suc rounds) j reads_done buffer = draw reads n j reads_done buffer >>= λ d.
      draws rounds (j + 1) d.reads_done d.buffer >>= λ bytes. ok (d.byte ∷ bytes)

module _ (charset : Text) where
  -- The characters that stand for bytes, without the bytes that stand for none.
  unfoldable pub picked : List ℕ → Text
  picked [] = []
  picked (b ∷ bytes) =
      let rest = picked bytes in
      if ltb (b % 64) (length charset) then nth charset (b % 64) ∷ rest else rest

module _ {E : Type 0} (reads : ℕ → Result E (List ℕ)) (n : ℕ) (charset : Text) where
  generate_from_ends :
      (rounds i j k : ℕ) (buffer : List ℕ) (result : Text)
      → ltb i n ≡ false
      → generate_from (suc rounds) reads n charset i j k buffer result ≡ returned result
  unfolding generate_from
  generate_from_ends rounds i j k buffer result h = rw (generate_from, h)

  generate_from_takes :
      (rounds i j k : ℕ) (buffer : List ℕ) (result : Text) (d : Draw)
      → ltb i n ≡ true
      → draw reads n j k buffer ≡ ok d
      → ltb (d.byte % 64) (length charset) ≡ true
      → generate_from (suc rounds) reads n charset i j k buffer result
        ≡ generate_from rounds reads n charset
            (i + 1)
            (j + 1)
            d.reads_done
            d.buffer
            (result ++ nth charset (d.byte % 64) ∷ [])
  unfolding generate_from
  generate_from_takes rounds i j k buffer result d h drawn inside =
      rw (generate_from, h, drawn, inside)

  generate_from_discards :
      (rounds i j k : ℕ) (buffer : List ℕ) (result : Text) (d : Draw)
      → ltb i n ≡ true
      → draw reads n j k buffer ≡ ok d
      → ltb (d.byte % 64) (length charset) ≡ false
      → generate_from (suc rounds) reads n charset i j k buffer result
        ≡ generate_from rounds reads n charset i (j + 1) d.reads_done d.buffer result
  unfolding generate_from
  generate_from_discards rounds i j k buffer result d h drawn outside =
      rw (generate_from, h, drawn, outside)

  take_nothing : (m : ℕ) (s : Text) → m ≡ 0 → take m s ≡ []
  take_nothing m s h = rw h

  generate_from_complete :
      (rounds i j k : ℕ) (buffer : List ℕ) (result more : Text)
      → i ≤ n
      → ltb i n ≡ false
      → generate_from (suc rounds) reads n charset i j k buffer result
        ≡ returned (result ++ take (n - i) more)
  generate_from_complete rounds i j k buffer result more hi h =
      generate_from_ends rounds i j k buffer result h
      ∙ ap returned (
          sym (append_empty result)
          ∙ ap (λ t. result ++ t) (sym (take_nothing (n - i) more (ground (arith, h, hi)))))

  picks_inside :
      (b : ℕ) (rest bytes : List ℕ)
      → b ∷ rest ≡ bytes
      → ltb (b % 64) (length charset) ≡ true
      → picked charset bytes ≡ nth charset (b % 64) ∷ picked charset rest
  unfolding picked
  picks_inside b rest bytes e inside = sym (ap (picked charset) e) ∙ rw (picked, inside)

  picks_outside :
      (b : ℕ) (rest bytes : List ℕ)
      → b ∷ rest ≡ bytes
      → ltb (b % 64) (length charset) ≡ false
      → picked charset bytes ≡ picked charset rest
  unfolding picked
  picks_outside b rest bytes e outside = sym (ap (picked charset) e) ∙ rw (picked, outside)

  take_first :
      (i c : ℕ) (more whole : Text)
      → i < n
      → whole ≡ c ∷ more
      → take (n - i) whole ≡ c ∷ take (n - (i + 1)) more
  take_first i c more whole h e =
      let left : n - i ≡ suc (n - (i + 1)) = omega arith in rw (left, e) refl

  generate_from_picks :
      (rounds i j k : ℕ) (buffer : List ℕ) (result : Text) (bytes : List ℕ)
      → i ≤ n
      → draws reads n rounds j k buffer ≡ ok bytes
      → n ≤ i + length (picked charset bytes)
      → generate_from (suc rounds) reads n charset i j k buffer result
        ≡ returned (result ++ take (n - i) (picked charset bytes))
  unfolding draws picked
  generate_from_picks zero i j k buffer result bytes hi h enough =
      let none_drawn : [] ≡ bytes = ok-injective h in
      generate_from_complete zero i j k buffer result (picked charset bytes) hi
        (ground (arith, hi, rw (sym none_drawn) at enough))
  generate_from_picks (suc rounds) i j k buffer result bytes hi h enough =
      elim (Bool-cases (ltb i n)) [
        | inr done ↦
            generate_from_complete (suc rounds) i j k buffer result (picked charset bytes) hi done
        | inl more ↦
            let (d, drawn, after) = >>=-eq-ok (draw reads n j k buffer) _ h in
            let (rest, ok_rest, whole) =
              >>=-eq-ok (draws reads n rounds (j + 1) d.reads_done d.buffer) _ after in
            let split : d.byte ∷ rest ≡ bytes = ok-injective whole in
            elim (Bool-cases (ltb (d.byte % 64) (length charset))) [
              | inl inside ↦
                  let c = nth charset (d.byte % 64) in
                  let first = picks_inside d.byte rest bytes split inside in
                  let enough' : n ≤ i + suc (length (picked charset rest)) = rw first at enough in
                  generate_from_takes (suc rounds) i j k buffer result d more drawn inside
                  ∙ generate_from_picks rounds (i + 1) (j + 1) d.reads_done d.buffer
                      (result ++ c ∷ []) rest (ground (arith, more)) ok_rest
                      (omega (arith, enough'))
                  ∙ ap returned (
                      append_assoc result (c ∷ []) _
                      ∙ ap (λ t. result ++ t)
                          (sym (take_first i c _ _ (ground (arith, more)) first)))
              | inr outside ↦
                  let first = picks_outside d.byte rest bytes split outside in
                  generate_from_discards (suc rounds) i j k buffer result d more drawn outside
                  ∙ generate_from_picks rounds i (j + 1) d.reads_done d.buffer result rest hi
                      ok_rest (rw first at enough)
                  ∙ ap (λ t. returned (result ++ take (n - i) t)) (sym first)
            ]
      ]

-- `GenerateRandomString` ends, and returns as many characters as it was asked for: the first ones
-- among those that the bytes it draws stand for. This supposes that the reads of randomness
-- succeed, and that the bytes of that many rounds stand for enough characters.
pub generate_random_string_picks :
    {E : Type 0} (reads : ℕ → Result E (List ℕ)) (charset : Text) (n rounds : ℕ) (bytes : List ℕ)
    → draws reads (suc n) rounds 0 0 [] ≡ ok bytes
    → suc n ≤ length (picked charset bytes)
    → generate_random_string (suc rounds) reads (pos (suc n)) charset
      ≡ returned (take (suc n) (picked charset bytes))
unfolding generate_random_string
generate_random_string_picks reads charset n rounds bytes h enough =
    let all_left : suc n - 0 ≡ suc n = omega arith in
    generate_from_picks reads (suc n) charset rounds 0 0 0 [] [] bytes (omega arith) h
      (omega (arith, enough))
    ∙ ap (λ m. returned (take m (picked charset bytes))) all_left
