-- ===== src/Sqlite/Values.antt =====
-- `url.Values` as an association list. Its order stands for the order in which Go ranges over the
-- map, which the language leaves open. A text is ASCII, as its list of bytes.
use mathlib.Core.Path.{subst}
use vocy.Prelude.{
  ◌≡◌, refl, sym, true, false, List, [], ◌∷◌, ◌++◌, arith, Bool-cases, inl, inr, if◌then◌else◌,
}
use vocy.Env.Schema.{Text, same}

abbrev pub Values : Type 0
Values = List (Text × List Text)

-- `qs[k]`, nil for a missing key.
unfoldable pub values_of : Values → Text → List Text
values_of [] k = []
values_of ((j, v) ∷ qs) k = let rest = values_of qs k in if same j k then v else rest

-- `qs[k] = v`.
unfoldable pub put : Values → Text → List Text → Values
put [] k v = (k, v) ∷ []
put ((j, w) ∷ qs) k v = let rest = put qs k v in if same j k then (j, v) ∷ qs else (j, w) ∷ rest

-- `qs.Add(k, v)`.
unfoldable pub add : Values → Text → Text → Values
unfolding put values_of
add qs k v = put qs k (values_of qs k ++ v ∷ [])

-- `v[0]` of values that are not empty, as those of a parsed query are.
abbrev pub first : List Text → Text
first [] = []
first (v ∷ vs) = v

pub same_refl : (s : Text) → same s s ≡ true
unfolding same
same_refl [] = refl
same_refl (c ∷ s) = ground (arith, same_refl s)

pub values_of-put : (qs : Values) (k : Text) (v : List Text) → values_of (put qs k v) k ≡ v
unfolding values_of put
values_of-put [] k v = rw (same_refl k)
values_of-put ((j, w) ∷ qs) k v = elim (Bool-cases (same j k)) [
  | inl e ↦ rw (e, values_of, e)
  | inr e ↦ rw (e, values_of, e, values_of-put qs k v)
]

pub same_eq : (s t : Text) → same s t ≡ true → s ≡ t
unfolding same
same_eq [] [] h = refl
same_eq [] (d ∷ t) h = ground arith
same_eq (c ∷ s) [] h = ground arith
same_eq (c ∷ s) (d ∷ t) h =
    let heads : c ≡ d = ground arith in
    let tails : same s t ≡ true = ground arith in cc (heads, same_eq s t tails)

pub values_of-put_ne :
    (qs : Values) (k j : Text) (v : List Text)
    → same k j ≡ false
    → values_of (put qs k v) j ≡ values_of qs j
unfolding values_of put
values_of-put_ne [] k j v h = rw h
values_of-put_ne ((i, w) ∷ qs) k j v h = elim (Bool-cases (same i k)) [
  | inl e ↦
      let other : same i j ≡ false = subst (λ x. same x j ≡ false) (sym (same_eq i k e)) h in
      rw (e, values_of, other)
  | inr e ↦ rw (e, values_of, values_of-put_ne qs k j v h)
]
