-- ===== src/Prelude/Results.antt =====
-- A call that may fail: Go's `(value, error)` where a failing call's value is not used.
use mathlib.Core.Path.{◌≡◌, refl}
use mathlib.Core.Logic.{◌⊎◌, inl, inr}
use mathlib.Core.Option.{Option, none, some}
use native.Mathlib.Omega.{arith}

pub data Result {ℓ κ} (E : Type ℓ) (V : Type κ) : Type (ℓ ⊔ κ) where
  err : E → Result E V
  ok : V → Result E V

infixl 5 ◌>>=◌ ◌>>◌
-- What follows the test of an error: `next` on the value.
abbrev pub ◌>>=◌ {ℓ κ μ} :
    {E : Type ℓ} {V : Type κ} {W : Type μ} → Result E V → (V → Result E W) → Result E W
err failure >>= next = err failure
ok v >>= next = next v

abbrev pub ◌>>◌ {ℓ κ} : {E : Type ℓ} {W : Type κ} → Result E (Unit {0}) → Result E W → Result E W
first >> second = first >>= λ done. second

-- `if err != nil { return fmt.Errorf("...: %w", err) }`.
abbrev pub wrap : {E F A : Type 0} → (E → F) → Result E A → Result F A
wrap f (ok a) = ok a
wrap f (err e) = err (f e)

-- A call that returns only an error.
abbrev pub check : {E F : Type 0} → (E → F) → Option E → Result F (Unit {0})
check f none = ok tt
check f (some e) = err (f e)

-- A chain that ends well went through each of its links.
pub >>=-eq-ok :
    {E V W : Type 0} (r : Result E V) (next : V → Result E W) {w : W}
    → (r >>= next) ≡ ok w
    → (v : V) × (r ≡ ok v) × (next v ≡ ok w)
>>=-eq-ok (err failure) next h = absurd (ground arith)
>>=-eq-ok (ok v) next h = (v, refl, h)

-- A chain that fails does so at its first link or behind it.
pub >>=-eq-err :
    {E V W : Type 0} (r : Result E V) (next : V → Result E W) {e : E}
    → (r >>= next) ≡ err e
    → (r ≡ err e) ⊎ ((v : V) × (r ≡ ok v) × (next v ≡ err e))
>>=-eq-err (err failure) next h = inl (ground arith)
>>=-eq-err (ok v) next h = inr (v, refl, h)

pub wrap-eq-ok : {E F A : Type 0} (f : E → F) (m : Result E A) {a : A} → wrap f m ≡ ok a → m ≡ ok a
wrap-eq-ok f (ok b) h = ground arith
wrap-eq-ok f (err e) h = ground arith

pub check-eq-ok :
    {E F : Type 0} (f : E → F) (o : Option E) {u : Unit {0}} → check f o ≡ ok u → o ≡ none
check-eq-ok f none h = refl
check-eq-ok f (some e) h = ground arith

pub ok-injective : {E A : Type 0} {a b : A} → ◌≡◌ {A = Result E A} (ok a) (ok b) → a ≡ b
ok-injective h = cc

pub Result-cases :
    {E A : Type 0} (r : Result E A) → ((a : A) × (r ≡ ok a)) ⊎ ((e : E) × (r ≡ err e))
Result-cases (ok a) = inl (a, refl)
Result-cases (err e) = inr (e, refl)
