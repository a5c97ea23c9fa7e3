-- ===== src/Lock/Retries.antt =====
-- What the retries of `renew` and the loop of `RunRenewal` come to
-- (backend/internal/service/app_lock_service.go).
use vocy.Prelude.{
  ℕ, zero, suc, ◌+◌, ◌≤◌, ◌<◌, ◌≡◌, ◌≢◌, ◌⊎◌, refl, sym, ◌∙◌, ap, Bool, ◌&&◌, Option, none, some,
  ok, ltb, arith, inl, inr, Bool-cases, if◌then◌else◌,
}
use vocy.Lock.Value.{LockValue, Codec, Kv}
use vocy.Lock.State.{
  AppLockService, LockError, canceled, Faults, own_value, Attempted, renewed, gives_up, retries,
  Round, renew_retries,
}
use vocy.Lock.Acquire.{acquire}
use vocy.Lock.Renewal.{attempt_renewal, renew_from, renew}
use vocy.Lock.Holding.{Holds, acquire-Holds, renewal_of_foreign, attempt_renewal-Holds}

Attempted-cases :
    {E : Type 0} (a : Attempted E)
    → (a ≡ renewed) ⊎ ((e : LockError E) × (a ≡ gives_up e)) ⊎ ((e : LockError E) × (a ≡ retries e))
Attempted-cases renewed = inl refl
Attempted-cases (gives_up e) = inr (inl (e, refl))
Attempted-cases (retries e) = inr (inr (e, refl))

module _ (codec : Codec) {E : Type 0} (s : AppLockService) where
  -- The attempt of a round.
  abbrev attempted : (ℕ → Round E) → ℕ → Kv → Kv × Attempted E
  attempted rounds k t =
      attempt_renewal codec s (rounds k).call (rounds k).now ((rounds k).others t)

  module _ (left attempt : ℕ) (rounds : ℕ → Round E) (t : Kv) (last : Option (LockError E)) where
    after_renewed :
        (attempted rounds attempt t).1 ≡ renewed
        → renew_from codec s (suc left) attempt rounds t last
          ≡ ((attempted rounds attempt t).0, none)
    unfolding renew_from
    after_renewed h = ground arith

    after_gives_up :
        (e : LockError E)
        → (attempted rounds attempt t).1 ≡ gives_up e
        → renew_from codec s (suc left) attempt rounds t last
          ≡ ((attempted rounds attempt t).0, some e)
    unfolding renew_from
    after_gives_up e h = ground arith

    after_retries :
        (e : LockError E)
        → (attempted rounds attempt t).1 ≡ retries e
        → renew_from codec s (suc left) attempt rounds t last ≡ (
            if ltb attempt renew_retries && (rounds attempt).canceled_in_wait
            then ((attempted rounds attempt t).0, some canceled)
            else renew_from codec s left
                (attempt + 1)
                rounds
                (attempted rounds attempt t).0
                (some e))
    unfolding renew_from
    after_retries e h = ground arith

  -- The row is the service's own, written in one of the given rounds.
  abbrev pub RenewedIn : ℕ → ℕ → (ℕ → Round E) → Kv → Type 0
  RenewedIn first last rounds t =
      (k : ℕ) × (first ≤ k) × (k < last) × Holds codec t (own_value s (rounds k).now)

  out_of_attempts :
      (attempt : ℕ) (rounds : ℕ → Round E) (t : Kv) (last : Option (LockError E))
      → renew_from codec s zero attempt rounds t last ≡ (t, last)
  unfolding renew_from
  out_of_attempts attempt rounds t last = refl

  renewed_in :
      (left attempt : ℕ) (rounds : ℕ → Round E) (t : Kv) (last : Option (LockError E))
      → (last ≡ none → left ≢ 0)
      → (renew_from codec s left attempt rounds t last).1 ≡ none
      → RenewedIn attempt (attempt + left) rounds (renew_from codec s left attempt rounds t last).0
  renewed_in zero attempt rounds t last bad h =
      absurd (bad (sym (ap (λ x. x.1) (out_of_attempts attempt rounds t last)) ∙ h) refl)
  renewed_in (suc left) attempt rounds t last bad h =
      elim (Attempted-cases (attempted rounds attempt t).1) [
        | inl e ↦ (
          attempt,
          omega arith,
          omega arith,
          rw (after_renewed left attempt rounds t last e) (
              attempt_renewal-Holds codec s (rounds attempt).call (rounds attempt).now
                ((rounds attempt).others t) e),
        )
        | inr (inl (x, e)) ↦
            absurd (ground (arith, h, after_gives_up left attempt rounds t last x e))
        | inr (inr (x, e)) ↦
            let r = after_retries left attempt rounds t last x e in
            elim (Bool-cases (ltb attempt renew_retries && (rounds attempt).canceled_in_wait)) [
              | inl c ↦ absurd (ground (arith, h, r, c))
              | inr c ↦
                  let next = rw c at r in
                  let (k, from, to, holds) =
                    renewed_in left (attempt + 1) rounds (attempted rounds attempt t).0 (some x)
                      (λ n. absurd (ground arith)) (sym (ap (λ x. x.1) next) ∙ h) in
                  (k, omega (arith, from), omega (arith, to), rw next holds)
            ]
      ]

  -- If `renew` returns nil, the row is the service's own, written in one of its three attempts.
  pub renew-Holds :
      (rounds : ℕ → Round E) (t : Kv)
      → (renew codec s rounds t).1 ≡ none
      → RenewedIn 1 4 rounds (renew codec s rounds t).0
  unfolding renew
  renew-Holds rounds t h = renewed_in 3 1 rounds t none (λ e z. omega (arith, z)) h

  agreeing :
      (left attempt : ℕ) (rounds rounds' : ℕ → Round E) (t : Kv) (last : Option (LockError E))
      → ((k : ℕ) → attempt ≤ k → k < attempt + left → rounds k ≡ rounds' k)
      → renew_from codec s left attempt rounds t last
        ≡ renew_from codec s left attempt rounds' t last
  agreeing zero attempt rounds rounds' t last same =
      out_of_attempts attempt rounds t last ∙ sym (out_of_attempts attempt rounds' t last)
  agreeing (suc left) attempt rounds rounds' t last same =
      let here = same attempt (omega arith) (omega arith) in
      let att : attempted rounds attempt t ≡ attempted rounds' attempt t =
        ap (λ (r : Round E). attempt_renewal codec s r.call r.now (r.others t)) here in
      let how = sym (ap (λ x. x.1) att) in
      let left_by = ap (λ x. x.0) att in
      elim (Attempted-cases (attempted rounds attempt t).1) [
        | inl e ↦ cc (
          after_renewed left attempt rounds t last e,
          after_renewed left attempt rounds' t last (how ∙ e),
          left_by,
        )
        | inr (inl (x, e)) ↦ cc (
          after_gives_up left attempt rounds t last x e,
          after_gives_up left attempt rounds' t last x (how ∙ e),
          left_by,
        )
        | inr (inr (x, e)) ↦
            let rest =
              agreeing left (attempt + 1) rounds rounds' (attempted rounds attempt t).0 (some x)
                (λ k from to. same k (omega (arith, from)) (omega (arith, to))) in
            after_retries left attempt rounds t last x e
            ∙ rw (rest, here) (sym (after_retries left attempt rounds' t last x (how ∙ e)))
      ]

  -- `renew` makes at most three attempts: what would come behind them does not matter.
  pub renew_at_most_three :
      (rounds rounds' : ℕ → Round E) (t : Kv)
      → ((k : ℕ) → 1 ≤ k → k ≤ 3 → rounds k ≡ rounds' k)
      → renew codec s rounds t ≡ renew codec s rounds' t
  unfolding renew
  renew_at_most_three rounds rounds' t same =
      agreeing 3 1 rounds rounds' t none (λ k from to. same k from (omega (arith, to)))

  foreign_row :
      (left attempt : ℕ) (rounds : ℕ → Round E) (t : Kv) (last : Option (LockError E))
      (v : LockValue)
      → Holds codec t v
      → v.lock_id ≢ s.lock_id
      → ((k : ℕ) → (rounds k).others t ≡ t)
      → (last ≡ none → left ≢ 0)
      → ((renew_from codec s left attempt rounds t last).0 ≡ t)
        × ((renew_from codec s left attempt rounds t last).1 ≢ none)
  foreign_row zero attempt rounds t last v h foreign quiet bad = (
    ap (λ x. x.0) (out_of_attempts attempt rounds t last),
    λ e. bad (sym (ap (λ x. x.1) (out_of_attempts attempt rounds t last)) ∙ e) refl,
  )
  foreign_row (suc left) attempt rounds t last v h foreign quiet bad =
      let (kept, failed) =
        renewal_of_foreign codec t v h s (rounds attempt).call (rounds attempt).now foreign in
      let att : attempted rounds attempt t
          ≡ attempt_renewal codec s (rounds attempt).call (rounds attempt).now t =
        ap (attempt_renewal codec s (rounds attempt).call (rounds attempt).now) (quiet attempt) in
      let same = ap (λ x. x.0) att ∙ kept in
      elim (Attempted-cases (attempted rounds attempt t).1) [
        | inl e ↦ absurd (failed (sym (ap (λ x. x.1) att) ∙ e))
        | inr (inl (x, e)) ↦
            let r = after_gives_up left attempt rounds t last x e in
            (ap (λ x. x.0) r ∙ same, λ n. ground (arith, ap (λ x. x.1) r, n))
        | inr (inr (x, e)) ↦
            let r = rw same at (after_retries left attempt rounds t last x e) in
            let (kept', failed') =
              foreign_row left (attempt + 1) rounds t (some x) v h foreign quiet
                (λ n. absurd (ground arith)) in
            elim (Bool-cases (ltb attempt renew_retries && (rounds attempt).canceled_in_wait)) [
              | inl c ↦
                  let r' = rw c at r in (ap (λ x. x.0) r', λ n. ground (arith, ap (λ x. x.1) r', n))
              | inr c ↦
                  let r' = rw c at r in
                  (ap (λ x. x.0) r' ∙ kept', λ n. failed' (sym (ap (λ x. x.1) r') ∙ n))
            ]
      ]

  -- A process whose lock another one took, by force or after the expiry, cannot renew it while
  -- that row stands: `renew` changes nothing and returns an error, however its calls end.
  pub takeover_stops_renewal :
      (taker : AppLockService) (faults : Faults E) (now : ℕ) (force : Bool) (t t' : Kv)
      (until : Option ℕ)
      → acquire codec taker faults now force t ≡ (t', ok until)
      → taker.lock_id ≢ s.lock_id
      → (rounds : ℕ → Round E) → ((k : ℕ) → (rounds k).others t' ≡ t')
      → ((renew codec s rounds t').0 ≡ t') × ((renew codec s rounds t').1 ≢ none)
  unfolding renew own_value
  takeover_stops_renewal taker faults now force t t' until h foreign rounds quiet =
      foreign_row 3 1 rounds t' none (own_value taker now)
        (acquire-Holds codec taker faults now force t t' until h) foreign quiet
        (λ e z. omega (arith, z))
