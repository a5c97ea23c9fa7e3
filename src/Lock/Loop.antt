-- ===== src/Lock/Loop.antt =====
-- How the loop of `RunRenewal` ends
-- (backend/internal/service/app_lock_service.go).
use vocy.Prelude.{
  ℕ, ◌≡◌, ◌≢◌, ◌⊎◌, ◌↔◌, refl, sym, ◌∙◌, ap, Option, none, some, List, [], ◌∷◌, arith, inl, inr,
  Option-cases,
}
use vocy.Lock.Value.{Codec, Kv}
use vocy.Lock.State.{AppLockService, LockError, Round, Wake, context_done, tick}
use vocy.Lock.Renewal.{renew, run_renewal}

module _ (codec : Codec) (E : Type 0) (s : AppLockService) where
  -- `AfterTicks wakes t later t'`: the first of the wakes are ticks whose renewals all return nil and
  -- lead from the table `t` to `t'`, and `later` are the wakes behind them.
  pub data AfterTicks : List (Wake E) → Kv → List (Wake E) → Kv → Type 0 where
    no_tick : {wakes : List (Wake E)} {t : Kv} → AfterTicks wakes t wakes t
    ticked :
        {wakes later : List (Wake E)} {t t' : Kv} (rounds : ℕ → Round E)
        → (renew codec s rounds t).1 ≡ none
        → AfterTicks wakes (renew codec s rounds t).0 later t'
        → AfterTicks (tick rounds ∷ wakes) t later t'

  -- How `RunRenewal` ends behind its ticks: with nil just at a wake by the context, or with the error
  -- of the next tick's renewal.
  pub record Ended (wakes : List (Wake E)) (t t' : Kv) (e : Option (LockError E)) : Type 0 where
    pub last : Kv
    pub later : List (Wake E)
    pub unseen : List (Wake E)
    pub ticks : AfterTicks wakes t later last
    pub end :
        ((later ≡ context_done ∷ unseen) × (e ≡ none) × (t' ≡ last))
        ⊎ ((rounds : ℕ → Round E) × (later ≡ tick rounds ∷ unseen)
            × (renew codec s rounds last ≡ (t', e))
            × (e ≢ none))

module _ (codec : Codec) {E : Type 0} (s : AppLockService) where
  after_tick :
      (rounds : ℕ → Round E) (wakes : List (Wake E)) (t : Kv)
      → (renew codec s rounds t).1 ≡ none
      → run_renewal codec s (tick rounds ∷ wakes) t
        ≡ run_renewal codec s wakes (renew codec s rounds t).0
  unfolding run_renewal
  after_tick rounds wakes t h = rw (h, run_renewal) refl

  after_last_tick :
      (rounds : ℕ → Round E) (wakes : List (Wake E)) (t : Kv) (e : LockError E)
      → (renew codec s rounds t).1 ≡ some e
      → run_renewal codec s (tick rounds ∷ wakes) t ≡ ((renew codec s rounds t).0, some (some e))
  unfolding run_renewal
  after_last_tick rounds wakes t e h = rw (h, run_renewal) refl

  run_renewal-Ended :
      (wakes : List (Wake E)) (t t' : Kv) (e : Option (LockError E))
      → run_renewal codec s wakes t ≡ (t', some e)
      → Ended codec E s wakes t t' e
  unfolding run_renewal
  run_renewal-Ended [] t t' e h = absurd (ground (arith, ap (λ x. x.1) h))
  run_renewal-Ended (context_done ∷ wakes) t t' e h = record {
    last = t;
    later = context_done ∷ wakes;
    unseen = wakes;
    ticks = no_tick;
    end = inl (refl, ground (arith, ap (λ x. x.1) h), ground (arith, ap (λ x. x.0) h));
  }
  run_renewal-Ended (tick rounds ∷ wakes) t t' e h =
      elim (Option-cases (renew codec s rounds t).1) [
        | inl fine ↦
            let rest =
              run_renewal-Ended wakes (renew codec s rounds t).0 t' e
                (sym (after_tick rounds wakes t fine) ∙ h) in
            record {
              last = rest.last;
              later = rest.later;
              unseen = rest.unseen;
              ticks = ticked rounds fine rest.ticks;
              end = rest.end;
            }
        | inr (x, bad) ↦ record {
          last = t;
          later = tick rounds ∷ wakes;
          unseen = wakes;
          ticks = no_tick;
          end =
              let q = sym (after_last_tick rounds wakes t x bad) ∙ h in
              inr (
                rounds,
                refl,
                ground (arith, bad, ap (λ x. x.0) q, ap (λ x. x.1) q),
                λ n. ground (arith, n, ap (λ x. x.1) q),
              );
        }
      ]

  after_ticks :
      (wakes later : List (Wake E)) (t last : Kv)
      → AfterTicks codec E s wakes t later last
      → run_renewal codec s wakes t ≡ run_renewal codec s later last
  after_ticks wakes later t last no_tick = refl
  after_ticks wakes later t last (ticked rounds fine ticks) =
      after_tick rounds _ t fine ∙ after_ticks _ later (renew codec s rounds t).0 last ticks

  last_tick :
      (rounds : ℕ → Round E) (wakes : List (Wake E)) (t t' : Kv) (e : Option (LockError E))
      → renew codec s rounds t ≡ (t', e)
      → e ≢ none
      → run_renewal codec s (tick rounds ∷ wakes) t ≡ (t', some e)
  last_tick rounds wakes t t' none renewed bad = absurd (bad refl)
  last_tick rounds wakes t t' (some x) renewed bad =
      after_last_tick rounds wakes t x (ap (λ r. r.1) renewed)
      ∙ ap (λ (r : Kv × Option (LockError E)). (r.0, some (some x))) renewed

  Ended-run_renewal :
      (wakes : List (Wake E)) (t t' : Kv) (e : Option (LockError E))
      → Ended codec E s wakes t t' e
      → run_renewal codec s wakes t ≡ (t', some e)
  unfolding run_renewal
  Ended-run_renewal wakes t t' e ended =
      after_ticks wakes ended.later t ended.last ended.ticks ∙ elim ended.end [
        | inl (done, nil, left) ↦ rw (done, nil, left)
        | inr (rounds, next, renewed, bad) ↦
            rw next (last_tick rounds ended.unseen ended.last t' e renewed bad)
      ]

  -- `RunRenewal` returns just behind a number of ticks, the first of its wakes, whose renewals all
  -- returned nil, and just if the next wake is that of the context or a tick whose renewal fails: it
  -- returns nil at the wake of the context, with the table that the last renewal left, and else the
  -- error of the failed renewal, with the table that this one left.
  pub run_renewal_ends :
      (wakes : List (Wake E)) (t t' : Kv) (e : Option (LockError E))
      → (run_renewal codec s wakes t ≡ (t', some e)) ↔ Ended codec E s wakes t t' e
  run_renewal_ends wakes t t' e = (run_renewal-Ended wakes t t' e, Ended-run_renewal wakes t t' e)
