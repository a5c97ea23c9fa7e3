-- ===== src/Lock/Exclusion/Steps.antt =====
-- Each step keeps the invariant of the lock (backend/internal/service/app_lock_service.go).
use mathlib.Core.Path.{subst}
use vocy.Prelude.{
  ℕ, String, ◌+◌, ◌≤◌, ◌≡◌, ◌≢◌, ◌⊎◌, refl, sym, ◌∙◌, ap, true, false, Option, none, some, ok, err,
  str_eq, eq_iff, arith, inl, inr, Bool-cases, Option-cases,
}
use vocy.Lock.Value.{Codec, Kv, lock_key, with_lock}
use vocy.Lock.State.{AppLockService, LockError, Call, Faults, own_value, renewed, ttl}
use vocy.Lock.Sql.{update_lock}
use vocy.Lock.Acquire.{acquire}
use vocy.Lock.Renewal.{release, attempt_renewal}
use vocy.Lock.Holding.{
  Holds, acquire_respects_holder, acquire-Holds, renewal_of_foreign, attempt_renewal-Holds,
  release_of_foreign,
}
use vocy.Lock.Exclusion.{
  World, with_lease, Step, time_passes, acquires, fails_to_acquire, renews, fails_to_renew,
  releases, Backed, Inv,
}

module _ (codec : Codec) where
  -- A row outlives a step that leaves the table and no lease longer.
  move :
      (w w' : World) (p : String)
      → w'.table ≡ w.table
      → w'.lease p ≤ w.lease p
      → Backed codec w p
      → Backed codec w' p
  move w w' p same less b = record {
    held = b.held;
    holds = subst (λ t. Holds codec t b.held) (sym same) b.holds;
    own = b.own;
    lasts = omega (arith, b.lasts);
  }

  renewed_row :
      (w : World) (s : AppLockService) (now : ℕ) (p : String)
      → str_eq p s.lock_id ≡ true
      → w.lease p ≤ now + ttl
      → Holds codec w.table (own_value s now)
      → Backed codec w p
  unfolding own_value
  renewed_row w s now p e lasts h = record {
    held = own_value s now;
    holds = h;
    own = sym ((eq_iff p s.lock_id).0 e);
    lasts = lasts;
  }

  foreign :
      (w : World) (s : AppLockService) (p : String) (b : Backed codec w p)
      → str_eq p s.lock_id ≡ false
      → b.held.lock_id ≢ s.lock_id
  foreign w s p b e same = ground (arith, e, b.own, same, eq_iff p s.lock_id)

  Inv-passes : (w : World) (n : ℕ) → Inv codec w → Inv codec (record w { now = w.now + n })
  Inv-passes w n inv = record {
    backed = λ p live. move w _ p refl (omega arith) (inv.backed p (omega (arith, live)));
    ahead = λ p. omega (arith, inv.ahead p);
  }

module _ (codec : Codec) {E : Type 0} (s : AppLockService) where
  attempt_error :
      (call : Call E) (now : ℕ) (t : Kv)
      → codec.marshal (own_value s now) ≡ none
      → (attempt_renewal codec s call now t).0 ≡ t
  unfolding attempt_renewal
  attempt_error call now t e = ground arith

  attempt_row :
      (call : Call E) (now : ℕ) (t : Kv) (raw : String)
      → codec.marshal (own_value s now) ≡ some raw
      → ((attempt_renewal codec s call now t).0 ≡ t)
        ⊎ ((attempt_renewal codec s call now t).0 ≡ with_lock t (some raw))
  unfolding attempt_renewal update_lock
  attempt_row call now t raw e = ground arith

  -- A failed attempt leaves the table, or its call failed only after it wrote the service's row.
  attempt_changes :
      (call : Call E) (now : ℕ) (t : Kv)
      → ((attempt_renewal codec s call now t).0 ≡ t)
        ⊎ Holds codec (attempt_renewal codec s call now t).0 (own_value s now)
  attempt_changes call now t = elim (Option-cases (codec.marshal (own_value s now))) [
    | inl e ↦ inl (attempt_error call now t e)
    | inr (raw, e) ↦ elim (attempt_row call now t raw e) [
      | inl same ↦ inl same
      | inr row ↦ inr (record { raw = raw; row = ap (λ (x : Kv). x lock_key) row; encoded = e })
    ]
  ]

module _ (codec : Codec) {E : Type 0} (w : World) (inv : Inv codec w) (s : AppLockService) where
  Inv-acquires :
      (faults : Faults E) (t' : Kv) (until : Option ℕ)
      → acquire codec s faults w.now false w.table ≡ (t', ok until)
      → Inv codec
          (record { table = t'; now = w.now; lease = with_lease w.lease s.lock_id (w.now + ttl) })
  Inv-acquires faults t' until h = record {
    backed = λ p live. elim (Bool-cases (str_eq p s.lock_id)) [
      | inl e ↦
          renewed_row codec _ s w.now p e (ground (arith, e))
            (acquire-Holds codec s faults w.now false w.table t' until h)
      | inr e ↦
          let b = inv.backed p (ground (arith, e, live)) in
          absurd (
            (acquire_respects_holder codec w.table b.held b.holds s faults w.now
                (ground (arith, e, live, b.lasts))).1
              until (ap (λ x. x.1) h))
    ];
    ahead = λ p. ground (arith, inv.ahead p);
  }

  Inv-fails_to_acquire :
      (faults : Faults E) (t' : Kv) (e : LockError E)
      → acquire codec s faults w.now false w.table ≡ (t', err e)
      → Inv codec (record w { table = t' })
  Inv-fails_to_acquire faults t' e h = record {
    backed = λ p live.
        let b = inv.backed p live in
        let same =
          (acquire_respects_holder codec w.table b.held b.holds s faults w.now
            (omega (arith, live, b.lasts))).0 in
        move codec w _ p (sym (ap (λ x. x.0) h) ∙ same) (omega arith) b;
    ahead = inv.ahead;
  }

  Inv-renews :
      (call : Call E)
      → (attempt_renewal codec s call w.now w.table).1 ≡ renewed
      → Inv codec (record {
        table = (attempt_renewal codec s call w.now w.table).0;
        now = w.now;
        lease = with_lease w.lease s.lock_id (w.now + ttl);
      })
  Inv-renews call h = record {
    backed = λ p live. elim (Bool-cases (str_eq p s.lock_id)) [
      | inl e ↦
          renewed_row codec _ s w.now p e (ground (arith, e))
            (attempt_renewal-Holds codec s call w.now w.table h)
      | inr e ↦
          let b = inv.backed p (ground (arith, e, live)) in
          absurd (
            (renewal_of_foreign codec w.table b.held b.holds s call w.now
                (foreign codec w s p b e)).1
              h)
    ];
    ahead = λ p. ground (arith, inv.ahead p);
  }

  Inv-fails_to_renew :
      (call : Call E)
      → Inv codec (record w { table = (attempt_renewal codec s call w.now w.table).0 })
  Inv-fails_to_renew call = record {
    backed = λ p live.
        let b = inv.backed p live in
        elim (Bool-cases (str_eq p s.lock_id)) [
          | inl e ↦ elim (attempt_changes codec s call w.now w.table) [
            | inl same ↦ move codec w _ p same (omega arith) b
            | inr own ↦ renewed_row codec _ s w.now p e (inv.ahead p) own
          ]
          | inr e ↦
              move codec w _ p
                (renewal_of_foreign codec w.table b.held b.holds s call w.now
                  (foreign codec w s p b e)).0
                (omega arith) b
        ];
    ahead = inv.ahead;
  }

  Inv-releases :
      (call : Call E)
      → Inv codec (record {
        table = (release codec s call w.table).0;
        now = w.now;
        lease = with_lease w.lease s.lock_id 0;
      })
  Inv-releases call = record {
    backed = λ p live. elim (Bool-cases (str_eq p s.lock_id)) [
      | inl e ↦ absurd (ground (arith, e, live))
      | inr e ↦
          let b = inv.backed p (ground (arith, e, live)) in
          move codec w _ p
            (release_of_foreign codec w.table b.held b.holds s call (foreign codec w s p b e))
            (ground (arith, e)) b
    ];
    ahead = λ p. ground (arith, inv.ahead p);
  }

module _ (codec : Codec) {E : Type 0} where
  pub Step-Inv : (w w' : World) → Step codec E w w' → Inv codec w → Inv codec w'
  Step-Inv w _ (time_passes n) inv = Inv-passes codec w n inv
  Step-Inv w _ (acquires s faults t' until h) inv = Inv-acquires codec w inv s faults t' until h
  Step-Inv w _ (fails_to_acquire s faults t' e h) inv =
      Inv-fails_to_acquire codec w inv s faults t' e h
  Step-Inv w _ (renews s call h) inv = Inv-renews codec w inv s call h
  Step-Inv w _ (fails_to_renew s call h) inv = Inv-fails_to_renew codec w inv s call
  Step-Inv w _ (releases s call) inv = Inv-releases codec w inv s call
