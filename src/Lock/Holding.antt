-- ===== src/Lock/Holding.antt =====
-- What `Acquire`, `renew` and `Release` do to a row that holds a lock
-- (backend/internal/service/app_lock_service.go).
use vocy.Prelude.{
  ℕ, String, ◌≤◌, ◌≡◌, ◌≢◌, ◌⊎◌, refl, ◌∙◌, ap, Bool, true, false, ◌&&◌, ◌||◌, Option, none, some,
  ok, err, str_eq, eq_iff, ltb, arith, inl, inr, Bool-cases, Option-cases, if◌then◌else◌,
}
use vocy.Lock.Value.{LockValue, Codec, Kv, lock_key, with_lock}
use vocy.Lock.Sql.{insert_lock, update_lock, delete_lock}
use vocy.Lock.State.{
  AppLockService, lock_unavailable, lock_lost, Call, succeeds, Faults, is_supported, previous_lock,
  own_value, wait_until, renewed, gives_up,
}
use vocy.Lock.Acquire.{acquire}
use vocy.Lock.Renewal.{release, attempt_renewal}

-- The row of the lock holds a value.
pub record Holds (codec : Codec) (t : Kv) (v : LockValue) : Type 0 where
  pub raw : String
  pub row : t lock_key ≡ some raw
  pub encoded : codec.marshal v ≡ some raw

-- No call of the database fails.
abbrev pub no_faults : {E : Type 0} → Faults E
no_faults = record { scan = none; exec = none; commit = succeeds }

pub with_lock_self : (t : Kv) (row : Option String) → with_lock t row lock_key ≡ row
with_lock_self t row = refl

module _ (codec : Codec) (t : Kv) (v : LockValue) (h : Holds codec t v) where
  pub previous_lock-Holds : previous_lock codec (t lock_key) ≡ some v
  unfolding previous_lock
  previous_lock-Holds = rw h.row (elim (Bool-cases (str_eq h.raw "")) [
    | inl e ↦ absurd (codec.marshal-ne-empty v (h.encoded ∙ ap some ((eq_iff h.raw "").0 e)))
    | inr e ↦ rw e (codec.unmarshal-marshal v h.raw h.encoded)
  ])

  pub insert_lock-Holds :
      (raw : String) (now : ℕ) (force : Bool)
      → insert_lock codec t raw now force
        ≡ (if ltb v.expires_at now || force then some (with_lock t (some raw), 1) else some (t, 0))
  unfolding insert_lock
  insert_lock-Holds raw now force =
      ground (arith, h.row, codec.expires_at_of-marshal v h.raw h.encoded)

  pub update_lock-Holds :
      (raw id : String) (now : ℕ)
      → update_lock codec t raw id now ≡ (
          if str_eq v.lock_id id && ltb now v.expires_at
          then some (with_lock t (some raw), 1)
          else some (t, 0))
  unfolding update_lock
  update_lock-Holds raw id now = ground (
    arith,
    h.row,
    codec.lock_id_of-marshal v h.raw h.encoded,
    codec.expires_at_of-marshal v h.raw h.encoded,
  )

  pub delete_lock-Holds :
      (id : String)
      → delete_lock codec t id
        ≡ (if str_eq v.lock_id id then some (with_lock t none, 1) else some (t, 0))
  unfolding delete_lock
  delete_lock-Holds id = ground (arith, h.row, codec.lock_id_of-marshal v h.raw h.encoded)

  module _ {E : Type 0} (s : AppLockService) where
    -- An unexpired lock is not taken without force, however the calls of the database end: the
    -- table stays as it was, and `Acquire` returns an error.
    pub acquire_respects_holder :
        (faults : Faults E) (now : ℕ)
        → now ≤ v.expires_at
        → ((acquire codec s faults now false t).0 ≡ t)
          × ((w : Option ℕ) → (acquire codec s faults now false t).1 ≢ ok w)
    unfolding acquire insert_lock
    acquire_respects_holder faults now live = (
      ground (arith, h.row, codec.expires_at_of-marshal v h.raw h.encoded),
      λ w e. ground (arith, h.row, codec.expires_at_of-marshal v h.raw h.encoded),
    )

    -- A lock taken from another owner that has not expired comes with the time to wait for: its
    -- expiry.
    pub acquire_waits_out_holder :
        (faults : Faults E) (now : ℕ) (force : Bool) (w : Option ℕ)
        → v.lock_id ≢ s.lock_id
        → (acquire codec s faults now force t).1 ≡ ok w
        → (v.expires_at ≤ now) ⊎ (w ≡ some v.expires_at)
    unfolding acquire insert_lock
    acquire_waits_out_holder faults now force w foreign taken = ground (
      arith,
      previous_lock-Holds,
      h.row,
      codec.expires_at_of-marshal v h.raw h.encoded,
      eq_iff v.lock_id s.lock_id,
    )

    -- Without faults, a held lock is taken exactly if it has expired or force is used; the row is
    -- then the new owner's. Else the table stays and the lock is reported as unavailable.
    pub acquire_held :
        (now : ℕ) (force : Bool) (raw : String)
        → is_supported s.dialect ≡ true
        → codec.marshal (own_value s now) ≡ some raw
        → acquire codec {E = E} s no_faults now force t ≡ (
            if ltb v.expires_at now || force
            then (with_lock t (some raw), ok (wait_until s v now force))
            else (t, err lock_unavailable))
    unfolding acquire
    acquire_held now force raw known encoded =
        ground (arith, previous_lock-Holds, insert_lock-Holds raw now force)

    -- An attempt to renew a lock that another owner holds, however its call ends, changes nothing
    -- and does not succeed.
    pub renewal_of_foreign :
        (call : Call E) (now : ℕ)
        → v.lock_id ≢ s.lock_id
        → ((attempt_renewal codec s call now t).0 ≡ t)
          × ((attempt_renewal codec s call now t).1 ≢ renewed)
    unfolding attempt_renewal update_lock
    renewal_of_foreign call now foreign = (
      ground (
        arith,
        h.row,
        codec.lock_id_of-marshal v h.raw h.encoded,
        codec.expires_at_of-marshal v h.raw h.encoded,
        eq_iff v.lock_id s.lock_id,
      ),
      λ e. ground (
        arith,
        h.row,
        codec.lock_id_of-marshal v h.raw h.encoded,
        codec.expires_at_of-marshal v h.raw h.encoded,
        eq_iff v.lock_id s.lock_id,
      ),
    )

    -- An attempt whose call succeeds renews exactly the service's own lock before its expiry, and
    -- else reports that the lock is lost.
    pub renewal_outcome :
        (now : ℕ) (raw : String)
        → is_supported s.dialect ≡ true
        → codec.marshal (own_value s now) ≡ some raw
        → attempt_renewal codec {E = E} s succeeds now t ≡ (
            if str_eq v.lock_id s.lock_id && ltb now v.expires_at
            then (with_lock t (some raw), renewed)
            else (t, gives_up lock_lost))
    unfolding attempt_renewal
    renewal_outcome now raw known encoded = ground (arith, update_lock-Holds raw s.lock_id now)

    -- A release whose call succeeds deletes the service's own row, expired or not, and nothing else.
    pub release_outcome :
        is_supported s.dialect ≡ true
        → release codec {E = E} s succeeds t
          ≡ ((if str_eq v.lock_id s.lock_id then with_lock t none else t), none)
    unfolding release
    release_outcome known = ground (arith, delete_lock-Holds s.lock_id)

    pub release_of_foreign :
        (call : Call E) → v.lock_id ≢ s.lock_id → (release codec s call t).0 ≡ t
    unfolding release delete_lock
    release_of_foreign call foreign =
        ground
          (arith, h.row, codec.lock_id_of-marshal v h.raw h.encoded, eq_iff v.lock_id s.lock_id)

module _ (codec : Codec) {E : Type 0} (s : AppLockService) where
  acquire_error :
      (faults : Faults E) (now : ℕ) (force : Bool) (t t' : Kv) (w : Option ℕ)
      → codec.marshal (own_value s now) ≡ none
      → ¬ (acquire codec s faults now force t ≡ (t', ok w))
  unfolding acquire
  acquire_error faults now force t t' w e h = ground arith

  acquire_row :
      (faults : Faults E) (now : ℕ) (force : Bool) (t t' : Kv) (w : Option ℕ) (raw : String)
      → codec.marshal (own_value s now) ≡ some raw
      → acquire codec s faults now force t ≡ (t', ok w)
      → t' ≡ with_lock t (some raw)
  unfolding acquire insert_lock
  acquire_row faults now force t t' w raw e h = ground arith

  -- Whoever acquires the lock holds it: the row is the caller's, with the expiry `ttl` from now.
  pub acquire-Holds :
      (faults : Faults E) (now : ℕ) (force : Bool) (t t' : Kv) (w : Option ℕ)
      → acquire codec s faults now force t ≡ (t', ok w)
      → Holds codec t' (own_value s now)
  acquire-Holds faults now force t t' w h = elim (Option-cases (codec.marshal (own_value s now))) [
    | inl e ↦ absurd (acquire_error faults now force t t' w e h)
    | inr (raw, e) ↦ record {
      raw = raw;
      row = ap (λ (x : Kv). x lock_key) (acquire_row faults now force t t' w raw e h);
      encoded = e;
    }
  ]

  attempt_row :
      (call : Call E) (now : ℕ) (t : Kv) (raw : String)
      → codec.marshal (own_value s now) ≡ some raw
      → (attempt_renewal codec s call now t).1 ≡ renewed
      → (attempt_renewal codec s call now t).0 ≡ with_lock t (some raw)
  unfolding attempt_renewal update_lock
  attempt_row call now t raw e h = ground arith

  attempt_error :
      (call : Call E) (now : ℕ) (t : Kv)
      → codec.marshal (own_value s now) ≡ none
      → (attempt_renewal codec s call now t).1 ≢ renewed
  unfolding attempt_renewal
  attempt_error call now t e h = ground arith

  -- An attempt that renews leaves the service's row with the expiry `ttl` from now.
  pub attempt_renewal-Holds :
      (call : Call E) (now : ℕ) (t : Kv)
      → (attempt_renewal codec s call now t).1 ≡ renewed
      → Holds codec (attempt_renewal codec s call now t).0 (own_value s now)
  attempt_renewal-Holds call now t h = elim (Option-cases (codec.marshal (own_value s now))) [
    | inl e ↦ absurd (attempt_error call now t e h)
    | inr (raw, e) ↦ record {
      raw = raw;
      row = ap (λ (x : Kv). x lock_key) (attempt_row call now t raw e h);
      encoded = e;
    }
  ]
