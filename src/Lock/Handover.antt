-- ===== src/Lock/Handover.antt =====
-- A lock that its owner releases is free for the next one
-- (backend/internal/service/app_lock_service.go).
use vocy.Prelude.{ℕ, String, ◌≡◌, true, none, some, ok, false, arith, eq_iff}
use vocy.Lock.Value.{LockValue, Codec, Kv, lock_key}
use vocy.Lock.Sql.{insert_lock}
use vocy.Lock.State.{AppLockService, succeeds, is_supported, own_value, previous_lock}
use vocy.Lock.Acquire.{acquire}
use vocy.Lock.Renewal.{release}
use vocy.Lock.Holding.{Holds, no_faults, release_outcome}

module _ (codec : Codec) {E : Type 0} (s : AppLockService) where
  acquire_free :
      (now : ℕ) (t : Kv) (raw : String)
      → t lock_key ≡ none
      → is_supported s.dialect ≡ true
      → codec.marshal (own_value s now) ≡ some raw
      → (acquire codec {E = E} s no_faults now false t).1 ≡ ok none
  unfolding acquire insert_lock previous_lock
  acquire_free now t raw free known encoded = ground arith

  -- After the owner of the lock has released it, without an error of the database, any process
  -- acquires it at once and has nothing to wait for, also before the released lock would expire.
  pub release_hands_over :
      (t : Kv) (v : LockValue)
      → Holds codec t v
      → (owner : AppLockService) → v.lock_id ≡ owner.lock_id
      → is_supported owner.dialect ≡ true
      → is_supported s.dialect ≡ true
      → (now : ℕ) (raw : String) → codec.marshal (own_value s now) ≡ some raw
      → (acquire codec {E = E} s no_faults now false (release codec {E = E} owner succeeds t).0).1
        ≡ ok none
  release_hands_over t v h owner own known known' now raw encoded =
      acquire_free now _ raw
        (ground (
          arith,
          release_outcome codec t v h {E = E} owner known,
          eq_iff v.lock_id owner.lock_id,
          own,
        ))
        known' encoded
