-- ===== src/Lock/Exclusion.antt =====
-- Mutual exclusion of the processes that share the lock
-- (backend/internal/service/app_lock_service.go): any number of them, each with its own lock id and
-- with a lease, the expiry that its last successful call wrote.
pub mod Steps
pub mod Reachable
use vocy.Prelude.{
  ℕ, String, ◌+◌, ◌≤◌, ◌<◌, ◌≡◌, ◌≢◌, ◌⊎◌, refl, sym, ◌∙◌, ap, Bool, true, false, not, ◌&&◌, Option,
  none, some, Result, ok, err, str_eq, eq_iff, ltb, arith, inl, inr, Bool-cases, Option-cases,
  if◌then◌else◌,
}
use vocy.Lock.Value.{LockValue, Codec, Column, value, Kv, lock_key, with_lock}
use vocy.Lock.State.{AppLockService, LockError, Call, Faults, own_value, Attempted, renewed, ttl}
use vocy.Lock.Acquire.{acquire}
use vocy.Lock.Renewal.{release, attempt_renewal}
use vocy.Lock.Holding.{
  Holds, acquire_respects_holder, acquire-Holds, renewal_of_foreign, attempt_renewal-Holds,
  release_of_foreign,
}

-- The shared table and clock, and the lease of each lock id, 0 for none.
pub record World : Type 0 where
  pub table : Kv
  pub now : ℕ
  pub lease : String → ℕ

abbrev pub with_lease : (String → ℕ) → String → ℕ → String → ℕ
with_lease l id e p = if str_eq p id then e else l p

-- One step of one process, or of time: a call is taken as one instant of a shared clock. A process
-- that starts acquires without force, as `Bootstrap` does. A failed acquisition or attempt leaves
-- its process with the lease that it had.
pub data Step (codec : Codec) (E : Type 0) (w : World) : World → Type 0 where
  time_passes : (n : ℕ) → Step codec E w (record w { now = w.now + n })
  acquires :
      (s : AppLockService) (faults : Faults E) (t' : Kv) (until : Option ℕ)
      → acquire codec s faults w.now false w.table ≡ (t', ok until)
      → Step codec E w
          (record { table = t'; now = w.now; lease = with_lease w.lease s.lock_id (w.now + ttl) })
  fails_to_acquire :
      (s : AppLockService) (faults : Faults E) (t' : Kv) (e : LockError E)
      → acquire codec s faults w.now false w.table ≡ (t', err e)
      → Step codec E w (record w { table = t' })
  renews :
      (s : AppLockService) (call : Call E)
      → (attempt_renewal codec s call w.now w.table).1 ≡ renewed
      → Step codec E w (record {
        table = (attempt_renewal codec s call w.now w.table).0;
        now = w.now;
        lease = with_lease w.lease s.lock_id (w.now + ttl);
      })
  fails_to_renew :
      (s : AppLockService) (call : Call E)
      → (attempt_renewal codec s call w.now w.table).1 ≢ renewed
      → Step codec E w (record w { table = (attempt_renewal codec s call w.now w.table).0 })
  releases :
      (s : AppLockService) (call : Call E)
      → Step codec E w (record {
        table = (release codec s call w.table).0;
        now = w.now;
        lease = with_lease w.lease s.lock_id 0;
      })

pub data Reach (codec : Codec) (E : Type 0) (w : World) : World → Type 0 where
  here : Reach codec E w w
  next : {u v : World} → Reach codec E w u → Step codec E u v → Reach codec E w v

-- A process may act on its lease.
abbrev pub IsHolder : World → String → Type 0
IsHolder w p = w.now < w.lease p

-- The row of a holder is its own and lasts as long as its lease, which is at most `ttl` ahead.
pub record Backed (codec : Codec) (w : World) (p : String) : Type 0 where
  pub held : LockValue
  pub holds : Holds codec w.table held
  pub own : held.lock_id ≡ p
  pub lasts : w.lease p ≤ held.expires_at

pub record Inv (codec : Codec) (w : World) : Type 0 where
  pub backed : (p : String) → IsHolder w p → Backed codec w p
  pub ahead : (p : String) → w.lease p ≤ w.now + ttl
