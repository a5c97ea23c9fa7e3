-- ===== src/Program/Bootstrap/Shutdown.antt =====
-- The lock at the end of the program (backend/internal/bootstrap/boostrap.go).
use vocy.Prelude.{
  ℕ, String, ◌≤◌, ◌≡◌, ◌≢◌, refl, ap, ◌∙◌, true, false, Option, none, some, List, [], ◌∷◌, ◌++◌,
  All, ok,
}
use vocy.Lock.Value.{LockValue, Codec, Kv}
use vocy.Lock.State.{AppLockService, Call, Faults, succeeds, own_value, is_supported}
use vocy.Lock.Acquire.{acquire}
use vocy.Lock.Renewal.{release}
use vocy.Lock.Holding.{Holds, no_faults, acquire-Holds, acquire_respects_holder}
use vocy.Lock.Handover.{release_hands_over}
use vocy.Program.Bootstrap.{
  ShutdownFn, observability, release_lock, context_done, World, before_lock, after_wait,
  after_acquire, run_services, shut_down, body, bootstrap,
}

-- A function of the observability.
abbrev pub IsObservability : ShutdownFn → Type 0
IsObservability (observability n) = Unit
IsObservability release_lock = ⊥

module _ (codec : Codec) {E : Type 0} (s : AppLockService) where
  shut_down_observability :
      (call : Call E) (fns : List ShutdownFn) (t : Kv)
      → All IsObservability fns
      → shut_down codec s call fns t ≡ t
  unfolding shut_down
  shut_down_observability call [] t h = refl
  shut_down_observability call (observability n ∷ fns) t h = shut_down_observability call fns t h.1
  shut_down_observability call (release_lock ∷ fns) t h = absurd h.0

  shut_down-release :
      (call : Call E) (fns : List ShutdownFn) (t : Kv)
      → All IsObservability fns
      → shut_down codec s call (fns ++ release_lock ∷ []) t ≡ (release codec s call t).0
  unfolding shut_down
  shut_down-release call [] t h = refl
  shut_down-release call (observability n ∷ fns) t h = shut_down-release call fns t h.1
  shut_down-release call (release_lock ∷ fns) t h = absurd h.0

  module _ (w : World E) (t taken : Kv) (wait : Option ℕ) where
    body_canceled :
        before_lock w ≡ none
        → acquire codec s w.lock_faults w.now false t ≡ (taken, ok wait)
        → w.canceled_in_wait ≡ true
        → body codec s w t ≡ (taken, w.observability_fns, some context_done)
    unfolding body
    body_canceled ready got canceled =
        rw (body, ready) (ap (after_acquire w) got ∙ ap (λ b. after_wait b w taken) canceled)

    body_runs :
        before_lock w ≡ none
        → acquire codec s w.lock_faults w.now false t ≡ (taken, ok wait)
        → w.canceled_in_wait ≡ false
        → body codec s w t ≡ (
          (run_services w taken).0,
          w.observability_fns ++ release_lock ∷ [],
          (run_services w taken).1,
        )
    unfolding body
    body_runs ready got waited =
        rw (body, ready) (ap (after_acquire w) got ∙ ap (λ b. after_wait b w taken) waited)

    -- A program that was stopped in the wait behind `Acquire` has ended and still holds the lock:
    -- `Bootstrap` returns the context's error without a release, and until the lock expires no other
    -- process takes it without force, however its calls end.
    pub bootstrap_canceled_keeps_lock :
        All IsObservability w.observability_fns
        → before_lock w ≡ none
        → acquire codec s w.lock_faults w.now false t ≡ (taken, ok wait)
        → w.canceled_in_wait ≡ true
        → ((bootstrap codec s w t).1 ≡ some context_done)
          × ((next : AppLockService) (faults : Faults E) (later : ℕ)
              → later ≤ (own_value s w.now).expires_at
              → (v : Option ℕ)
              → (acquire codec next faults later false (bootstrap codec s w t).0).1 ≢ ok v)
    unfolding bootstrap
    bootstrap_canceled_keeps_lock fns ready got canceled =
        let end = body_canceled ready got canceled in
        let holds = acquire-Holds codec s w.lock_faults w.now false t taken wait got in
        let left : (bootstrap codec s w t).0 ≡ taken =
          rw (bootstrap, end)
            (shut_down_observability w.release_call w.observability_fns taken fns) in
        (
          rw (bootstrap, end) refl,
          λ next faults later live v. rw left (
              (acquire_respects_holder codec taken (own_value s w.now) holds next faults later
                  live).1
                v),
        )

    -- Once the wait is over, `Bootstrap` gives the lock back however it ends: also after an error of
    -- the jobs, of the router or of the services, the next process takes the lock at once. This
    -- supposes that the services leave the lock with this process, that the call of the release
    -- succeeds, and that the next process has no faults.
    pub bootstrap_hands_over :
        All IsObservability w.observability_fns
        → before_lock w ≡ none
        → acquire codec s w.lock_faults w.now false t ≡ (taken, ok wait)
        → w.canceled_in_wait ≡ false
        → (v : LockValue) → Holds codec (run_services w taken).0 v
        → v.lock_id ≡ s.lock_id
        → w.release_call ≡ succeeds
        → is_supported s.dialect ≡ true
        → (next : AppLockService) → is_supported next.dialect ≡ true
        → (later : ℕ) (raw : String) → codec.marshal (own_value next later) ≡ some raw
        → (acquire codec {E = E} next no_faults later false (bootstrap codec s w t).0).1 ≡ ok none
    unfolding bootstrap
    bootstrap_hands_over fns ready got waited v holds own call known next known' later raw encoded =
        let end = body_runs ready got waited in
        let left : (bootstrap codec s w t).0
            ≡ (release codec s succeeds (run_services w taken).0).0 =
          rw (bootstrap, end, call)
            (shut_down-release succeeds w.observability_fns (run_services w taken).0 fns) in
        rw left (
          release_hands_over codec next (run_services w taken).0 v holds s own known known' later
            raw encoded)
