-- ===== src/Lock/Renewal.antt =====
-- `Release`, `renew` and `RunRenewal` (backend/internal/service/app_lock_service.go).
use vocy.Prelude.{
  ℕ, zero, suc, ◌+◌, not, ◌&&◌, Option, none, some, List, [], ◌∷◌, ltb, ◌==◌, if◌then◌else◌,
}
use vocy.Lock.Value.{Codec, Kv}
use vocy.Lock.Sql.{update_lock, delete_lock}
use vocy.Lock.State.{
  AppLockService, LockError, lock_lost, canceled, release_failed, renewal_failed, encode_failed,
  bad_json, unsupported_dialect, Call, is_supported, dialect_name, after_call, own_value, Attempted,
  renewed, gives_up, retries, Round, Wake, context_done, tick, renew_retries,
}

module _ (codec : Codec) {E : Type 0} (s : AppLockService) where
  open s use {dialect, lock_id}

  -- `Release`. Not to hold the lock is logged, and is no error.
  unfoldable pub release : Call E → Kv → Kv × Option (LockError E)
  release call t =
      if not (is_supported dialect)
      then (t, some (unsupported_dialect (dialect_name dialect)))
      else elim (delete_lock codec t lock_id) [
        | none ↦ (t, some bad_json)
        | some (t', affected) ↦
            let (left, e) = after_call call t t' in
            elim e [ none ↦ (left, none) | some x ↦ (left, some (release_failed x)) ]
      ]

  -- One attempt of `renew`, up to its `switch`.
  unfoldable pub attempt_renewal : Call E → ℕ → Kv → Kv × Attempted E
  unfolding own_value
  attempt_renewal call now t = elim (codec.marshal (own_value s now)) [
    | none ↦ (t, gives_up encode_failed)
    | some raw ↦
        if not (is_supported dialect)
        then (t, gives_up (unsupported_dialect (dialect_name dialect)))
        else elim (update_lock codec t raw lock_id now) [
          | none ↦ (t, retries bad_json)
          | some (t', affected) ↦
              let (left, e) = after_call call t t' in
              elim e [
                | some x ↦ (left, retries (renewal_failed x))
                | none ↦ if affected == 0 then (left, gives_up lock_lost) else (left, renewed)
              ]
        ]
  ]

  -- The loop of `renew` with `left` attempts to go: `attempt <= renewRetries`.
  unfoldable pub renew_from :
      ℕ → ℕ → (ℕ → Round E) → Kv → Option (LockError E) → Kv × Option (LockError E)
  unfolding attempt_renewal
  renew_from zero attempt rounds t last = (t, last)
  renew_from (suc left) attempt rounds t last =
      let r = rounds attempt in
      let (t', how) = attempt_renewal r.call r.now (r.others t) in
      elim how [
        | renewed ↦ (t', none)
        | gives_up e ↦ (t', some e)
        | retries e ↦
            let again = renew_from left (attempt + 1) rounds t' (some e) in
            if ltb attempt renew_retries && r.canceled_in_wait then (t', some canceled) else again
      ]

  unfoldable pub renew : (ℕ → Round E) → Kv → Kv × Option (LockError E)
  unfolding renew_from
  renew rounds t = renew_from renew_retries 1 rounds t none

  -- `RunRenewal` over the events that it selects; `none` while it still waits.
  unfoldable pub run_renewal : List (Wake E) → Kv → Kv × Option (Option (LockError E))
  unfolding renew
  run_renewal [] t = (t, none)
  run_renewal (context_done ∷ wakes) t = (t, some none)
  run_renewal (tick rounds ∷ wakes) t =
      let (t', e) = renew rounds t in
      let rest = run_renewal wakes t' in elim e [ none ↦ rest | some x ↦ (t', some (some x)) ]
