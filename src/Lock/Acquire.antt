-- ===== src/Lock/Acquire.antt =====
-- `Acquire` (backend/internal/service/app_lock_service.go), as a function of the table, of the clock
-- and of how the calls of the database end.
use vocy.Prelude.{ℕ, Bool, not, Option, none, some, Result, ok, err, ◌==◌, if◌then◌else◌}
use vocy.Lock.Value.{LockValue, Codec, Kv, lock_key}
use vocy.Lock.Sql.{insert_lock}
use vocy.Lock.State.{
  AppLockService, LockError, lock_unavailable, query_failed, acquisition_failed, commit_failed,
  decode_failed, encode_failed, bad_json, unsupported_dialect, Faults, is_supported, dialect_name,
  after_call, previous_lock, own_value, wait_until,
}

module _ (codec : Codec) {E : Type 0} (s : AppLockService) where
  open s use {dialect, lock_id}

  -- The end of `Acquire`: the commit, and the test of the rows affected.
  unfoldable pub finish_acquire :
      Faults E → Kv → Kv × ℕ → LockValue → ℕ → Bool → Kv × Result (LockError E) (Option ℕ)
  unfolding wait_until
  finish_acquire faults t (t', affected) prev now force =
      let (left, e) = after_call faults.commit t t' in
      elim e [
        | some x ↦ (left, err (commit_failed x))
        | none ↦
            if affected == 0
            then (left, err lock_unavailable)
            else (left, ok (wait_until s prev now force))
      ]

  -- `Acquire`. The row is locked from the scan on (`FOR UPDATE`; SQLite locks the database), so one
  -- table serves the scan and the statement; an error before the commit rolls back.
  unfoldable pub acquire : Faults E → ℕ → Bool → Kv → Kv × Result (LockError E) (Option ℕ)
  unfolding finish_acquire own_value
  acquire faults now force t = elim faults.scan [
    | some x ↦ (t, err (query_failed x))
    | none ↦ elim (previous_lock codec (t lock_key)) [
      | none ↦ (t, err decode_failed)
      | some prev ↦ elim (codec.marshal (own_value s now)) [
        | none ↦ (t, err encode_failed)
        | some raw ↦
            if not (is_supported dialect)
            then (t, err (unsupported_dialect (dialect_name dialect)))
            else elim faults.exec [
              | some x ↦ (t, err (acquisition_failed x))
              | none ↦ elim (insert_lock codec t raw now force) [
                | none ↦ (t, err bad_json)
                | some done ↦ finish_acquire faults t done prev now force
              ]
            ]
      ]
    ]
  ]
