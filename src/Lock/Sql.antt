-- ===== src/Lock/Sql.antt =====
-- The three SQL statements of the lock (backend/internal/service/app_lock_service.go). Both dialects
-- state the same. A statement gives the table after it and the number of rows that it affected, or
-- `none` for an error on a value that is no JSON; a comparison with NULL does not hold.
use vocy.Prelude.{ℕ, String, Bool, true, false, ◌&&◌, ◌||◌, Option, none, some, str_eq, ltb}
use vocy.Lock.Value.{Codec, Column, malformed, null, value, Kv, lock_key, with_lock}

-- `WHERE (expires_at < now) OR force`.
unfoldable pub may_take : Column ℕ → ℕ → Bool → Option Bool
may_take malformed now force = none
may_take null now force = some force
may_take (value e) now force = some (ltb e now || force)

-- `WHERE lock_id = id`.
unfoldable pub is_owned : Column String → String → Option Bool
is_owned malformed id = none
is_owned null id = some false
is_owned (value v) id = some (str_eq v id)

-- `expires_at > now`.
unfoldable pub is_live : Column ℕ → ℕ → Option Bool
is_live malformed now = none
is_live null now = some false
is_live (value e) now = some (ltb now e)

abbrev both : Option Bool → Option Bool → Option Bool
both none q = none
both (some p) none = none
both (some p) (some q) = some (p && q)

-- The table if the row of the lock is written, or if it is left.
abbrev written_if : Kv → Option String → Option Bool → Option (Kv × ℕ)
written_if t row none = none
written_if t row (some true) = some (with_lock t row, 1)
written_if t row (some false) = some (t, 0)

module _ (codec : Codec) where
  open codec use {lock_id_of, expires_at_of}

  -- `INSERT INTO kv ... ON CONFLICT(key) DO UPDATE SET value = excluded.value WHERE ...`
  unfoldable pub insert_lock : Kv → String → ℕ → Bool → Option (Kv × ℕ)
  unfolding may_take
  insert_lock t raw now force = elim (t lock_key) [
    | none ↦ some (with_lock t (some raw), 1)
    | some old ↦ written_if t (some raw) (may_take (expires_at_of old) now force)
  ]

  -- `UPDATE kv SET value = ? WHERE key = ? AND lock_id = ? AND expires_at > ?`
  unfoldable pub update_lock : Kv → String → String → ℕ → Option (Kv × ℕ)
  unfolding is_owned is_live
  update_lock t raw id now = elim (t lock_key) [
    | none ↦ some (t, 0)
    | some old ↦
        written_if t (some raw)
          (both (is_owned (lock_id_of old) id) (is_live (expires_at_of old) now))
  ]

  -- `DELETE FROM kv WHERE key = ? AND lock_id = ?`
  unfoldable pub delete_lock : Kv → String → Option (Kv × ℕ)
  unfolding is_owned
  delete_lock t id = elim (t lock_key) [
    | none ↦ some (t, 0)
    | some old ↦ written_if t none (is_owned (lock_id_of old) id)
  ]
