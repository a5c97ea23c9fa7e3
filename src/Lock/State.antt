-- ===== src/Lock/State.antt =====
-- The state of `AppLockService`, its errors, and how the calls of the database end
-- (backend/internal/service/app_lock_service.go).
use vocy.Prelude.{
  ℕ, String, ◌+◌, Bool, true, false, not, ◌&&◌, Option, none, some, str_eq, ltb, if◌then◌else◌,
}
use vocy.Gorm.{Dialect, sqlite, postgres, other}
use vocy.Lock.Value.{LockValue, zero_lock, Codec, Kv}

-- Seconds.
abbrev pub ttl : ℕ
ttl = 30

abbrev pub renew_retries : ℕ
renew_retries = 3

pub record AppLockService : Type 0 where
  pub dialect : Dialect
  pub lock_id : String
  pub process_id : ℕ
  pub host_id : String

-- `NewAppLockService`: `hostname` is what `os.Hostname` returns, `none` for an error.
unfoldable pub new_app_lock_service : Dialect → Option String → ℕ → String → AppLockService
new_app_lock_service dialect hostname pid id = record {
  dialect = dialect;
  lock_id = id;
  process_id = pid;
  host_id = elim hostname [
    | none ↦ "unknown-host"
    | some host ↦ if str_eq host "" then "unknown-host" else host
  ];
}

pub data LockError (E : Type 0) : Type 0 where
  lock_unavailable lock_lost canceled : LockError E
  query_failed acquisition_failed commit_failed release_failed renewal_failed : E → LockError E
  decode_failed encode_failed bad_json : LockError E
  unsupported_dialect : String → LockError E

-- How a call that writes ends: it succeeds, it fails and has not written, or it fails although it
-- has written, as when the answer is lost.
pub data Call (E : Type 0) : Type 0 where
  succeeds : Call E
  fails fails_late : E → Call E

-- `wait_until`, `none` for the zero time.
pub record Faults (E : Type 0) : Type 0 where
  pub scan : Option E
  pub exec : Option E
  pub commit : Call E

abbrev pub is_supported : Dialect → Bool
is_supported sqlite = true
is_supported postgres = true
is_supported (other name) = false

abbrev pub dialect_name : Dialect → String
dialect_name sqlite = "sqlite"
dialect_name postgres = "postgres"
dialect_name (other name) = name

-- What a call that writes leaves: the table, and its error.
abbrev pub after_call : {E : Type 0} → Call E → Kv → Kv → Kv × Option E
after_call succeeds old new = (new, none)
after_call (fails e) old new = (old, some e)
after_call (fails_late e) old new = (new, some e)

-- `prevLock`, decoded from the text that the scan left: the zero value for no row or an empty text.
unfoldable pub previous_lock : Codec → Option String → Option LockValue
previous_lock codec none = some zero_lock
previous_lock codec (some raw) = if str_eq raw "" then some zero_lock else codec.unmarshal raw

-- The value that the service writes at a time.
unfoldable pub own_value : AppLockService → ℕ → LockValue
own_value s now = record {
  process_id = s.process_id;
  host_id = s.host_id;
  lock_id = s.lock_id;
  expires_at = now + ttl;
}

-- `waitUntil`: the end of an unexpired lock of another owner that was taken by force; `none` is
-- the zero time.
unfoldable pub wait_until : AppLockService → LockValue → ℕ → Bool → Option ℕ
wait_until s prev now force =
    if force && ltb now prev.expires_at && not (str_eq prev.lock_id s.lock_id)
    then some prev.expires_at
    else none

-- How one attempt of `renew` goes on.
pub data Attempted (E : Type 0) : Type 0 where
  renewed : Attempted E
  gives_up retries : LockError E → Attempted E

-- What one attempt meets: what others did to the table since the last one, the time, how its call
-- ends, and whether the context is done in the wait behind it.
pub record Round (E : Type 0) : Type 0 where
  pub others : Kv → Kv
  pub now : ℕ
  pub call : Call E
  pub canceled_in_wait : Bool

-- What wakes the loop of `RunRenewal`.
pub data Wake (E : Type 0) : Type 0 where
  context_done : Wake E
  tick : (ℕ → Round E) → Wake E
