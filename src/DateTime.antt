-- ===== src/DateTime.antt =====
-- `DateTime` (backend/internal/model/types/date_time.go). The methods that only pass their call on to
-- `time.Time` are left out.
mod Tests
use vocy.Prelude.{ℕ, ◌≡◌, refl, true, false, Result, ok, err, wrap, if◌then◌else◌}
use vocy.Env.Schema.{Text, ℤ, same, db_provider_sqlite}

-- A time: its seconds since 1970, the nanoseconds beyond them, and its time zone.
pub record Time : Type 0 where
  pub seconds : ℤ
  pub nanoseconds : ℕ
  pub location : Text

-- What a database driver has for a value; `other` is a value of another type.
pub data DriverValue : Type 0 where
  time : Time → DriverValue
  int64 : ℤ → DriverValue
  other : DriverValue

pub data DateError (E : Type 0) : Type 0 where
  not_parsed : E → DateError E
  unexpected_type : DateError E

-- `DateTimeFromString`, with the result of `time.Parse`.
unfoldable pub date_time_from_string : {E : Type 0} → Result E Time → Result (DateError E) Time
date_time_from_string parsed = wrap not_parsed parsed

-- `time.Unix(v, 0)`, in the local time zone.
abbrev pub unix : Text → ℤ → Time
unix local v = record { seconds = v; nanoseconds = 0; location = local }

-- `Scan`.
unfoldable pub scan_date : {E : Type 0} → Text → DriverValue → Result (DateError E) Time
scan_date local (time t) = ok t
scan_date local (int64 v) = ok (unix local v)
scan_date local other = err unexpected_type

-- `Value`, with the provider of the database.
unfoldable pub date_value : Text → Time → DriverValue
date_value provider t = if same provider db_provider_sqlite then int64 t.seconds else time t
