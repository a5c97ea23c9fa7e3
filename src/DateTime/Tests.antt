-- ===== src/DateTime/Tests.antt =====
-- Tests on `DateTime` (backend/internal/model/types/date_time.go).
use vocy.Prelude.{◌≡◌, refl, Result, ok, codes}
use vocy.Env.Schema.{Text, ℤ, same, db_provider_sqlite, db_provider_postgres}
use vocy.DateTime.{Time, DateError, scan_date, date_value}

abbrev noon : Time
noon = record { seconds = ℤ.pos 43_200; nanoseconds = 7; location = codes "UTC" }

-- SQLite keeps the second, Postgres the time.
sqlite_second :
    ◌≡◌ {A = Result (DateError Text) Time}
      (scan_date (codes "Local") (date_value db_provider_sqlite noon))
      (ok (record { seconds = ℤ.pos 43_200; nanoseconds = 0; location = codes "Local" }))
unfolding scan_date date_value same
sqlite_second = refl

postgres_time :
    ◌≡◌ {A = Result (DateError Text) Time}
      (scan_date (codes "Local") (date_value db_provider_postgres noon))
      (ok noon)
unfolding scan_date date_value same
postgres_time = refl
