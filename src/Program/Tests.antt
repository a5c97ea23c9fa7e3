-- ===== src/Program/Tests.antt =====
-- Witnesses of the theorems on the start of the program (backend/internal/bootstrap).
use vocy.Prelude.{Result, ℕ, String, ◌≡◌, ◌≢◌, ◌≤◌, refl, true, false, none, some, ok, [], ◌∷◌}
use vocy.Gorm.{sqlite}
use vocy.Lock.Value.{Kv, with_lock}
use vocy.Lock.State.{AppLockService, Faults, succeeds, own_value, is_supported}
use vocy.Lock.Acquire.{acquire}
use vocy.Lock.Holding.{Holds, no_faults}
use vocy.Lock.Tests.Text.{text_codec, encode}
use vocy.Program.Bootstrap.{observability, context_done, World, run_services, bootstrap}
use vocy.Program.Bootstrap.Shutdown.{bootstrap_canceled_keeps_lock, bootstrap_hands_over}
use vocy.Prelude.{codes, List, Option, Result, if◌then◌else◌}
use vocy.Env.Schema.{Text}
use vocy.Sqlite.Values.{Values}
use vocy.Sqlite.Promises.{IsSafe}
use vocy.Sqlite.Connecting.{sqlite}
use vocy.Sqlite.Connecting.Connected.{in_memory}
use vocy.Sqlite.Tests.{outside, file_config, opens_second, connects_second, names_sqlite}
use vocy.Migrations.{migrate_database}
use vocy.Migrations.Tests.{files, files_required, migrator, ready as set_up, moves-Reaches}
use vocy.Program.Database.{NewOutcome, new_database, new_database-Ready}

abbrev server : AppLockService
server = record { dialect = sqlite; lock_id = "a"; process_id = 1; host_id = "host" }

abbrev other_server : AppLockService
other_server = record { dialect = sqlite; lock_id = "b"; process_id = 1; host_id = "host" }

abbrev empty_table : Kv
empty_table k = none

abbrev taken : Kv
taken = with_lock empty_table (some (encode 33 "a"))

-- The router fails.
abbrev world : World String
world = record {
  observability_error = none;
  observability_fns = observability 1 ∷ [];
  database_error = none;
  storage_error = none;
  scheduler_error = none;
  services_error = none;
  lock_faults = no_faults;
  now = 3;
  canceled_in_wait = false;
  jobs_error = none;
  router_error = some "address in use";
  services_run = λ t. (t, none);
  release_call = succeeds;
}

abbrev canceled_world : World String
canceled_world = record world { canceled_in_wait = true }

takes_lock :
    acquire text_codec server (no_faults {E = String}) 3 false empty_table ≡ (taken, ok none)
unfolding acquire vocy.Lock.State.previous_lock text_codec vocy.Lock.Sql.insert_lock
takes_lock = refl

marshal_own : text_codec.marshal (own_value server 3) ≡ some (encode 33 "a")
unfolding text_codec own_value
marshal_own = refl

marshal_other : text_codec.marshal (own_value other_server 5) ≡ some (encode 35 "b")
unfolding text_codec own_value
marshal_other = refl

own_row : Holds text_codec taken (own_value server 3)
own_row = record { raw = encode 33 "a"; row = refl; encoded = marshal_own }

still_own : Holds text_codec (run_services world taken).0 (own_value server 3)
unfolding run_services
still_own = own_row

own_id : (own_value server 3).lock_id ≡ server.lock_id
unfolding own_value
own_id = refl

bootstrap_canceled_keeps_lock_example :
    ((bootstrap text_codec server canceled_world empty_table).1 ≡ some context_done)
    × ((next : AppLockService) (faults : Faults String) (later : ℕ)
        → later ≤ (own_value server 3).expires_at
        → (v : _)
        → (acquire text_codec next faults later false
            (bootstrap text_codec server canceled_world empty_table).0).1
          ≢ ok v)
bootstrap_canceled_keeps_lock_example =
    bootstrap_canceled_keeps_lock text_codec server canceled_world empty_table taken none (tt, tt)
      refl takes_lock refl

bootstrap_hands_over_example :
    (acquire text_codec {E = String} other_server no_faults 5 false
      (bootstrap text_codec server world empty_table).0).1
    ≡ ok none
bootstrap_hands_over_example =
    bootstrap_hands_over text_codec server world empty_table taken none (tt, tt) refl takes_lock
      refl (own_value server 3) still_own own_id refl refl other_server refl 5 (encode 35 "b")
      marshal_other

upgrades : migrate_database set_up migrator file_config (ok files) 20_240_601 ≡ (20_250_102, none)
unfolding migrate_database vocy.Env.Schema.same vocy.Env.Schema.trim_left vocy.Env.Schema.is_space
    vocy.Prelude.is_decimal vocy.Prelude.number_from
upgrades = refl

database_ready :
    (new_database outside set_up migrator (ok files) file_config 20_240_601).1
    ≡ NewOutcome.ready (codes "db") none
unfolding new_database
database_ready = rw (connects_second, upgrades)

new_database-Ready_example :
    (◌≡◌ {A = Result Text ℕ}
      (ok (new_database outside set_up migrator (ok files) file_config 20_240_601).0)
      (ok 20_250_102))
    × ((path : Text) × (qs : Values) × (k : ℕ) × IsSafe qs
        × (1 ≤ k)
        × (k ≤ 3)
        × (opens_second (sqlite (outside.print_url (path, qs))) k ≡ ok (codes "db"))
        × (◌≡◌ {A = Option ℕ} none
            (if in_memory outside file_config.db_connection_string then some 1 else none)))
new_database-Ready_example =
    new_database-Ready outside set_up migrator (ok files) file_config 20_250_102 20_240_601
      (codes "db") none moves-Reaches moves-Reaches files_required names_sqlite database_ready
