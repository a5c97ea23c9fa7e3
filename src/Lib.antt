-- ===== src/Lib.antt =====
-- Verification of vocy, a Go server (module github.com/vocys/vocy). Each property is a theorem
-- about definitions that follow the Go functions named beside them.
--
-- The parts and how they work together. At the start (backend/internal/bootstrap/boostrap.go) the
-- program opens the database, builds its services and takes the application lock, which it renews
-- in the background and releases at the end. The configuration service keeps a copy of the table
-- `app_config_variables` in memory. Before all that the process reads and checks its configuration
-- from the environment (backend/internal/common/env_config.go, backend/cmd/main.go). The database
-- is brought to the version of the embedded migrations; files are kept below one directory; requests
-- go through the middlewares of the router.
--
-- - Config: `AppConfig` of backend/internal/model/app_config.go. Field has the struct's fields
--   with their tags, Values a configuration as a function from the fields and the defaults
--   (`getDefaultDbConfig` of backend/internal/service/app_config_service.go), Access the
--   functions `FieldByKey`, `UpdateField`, `ToAppConfigVariableSlice` and `IsTrue`.
--   Access/Lookup, Access/Update and Access/Listing have the lemmas. Durations is
--   `AsDurationMinutes`, and Durations/Bounds says where it is exact.
-- - Utils: backend/internal/utils. CaseStyle is `CamelCaseToSnakeCase` and
--   `CamelCaseToScreamingSnakeCase`, RandomString `GenerateRandomString` and Characters the other
--   functions (string_util.go), Files the helpers of file_util.go. CaseStyle/Laws,
--   RandomString/Picks, RandomString/Bounds and Files/Names have the theorems.
-- - ConfigService: `AppConfigService` of backend/internal/service/app_config_service.go. Dto is
--   `AppConfigUpdateDto` (backend/internal/dto/app_config_dto.go), Database what the service asks
--   of gorm, State the service's state (the loaded configuration and the database) and errors,
--   Loading `loadDbConfigInternal` and `loadDbConfigFromEnv`, Staging the loops of the two
--   updates and their transaction, Methods the methods. Failures is about failed updates; the
--   other files have the lemmas and theorems.
-- - Lock: `AppLockService` of backend/internal/service/app_lock_service.go over the table of
--   backend/internal/model/kv.go. Value is the lock's value and encoding, Sql the three
--   statements, State the service and how calls end, Acquire and Renewal the methods. Holding,
--   Retries, Loop, Handover and Exclusion have the theorems; Exclusion is about any number of
--   processes.
-- - Gorm: the dialects of `db.Name()`.
-- - Prelude: the shared helpers, and numbers in decimal digits.
-- - Env: `EnvConfigSchema` of backend/internal/common/env_config.go. Schema has the struct, its
--   defaults and the functions on text, Prepare `prepareEnvConfig` and
--   `resolveFileBasedEnvVariable`, Validate `ValidateEnvConfig`, one function for each of its
--   checks. Fields, Prepared, Reprepared, Valid, Conditions and Accepted have the theorems and
--   what they say.
-- - Crypto: Cipher is what the encryption asks of other packages, Seal `Encrypt` and `Decrypt` of
--   backend/internal/utils/crypto/crypto.go, EncryptedString the type of
--   backend/internal/model/types/encrypted_string.go.
-- - Sqlite: backend/internal/bootstrap/db_bootstrap.go. Values is `url.Values`, Options
--   `convertSqlitePragmaArgs`, `addSqliteDefaultParameters` and `isSqliteInMemory`, Folders
--   `ensureSqliteDatabaseDir`, `ensureSqliteTempDir` and the retries, Connecting
--   `parseSqliteConnectionString` and `ConnectDatabase`. Promises, Opening, Conversion and
--   Connecting/Connected have the theorems.
-- - Storage: backend/internal/storage/filesystem.go. Filesystem is `Save`, `Delete` and
--   `DeleteAll`, Paths the functions of path/filepath, Walk the method `Walk`, Reading
--   `NewFilesystemStorage`, `Open` and `List`. Atomic is about `Save`; Paths/Names, Paths/Below
--   and Paths/Resolve have the laws of paths, Walk/Within and Walk/Visits the theorems on `Walk`.
-- - Middleware: backend/internal/middleware. RateLimit is rate_limit.go, ErrorHandler
--   error_handler.go, Headers the handlers of cors.go, csp_middleware.go and head_middleware.go.
--   RateLimit/Isolation, ErrorHandler/Answers and Headers/Head have the theorems.
-- - Migrations: backend/internal/utils/db_migration_util.go. Versions and Outcomes have the
--   theorems.
-- - Program: Bootstrap is `Bootstrap` and `InitStorage` of
--   backend/internal/bootstrap/boostrap.go, with the methods of the lock from Lock.
--   Bootstrap/Shutdown has the theorems. Database is `NewDatabase` (db_bootstrap.go) over Sqlite
--   and Migrations. Start is `main` (backend/cmd/main.go) with `parseEnvConfig` (env_config.go),
--   and Start/Providers says that what it starts with has a database. Router is `initRouter`
--   (router_bootstrap.go) over Middleware and Frontend; Router/Answers has its theorems.
--   Observability is `initObservability` (observability_boostrap.go), Scheduler `RemoveJob` and
--   `RegisterJob` (backend/internal/job/scheduler.go); Observability/Ending and Scheduler/Removal
--   have their theorems.
-- - Frontend: backend/frontend/frontend_included.go, the handler of the pages and
--   FileServerWithCaching. Caching has the theorem on the file server.
-- - DateTime: `DateTime` of backend/internal/model/types/date_time.go, with tests only.
--
-- Bounds and fuel. Numbers are natural numbers. `LockValue` keeps int64 fields, of which the
-- program writes none that is negative and none near the bound. `renew_from` recurses on the
-- attempts that are left, of which `renew` gives three as the source does; the loops over fields,
-- rows and pairs recurse on their list, and `run_renewal` on the list of the events that wake it.
-- The loop of `generate_random_string` has a number of rounds, and the theorem on it says how
-- many are enough. A path is the list of its elements, a directory a finite tree.
--
-- Parameters. gorm and its database are `ConfigDb` with the laws `ConfigDbLaws`; `encoding/json`
-- and the JSON functions of SQL are `Codec`; the environment and the files are `Environment` and
-- `Surroundings`; an AEAD, base64 and the source of randomness are `Aead`, `Base64` and `Random`;
-- `Parsers` has the parsers that `ValidateEnvConfig` calls; a limiter of golang.org/x/time/rate
-- is `Rate`, golang-migrate is `Migrator`, gocron is `Gocron`, the exporters of OpenTelemetry are
-- `Exporters`, `Outside` is what opening the database asks of others, and `Site` what the router
-- does. The clock, the failures of calls and the events are arguments. The laws hold of the
-- concrete table, encoding and cipher of the test modules.
--
-- Not modelled: logging, timeouts as such (a timeout is a failing call), the goroutine of the
-- listener, cobra, signals and systemd, the frontend's assets, and the migrations' SQL.
-- backend/internal/utils/servicerunner.go and backend/internal/utils/slogfanout.go are copies of
-- other projects' code.
pub mod Prelude
pub mod Gorm
pub mod Config
pub mod DateTime
pub mod Utils
pub mod ConfigService
pub mod Lock
pub mod Middleware
pub mod Migrations
pub mod Crypto
pub mod Env
pub mod Sqlite
pub mod Storage
pub mod Program
pub mod Frontend
