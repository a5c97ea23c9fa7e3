-- ===== src/Migrations.antt =====
-- The migrations of the database (backend/internal/utils/db_migration_util.go). The package
-- golang-migrate and the embedded files are arguments.
pub mod Versions
pub mod Outcomes
pub mod Tests
use vocy.Prelude.{
  ℕ, zero, suc, ◌+◌, ◌^◌, Bool, true, false, not, ◌&&◌, Option, none, some, List, [], ◌∷◌, ◌++◌,
  Result, ok, err, ◌>>=◌, wrap, check, codes, number_from, is_decimal, ltb, ◌==◌, if◌then◌else◌,
}
use vocy.Env.Schema.{
  Text, EnvConfigSchema, db_provider_sqlite, db_provider_postgres, same, is_empty, is_space,
  trim_left,
}

-- What a call of golang-migrate that changes the schema may return.
pub data Failure (E : Type 0) : Type 0 where
  no_change dirty : Failure E
  other : E → Failure E

-- golang-migrate on a database `D`: its version, which is an error where it has none, the
-- migrations of the embedded files and of the repository on GitHub to a version, and `Force`.
pub record Migrator (D E : Type 0) : Type 0 where
  pub version : D → Result E ℕ
  pub migrate : ℕ → D → D × Option (Failure E)
  pub migrate_from_github : ℕ → D → D × Option (Failure E)
  pub force : ℕ → D → D × Option E

-- The errors of what is set up before: `iofs.New`, the two drivers, and the two instances.
pub record Setup (E : Type 0) : Type 0 where
  pub source : Option E
  pub sqlite_driver : Option E
  pub postgres_driver : Option E
  pub instance_ : Option E
  pub github_instance : Option E

pub data MigrationError (E : Type 0) : Type 0 where
  no_source driver_failed no_instance no_github_instance unreadable not_forced not_applied
        not_applied_from_github :
      E → MigrationError E
  unsupported_provider : Text → MigrationError E
  downgrade_refused : ℕ → ℕ → MigrationError E
  left_dirty github_left_dirty : MigrationError E

-- `newMigrationDriver`.
unfoldable pub new_migration_driver :
    {E : Type 0} → Setup E → Text → Result (MigrationError E) (Unit {0})
new_migration_driver setup provider =
    if same provider db_provider_sqlite
    then check driver_failed setup.sqlite_driver
    else if same provider db_provider_postgres
    then check driver_failed setup.postgres_driver
    else err (unsupported_provider provider)

-- `GetEmbeddedMigrateInstance`.
unfoldable pub get_embedded_migrate_instance :
    {E : Type 0} → Setup E → Text → Result (MigrationError E) (Unit {0})
unfolding new_migration_driver
get_embedded_migrate_instance setup provider = check no_source setup.source >>= λ source.
    new_migration_driver setup provider >>= λ driver. check no_instance setup.instance_

-- The digits at the front of a text, and the rest.
unfoldable pub scan_digits : Text → Text × Text
scan_digits [] = ([], [])
scan_digits (c ∷ s) =
    let (ds, rest) = scan_digits s in if is_decimal c then (c ∷ ds, rest) else ([], c ∷ s)

abbrev pub is_blank : ℕ → Bool
is_blank c = is_space c && not (c == 10)

abbrev pub starts_with_underscore : Text → Bool
starts_with_underscore [] = false
starts_with_underscore (c ∷ s) = c == b'_'

-- `fmt.Sscanf(name, "%d_", &version)` into a `uint`, where it has one value and no error.
unfoldable pub version_of : Text → Option ℕ
unfolding scan_digits
version_of name =
    let (ds, rest) = scan_digits (trim_left is_blank name) in
    if not (is_empty ds) && ltb (number_from 0 ds) (2 ^ 64) && starts_with_underscore rest
    then some (number_from 0 ds)
    else none

-- An entry of the directory of migrations.
pub record Entry : Type 0 where
  pub name : Text
  pub is_dir : Bool

abbrev pub greater : ℕ → Option ℕ → ℕ
greater max none = max
greater max (some v) = if ltb max v then v else max

-- The loop of `getRequiredMigrationVersion`.
unfoldable pub max_version : ℕ → List Entry → ℕ
unfolding version_of
max_version max [] = max
max_version max (e ∷ es) =
    let skipped = max_version max es in
    let taken = max_version (greater max (version_of e.name)) es in
    if e.is_dir then skipped else taken

unfoldable pub get_required_migration_version :
    {E : Type 0} → Result E (List Entry) → Result (MigrationError E) ℕ
unfolding max_version
get_required_migration_version read_dir =
    wrap unreadable read_dir >>= λ entries. ok (max_version 0 entries)

abbrev pub github_result : {D E : Type 0} → D × Option (Failure E) → D × Option (MigrationError E)
github_result (d, none) = (d, none)
github_result (d, some no_change) = (d, none)
github_result (d, some dirty) = (d, some github_left_dirty)
github_result (d, some (other e)) = (d, some (not_applied_from_github e))

-- `migrateDatabaseFromGitHub`.
unfoldable pub migrate_database_from_github :
    {D E : Type 0} → Setup E → Migrator D E → Text → ℕ → ℕ → D → D × Option (MigrationError E)
unfolding new_migration_driver
migrate_database_from_github setup m provider required current d =
    elim (new_migration_driver setup provider) [
      | err e ↦ (d, some e)
      | ok driver ↦ elim setup.github_instance [
        | some e ↦ (d, some (no_github_instance e))
        | none ↦
            let (forced, failure) = m.force current d in
            elim failure [
              | some e ↦ (forced, some (not_forced e))
              | none ↦ github_result (m.migrate_from_github required forced)
            ]
      ]
    ]

abbrev pub embedded_result : {D E : Type 0} → D × Option (Failure E) → D × Option (MigrationError E)
embedded_result (d, none) = (d, none)
embedded_result (d, some no_change) = (d, none)
embedded_result (d, some dirty) = (d, some left_dirty)
embedded_result (d, some (other e)) = (d, some (not_applied e))

-- `currentVersion, _, _ := m.Version()`: after an error it is 0.
abbrev pub version_or_zero : {E : Type 0} → Result E ℕ → ℕ
version_or_zero (ok v) = v
version_or_zero (err e) = 0

-- `MigrateDatabase` behind its set-up: with the required version.
unfoldable pub migrate_to :
    {D E : Type 0}
    → Setup E
    → Migrator D E
    → EnvConfigSchema
    → ℕ
    → D
    → D × Option (MigrationError E)
unfolding migrate_database_from_github
migrate_to setup m config required d =
    let current = version_or_zero (m.version d) in
    if ltb required current
    then (if not config.allow_downgrade
        then (d, some (downgrade_refused current required))
        else migrate_database_from_github setup m config.db_provider required current d)
    else embedded_result (m.migrate required d)

-- `MigrateDatabase`.
unfoldable pub migrate_database :
    {D E : Type 0}
    → Setup E
    → Migrator D E
    → EnvConfigSchema
    → Result E (List Entry)
    → D
    → D × Option (MigrationError E)
unfolding get_embedded_migrate_instance get_required_migration_version migrate_to
migrate_database setup m config read_dir d =
    elim (get_embedded_migrate_instance setup config.db_provider) [
      | err e ↦ (d, some e)
      | ok instance_ ↦ elim (get_required_migration_version read_dir) [
        | err e ↦ (d, some e)
        | ok required ↦ migrate_to setup m config required d
      ]
    ]
