-- ===== src/Migrations/Tests.antt =====
-- Tests and witnesses on the migrations (backend/internal/utils/db_migration_util.go).
use vocy.Prelude.{
  ℕ, ◌≡◌, ◌≢◌, ◌≤◌, ◌<◌, ◌⊎◌, refl, Bool, true, false, Option, none, some, List, [], ◌∷◌, Result,
  ok, err, All, codes, arith,
}
use vocy.Env.Schema.{Text, EnvConfigSchema, default_config}
use vocy.Migrations.{
  Failure, Migrator, Setup, Entry, MigrationError, get_required_migration_version, migrate_database,
}
use vocy.Migrations.Versions.{versions, IsOne, get_required_migration_version_greatest}
use vocy.Migrations.Outcomes.{Reaches, Climbs, migrate_database-Climbs}

abbrev pub files : List Entry
files =
    record { name = codes "20240601_init.up.sql"; is_dir = false }
    ∷ record { name = codes "20250102_lock.up.sql"; is_dir = false }
    ∷ record { name = codes "20990101_old"; is_dir = true }
    ∷ record { name = codes "README.md"; is_dir = false }
    ∷ []

pub files_required :
    ◌≡◌ {A = Result (MigrationError Text) ℕ}
      (get_required_migration_version (ok files))
      (ok 20_250_102)
unfolding get_required_migration_version vocy.Env.Schema.trim_left vocy.Env.Schema.is_space
    vocy.Prelude.is_decimal vocy.Prelude.number_from
files_required = refl

get_required_migration_version_greatest_example :
    (r : ℕ) × (◌≡◌ {A = Result (MigrationError Text) ℕ}
      (get_required_migration_version (ok files))
      (ok r))
    × All (λ v. v ≤ r) (versions files)
    × ((r ≡ 0) ⊎ IsOne r (versions files))
get_required_migration_version_greatest_example = get_required_migration_version_greatest files

-- A database that is its version.
abbrev pub moves : ℕ → ℕ → ℕ × Option (Failure Text)
moves v d = (v, none)

abbrev pub migrator : Migrator ℕ Text
migrator = record {
  version = λ d. ok d;
  migrate = moves;
  migrate_from_github = moves;
  force = λ v d. (v, none);
}

abbrev pub ready : Setup Text
ready = record {
  source = none;
  sqlite_driver = none;
  postgres_driver = none;
  instance_ = none;
  github_instance = none;
}

abbrev pub downgrading : EnvConfigSchema
downgrading = record default_config { allow_downgrade = true }

pub moves-Reaches : Reaches {D = ℕ} {E = Text} (λ d. ok d) moves
moves-Reaches v d done = refl

downgrade_succeeds : (migrate_database ready migrator downgrading (ok files) 20_260_000).1 ≡ none
unfolding migrate_database vocy.Env.Schema.same vocy.Env.Schema.trim_left vocy.Env.Schema.is_space
    vocy.Prelude.is_decimal vocy.Prelude.number_from
downgrade_succeeds = refl

moves-Climbs : Climbs {D = ℕ} {E = Text} (λ d. ok d) moves
moves-Climbs required v d at up = (required, refl, up)

migrate_database-Climbs_example :
    (w : ℕ) × (◌≡◌ {A = Result Text ℕ}
      (migrator.version (migrate_database ready migrator default_config (ok files) 20_260_000).0)
      (ok w))
    × (20_260_000 ≤ w)
migrate_database-Climbs_example =
    migrate_database-Climbs ready migrator default_config (ok files) 20_260_000 20_260_000
      moves-Climbs refl refl
