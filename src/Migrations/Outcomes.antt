-- ===== src/Migrations/Outcomes.antt =====
-- What a migration of the database leaves (backend/internal/utils/db_migration_util.go).
use vocy.Prelude.{
  ℕ, ◌≤◌, ◌≡◌, refl, false, Option, none, some, List, Result, ok, Result-cases, Option-cases,
  Bool-cases, arith, ltb, inl, inr,
}
use vocy.Env.Schema.{Text, EnvConfigSchema}
use vocy.Migrations.{
  Failure, no_change, dirty, other, Migrator, Setup, Entry, new_migration_driver,
  get_embedded_migrate_instance, get_required_migration_version, github_result,
  migrate_database_from_github, embedded_result, version_or_zero, migrate_to, migrate_database,
}

-- What golang-migrate promises: a migration that succeeds, or finds nothing to change, leaves the
-- database at the version that was asked for.
abbrev pub IsDone : {E : Type 0} → Option (Failure E) → Type 0
IsDone none = Unit
IsDone (some no_change) = Unit
IsDone (some dirty) = ⊥
IsDone (some (other e)) = ⊥

abbrev pub Reaches : {D E : Type 0} → (D → Result E ℕ) → (ℕ → D → D × Option (Failure E)) → Type 0
Reaches {D} version migrate =
    (v : ℕ) (d : D) → IsDone (migrate v d).1 → version (migrate v d).0 ≡ ok v

-- A migration to a version that is not below that of the database never lowers it, whether it fails or
-- not.
abbrev pub Climbs : {D E : Type 0} → (D → Result E ℕ) → (ℕ → D → D × Option (Failure E)) → Type 0
Climbs {D} version migrate =
    (required v : ℕ) (d : D)
    → version d ≡ ok v
    → v ≤ required
    → (w : ℕ) × (version (migrate required d).0 ≡ ok w) × (v ≤ w)

module _ {D E : Type 0} (setup : Setup E) (m : Migrator D E) (config : EnvConfigSchema) where
  embedded-IsDone :
      (r : D × Option (Failure E))
      → (embedded_result r).1 ≡ none
      → IsDone r.1 × ((embedded_result r).0 ≡ r.0)
  embedded-IsDone (d, none) h = (tt, refl)
  embedded-IsDone (d, some no_change) h = (tt, refl)
  embedded-IsDone (d, some dirty) h = absurd (ground arith)
  embedded-IsDone (d, some (other e)) h = absurd (ground arith)

  github-IsDone :
      (r : D × Option (Failure E))
      → (github_result r).1 ≡ none
      → IsDone r.1 × ((github_result r).0 ≡ r.0)
  github-IsDone (d, none) h = (tt, refl)
  github-IsDone (d, some no_change) h = (tt, refl)
  github-IsDone (d, some dirty) h = absurd (ground arith)
  github-IsDone (d, some (other e)) h = absurd (ground arith)

  github-Reaches :
      (provider : Text) (required current : ℕ) (d : D)
      → Reaches m.version m.migrate_from_github
      → (migrate_database_from_github setup m provider required current d).1 ≡ none
      → m.version (migrate_database_from_github setup m provider required current d).0 ≡ ok required
  unfolding migrate_database_from_github
  github-Reaches provider required current d reaches h =
      elim (Result-cases (new_migration_driver setup provider)) [
        | inr (e, failed) ↦ absurd (ground (arith, rw (migrate_database_from_github, failed) at h))
        | inl (u, driver) ↦ elim (Option-cases setup.github_instance) [
          | inr (e, failed) ↦
              absurd (ground (arith, rw (migrate_database_from_github, driver, failed) at h))
          | inl instance_ ↦ elim (Option-cases (m.force current d).1) [
            | inr (e, failed) ↦
                absurd (
                  ground (arith, rw (migrate_database_from_github, driver, instance_, failed) at h))
            | inl forced ↦
                let applied = m.migrate_from_github required (m.force current d).0 in
                let (done, same_state) =
                  github-IsDone applied
                    (rw (migrate_database_from_github, driver, instance_, forced) at h) in
                rw (migrate_database_from_github, driver, instance_, forced, same_state)
                  (reaches required (m.force current d).0 done)
          ]
        ]
      ]

  migrate_to-Reaches :
      (required : ℕ) (d : D)
      → Reaches m.version m.migrate
      → Reaches m.version m.migrate_from_github
      → (migrate_to setup m config required d).1 ≡ none
      → m.version (migrate_to setup m config required d).0 ≡ ok required
  unfolding migrate_to
  migrate_to-Reaches required d embedded github h =
      elim (Bool-cases (ltb required (version_or_zero (m.version d)))) [
        | inr up ↦
            let (done, same_state) =
              embedded-IsDone (m.migrate required d) (rw (migrate_to, up) at h) in
            rw (migrate_to, up, same_state) (embedded required d done)
        | inl down ↦ elim (Bool-cases config.allow_downgrade) [
          | inr refused ↦ absurd (ground (arith, rw (migrate_to, down, refused) at h))
          | inl allowed ↦
              rw (migrate_to, down, allowed)
                (github-Reaches config.db_provider required (version_or_zero (m.version d)) d github
                  (rw (migrate_to, down, allowed) at h))
        ]
      ]

  embedded_state : (r : D × Option (Failure E)) → (embedded_result r).0 ≡ r.0
  embedded_state (d, none) = refl
  embedded_state (d, some no_change) = refl
  embedded_state (d, some dirty) = refl
  embedded_state (d, some (other e)) = refl

  migrate_to-Climbs :
      (required v : ℕ) (d : D)
      → Climbs m.version m.migrate
      → config.allow_downgrade ≡ false
      → m.version d ≡ ok v
      → (w : ℕ) × (m.version (migrate_to setup m config required d).0 ≡ ok w) × (v ≤ w)
  unfolding migrate_to
  migrate_to-Climbs required v d climbs kept at = elim (Bool-cases (ltb required v)) [
    | inl down ↦ rw (migrate_to, at, down, kept) (v, at, omega arith)
    | inr up ↦
        rw (migrate_to, at, up, embedded_state (m.migrate required d))
          (climbs required v d at (ground (arith, up)))
  ]

  -- A migration that returns no error leaves the database at the required version, after an upgrade
  -- and after a downgrade. This supposes that golang-migrate reaches the version that it is asked
  -- for whenever it succeeds or finds nothing to change.
  pub migrate_database-Reaches :
      (read_dir : Result E (List Entry)) (required : ℕ) (d : D)
      → Reaches m.version m.migrate
      → Reaches m.version m.migrate_from_github
      → get_required_migration_version read_dir ≡ ok required
      → (migrate_database setup m config read_dir d).1 ≡ none
      → m.version (migrate_database setup m config read_dir d).0 ≡ ok required
  unfolding migrate_database
  migrate_database-Reaches read_dir required d embedded github wanted h =
      elim (Result-cases (get_embedded_migrate_instance setup config.db_provider)) [
        | inr (e, failed) ↦ absurd (ground (arith, rw (migrate_database, failed) at h))
        | inl (u, built) ↦
            rw (migrate_database, built, wanted)
              (migrate_to-Reaches required d embedded github
                (rw (migrate_database, built, wanted) at h))
      ]

  -- Without the permission to downgrade, no migration lowers the version of a database that has one,
  -- however it ends: behind a migration that fails on its way too, the version is the one from before
  -- or a later one. This supposes that golang-migrate, asked for a version that is not below the one of
  -- the database, only goes up.
  pub migrate_database-Climbs :
      (read_dir : Result E (List Entry)) (v : ℕ) (d : D)
      → Climbs m.version m.migrate
      → config.allow_downgrade ≡ false
      → m.version d ≡ ok v
      → (w : ℕ) × (m.version (migrate_database setup m config read_dir d).0 ≡ ok w) × (v ≤ w)
  unfolding migrate_database
  migrate_database-Climbs read_dir v d climbs kept at =
      elim (Result-cases (get_embedded_migrate_instance setup config.db_provider)) [
        | inr (e, failed) ↦ rw (migrate_database, failed) (v, at, omega arith)
        | inl (u, built) ↦ elim (Result-cases (get_required_migration_version read_dir)) [
          | inr (e, failed) ↦ rw (migrate_database, built, failed) (v, at, omega arith)
          | inl (required, wanted) ↦
              rw (migrate_database, built, wanted) (migrate_to-Climbs required v d climbs kept at)
        ]
      ]
