-- ===== src/Program/Database.antt =====
-- `NewDatabase` (backend/internal/bootstrap/db_bootstrap.go): the connection and then the migrations.
use vocy.Prelude.{
  ℕ, ◌≤◌, ◌≡◌, refl, sym, true, Option, none, some, List, Result, ok, Option-cases, arith, inl, inr,
  ◌∙◌, ap, if◌then◌else◌,
}
use vocy.Env.Schema.{Text, EnvConfigSchema, same, db_provider_sqlite}
use vocy.Sqlite.Values.{Values}
use vocy.Sqlite.Promises.{IsSafe}
use vocy.Sqlite.Connecting.{
  sqlite, Outside, ConnectError, Outcome, connected, fails, panics, connect_database,
}
use vocy.Sqlite.Connecting.Connected.{in_memory, connect_database-IsSafe}
use vocy.Migrations.{
  Migrator, Setup, Entry, MigrationError, get_required_migration_version, migrate_database,
}
use vocy.Migrations.Outcomes.{Reaches, migrate_database-Reaches}

pub data DatabaseError (E : Type 0) : Type 0 where
  no_connection : ConnectError E → DatabaseError E
  no_sql_db : E → DatabaseError E
  not_migrated : MigrationError E → DatabaseError E

-- `NewDatabase` returns a connection, whose limit on its open connections is kept here, or an error,
-- or it panics in `ConnectDatabase`.
pub data NewOutcome (E C : Type 0) : Type 0 where
  ready : C → Option ℕ → NewOutcome E C
  refused : DatabaseError E → NewOutcome E C
  crashed : NewOutcome E C

module _ {D E C : Type 0} (os : Outside E C) (setup : Setup E) (m : Migrator D E)
    (read_dir : Result E (List Entry)) where
  abbrev pub after_migration : C → Option ℕ → D × Option (MigrationError E) → D × NewOutcome E C
  after_migration c limit (d, none) = (d, ready c limit)
  after_migration c limit (d, some e) = (d, refused (not_migrated e))

  abbrev pub after_connection : EnvConfigSchema → D → Outcome E C → D × NewOutcome E C
  after_connection config d (fails e) = (d, refused (no_connection e))
  after_connection config d panics = (d, crashed)
  after_connection config d (connected c limit) = elim (os.sql_db c) [
    | some e ↦ (d, refused (no_sql_db e))
    | none ↦ after_migration c limit (migrate_database setup m config read_dir d)
  ]

  -- `NewDatabase` on a database: what it leaves of it, and how it ends.
  unfoldable pub new_database : EnvConfigSchema → D → D × NewOutcome E C
  new_database config d = after_connection config d (connect_database os config)

  migrated :
      (r : D × Option (MigrationError E)) (c c' : C) (limit limit' : Option ℕ)
      → (after_migration c limit r).1 ≡ ready c' limit'
      → (r.1 ≡ none) × (r.0 ≡ (after_migration c limit r).0) × (c ≡ c') × (limit ≡ limit')
  migrated (d, none) c c' limit limit' h = (refl, refl, cc, cc)
  migrated (d, some e) c c' limit limit' h = absurd (ground arith)

  connected_first :
      (config : EnvConfigSchema) (d : D) (r : Outcome E C) (c : C) (limit : Option ℕ)
      → (after_connection config d r).1 ≡ ready c limit
      → (r ≡ connected c limit)
        × ((migrate_database setup m config read_dir d).1 ≡ none)
        × ((after_connection config d r).0 ≡ (migrate_database setup m config read_dir d).0)
  connected_first config d (fails e) c limit h = absurd (ground arith)
  connected_first config d panics c limit h = absurd (ground arith)
  connected_first config d (connected c' limit') c limit h = elim (Option-cases (os.sql_db c')) [
    | inr (e, failed) ↦ absurd (ground (arith, rw (after_connection, failed) at h))
    | inl fine ↦
        let (done, same_state, same_c, same_limit) =
          migrated (migrate_database setup m config read_dir d) c' c limit' limit
            (rw (after_connection, fine) at h) in
        (cc, done, rw (after_connection, fine) (sym same_state))
  ]

  -- A SQLite database that `NewDatabase` returns is ready: its schema has the version that the program
  -- requires, the connection was opened, in one of three attempts, with foreign keys on and with the
  -- busy timeout, the journal mode and the kind of transaction set, and it is limited to one open
  -- connection just if the database is in memory. This supposes that golang-migrate reaches the
  -- version that it is asked for whenever it succeeds or finds nothing to change.
  pub new_database-Ready :
      (config : EnvConfigSchema) (required : ℕ) (d : D) (c : C) (limit : Option ℕ)
      → Reaches m.version m.migrate
      → Reaches m.version m.migrate_from_github
      → get_required_migration_version read_dir ≡ ok required
      → same config.db_provider db_provider_sqlite ≡ true
      → (new_database config d).1 ≡ ready c limit
      → (m.version (new_database config d).0 ≡ ok required)
        × ((path : Text) × (qs : Values) × (k : ℕ) × IsSafe qs
            × (1 ≤ k)
            × (k ≤ 3)
            × (os.opens (sqlite (os.print_url (path, qs))) k ≡ ok c)
            × (limit ≡ (if in_memory os config.db_connection_string then some 1 else none)))
  unfolding new_database
  new_database-Ready config required d c limit embedded github wanted provider h =
      let (connects, done, same_state) =
        connected_first config d (connect_database os config) c limit h in
      (
        ap m.version same_state
            ∙ migrate_database-Reaches setup m config read_dir required d embedded github wanted
                done,
        connect_database-IsSafe os config c limit provider connects,
      )
