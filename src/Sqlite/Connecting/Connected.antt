-- ===== src/Sqlite/Connecting/Connected.antt =====
-- What a connection relies on (backend/internal/bootstrap/db_bootstrap.go).
use vocy.Prelude.{
  ℕ, ◌≡◌, ◌≤◌, refl, sym, ap, ◌∙◌, Bool, true, false, Option, none, some, Result, ok, err, wrap,
  >>=-eq-ok, wrap-eq-ok, ok-injective, Bool-cases, Option-cases, drop, arith, inl, inr,
  if◌then◌else◌,
}
use vocy.Env.Schema.{Text, EnvConfigSchema, db_provider_sqlite, same, is_empty}
use vocy.Sqlite.Values.{Values}
use vocy.Sqlite.Options.{
  convert_sqlite_pragma_args, add_sqlite_default_parameters, is_sqlite_in_memory,
}
use vocy.Sqlite.Promises.{IsSafe, add_sqlite_default_parameters-IsSafe}
use vocy.Sqlite.Folders.{connect_with_retries}
use vocy.Sqlite.Opening.{connect_with_retries_outcome}
use vocy.Sqlite.Connecting.{
  sqlite, Outside, ConnectError, Parsed, not_parsed, invalid_options, not_absolute, before_query,
  with_scheme, Plan, connected, parse_sqlite_connection_string, ensure_folders, choose, limited,
  opened, connect_plan, connect_database,
}

module _ {E C : Type 0} (os : Outside E C) where
  abbrev pub in_memory : Text → Bool
  in_memory given = is_sqlite_in_memory os.parse_query (with_scheme given)

  parsed :
      (given : Text) (p : Parsed)
      → parse_sqlite_connection_string os given ≡ ok p
      → (path : Text) × (qs : Values) × IsSafe qs
        × (p.conn_string ≡ os.print_url (path, qs))
        × (p.is_memory_db ≡ in_memory given)
  unfolding parse_sqlite_connection_string
  parsed given p h =
      let (url, parses, after) =
        >>=-eq-ok (wrap not_parsed (os.parse_url (with_scheme given))) _ h in
      let query = convert_sqlite_pragma_args url.1 in
      let (qs, adds, after') =
        >>=-eq-ok (wrap invalid_options (add_sqlite_default_parameters query (in_memory given))) _
          after in
      let printed = os.print_url (url.0, qs) in
      let (path, is_absolute, end) =
        >>=-eq-ok (wrap not_absolute (os.abs (before_query (drop 5 printed)))) _ after' in
      let whole = ok-injective end in
      (
        url.0,
        qs,
        add_sqlite_default_parameters-IsSafe query (in_memory given) qs (
            wrap-eq-ok invalid_options (add_sqlite_default_parameters query (in_memory given))
              adds),
        sym (ap (λ (x : Parsed). x.conn_string) whole),
        sym (ap (λ (x : Parsed). x.is_memory_db) whole),
      )

  chosen :
      (config : EnvConfigSchema) (plan : Plan)
      → same config.db_provider db_provider_sqlite ≡ true
      → choose os config ≡ ok plan
      → (p : Parsed) × (parse_sqlite_connection_string os config.db_connection_string ≡ ok p)
        × (plan.dialector ≡ sqlite p.conn_string)
        × (plan.is_single ≡ p.is_memory_db)
  unfolding choose
  chosen config plan provider h = elim (Bool-cases (is_empty config.db_connection_string)) [
    | inl empty ↦ absurd (ground (arith, rw (choose, provider, empty) at h))
    | inr filled ↦
        let (p, parses, after) =
          >>=-eq-ok (parse_sqlite_connection_string os config.db_connection_string) _
            (rw (choose, provider, filled) at h) in
        let (made, folders, end) = >>=-eq-ok (ensure_folders os p) _ after in
        let whole = ok-injective end in
        (
          p,
          parses,
          sym (ap (λ (x : Plan). x.dialector) whole),
          sym (ap (λ (x : Plan). x.is_single) whole),
        )
  ]

  limited_connected :
      (single : Bool) (d c : C) (limit : Option ℕ)
      → limited os single d ≡ connected c limit
      → (d ≡ c) × (limit ≡ (if single then some 1 else none))
  limited_connected false d c limit h = (cc, cc)
  limited_connected true d c limit h = elim (Option-cases (os.sql_db d)) [
    | inl fine ↦ let set = rw (limited, fine) at h in (cc, cc)
    | inr (e, fails_) ↦ absurd (ground (arith, rw (limited, fails_) at h))
  ]

  opened_connected :
      (single : Bool) (r : Result (Option E) C) (c : C) (limit : Option ℕ)
      → opened os single r ≡ connected c limit
      → (r ≡ ok c) × (limit ≡ (if single then some 1 else none))
  opened_connected single (err e) c limit h = absurd (ground arith)
  opened_connected single (ok d) c limit h =
      let (same_one, bound) = limited_connected single d c limit h in (ap ok same_one, bound)

  planned :
      (r : Result (ConnectError E) Plan) (c : C) (limit : Option ℕ)
      → connect_plan os r ≡ connected c limit
      → (plan : Plan) × (r ≡ ok plan)
        × (connect_with_retries (os.opens plan.dialector) ≡ ok c)
        × (limit ≡ (if plan.is_single then some 1 else none))
  planned (err e) c limit h = absurd (ground arith)
  planned (ok plan) c limit h =
      let (connects, bound) =
        opened_connected plan.is_single (connect_with_retries (os.opens plan.dialector)) c limit
          h in
      (plan, refl, connects, bound)

  -- A connection to SQLite has the options that the program relies on, whatever the connection string
  -- holds: it was opened, in one of three attempts, with a query that turns foreign keys on by its
  -- last pragma and sets the busy timeout, the journal mode and the kind of transaction, and it is
  -- limited to one open connection just if the database is in memory.
  pub connect_database-IsSafe :
      (config : EnvConfigSchema) (c : C) (limit : Option ℕ)
      → same config.db_provider db_provider_sqlite ≡ true
      → connect_database os config ≡ connected c limit
      → (path : Text) × (qs : Values) × (k : ℕ) × IsSafe qs
        × (1 ≤ k)
        × (k ≤ 3)
        × (os.opens (sqlite (os.print_url (path, qs))) k ≡ ok c)
        × (limit ≡ (if in_memory config.db_connection_string then some 1 else none))
  unfolding connect_database
  connect_database-IsSafe config c limit provider h =
      let (plan, chooses, connects, bound) = planned (choose os config) c limit h in
      let (p, parses, dials, single) = chosen config plan provider chooses in
      let (path, qs, safe, prints, memory) = parsed config.db_connection_string p parses in
      elim (connect_with_retries_outcome (os.opens plan.dialector)) [
        | inl (k, db, low, high, opens, returns) ↦ (
          path,
          qs,
          k,
          safe,
          low,
          high,
          ap (λ d. os.opens d k) (sym (dials ∙ ap sqlite prints))
              ∙ opens
              ∙ ap ok (ok-injective (sym returns ∙ connects)),
          bound ∙ ap (λ b. if b then some 1 else none) (single ∙ memory),
        )
        | inr (e, fails_, returns) ↦ absurd (ground (arith, sym returns ∙ connects))
      ]
