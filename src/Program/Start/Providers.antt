-- ===== src/Program/Start/Providers.antt =====
-- The configuration that `main` (backend/cmd/main.go) starts with opens a database
-- (backend/internal/bootstrap/db_bootstrap.go).
use mathlib.Core.Path.{subst}
use vocy.Prelude.{
  Option-cases, drop, ◌≡◌, ◌≢◌, refl, ap, ◌∙◌, Bool, true, false, Bool-cases, inl, inr, Option,
  none, some, List, [], ◌∷◌, Result, ok, err, ◌>>=◌, wrap, check, arith,
}
use vocy.Env.Schema.{
  Text, EnvConfigSchema, same, is_empty, db_provider_sqlite, db_provider_postgres,
}
use vocy.Env.Prepare.{Surroundings}
use vocy.Env.Validate.{
  Parsers, Checked, should_skip_env_validation, is_postgres, validate_env_config,
}
use vocy.Env.Accepted.{Usable, validate_env_config-Usable}
use vocy.Sqlite.Options.{
  add_sqlite_default_parameters, convert_sqlite_pragma_args, is_sqlite_in_memory,
}
use vocy.Sqlite.Folders.{ensure_sqlite_database_dir, ensure_sqlite_temp_dir, connect_with_retries}
use vocy.Sqlite.Connecting.{
  Outcome, limited, opened, not_parsed, invalid_options, not_absolute, no_database_dir, no_temp_dir,
  with_scheme, before_query, dir, Outside, ConnectError, no_connection_string, unsupported_provider,
  fails, Parsed, parse_sqlite_connection_string, ensure_folders, Plan, choose, connect_plan,
  connect_database,
}
use vocy.Program.Start.{ParseError, runs, after_validation, after_parsing, parse_env_config, main}

-- An error of the connection that is none of the two that tell of a configuration without a database.
abbrev pub IsOther : {E : Type 0} → ConnectError E → Type 0
IsOther no_connection_string = ⊥
IsOther (unsupported_provider p) = ⊥
IsOther other = Unit

pub record FailsOtherwise {E A : Type 0} (r : Result (ConnectError E) A) : Type 0 where
  pub is_other : (e : ConnectError E) → r ≡ err e → IsOther e

bind-FailsOtherwise :
    {E A B : Type 0} (r : Result (ConnectError E) A) (f : A → Result (ConnectError E) B)
    → FailsOtherwise r
    → ((x : A) → FailsOtherwise (f x))
    → FailsOtherwise (r >>= f)
bind-FailsOtherwise (ok x) f h k = k x
bind-FailsOtherwise (err e) f h k = record { is_other = λ e' same_one. h.is_other e' cc }

ok-FailsOtherwise : {E A : Type 0} (x : A) → FailsOtherwise {E = E} (ok x)
ok-FailsOtherwise x = record { is_other = λ e h. absurd (ground arith) }

err-injective : {E A : Type 0} {a b : E} → ◌≡◌ {A = Result E A} (err a) (err b) → a ≡ b
err-injective h = cc

other-FailsOtherwise :
    {E A : Type 0} (e : ConnectError E) → IsOther e → FailsOtherwise {A = A} (err e)
other-FailsOtherwise e h = record {
  is_other = λ e' same_one. subst IsOther (err-injective same_one) h;
}

wrap-FailsOtherwise :
    {E F A : Type 0} (f : F → ConnectError E) (r : Result F A)
    → ((e : F) → IsOther (f e))
    → FailsOtherwise (wrap f r)
wrap-FailsOtherwise f (ok x) h = ok-FailsOtherwise x
wrap-FailsOtherwise f (err e) h = other-FailsOtherwise (f e) (h e)

check-FailsOtherwise :
    {E F : Type 0} (f : F → ConnectError E) (o : Option F)
    → ((e : F) → IsOther (f e))
    → FailsOtherwise (check f o)
check-FailsOtherwise f none h = ok-FailsOtherwise tt
check-FailsOtherwise f (some e) h = other-FailsOtherwise (f e) (h e)

is_empty-false : (s : Text) → s ≢ [] → is_empty s ≡ false
is_empty-false [] h = absurd (h refl)
is_empty-false (c ∷ s) h = refl

fails-injective :
    {E C : Type 0} {a b : ConnectError E} → ◌≡◌ {A = Outcome E C} (fails a) (fails b) → a ≡ b
fails-injective h = cc

module _ {E C : Type 0} (os : Outside E C) where
  parse-FailsOtherwise : (s : Text) → FailsOtherwise (parse_sqlite_connection_string os s)
  unfolding parse_sqlite_connection_string
  parse-FailsOtherwise s =
      let memory = is_sqlite_in_memory os.parse_query (with_scheme s) in
      bind-FailsOtherwise _ _
        (wrap-FailsOtherwise not_parsed (os.parse_url (with_scheme s)) (λ e. tt))
        (λ url.
          let options = add_sqlite_default_parameters (convert_sqlite_pragma_args url.1) memory in
          bind-FailsOtherwise _ _ (wrap-FailsOtherwise invalid_options options (λ e. tt)) (λ qs.
            let path = os.abs (before_query (drop 5 (os.print_url (url.0, qs)))) in
            bind-FailsOtherwise _ _ (wrap-FailsOtherwise not_absolute path (λ e. tt))
              (λ path. ok-FailsOtherwise _)))

  folders-FailsOtherwise : (p : Parsed) → FailsOtherwise (ensure_folders os p)
  unfolding ensure_folders
  folders-FailsOtherwise p =
      let made = (ensure_sqlite_database_dir (os.stat (dir p.db_path)) os.mkdir).1 in
      let temp =
        (ensure_sqlite_temp_dir os.is_writable_dir os.setenv os.variables (dir p.db_path)).1 in
      let last = check-FailsOtherwise no_temp_dir temp (λ e. tt) in
      elim (Bool-cases p.is_memory_db) [
        | inl memory ↦ rw (ensure_folders, memory) last
        | inr file ↦
            rw (ensure_folders, file)
              (bind-FailsOtherwise _ _ (check-FailsOtherwise no_database_dir made (λ e. tt))
                (λ done. last))
      ]

  -- With a provider that is known and a connection string, the choice of the dialector fails for
  -- another reason.
  choose-FailsOtherwise : (d : EnvConfigSchema) → Usable d → FailsOtherwise (choose os d)
  unfolding choose same
  choose-FailsOtherwise d u =
      let filled : is_empty d.db_connection_string ≡ false =
        is_empty-false d.db_connection_string u.connection in
      elim (Bool-cases (is_postgres d.db_connection_string)) [
        | inl postgres ↦
            let provider : d.db_provider ≡ db_provider_postgres = u.provider ∙ rw postgres in
            rw (choose, provider, filled) (ok-FailsOtherwise _)
        | inr sqlite ↦
            let provider : d.db_provider ≡ db_provider_sqlite = u.provider ∙ rw sqlite in
            rw (choose, provider, filled)
              (bind-FailsOtherwise _ _ (parse-FailsOtherwise d.db_connection_string) (λ p.
                bind-FailsOtherwise _ _ (folders-FailsOtherwise p) (λ made. ok-FailsOtherwise _)))
      ]

  limited_fails : (single : Bool) (c : C) (e : ConnectError E) → limited os single c ≢ fails e
  limited_fails false c e h = ground arith
  limited_fails true c e h = elim (Option-cases (os.sql_db c)) [
    | inl fine ↦ ground (arith, rw (limited, fine) at h)
    | inr (x, failed) ↦ ground (arith, rw (limited, failed) at h)
  ]

  opened-IsOther :
      (single : Bool) (r : Result (Option E) C) (e : ConnectError E)
      → opened os single r ≡ fails e
      → IsOther e
  opened-IsOther single (err x) e h = subst IsOther (fails-injective h) tt
  opened-IsOther single (ok c) e h = absurd (limited_fails single c e h)

  connect_plan-IsOther :
      (r : Result (ConnectError E) Plan) (e : ConnectError E)
      → FailsOtherwise r
      → connect_plan os r ≡ fails e
      → IsOther e
  connect_plan-IsOther (err x) e h k = h.is_other e (ap err (fails-injective k))
  connect_plan-IsOther (ok plan) e h k =
      opened-IsOther plan.is_single (connect_with_retries (os.opens plan.dialector)) e k

runs_from :
    {E : Type 0} (r : Checked) (d : EnvConfigSchema)
    → after_validation {E = E} r ≡ runs d
    → (r.1 ≡ none) × (r.0 ≡ d)
runs_from (c, none) d h = (refl, cc)
runs_from (c, some e) d h = absurd (ground arith)

runs-Usable :
    {E : Type 0} (parsers : Parsers) (args : List Text) (r : Result (ParseError E) EnvConfigSchema)
    (d : EnvConfigSchema)
    → should_skip_env_validation args ≡ false
    → after_parsing parsers args r ≡ runs d
    → Usable d
runs-Usable parsers args (err e) d checks h = absurd (ground arith)
runs-Usable parsers args (ok c) d checks h =
    let (fine, same_config) = runs_from (validate_env_config parsers args c) d h in
    subst Usable same_config (validate_env_config-Usable parsers c args checks fine)

-- Unless the validation is skipped, a configuration with which `main` goes on to `Bootstrap` has a
-- database: `ConnectDatabase` does not fail for a missing connection string, nor for a provider that
-- it does not know, whatever it meets.
pub main_connects :
    {E C F : Type 0} (os : Outside E C) (surroundings : Surroundings) (parsers : Parsers)
    (args : List Text) (parsed : Result F EnvConfigSchema) (d : EnvConfigSchema) (provider : Text)
    → should_skip_env_validation args ≡ false
    → main surroundings parsers args parsed ≡ runs d
    → (connect_database os d ≢ fails no_connection_string)
      × (connect_database os d ≢ fails (unsupported_provider provider))
unfolding main connect_database
main_connects os surroundings parsers args parsed d provider checks h =
    let usable = runs-Usable parsers args (parse_env_config surroundings parsed) d checks h in
    let chosen = choose-FailsOtherwise os d usable in
    (
      λ missing. connect_plan-IsOther os (choose os d) no_connection_string chosen missing,
      λ unknown.
          connect_plan-IsOther os (choose os d) (unsupported_provider provider) chosen unknown,
    )
