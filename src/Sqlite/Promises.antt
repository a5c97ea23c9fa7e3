-- ===== src/Sqlite/Promises.antt =====
-- What `addSqliteDefaultParameters` promises (backend/internal/bootstrap/db_bootstrap.go).
use mathlib.Core.Path.{subst}
use vocy.Prelude.{
  append_assoc, ℕ, ◌≡◌, ◌≢◌, refl, sym, ap, ◌∙◌, Bool, true, false, ◌||◌, List, [], ◌∷◌, ◌++◌, ok,
  ok-injective, Result-cases, codes, arith, inl, inr, Bool-cases, if◌then◌else◌,
}
use vocy.Env.Schema.{Text, same, has_prefix}
use vocy.Env.Prepare.{lower}
use vocy.Utils.CaseStyle.{to_lower, is_upper}
use vocy.Sqlite.Values.{Values, values_of, put, values_of-put, values_of-put_ne}
use vocy.Sqlite.Options.{
  scan_pragmas, complete_pragmas, journal_pragma, keep_first, with_txlock,
  add_sqlite_default_parameters,
}

abbrev pub sets : Text → Text → Bool
sets name p = has_prefix (lower p) name

-- Some pragma of a list sets the option.
abbrev pub any_sets : Text → List Text → Bool
any_sets name [] = false
any_sets name (p ∷ ps) = sets name p || any_sets name ps

any_sets-append :
    (name : Text) (ps qs : List Text)
    → any_sets name (ps ++ qs) ≡ any_sets name ps || any_sets name qs
any_sets-append name [] qs = refl
any_sets-append name (p ∷ ps) qs = ground (arith, any_sets-append name ps qs)

disjoint :
    (s x y : Text) (a b : ℕ) → a ≢ b → has_prefix s (a ∷ x) ≡ true → has_prefix s (b ∷ y) ≡ false
unfolding has_prefix
disjoint [] x y a b ne h = refl
disjoint (c ∷ s) x y a b ne h = ground (arith, ne)

scan_found :
    (ps : List Text) (busy journal : Bool) (found : Bool × Bool)
    → scan_pragmas ps busy journal ≡ ok found
    → (found.0 ≡ busy || any_sets (codes "busy_timeout") ps)
      × (found.1 ≡ journal || any_sets (codes "journal_mode") ps)
      × (any_sets (codes "foreign_keys") ps ≡ false)
unfolding scan_pragmas
scan_found [] busy journal found h =
    let same = ok-injective h in
    (ground (arith, ap (λ x. x.0) same), ground (arith, ap (λ x. x.1) same), refl)
scan_found (p ∷ ps) busy journal found h = elim (Bool-cases (sets (codes "busy_timeout") p)) [
  | inl b ↦
      let (first, second, third) = scan_found ps true journal found (rw b at h) in
      let no_journal : sets (codes "journal_mode") p ≡ false =
        disjoint (lower p) _ _ b'b' b'j' (λ e. omega (arith, e)) b in
      let no_keys : sets (codes "foreign_keys") p ≡ false =
        disjoint (lower p) _ _ b'b' b'f' (λ e. omega (arith, e)) b in
      (ground (arith, first, b), ground (arith, second, no_journal), ground (arith, third, no_keys))
  | inr b ↦ elim (Bool-cases (sets (codes "journal_mode") p)) [
    | inl j ↦
        let (first, second, third) = scan_found ps busy true found (rw (b, j) at h) in
        let no_keys : sets (codes "foreign_keys") p ≡ false =
          disjoint (lower p) _ _ b'j' b'f' (λ e. omega (arith, e)) j in
        (ground (arith, first, b), ground (arith, second, j), ground (arith, third, no_keys))
    | inr j ↦ elim (Bool-cases (sets (codes "foreign_keys") p)) [
      | inl k ↦ absurd (ground (arith, rw (b, j, k) at h))
      | inr k ↦
          let (first, second, third) = scan_found ps busy journal found (rw (b, j, k) at h) in
          (ground (arith, first, b), ground (arith, second, j), ground (arith, third, k))
    ]
  ]
]

-- A query with which the program opens the database: foreign keys are on, by the last pragma and no
-- other; the busy timeout and the journal mode are set; and so is the kind of transaction.
pub record IsSafe (qs : Values) : Type 0 where
  pub front : List Text
  pub pragmas : values_of qs (codes "_pragma") ≡ front ++ codes "foreign_keys(1)" ∷ []
  pub no_other : any_sets (codes "foreign_keys") front ≡ false
  pub busy_timeout : any_sets (codes "busy_timeout") front ≡ true
  pub journal_mode : any_sets (codes "journal_mode") front ≡ true
  pub txlock : values_of qs (codes "_txlock") ≢ []

abbrev added : Bool → Text → List Text
added found p = if found then [] else p ∷ []

completed :
    (ps : List Text) (found : Bool × Bool) (memory read_only : Bool)
    → complete_pragmas ps found memory read_only
      ≡ (ps
          ++ (added found.0 (codes "busy_timeout(2500)")
              ++ added found.1 (journal_pragma memory read_only)))
        ++ codes "foreign_keys(1)" ∷ []
unfolding complete_pragmas
completed ps (busy, journal) memory read_only =
    let busy_part = added busy (codes "busy_timeout(2500)") in
    let journal_part = added journal (journal_pragma memory read_only) in
    ap (λ l. l ++ codes "foreign_keys(1)" ∷ []) (append_assoc ps busy_part journal_part)

default_pragmas :
    (busy journal memory read_only : Bool)
    → let l =
        added busy (codes "busy_timeout(2500)")
        ++ added journal (journal_pragma memory read_only) in
      (any_sets (codes "foreign_keys") l ≡ false)
      × (busy || any_sets (codes "busy_timeout") l ≡ true)
      × (journal || any_sets (codes "journal_mode") l ≡ true)
unfolding journal_pragma has_prefix to_lower is_upper
default_pragmas true true memory read_only = (refl, refl, refl)
default_pragmas true false true read_only = (refl, refl, refl)
default_pragmas true false false true = (refl, refl, refl)
default_pragmas true false false false = (refl, refl, refl)
default_pragmas false true memory read_only = (refl, refl, refl)
default_pragmas false false true read_only = (refl, refl, refl)
default_pragmas false false false true = (refl, refl, refl)
default_pragmas false false false false = (refl, refl, refl)

with_txlock-put :
    (qs : Values) (l : List Text)
    → values_of qs (codes "_txlock") ≡ l
    → (v : Text) × (with_txlock qs ≡ put qs (codes "_txlock") (v ∷ []))
unfolding with_txlock
with_txlock-put qs [] e = (codes "immediate", rw (e, with_txlock))
with_txlock-put qs (v ∷ vs) e = (lower v, rw (e, with_txlock))

with_txlock-ne-empty : (qs : Values) → values_of (with_txlock qs) (codes "_txlock") ≢ []
with_txlock-ne-empty qs e =
    let (v, put_eq) = with_txlock-put qs _ refl in
    cc (e, put_eq, values_of-put qs (codes "_txlock") (v ∷ []))

other_key : same (codes "_pragma") (codes "_txlock") ≡ false
unfolding same
other_key = refl

completed-IsSafe :
    (qs : Values) (found : Bool × Bool) (memory read_only : Bool)
    → scan_pragmas (values_of qs (codes "_pragma")) false false ≡ ok found
    → values_of qs (codes "_txlock") ≢ []
    → IsSafe (
        put qs
          (codes "_pragma")
          (complete_pragmas (values_of qs (codes "_pragma")) found memory read_only))
completed-IsSafe qs found memory read_only h locked =
    let ps = values_of qs (codes "_pragma") in
    let more =
      added found.0 (codes "busy_timeout(2500)")
      ++ added found.1 (journal_pragma memory read_only) in
    let (busy, journal, keys) = scan_found ps false false found h in
    let (no_keys, has_busy, has_journal) = default_pragmas found.0 found.1 memory read_only in
    record {
      front = ps ++ more;
      pragmas = values_of-put qs (codes "_pragma") _ ∙ completed ps found memory read_only;
      no_other = rw (any_sets-append, keys) no_keys;
      busy_timeout =
          rw any_sets-append
            (ap (λ b. b || any_sets (codes "busy_timeout") more) (sym busy) ∙ has_busy);
      journal_mode =
          rw any_sets-append
            (ap (λ b. b || any_sets (codes "journal_mode") more) (sym journal) ∙ has_journal);
      txlock = λ e.
          locked (sym (values_of-put_ne qs (codes "_pragma") (codes "_txlock") _ other_key) ∙ e);
    }

-- Whatever options the connection string has, if `addSqliteDefaultParameters` returns no error,
-- foreign keys are on by the last pragma and no other pragma sets them, the busy timeout and the
-- journal mode are set, and the kind of transaction is.
pub add_sqlite_default_parameters-IsSafe :
    (query : Values) (is_memory_db : Bool) (qs : Values)
    → add_sqlite_default_parameters query is_memory_db ≡ ok qs
    → IsSafe qs
unfolding add_sqlite_default_parameters
add_sqlite_default_parameters-IsSafe query is_memory_db qs h =
    let kept = keep_first (codes "immutable") (keep_first (codes "mode") query) in
    let locked = with_txlock kept in
    elim (Result-cases (scan_pragmas (values_of locked (codes "_pragma")) false false)) [
      | inl (found, e) ↦
          subst IsSafe (ok-injective (rw (e, add_sqlite_default_parameters) at h))
            (completed-IsSafe locked found is_memory_db _ e (with_txlock-ne-empty kept))
      | inr (x, e) ↦ absurd (ground (arith, rw (e, add_sqlite_default_parameters) at h))
    ]
