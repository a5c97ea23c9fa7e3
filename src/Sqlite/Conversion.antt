-- ===== src/Sqlite/Conversion.antt =====
-- What the order of the options does to `convertSqlitePragmaArgs`
-- (backend/internal/bootstrap/db_bootstrap.go).
use vocy.Prelude.{
  List, false, append_assoc, append_empty, All, inl, inr, Option-cases, sym, none, some, ◌∙◌, ◌++◌,
  ◌≡◌, refl, [], ◌∷◌, codes,
}
use vocy.Env.Prepare.{lower}
use vocy.Env.Schema.{Text, same}
use vocy.Utils.CaseStyle.{to_lower, is_upper}
use vocy.Sqlite.Values.{Values, first, values_of-put, values_of-put_ne, values_of, put, add}
use vocy.Sqlite.Options.{
  call, pragma_of, convert_option, convert_options, convert_sqlite_pragma_args,
}

-- A connection string with a busy timeout in the older form and a pragma in the newer one keeps both
-- if the range over the map comes to the pragma first; if it comes to the timeout first, the pragma
-- overwrites it.
pub conversion_order :
    (timeout pragma : Text)
    → (convert_sqlite_pragma_args
          ((codes "_pragma", pragma ∷ []) ∷ (codes "_busy_timeout", timeout ∷ []) ∷ [])
        ≡ (codes "_pragma", pragma ∷ call (codes "busy_timeout") timeout ∷ []) ∷ [])
      × (convert_sqlite_pragma_args
            ((codes "_busy_timeout", timeout ∷ []) ∷ (codes "_pragma", pragma ∷ []) ∷ [])
          ≡ (codes "_pragma", pragma ∷ []) ∷ [])
unfolding convert_sqlite_pragma_args convert_options convert_option pragma_of same to_lower is_upper
    values_of put add
conversion_order timeout pragma = (refl, refl)

-- The pragmas of the options of the older form, in their order.
abbrev pub old_pragmas : Values → List Text
old_pragmas [] = []
old_pragmas ((k, v) ∷ query) = elim (pragma_of (lower k)) [
  | none ↦ old_pragmas query
  | some name ↦ call name (first v) ∷ old_pragmas query
]

option_pragmas :
    (k : Text) (v : List Text) (qs query : Values)
    → same k (codes "_pragma") ≡ false
    → values_of (convert_option qs k v) (codes "_pragma") ++ old_pragmas query
      ≡ values_of qs (codes "_pragma") ++ old_pragmas ((k, v) ∷ query)
unfolding convert_option add
option_pragmas k v qs query h = elim (Option-cases (pragma_of (lower k))) [
  | inl e ↦ rw (e, convert_option, values_of-put_ne qs k (codes "_pragma") v h, old_pragmas)
  | inr (name, e) ↦
      rw (e, convert_option, values_of-put, old_pragmas)
        (append_assoc (values_of qs (codes "_pragma")) _ _)
]

converted :
    (query qs : Values)
    → All (λ o. same o.0 (codes "_pragma") ≡ false) query
    → values_of (convert_options query qs) (codes "_pragma")
      ≡ values_of qs (codes "_pragma") ++ old_pragmas query
unfolding convert_options
converted [] qs h = sym (append_empty _)
converted ((k, v) ∷ query) qs h =
    converted query (convert_option qs k v) h.1 ∙ option_pragmas k v qs query h.0

-- For a connection string without a `_pragma` of its own, in whatever order the map is ranged over,
-- the conversion turns each option of the older form into its pragma and loses none.
pub convert_sqlite_pragma_args-old_pragmas :
    (query : Values)
    → All (λ o. same o.0 (codes "_pragma") ≡ false) query
    → values_of (convert_sqlite_pragma_args query) (codes "_pragma") ≡ old_pragmas query
unfolding convert_sqlite_pragma_args values_of
convert_sqlite_pragma_args-old_pragmas query h = converted query [] h
