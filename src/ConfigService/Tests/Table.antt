-- ===== src/ConfigService/Tests/Table.antt =====
-- A table with a primary key, as a list of rows: it meets what the service relies on.
use vocy.Prelude.{
  String, ◌≡◌, ◌≢◌, refl, sym, ap, ◌∙◌, Bool, true, not, ◌&&◌, Option, none, some, List, [], ◌∷◌,
  Result, ok, err, ok-injective, All, str_eq, eq_iff, arith, inl, inr, Bool-cases, if◌then◌else◌,
}
use mathlib.Core.Path.{subst}
use vocy.Gorm.{sqlite}
use vocy.Config.Values.{AppConfigVariable}
use vocy.ConfigService.Database.{ConfigDb, ConfigDbLaws, row_in, row_after, DistinctKeys}

abbrev absent : String → List AppConfigVariable → Bool
absent k [] = true
absent k (w ∷ ws) = not (str_eq k w.key) && absent k ws

abbrev distinct : List AppConfigVariable → Bool
distinct [] = true
distinct (v ∷ vs) = absent v.key vs && distinct vs

abbrev put_row : AppConfigVariable → List AppConfigVariable → List AppConfigVariable
put_row v [] = v ∷ []
put_row v (w ∷ ws) = let rest = put_row v ws in if str_eq w.key v.key then v ∷ ws else w ∷ rest

abbrev put_all : List AppConfigVariable → List AppConfigVariable → List AppConfigVariable
put_all [] d = d
put_all (v ∷ vs) d = put_all vs (put_row v d)

abbrev or_missing : Option String → Result (Unit {0}) String
or_missing none = err tt
or_missing (some v) = ok v

absent-ne :
    (k : String) (ws : List AppConfigVariable) → absent k ws ≡ true → All (λ w. k ≢ w.key) ws
absent-ne k [] h = tt
absent-ne k (w ∷ ws) h = (λ e. ground (arith, (eq_iff k w.key).1 e), absent-ne k ws (ground arith))

distinct-DistinctKeys : (d : List AppConfigVariable) → distinct d ≡ true → DistinctKeys d
distinct-DistinctKeys [] h = tt
distinct-DistinctKeys (v ∷ vs) h =
    (absent-ne v.key vs (ground arith), distinct-DistinctKeys vs (ground arith))

row_in-put_row :
    (v : AppConfigVariable) (d : List AppConfigVariable) (k : String)
    → row_in (put_row v d) k ≡ (if str_eq v.key k then some v.value else row_in d k)
row_in-put_row v [] k = refl
row_in-put_row v (w ∷ ws) k =
    ground (arith, row_in-put_row v ws k, eq_iff w.key v.key, eq_iff w.key k, eq_iff v.key k)

row_in-put_all :
    (vs d : List AppConfigVariable) (k : String)
    → row_in (put_all vs d) k ≡ row_after vs k (row_in d k)
row_in-put_all [] d k = refl
row_in-put_all (v ∷ vs) d k = rw (row_in-put_all vs (put_row v d) k, row_in-put_row)

abbrev pub table : ConfigDb
table = record {
  Db = List AppConfigVariable;
  DbError = Unit {0};
  name = λ d. sqlite;
  begin = λ d. ok d;
  lock_table = λ d. none;
  find = λ d. if distinct d then ok d else err tt;
  first_value = λ d k. or_missing (row_in d k);
  upsert = λ d rows. ok (put_all rows d);
  commit = λ d. ok d;
  rollback = λ d t. d;
  failed_commit = λ d t. t;
}

find_ok :
    (d rows : List AppConfigVariable) → table.find d ≡ ok rows → (d ≡ rows) × (distinct d ≡ true)
find_ok d rows h = elim (Bool-cases (distinct d)) [
  | inl e ↦ (ok-injective (rw e at h), e)
  | inr e ↦ absurd (ground arith)
]

first_value_ok :
    (d : List AppConfigVariable) (k v : String) (o : Option String)
    → or_missing o ≡ ok v
    → o ≡ some v
first_value_ok d k v none h = ground arith
first_value_ok d k v (some w) h = ap some (ok-injective h)

pub table_laws : ConfigDbLaws table
table_laws = record {
  row = row_in;
  row-begin = λ d t h. ap row_in (sym (ok-injective h));
  row-find = λ d rows k h. ap (λ r. row_in r k) (sym (find_ok d rows h).0);
  DistinctKeys-find = λ d rows h.
      distinct-DistinctKeys rows
        (subst (λ r. distinct r ≡ true) (find_ok d rows h).0 (find_ok d rows h).1);
  row-first_value = λ d k v h. first_value_ok d k v (row_in d k) h;
  row-upsert =
      λ d t rows k h. ap (λ r. row_in r k) (sym (ok-injective h)) ∙ row_in-put_all rows d k;
  row-commit = λ t d h. ap row_in (sym (ok-injective h));
  row-rollback = λ d t. refl;
  row-failed_commit = λ d t. inr refl;
}
