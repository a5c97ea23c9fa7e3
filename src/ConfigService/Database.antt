-- ===== src/ConfigService/Database.antt =====
-- What the configuration service relies on in gorm and the database behind it: the operations on
-- the table `app_config_variables` that it calls, as parameters, with the documented behaviour of
-- a table with a primary key as laws. `Db` is what the table holds, as a connection or a
-- transaction sees it, together with whatever decides that a call fails.
use vocy.Prelude.{
  String, ◌≡◌, ◌≢◌, ◌⊎◌, Option, none, some, List, [], ◌∷◌, All, Result, ok, str_eq, if◌then◌else◌,
}
use vocy.Gorm.{Dialect}
use vocy.Config.Values.{AppConfigVariable}

-- The value of a key among rows.
abbrev pub row_in : List AppConfigVariable → String → Option String
row_in [] k = none
row_in (v ∷ vs) k = let rest = row_in vs k in if str_eq v.key k then some v.value else rest

-- The value of a key after rows are written one by one over an older value.
abbrev pub row_after : List AppConfigVariable → String → Option String → Option String
row_after [] k old = old
row_after (v ∷ vs) k old = row_after vs k (if str_eq v.key k then some v.value else old)

-- No two rows have one key.
abbrev pub DistinctKeys : List AppConfigVariable → Type 0
DistinctKeys [] = Unit
DistinctKeys (v ∷ vs) = All (λ w. v.key ≢ w.key) vs × DistinctKeys vs

pub record ConfigDb : Type 1 where
  pub Db : Type 0
  pub DbError : Type 0
  pub name : Db → Dialect
  pub begin : Db → Result DbError Db
  -- `LOCK TABLE app_config_variables IN ACCESS EXCLUSIVE MODE`
  pub lock_table : Db → Option DbError
  -- `Find(&loaded)`
  pub find : Db → Result DbError (List AppConfigVariable)
  -- `Where("key = ?", key).Select("value").First(&value)`
  pub first_value : Db → String → Result DbError String
  -- `Clauses(OnConflict{key, DoUpdates: value}).Create(rows)`
  pub upsert : Db → List AppConfigVariable → Result DbError Db
  pub commit : Db → Result DbError Db
  -- The database that the transaction was begun on, after `Rollback` of the transaction, and after a
  -- `Commit` of it that returned an error.
  pub rollback : Db → Db → Db
  pub failed_commit : Db → Db → Db

-- The value that the table holds for a key.
pub record ConfigDbLaws (db : ConfigDb) : Type 0 where
  pub row : db.Db → String → Option String
  pub row-begin : (d t : db.Db) → db.begin d ≡ ok t → row t ≡ row d
  pub row-find :
      (d : db.Db) (rows : List AppConfigVariable) (k : String)
      → db.find d ≡ ok rows
      → row_in rows k ≡ row d k
  pub DistinctKeys-find :
      (d : db.Db) (rows : List AppConfigVariable) → db.find d ≡ ok rows → DistinctKeys rows
  pub row-first_value : (d : db.Db) (k v : String) → db.first_value d k ≡ ok v → row d k ≡ some v
  pub row-upsert :
      (d t : db.Db) (rows : List AppConfigVariable) (k : String)
      → db.upsert d rows ≡ ok t
      → row t k ≡ row_after rows k (row d k)
  pub row-commit : (t d : db.Db) → db.commit t ≡ ok d → row d ≡ row t
  pub row-rollback : (d t : db.Db) → row (db.rollback d t) ≡ row d
  -- An error of a commit does not say whether the commit took effect.
  pub row-failed_commit :
      (d t : db.Db) → (row (db.failed_commit d t) ≡ row d) ⊎ (row (db.failed_commit d t) ≡ row t)
