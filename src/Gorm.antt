-- ===== src/Gorm.antt =====
-- What both services ask of gorm (`gorm.io/gorm`): the dialect, `db.Name()`.
use vocy.Prelude.{String}

pub data Dialect : Type 0 where
  sqlite postgres : Dialect
  other : String → Dialect
