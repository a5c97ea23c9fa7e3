-- ===== src/Lock/Value.antt =====
-- The lock's value, and what the lock relies on in `encoding/json` and in the JSON functions of the
-- databases (backend/internal/service/app_lock_service.go, backend/internal/model/kv.go).
use vocy.Prelude.{ℕ, String, ◌≡◌, ◌≢◌, Option, some, str_eq, if◌then◌else◌}

-- `lockValue`. The process id and the expiry are int64 in the source; the program writes no negative
-- one.
pub record LockValue : Type 0 where
  pub process_id : ℕ
  pub host_id : String
  pub lock_id : String
  pub expires_at : ℕ

-- The zero value of the struct.
abbrev pub zero_lock : LockValue
zero_lock = record { process_id = 0; host_id = ""; lock_id = ""; expires_at = 0 }

-- An attribute that SQL takes from a JSON text: an error, NULL or a value.
pub data Column (A : Type 0) : Type 0 where
  malformed null : Column A
  value : A → Column A

-- `json.Marshal`, `json.Unmarshal` of a text that is not empty (`none` for an error), and the two
-- attributes that the statements read, `json_extract(value, '$.lock_id')` and `'$.expires_at'`.
pub record Codec : Type 0 where
  pub marshal : LockValue → Option String
  pub unmarshal : String → Option LockValue
  pub lock_id_of : String → Column String
  pub expires_at_of : String → Column ℕ
  pub unmarshal-marshal :
      (v : LockValue) (raw : String) → marshal v ≡ some raw → unmarshal raw ≡ some v
  pub lock_id_of-marshal :
      (v : LockValue) (raw : String) → marshal v ≡ some raw → lock_id_of raw ≡ value v.lock_id
  pub expires_at_of-marshal :
      (v : LockValue) (raw : String) → marshal v ≡ some raw → expires_at_of raw ≡ value v.expires_at
  pub marshal-ne-empty : (v : LockValue) → marshal v ≢ some ""

-- The table `kv`: a key has at most one row, and a row has a value.
abbrev pub Kv : Type 0
Kv = String → Option String

abbrev pub lock_key : String
lock_key = "application_lock"

-- The table with another row for the lock, or with none.
abbrev pub with_lock : Kv → Option String → Kv
with_lock t row k = if str_eq k lock_key then row else t k
