-- ===== src/Lock/Tests/Text.antt =====
-- A small encoding of the lock's value: it meets what the lock relies on.
use Prim.Native.Char.{code}
use vocy.Prelude.{
  ℕ, String, zero, suc, ◌≡◌, ◌≢◌, refl, ap, ◌∙◌, sym, ◌&&◌, Option, none, some, ◌==◌, str_eq,
  eq_iff, arith, if◌then◌else◌,
}
use vocy.Lock.Value.{LockValue, Codec, Column, malformed, value}

abbrev pub encode : ℕ → String → String
encode zero id = String.◌∷◌ "." id
encode (suc n) id = String.◌∷◌ "|" (encode n id)

abbrev decode : String → Option (ℕ × String)
decode String.[] = none
decode (String.◌∷◌ c s) =
    let rest = decode s in
    if code c == 46
    then some (0, s)
    else elim rest [ none ↦ none | some (n, id) ↦ some (suc n, id) ]

decode-encode : (n : ℕ) (id : String) → decode (encode n id) ≡ some (n, id)
decode-encode zero id = refl
decode-encode (suc n) id = rw (decode-encode n id) refl

pub encode-ne-empty : (n : ℕ) (id : String) → encode n id ≢ ""
encode-ne-empty zero id e = cc
encode-ne-empty (suc n) id e = cc

abbrev marshal : LockValue → Option String
marshal v =
    if v.process_id == 1 && str_eq v.host_id "host"
    then some (encode v.expires_at v.lock_id)
    else none

abbrev lock_of : Option (ℕ × String) → Option LockValue
lock_of none = none
lock_of (some (n, id)) =
    some (record { process_id = 1; host_id = "host"; lock_id = id; expires_at = n })

abbrev id_column : Option (ℕ × String) → Column String
id_column none = malformed
id_column (some (n, id)) = value id

abbrev expiry_column : Option (ℕ × String) → Column ℕ
expiry_column none = malformed
expiry_column (some (n, id)) = value n

pub marshal-text :
    (v : LockValue) (raw : String)
    → marshal v ≡ some raw
    → (v.process_id ≡ 1) × (v.host_id ≡ "host") × (encode v.expires_at v.lock_id ≡ raw)
marshal-text v raw h = ground (arith, eq_iff v.host_id "host")

pub decode-marshal :
    (v : LockValue) (raw : String)
    → marshal v ≡ some raw
    → decode raw ≡ some (v.expires_at, v.lock_id)
decode-marshal v raw h =
    ap decode (sym (marshal-text v raw h).2) ∙ decode-encode v.expires_at v.lock_id

pub lock_of-marshal :
    (v : LockValue) (raw : String) → marshal v ≡ some raw → lock_of (decode raw) ≡ some v
lock_of-marshal v raw h =
    let (pid, host, same) = marshal-text v raw h in rw (decode-marshal v raw h) (cc (pid, host))

unfoldable pub text_codec : Codec
text_codec = record {
  marshal = marshal;
  unmarshal = λ raw. lock_of (decode raw);
  lock_id_of = λ raw. id_column (decode raw);
  expires_at_of = λ raw. expiry_column (decode raw);
  unmarshal-marshal = λ v raw h. lock_of-marshal v raw h;
  lock_id_of-marshal = λ v raw h. ap id_column (decode-marshal v raw h);
  expires_at_of-marshal = λ v raw h. ap expiry_column (decode-marshal v raw h);
  marshal-ne-empty = λ v h. encode-ne-empty v.expires_at v.lock_id (marshal-text v "" h).2;
}
