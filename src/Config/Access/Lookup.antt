-- ===== src/Config/Access/Lookup.antt =====
-- `FieldByKey` and `UpdateField` against the field that a key names.
use mathlib.Core.Path.{subst}
use vocy.Prelude.{
  String, true, ◌≡◌, ap, ◌≢◌, refl, Bool, false, ◌&&◌, Option, none, some, List, [], ◌∷◌, str_eq,
  eq_iff, if_pos, if_neg, arith, inl, inr, Bool-cases, if◌then◌else◌,
}
use vocy.Config.Field.{Field, Field-discrete, app_name, instance_id, fields, key_of, attrs_of}
use vocy.Config.Values.{AppConfig, set_value}
use vocy.Config.Access.{
  ConfigError, key_not_found, internal_forbidden, is_internal, field_by_key, field_by_key_from,
  update_field, update_field_from,
}

find_field_in : List Field → String → Option Field
find_field_in [] key = none
find_field_in (f ∷ fs) key =
    let rest = find_field_in fs key in if str_eq (key_of f) key then some f else rest

-- The field that a key names.
pub find_field : String → Option Field
unfolding find_field_in
find_field = find_field_in fields

-- Every field is found by its own key: no two fields share a key.
pub find_field-key_of : (f : Field) → find_field (key_of f) ≡ some f
unfolding find_field fields key_of
find_field-key_of app_name = refl
find_field-key_of _ = refl

find_field_in_sound :
    (fs : List Field) (key : String) (f : Field) → find_field_in fs key ≡ some f → key_of f ≡ key
unfolding find_field_in
find_field_in_sound [] key f h = cc
find_field_in_sound (g ∷ fs) key f h =
    ground (arith, eq_iff (key_of g) key, find_field_in_sound fs key f)

pub find_field_sound : (key : String) (f : Field) → find_field key ≡ some f → key_of f ≡ key
unfolding find_field
find_field_sound = find_field_in_sound fields

-- The two readings of a tag agree on which field is internal.
pub is_internal-attrs_of : (f : Field) → is_internal f ≡ str_eq (attrs_of f) "internal"
unfolding is_internal attrs_of
is_internal-attrs_of app_name = refl
is_internal-attrs_of _ = refl

-- What `UpdateField` does with the field that the key names.
abbrev pub update_found :
    Option Field → AppConfig → String → String → Bool → AppConfig × Option ConfigError
update_found none c key value no_internal = (c, some (key_not_found key))
update_found (some f) c key value no_internal =
    if no_internal && str_eq (attrs_of f) "internal"
    then (c, some (internal_forbidden key))
    else (set_value c f value, none)

update_field_from-found :
    (fs : List Field) (c : AppConfig) (key value : String) (no_internal : Bool)
    → update_field_from fs c key value no_internal
      ≡ update_found (find_field_in fs key) c key value no_internal
unfolding update_field_from find_field_in
update_field_from-found [] c key value no_internal = refl
update_field_from-found (f ∷ fs) c key value no_internal =
    elim (Bool-cases (str_eq (key_of f) key)) [
      | inl e ↦ rw e
      | inr e ↦ rw e (update_field_from-found fs c key value no_internal)
    ]

pub update_field-found :
    (c : AppConfig) (key value : String) (no_internal : Bool)
    → update_field c key value no_internal ≡ update_found (find_field key) c key value no_internal
unfolding update_field find_field
update_field-found = update_field_from-found fields

-- What `FieldByKey` returns of the field that the key names.
abbrev pub found_value : Option Field → AppConfig → String → String × Bool × Option ConfigError
found_value none c key = ("", false, some (key_not_found key))
found_value (some f) c key = ((c f).value, str_eq (attrs_of f) "internal", none)

field_by_key_from-found :
    (fs : List Field) (c : AppConfig) (key : String)
    → field_by_key_from fs c key ≡ found_value (find_field_in fs key) c key
unfolding field_by_key_from find_field_in
field_by_key_from-found [] c key = refl
field_by_key_from-found (f ∷ fs) c key = elim (Bool-cases (str_eq (key_of f) key)) [
  | inl e ↦ rw (e, is_internal-attrs_of)
  | inr e ↦ rw e (field_by_key_from-found fs c key)
]

pub field_by_key-found :
    (c : AppConfig) (key : String) → field_by_key c key ≡ found_value (find_field key) c key
unfolding field_by_key find_field
field_by_key-found = field_by_key_from-found fields

pub find_field-eq : (f : Field) (j : String) → str_eq (key_of f) j ≡ true → find_field j ≡ some f
find_field-eq f j e =
    subst (λ k. find_field k ≡ some f) ((eq_iff (key_of f) j).0 e) (find_field-key_of f)

pub set_value_self :
    (c : AppConfig) (f : Field) (v : String)
    → set_value c f v f ≡ record { key = (c f).key; value = v }
unfolding set_value
set_value_self c f v =
    if_pos (Field-discrete f f) refl (record { key = (c f).key; value = v }) (c f)

pub set_value_ne : (c : AppConfig) (f g : Field) (v : String) → f ≢ g → set_value c f v g ≡ c g
unfolding set_value
set_value_ne c f g v h = if_neg (Field-discrete f g) h (record { key = (c g).key; value = v }) (c g)

-- The instance id is the only internal field.
pub internal-eq : (f : Field) → str_eq (attrs_of f) "internal" ≡ true → f ≡ instance_id
unfolding attrs_of
internal-eq instance_id h = refl
internal-eq _ h = cc

pub attrs_of-instance_id : str_eq (attrs_of instance_id) "internal" ≡ true
unfolding attrs_of
attrs_of-instance_id = refl

pub key_of-injective : (f g : Field) → key_of f ≡ key_of g → f ≡ g
key_of-injective f g e = cc (ap find_field e, find_field-key_of f, find_field-key_of g)
