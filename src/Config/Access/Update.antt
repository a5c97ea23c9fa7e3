-- ===== src/Config/Access/Update.antt =====
-- `UpdateField` and `FieldByKey` together: what an update changes, and when it is refused.
use vocy.Prelude.{
  String, ◌≡◌, ◌≢◌, ◌↔◌, ◌⊎◌, refl, sym, ◌∙◌, ap, Bool, true, ◌&&◌, Option, none, some, str_eq,
  eq_iff, arith, inl, inr, Bool-cases, if◌then◌else◌,
}
use vocy.Config.Field.{Field, instance_id, Field-discrete, key_of, attrs_of}
use vocy.Config.Values.{AppConfig, set_value}
use vocy.Config.Access.{key_not_found, internal_forbidden, field_by_key, update_field}
use vocy.Config.Access.Lookup.{
  find_field, find_field-key_of, find_field_sound, update_found, update_field-found, found_value,
  field_by_key-found, set_value_self, set_value_ne, find_field-eq, internal-eq,
  attrs_of-instance_id,
}

found_value-set_value :
    (c : AppConfig) (f : Field) (v j : String) (o : Option Field)
    → find_field j ≡ o
    → found_value o (set_value c f v) j ≡ (
        if str_eq (key_of f) j
        then (v, str_eq (attrs_of f) "internal", none)
        else found_value o c j)
found_value-set_value c f v j none h = elim (Bool-cases (str_eq (key_of f) j)) [
  | inl e ↦ cc (find_field-eq f j e)
  | inr e ↦ rw e
]
found_value-set_value c f v j (some g) h = elim (Field-discrete f g) [
  | yes p ↦
      rw (← p)
        (rw (set_value_self, (eq_iff (key_of f) j).1 (ap key_of p ∙ find_field_sound j g h)) refl)
  | no n ↦ elim (Bool-cases (str_eq (key_of f) j)) [
    | inl e ↦ absurd (n (cc (find_field-eq f j e)))
    | inr e ↦ rw (e, set_value_ne c f g v n)
  ]
]

module _ (c : AppConfig) (k j v : String) (no_internal : Bool) where
  lookup_after :
      (o : Option Field)
      → find_field k ≡ o
      → (update_found o c k v no_internal).1 ≡ none
      → field_by_key (update_found o c k v no_internal).0 j
        ≡ (if str_eq k j then (v, (found_value o c k).1, none) else field_by_key c j)
  lookup_after none e h = cc
  lookup_after (some f) e h = elim (Bool-cases (no_internal && str_eq (attrs_of f) "internal")) [
    | inl t ↦ cc (rw t at h)
    | inr t ↦ rw (
      t,
      field_by_key-found,
      found_value-set_value c f v j _ refl,
      find_field_sound k f e,
      field_by_key-found,
    )
  ]

  -- After an update that is not refused, `FieldByKey` gives the new value for its key and, for any
  -- other key, known or not, what it gave before.
  pub field_by_key-update_field :
      (update_field c k v no_internal).1 ≡ none
      → field_by_key (update_field c k v no_internal).0 j
        ≡ (if str_eq k j then (v, (field_by_key c k).1, none) else field_by_key c j)
  field_by_key-update_field h =
      rw (update_field-found, field_by_key-found c k)
        (lookup_after (find_field k) refl (rw update_field-found at h))

module _ (c : AppConfig) (k v : String) (no_internal : Bool) where
  not_found_when :
      (o : Option Field)
      → find_field k ≡ o
      → ((update_found o c k v no_internal).1 ≡ some (key_not_found k))
        ↔ ((f : Field) → key_of f ≢ k)
  not_found_when none e = (λ _ f p. cc (find_field-eq f k ((eq_iff (key_of f) k).1 p)), λ _. refl)
  not_found_when (some f) e = (λ h. ground arith, λ h. absurd (h f (find_field_sound k f e)))

  guarded :
      (f : Field)
      → (update_found (some f) c k v no_internal).1 ≡ some (internal_forbidden k)
      → (no_internal ≡ true) × (str_eq (attrs_of f) "internal" ≡ true)
  guarded f h = ground arith

  forbidden_when :
      (o : Option Field)
      → find_field k ≡ o
      → ((update_found o c k v no_internal).1 ≡ some (internal_forbidden k))
        ↔ ((no_internal ≡ true) × (k ≡ key_of instance_id))
  forbidden_when none e = (λ h. cc, λ h. cc (find_field-key_of instance_id, h.1))
  forbidden_when (some f) e = (
    λ h.
        let both = guarded f h in
        (both.0, sym (find_field_sound k f e) ∙ ap key_of (internal-eq f both.1)),
    λ h.
        let same : f ≡ instance_id = cc (h.1, find_field-key_of instance_id) in
        rw (h.0, same, attrs_of-instance_id) refl,
  )

  error_keeps :
      (o : Option Field)
      → ((update_found o c k v no_internal).1 ≡ none) ⊎ ((update_found o c k v no_internal).0 ≡ c)
  error_keeps none = inr refl
  error_keeps (some f) = elim (Bool-cases (no_internal && str_eq (attrs_of f) "internal")) [
    | inl t ↦ inr (rw t)
    | inr t ↦ inl (rw t)
  ]

  -- `UpdateField` fails with `key_not_found` exactly if no field has the key, with
  -- `internal_forbidden` exactly if internal fields are locked and the key is the instance id's,
  -- and a call that fails leaves the configuration as it was.
  pub update_field_outcome :
      let r = update_field c k v no_internal in
      ((r.1 ≡ some (key_not_found k)) ↔ ((f : Field) → key_of f ≢ k))
      × ((r.1 ≡ some (internal_forbidden k)) ↔ ((no_internal ≡ true) × (k ≡ key_of instance_id)))
      × ((r.1 ≡ none) ⊎ (r.0 ≡ c))
  update_field_outcome = rw update_field-found (
    not_found_when (find_field k) refl,
    forbidden_when (find_field k) refl,
    error_keeps (find_field k),
  )
