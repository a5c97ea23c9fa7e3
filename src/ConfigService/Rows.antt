-- ===== src/ConfigService/Rows.antt =====
-- What a configuration holds after rows are loaded into it
-- (`loadDbConfigInternal` in backend/internal/service/app_config_service.go).
use mathlib.Core.Path.{subst}
use vocy.Prelude.{
  String, ◌≡◌, ◌≢◌, ◌⊎◌, refl, sym, ◌∙◌, ap, fun_ext, false, Option, none, some, List, [], ◌∷◌, ok,
  wrap, >>=-eq-ok, wrap-eq-ok, ok-injective, All, str_eq, eq_iff, arith, inl, inr, Bool-cases,
  if◌then◌else◌,
}
use vocy.Config.Field.{Field, Field-discrete, key_of}
use vocy.Config.Values.{AppConfig, AppConfigVariable, default_config, set_value}
use vocy.Config.Access.{key_not_found, update_field}
use vocy.Config.Access.Lookup.{
  find_field, find_field-key_of, find_field_sound, find_field-eq, update_found, update_field-found,
  set_value_self, set_value_ne,
}
use vocy.ConfigService.Database.{ConfigDb, ConfigDbLaws, row_in, row_after, DistinctKeys}
use vocy.ConfigService.State.{Environment, load_failed}
use vocy.ConfigService.Loading.{load_rows, load_db_config_internal}

-- A variable after a row of its key, if there is one.
abbrev pub written : AppConfigVariable → Option String → AppConfigVariable
written x none = x
written x (some v) = record { key = x.key; value = v }

abbrev pub or_old : Option String → Option String → Option String
or_old none old = old
or_old (some v) old = some v

pub set_value-written :
    (c : AppConfig) (f g : Field) (v : String)
    → set_value c f v g ≡ written (c g) (if str_eq (key_of f) (key_of g) then some v else none)
set_value-written c f g v = elim (Field-discrete f g) [
  | yes p ↦ rw (← p, set_value_self, (eq_iff (key_of f) (key_of f)).1 refl)
  | no n ↦ elim (Bool-cases (str_eq (key_of f) (key_of g))) [
    | inl e ↦ absurd (n (cc (find_field-eq f (key_of g) e, find_field-key_of g)))
    | inr e ↦ rw (e, set_value_ne c f g v n)
  ]
]

update_found-written :
    (c : AppConfig) (k v : String) (g : Field) (o : Option Field)
    → find_field k ≡ o
    → (update_found o c k v false).0 g
      ≡ written (c g) (if str_eq k (key_of g) then some v else none)
update_found-written c k v g none e = elim (Bool-cases (str_eq k (key_of g))) [
  | inl t ↦ cc (ap find_field ((eq_iff k (key_of g)).0 t), find_field-key_of g)
  | inr t ↦ rw t
]
update_found-written c k v g (some f) e = rw (← find_field_sound k f e) (set_value-written c f g v)

-- An update that may touch internal fields writes the field of its key, and no other.
pub update_field-written :
    (c : AppConfig) (k v : String) (g : Field)
    → (update_field c k v false).0 g ≡ written (c g) (if str_eq k (key_of g) then some v else none)
update_field-written c k v g =
    rw update_field-found (update_found-written c k v g (find_field k) refl)

pub update_field-error :
    (c : AppConfig) (k v : String)
    → ((update_field c k v false).1 ≡ none)
      ⊎ ((update_field c k v false).1 ≡ some (key_not_found k))
update_field-error c k v = rw update_field-found (go (find_field k))
  where
    go :
        (o : Option Field)
        → ((update_found o c k v false).1 ≡ none)
          ⊎ ((update_found o c k v false).1 ≡ some (key_not_found k))
    go none = inr refl
    go (some f) = inl refl

pub row_after-or_old :
    (vs : List AppConfigVariable) (k : String) (old : Option String)
    → row_after vs k old ≡ or_old (row_after vs k none) old
row_after-or_old [] k old = refl
row_after-or_old (v ∷ vs) k old = ground (
  arith,
  row_after-or_old vs k (if str_eq v.key k then some v.value else old),
  row_after-or_old vs k (if str_eq v.key k then some v.value else none),
)

pub written-written :
    (x : AppConfigVariable) (o p : Option String) → written (written x o) p ≡ written x (or_old p o)
written-written x none none = refl
written-written x (some v) none = refl
written-written x none (some w) = refl
written-written x (some v) (some w) = refl

row_in-none :
    (vs : List AppConfigVariable) (k : String) → All (λ w. k ≢ w.key) vs → row_in vs k ≡ none
row_in-none [] k h = refl
row_in-none (v ∷ vs) k (new, h) = elim (Bool-cases (str_eq v.key k)) [
  | inl e ↦ absurd (new (sym ((eq_iff v.key k).0 e)))
  | inr e ↦ rw e (row_in-none vs k h)
]

-- Rows of distinct keys, written in any order, leave what a look-up finds among them.
pub row_after-row_in :
    (vs : List AppConfigVariable) (k : String) → DistinctKeys vs → row_after vs k none ≡ row_in vs k
row_after-row_in [] k h = refl
row_after-row_in (v ∷ vs) k (new, h) = elim (Bool-cases (str_eq v.key k)) [
  | inl e ↦ rw (
    e,
    row_after-or_old,
    row_after-row_in vs k h,
    row_in-none vs k (subst (λ j. All (λ w. j ≢ w.key) vs) ((eq_iff v.key k).0 e) new),
  )
  | inr e ↦ rw e (row_after-row_in vs k h)
]

module _ (db : ConfigDb) where
  load_rows-step :
      (v : AppConfigVariable) (vs : List AppConfigVariable) (dest : AppConfig)
      → load_rows db (v ∷ vs) dest ≡ load_rows db vs (update_field dest v.key v.value false).0
  unfolding load_rows
  load_rows-step v vs dest = elim (update_field-error dest v.key v.value) [
    | inl e ↦ rw e
    | inr e ↦ rw e
  ]

  -- The loop never fails, and leaves in each field the last row of its key.
  pub load_rows-written :
      (rows : List AppConfigVariable) (dest : AppConfig)
      → load_rows db rows dest ≡ ok (λ f. written (dest f) (row_after rows (key_of f) none))
  unfolding load_rows
  load_rows-written [] dest = refl
  load_rows-written (v ∷ vs) dest =
      load_rows-step v vs dest
      ∙ load_rows-written vs (update_field dest v.key v.value false).0
      ∙ ap ok (
          fun_ext λ f.
            rw (update_field-written, written-written)
              (ap (written (dest f)) (sym (row_after-or_old vs (key_of f) _))))

  module _ (laws : ConfigDbLaws db) where
    open laws use {row, row-find, DistinctKeys-find}

    -- A configuration loaded from the database has in each field the value of its row, or else the
    -- default.
    pub load-row :
        (env : Environment) (t : db.Db) (c : AppConfig) (f : Field)
        → env.ui_config_disabled ≡ false
        → load_db_config_internal db env t ≡ ok c
        → c f ≡ written (default_config f) (row t (key_of f))
    unfolding load_db_config_internal
    load-row env t c f ui h =
        let (loaded, found, filled) =
          >>=-eq-ok (wrap load_failed (db.find t)) (λ l. load_rows db l default_config)
            (rw ui at h) in
        let found' = wrap-eq-ok load_failed (db.find t) found in
        let c_eq = ok-injective (sym filled ∙ load_rows-written loaded default_config) in
        ap (λ (g : AppConfig). g f) c_eq
        ∙ ap (written (default_config f)) (
            row_after-row_in loaded (key_of f) (DistinctKeys-find t loaded found')
            ∙ row-find t loaded (key_of f) found')
