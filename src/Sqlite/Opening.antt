-- ===== src/Sqlite/Opening.antt =====
-- What the opening of the database can rely on (backend/internal/bootstrap/db_bootstrap.go).
use mathlib.Core.Path.{subst}
use vocy.Prelude.{
  ℕ, suc, ◌+◌, ◌≡◌, ◌≢◌, ◌≤◌, ◌⊎◌, refl, sym, ap, ◌∙◌, Bool, true, false, not, ◌||◌, Option, none,
  some, [], ◌∷◌, Result, ok, err, Result-cases, Option-cases, codes, arith, inl, inr, Bool-cases,
}
use vocy.Env.Schema.{Text, same, is_empty}
use vocy.Sqlite.Folders.{
  Variables, temp_dirs, find_writable, with_temp_dir, ensure_sqlite_temp_dir, connect_from,
  connect_with_retries, SomeWritable, find_writable-SomeWritable,
}

filled : (s : Text) → is_empty s ≡ false → s ≢ []
filled [] h e = ground arith
filled (c ∷ s) h e = ground arith

module _ {E : Type 0} (is_writable_dir : Text → Result E Bool) (setenv : Option E) (env : Variables)
    (db_path : Text) where
  env_kept :
      not (is_empty (env (codes "SQLITE_TMPDIR"))) || not (is_empty (env (codes "TMPDIR"))) ≡ true
      → ensure_sqlite_temp_dir is_writable_dir setenv env db_path ≡ (env, none)
  unfolding ensure_sqlite_temp_dir
  env_kept h = rw h

  env_named :
      not (is_empty (env (codes "SQLITE_TMPDIR"))) || not (is_empty (env (codes "TMPDIR"))) ≡ true
      → (env (codes "SQLITE_TMPDIR") ≢ []) ⊎ (env (codes "TMPDIR") ≢ [])
  env_named h = elim (Bool-cases (is_empty (env (codes "SQLITE_TMPDIR")))) [
    | inl e ↦ inr (filled (env (codes "TMPDIR")) (ground (arith, h, e)))
    | inr e ↦ inl (filled (env (codes "SQLITE_TMPDIR")) e)
  ]

  found_or_set :
      (env' : Variables)
      → not (is_empty (env (codes "SQLITE_TMPDIR"))) || not (is_empty (env (codes "TMPDIR")))
        ≡ false
      → ensure_sqlite_temp_dir is_writable_dir setenv env db_path ≡ (env', none)
      → (find_writable is_writable_dir temp_dirs ≡ ok true) ⊎ (env' ≡ with_temp_dir env db_path)
  unfolding ensure_sqlite_temp_dir
  found_or_set env' unset h = elim (Result-cases (find_writable is_writable_dir temp_dirs)) [
    | inl (true, e) ↦ inl e
    | inl (false, e) ↦ elim (Option-cases setenv) [
      | inl s ↦ inr (sym (ap (λ x. x.0) (rw (unset, e, s) at h)))
      | inr (x, s) ↦ absurd (ground (arith, rw (unset, e, s) at h))
    ]
    | inr (x, e) ↦ absurd (ground (arith, rw (unset, e) at h))
  ]

  set_name : same (codes "SQLITE_TMPDIR") (codes "SQLITE_TMPDIR") ≡ true
  unfolding same
  set_name = refl

  -- After an `ensureSqliteTempDir` without an error, SQLite finds a place for its temporary files:
  -- one of the two variables is set, or one of the three directories is writable. This supposes
  -- that the database's directory has a name.
  pub ensure_sqlite_temp_dir-SomeWritable :
      (env' : Variables)
      → db_path ≢ []
      → ensure_sqlite_temp_dir is_writable_dir setenv env db_path ≡ (env', none)
      → ((env' (codes "SQLITE_TMPDIR") ≢ []) ⊎ (env' (codes "TMPDIR") ≢ []))
        ⊎ SomeWritable is_writable_dir temp_dirs
  ensure_sqlite_temp_dir-SomeWritable env' named h =
      elim (Bool-cases
        (not (is_empty (env (codes "SQLITE_TMPDIR"))) || not (is_empty (env (codes "TMPDIR"))))) [
          | inl t ↦ inl (
              subst
                (λ (v : Variables). (v (codes "SQLITE_TMPDIR") ≢ []) ⊎ (v (codes "TMPDIR") ≢ []))
                (sym (ap (λ x. x.0) (env_kept t)) ∙ ap (λ x. x.0) h) (env_named t))
          | inr t ↦ elim (found_or_set env' t h) [
            | inl found ↦ inr (find_writable-SomeWritable is_writable_dir temp_dirs found)
            | inr new ↦ inl (
                inl (λ e.
                  named (
                    sym (ap (λ (v : Variables). v (codes "SQLITE_TMPDIR")) new ∙ rw set_name) ∙ e)))
          ]
        ]

module _ {E : Type 0} {C : Type 0} (opens : ℕ → Result E C) where
  connects :
      (left i : ℕ) (last : Option E) (db : C)
      → opens i ≡ ok db
      → connect_from (suc left) i opens last ≡ ok db
  unfolding connect_from
  connects left i last db h = rw (h, connect_from)

  fails_once :
      (left i : ℕ) (last : Option E) (e : E)
      → opens i ≡ err e
      → connect_from (suc left) i opens last ≡ connect_from left (i + 1) opens (some e)
  unfolding connect_from
  fails_once left i last e h = rw (h, connect_from)

  -- `ConnectDatabase` takes the first of three attempts that succeeds; if none does, it returns the
  -- error of the third.
  pub connect_with_retries_outcome :
      ((k : ℕ) × (db : C) × (1 ≤ k)
        × (k ≤ 3)
        × (opens k ≡ ok db)
        × (connect_with_retries opens ≡ ok db))
      ⊎ ((e : E) × (opens 3 ≡ err e) × (connect_with_retries opens ≡ err (some e)))
  unfolding connect_with_retries connect_from
  connect_with_retries_outcome = elim (Result-cases (opens 1)) [
    | inl (db, one) ↦ inl (1, db, omega arith, omega arith, one, connects 2 1 none db one)
    | inr (x, one) ↦
        let after_one = fails_once 2 1 none x one in
        elim (Result-cases (opens 2)) [
          | inl (db, two) ↦
              inl (2, db, omega arith, omega arith, two, after_one ∙ connects 1 2 (some x) db two)
          | inr (y, two) ↦
              let after_two = after_one ∙ fails_once 1 2 (some x) y two in
              elim (Result-cases (opens 3)) [
                | inl (db, three) ↦ inl (
                  3,
                  db,
                  omega arith,
                  omega arith,
                  three,
                  after_two ∙ connects 0 3 (some y) db three,
                )
                | inr (e, three) ↦ inr (e, three, after_two ∙ fails_once 0 3 (some y) e three)
              ]
        ]
  ]
