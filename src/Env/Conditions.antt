-- ===== src/Env/Conditions.antt =====
-- The conditions on a configuration (backend/internal/common/env_config.go), stated without the code.
use vocy.Prelude.{
  ℕ, zero, suc, ◌≡◌, ◌≤◌, ◌↔◌, ◌⊎◌, refl, ap, ◌∙◌, true, false, not, ◌&&◌, ◌||◌, none, some, List,
  [], ◌∷◌, length, ltb, All, Bool-cases, Option-cases, codes, inl, inr, arith, if◌then◌else◌,
}
use vocy.Env.Schema.{Text, ℤ, pos, negsuc, EnvConfigSchema, same, is_empty, trim_space, split_at}
use vocy.Sqlite.Values.{same_eq}
use vocy.Env.Validate.{
  EnvError, Parsers, range_error, is_positive, is_remote, is_local, check_url,
  invalid_internal_app_url, internal_app_url_has_path,
}
use vocy.Env.Valid.{Passes}

-- A URL that is parsed and has no path.
abbrev pub IsBareUrl : Parsers → Text → Type 0
IsBareUrl parsers url = parsers.url_path url ≡ some []

-- A configuration that the program accepts: the log level is known; the encryption key has at least 16
-- bytes; the application's URL has no path, and neither has the internal one if there is one; the file
-- backend is one of four; each of the ranges between commas is blank or an IPv6 range; the retention is
-- positive; and the API key, if there is one, has at least 16 bytes.
pub record IsValid (parsers : Parsers) (c : EnvConfigSchema) : Type 0 where
  pub level : parsers.is_level c.log_level ≡ true
  pub key : 16 ≤ length c.encryption_key
  pub app : IsBareUrl parsers c.app_url
  pub internal : (c.internal_app_url ≡ []) ⊎ IsBareUrl parsers c.internal_app_url
  pub backend :
      ((c.file_backend ≡ codes "s3") ⊎ (c.file_backend ≡ codes "database"))
      ⊎ ((c.file_backend ≡ []) ⊎ (c.file_backend ≡ codes "filesystem"))
  pub ranges :
      All
        (λ r. (trim_space r ≡ []) ⊎ (parsers.cidr_is_ipv4 (trim_space r) ≡ some false))
        (split_at b',' c.local_ipv6_ranges)
  pub retention : (n : ℕ) × (c.audit_log_retention_days ≡ pos (suc n))
  pub static_key : (c.static_api_key ≡ []) ⊎ (16 ≤ length c.static_api_key)

pub is_empty-eq : (s : Text) → is_empty s ≡ true → s ≡ []
is_empty-eq [] h = refl
is_empty-eq (c ∷ s) h = absurd (ground arith)

check_url-IsBareUrl :
    (parsers : Parsers) (url : Text) (invalid has_path : EnvError)
    → check_url parsers url invalid has_path ≡ none
    → IsBareUrl parsers url
unfolding check_url
check_url-IsBareUrl parsers url invalid has_path h = elim (Option-cases (parsers.url_path url)) [
  | inl failed ↦ absurd (ground (arith, rw (check_url, failed) at h))
  | inr (path, parsed) ↦ elim (Bool-cases (is_empty path)) [
    | inl bare ↦ parsed ∙ ap some (is_empty-eq path bare)
    | inr longer ↦ absurd (ground (arith, rw (check_url, parsed, longer) at h))
  ]
]

IsBareUrl-check_url :
    (parsers : Parsers) (url : Text) (invalid has_path : EnvError)
    → IsBareUrl parsers url
    → check_url parsers url invalid has_path ≡ none
unfolding check_url
IsBareUrl-check_url parsers url invalid has_path h = rw (check_url, h)

internal-IsBareUrl :
    (parsers : Parsers) (url : Text)
    → (if is_empty url
        then none
        else check_url parsers url invalid_internal_app_url internal_app_url_has_path)
      ≡ none
    → (url ≡ []) ⊎ IsBareUrl parsers url
internal-IsBareUrl parsers [] h = inl refl
internal-IsBareUrl parsers (c ∷ url) h = inr (check_url-IsBareUrl parsers (c ∷ url) _ _ h)

IsBareUrl-internal :
    (parsers : Parsers) (url : Text)
    → (url ≡ []) ⊎ IsBareUrl parsers url
    → (if is_empty url
        then none
        else check_url parsers url invalid_internal_app_url internal_app_url_has_path)
      ≡ none
IsBareUrl-internal parsers [] h = refl
IsBareUrl-internal parsers (c ∷ url) (inl e) = absurd (ground (arith, e))
IsBareUrl-internal parsers (c ∷ url) (inr bare) = IsBareUrl-check_url parsers (c ∷ url) _ _ bare

either_same : (s a b : Text) → same s a || same s b ≡ true → (s ≡ a) ⊎ (s ≡ b)
either_same s a b h = elim (Bool-cases (same s a)) [
  | inl first ↦ inl (same_eq s a first)
  | inr other ↦ inr (same_eq s b (rw other at h))
]

known_backend :
    (b : Text)
    → is_remote b || is_local b ≡ true
    → ((b ≡ codes "s3") ⊎ (b ≡ codes "database")) ⊎ ((b ≡ []) ⊎ (b ≡ codes "filesystem"))
known_backend b h = elim (Bool-cases (is_remote b)) [
  | inl remote ↦ inl (either_same b (codes "s3") (codes "database") remote)
  | inr other ↦
      let local : is_local b ≡ true = rw other at h in
      elim (Bool-cases (is_empty b)) [
        | inl empty ↦ inr (inl (is_empty-eq b empty))
        | inr filled ↦ inr (inr (same_eq b (codes "filesystem") (rw filled at local)))
      ]
]

backend_known :
    (b : Text)
    → ((b ≡ codes "s3") ⊎ (b ≡ codes "database")) ⊎ ((b ≡ []) ⊎ (b ≡ codes "filesystem"))
    → is_remote b || is_local b ≡ true
unfolding same
backend_known b (inl (inl e)) = rw e
backend_known b (inl (inr e)) = rw e
backend_known b (inr (inl e)) = rw e
backend_known b (inr (inr e)) = rw e

abbrev IsRange : Parsers → Text → Type 0
IsRange parsers r = (trim_space r ≡ []) ⊎ (parsers.cidr_is_ipv4 (trim_space r) ≡ some false)

range_error-All :
    (parsers : Parsers) (ranges : List Text)
    → range_error parsers ranges ≡ none
    → All (IsRange parsers) ranges
unfolding range_error
range_error-All parsers [] h = tt
range_error-All parsers (r ∷ ranges) h = elim (Bool-cases (is_empty (trim_space r))) [
  | inl blank ↦ (
    inl (is_empty-eq (trim_space r) blank),
    range_error-All parsers ranges (rw (range_error, blank) at h),
  )
  | inr filled ↦ elim (Option-cases (parsers.cidr_is_ipv4 (trim_space r))) [
    | inl failed ↦ absurd (ground (arith, rw (range_error, filled, failed) at h))
    | inr (is_ipv4, parsed) ↦ elim (Bool-cases is_ipv4) [
      | inl four ↦ absurd (ground (arith, rw (range_error, filled, parsed, four) at h))
      | inr six ↦ (
        inr (parsed ∙ ap some six),
        range_error-All parsers ranges (rw (range_error, filled, parsed, six) at h),
      )
    ]
  ]
]

All-range_error :
    (parsers : Parsers) (ranges : List Text)
    → All (IsRange parsers) ranges
    → range_error parsers ranges ≡ none
unfolding range_error
All-range_error parsers [] h = refl
All-range_error parsers (r ∷ ranges) (inl blank, hs) =
    rw (range_error, blank) (All-range_error parsers ranges hs)
All-range_error parsers (r ∷ ranges) (inr six, hs) = elim (Bool-cases (is_empty (trim_space r))) [
  | inl blank ↦ rw (range_error, blank) (All-range_error parsers ranges hs)
  | inr filled ↦ rw (range_error, filled, six) (All-range_error parsers ranges hs)
]

positive : (z : ℤ) → is_positive z ≡ true → (n : ℕ) × (z ≡ pos (suc n))
positive (pos zero) h = absurd (ground arith)
positive (pos (suc n)) h = (n, refl)
positive (negsuc n) h = absurd (ground arith)

long_key : (s : Text) → not (is_empty s) && ltb (length s) 16 ≡ false → (s ≡ []) ⊎ (16 ≤ length s)
long_key [] h = inl refl
long_key (c ∷ s) h = inr (ground (arith, h))

key_long : (s : Text) → (s ≡ []) ⊎ (16 ≤ length s) → not (is_empty s) && ltb (length s) 16 ≡ false
key_long [] h = refl
key_long (c ∷ s) (inl e) = absurd (ground (arith, e))
key_long (c ∷ s) (inr long) = ground (arith, long)

pub Passes-IsValid :
    (parsers : Parsers) (c : EnvConfigSchema) → Passes parsers c ↔ IsValid parsers c
Passes-IsValid parsers c = (
  λ p. record {
    level = p.level;
    key = ground (arith, p.key);
    app = check_url-IsBareUrl parsers c.app_url _ _ p.app;
    internal = internal-IsBareUrl parsers c.internal_app_url p.internal;
    backend = known_backend c.file_backend p.backend;
    ranges = range_error-All parsers (split_at b',' c.local_ipv6_ranges) p.ranges;
    retention = positive c.audit_log_retention_days p.retention;
    static_key = long_key c.static_api_key p.static_key;
  },
  λ v. record {
    level = v.level;
    key = ground (arith, v.key);
    app = IsBareUrl-check_url parsers c.app_url _ _ v.app;
    internal = IsBareUrl-internal parsers c.internal_app_url v.internal;
    backend = backend_known c.file_backend v.backend;
    ranges = All-range_error parsers (split_at b',' c.local_ipv6_ranges) v.ranges;
    retention = ap is_positive v.retention.1;
    static_key = key_long c.static_api_key v.static_key;
  },
)
