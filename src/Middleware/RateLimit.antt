-- ===== src/Middleware/RateLimit.antt =====
-- `RateLimitMiddleware` (backend/internal/middleware/rate_limit.go). The limiters are those of
-- golang.org/x/time/rate. A request's look-up of its limiter and the limiter's answer are one step.
-- A time is in nanoseconds.
pub mod Isolation
use vocy.Prelude.{
  ℕ, ◌-◌, ◌*◌, Bool, true, false, ◌||◌, Option, none, some, List, [], ◌∷◌, codes, ltb,
  if◌then◌else◌,
}
use vocy.Env.Schema.{Text, ℤ, EnvConfigSchema, same, is_empty}

-- `rate.NewLimiter` and `Limiter.Allow` at a time; `R` is `rate.Limit`.
pub record Rate (R L : Type 0) : Type 0 where
  pub new_limiter : R → ℤ → L
  pub allow : ℕ → L → Bool × L

pub record Client (L : Type 0) : Type 0 where
  pub limiter : L
  pub last_seen : ℕ

-- The map `clients`.
abbrev pub Clients : Type 0 → Type 0
Clients L = Text → Option (Client L)

abbrev pub no_clients : {L : Type 0} → Clients L
no_clients ip = none

abbrev pub with_client : {L : Type 0} → Clients L → Text → Client L → Clients L
with_client clients ip c q = if same q ip then some c else clients q

abbrev pub minute : ℕ
minute = 60_000_000_000

-- One round of `cleanupClients`, after its sleep.
abbrev pub kept : {L : Type 0} → ℕ → Option (Client L) → Option (Client L)
kept now none = none
kept now (some c) = if ltb (3 * minute) (now - c.last_seen) then none else some c

unfoldable pub cleanup_clients : {L : Type 0} → ℕ → Clients L → Clients L
cleanup_clients now clients ip = kept now (clients ip)

-- `getLimiter`: the limiter, and the map with the time at which the client was seen.
unfoldable pub get_limiter :
    {R L : Type 0} → Rate R L → Text → R → ℤ → ℕ → Clients L → L × Clients L
get_limiter rate ip limit burst now clients = elim (clients ip) [
  | some c ↦ (c.limiter, with_client clients ip (record c { last_seen = now }))
  | none ↦
      let limiter = rate.new_limiter limit burst in
      (limiter, with_client clients ip (record { limiter = limiter; last_seen = now }))
]

-- The limiter of a client is shared by reference, so what `Allow` does to it stays in the map.
abbrev pub with_limiter : {L : Type 0} → Clients L → Text → L → Clients L
with_limiter clients ip limiter q =
    if same q ip
    then elim (clients q) [ none ↦ none | some c ↦ some (record c { limiter = limiter }) ]
    else clients q

pub data Verdict : Type 0 where
  next too_many_requests : Verdict

unfoldable pub is_exempt : EnvConfigSchema → Text → Bool
is_exempt config ip =
    is_empty ip
    || same ip (codes "127.0.0.1")
    || same ip (codes "::1")
    || same config.app_env (codes "test")

-- The handler that `Add` returns.
unfoldable pub handle :
    {R L : Type 0} → Rate R L → EnvConfigSchema → R → ℤ → Text → ℕ → Clients L → Clients L × Verdict
unfolding get_limiter is_exempt
handle rate config limit burst ip now clients =
    if config.disable_rate_limiting
    then (clients, next)
    else if is_exempt config ip
    then (clients, next)
    else (let (limiter, seen) = get_limiter rate ip limit burst now clients in
        let (allowed, used) = rate.allow now limiter in
        (with_limiter seen ip used, if allowed then next else too_many_requests))

-- What happens to the map: requests and the rounds of the clean-up.
pub data Event : Type 0 where
  request : Text → ℕ → Event
  clean_up : ℕ → Event

-- The verdicts on the requests, each with its address.
unfoldable pub run :
    {R L : Type 0}
    → Rate R L
    → EnvConfigSchema
    → R
    → ℤ
    → List Event
    → Clients L
    → List (Text × Verdict)
unfolding handle cleanup_clients
run rate config limit burst [] clients = []
run rate config limit burst (request ip now ∷ events) clients =
    let (after, verdict) = handle rate config limit burst ip now clients in
    (ip, verdict) ∷ run rate config limit burst events after
run rate config limit burst (clean_up now ∷ events) clients =
    run rate config limit burst events (cleanup_clients now clients)
