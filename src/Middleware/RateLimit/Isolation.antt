-- ===== src/Middleware/RateLimit/Isolation.antt =====
-- Each address has a limiter of its own (backend/internal/middleware/rate_limit.go).
use vocy.Prelude.{
  ℕ, ◌-◌, ◌*◌, ◌≤◌, ◌≡◌, ◌⊎◌, refl, false, Option, none, some, List, [], ◌∷◌, arith, inl, inr,
  Bool-cases, Option-cases, if◌then◌else◌,
}
use vocy.Env.Schema.{Text, ℤ, EnvConfigSchema, same}
use vocy.Sqlite.Values.{same_refl, same_eq}
use vocy.Middleware.RateLimit.{
  Rate, Client, Clients, with_limiter, minute, kept, cleanup_clients, get_limiter, Verdict, next,
  too_many_requests, is_exempt, handle, Event, request, clean_up, run,
}

-- The verdicts on the requests of one address, in their order.
unfoldable pub verdicts_of : Text → List (Text × Verdict) → List Verdict
verdicts_of ip [] = []
verdicts_of ip ((q, v) ∷ rest) =
    let others = verdicts_of ip rest in if same q ip then v ∷ others else others

-- The times of the requests of one address.
unfoldable pub times_of : Text → List Event → List ℕ
times_of ip [] = []
times_of ip (request q now ∷ events) =
    let others = times_of ip events in if same q ip then now ∷ others else others
times_of ip (clean_up now ∷ events) = times_of ip events

-- What one limiter says to requests at these times.
unfoldable pub decide : {R L : Type 0} → Rate R L → List ℕ → L → List Verdict
decide rate [] limiter = []
decide rate (now ∷ times) limiter =
    let (allowed, used) = rate.allow now limiter in
    (if allowed then next else too_many_requests) ∷ decide rate times used

-- No clean-up comes more than three minutes after the last request of the address.
abbrev pub IsRecent : Option ℕ → ℕ → Type 0
IsRecent none now = Unit
IsRecent (some seen) now = now - seen ≤ 3 * minute

abbrev pub StaysRecent : Text → Option ℕ → List Event → Type 0
StaysRecent ip seen [] = Unit
StaysRecent ip seen (request q now ∷ events) =
    StaysRecent ip (if same q ip then some now else seen) events
StaysRecent ip seen (clean_up now ∷ events) = IsRecent seen now × StaysRecent ip seen events

abbrev seen_at : {L : Type 0} → Option (Client L) → Option ℕ
seen_at none = none
seen_at (some c) = some c.last_seen

same_ne : (s t : Text) → same s t ≡ false → same t s ≡ false
same_ne s t h = elim (Bool-cases (same t s)) [
  | inl e ↦ absurd (ground (arith, h, rw (same_eq t s e) at h, same_refl s))
  | inr e ↦ e
]

kept_recent :
    {L : Type 0} (now : ℕ) (o : Option (Client L)) → IsRecent (seen_at o) now → kept now o ≡ o
kept_recent now none h = refl
kept_recent now (some c) h = ground (arith, h)

module _ {R L : Type 0} (rate : Rate R L) (config : EnvConfigSchema) (limit : R) (burst : ℤ) where
  abbrev limiter_of : Option (Client L) → L
  limiter_of none = rate.new_limiter limit burst
  limiter_of (some c) = c.limiter

  get_limiter_other :
      (ip q : Text) (now : ℕ) (clients : Clients L)
      → same q ip ≡ false
      → (get_limiter rate ip limit burst now clients).1 q ≡ clients q
  unfolding get_limiter
  get_limiter_other ip q now clients other = elim (Option-cases (clients ip)) [
    | inl e ↦ rw (get_limiter, e, other)
    | inr (c, e) ↦ rw (get_limiter, e, other)
  ]

  get_limiter_own :
      (ip : Text) (now : ℕ) (clients : Clients L)
      → ((get_limiter rate ip limit burst now clients).0 ≡ limiter_of (clients ip))
        × ((get_limiter rate ip limit burst now clients).1 ip
            ≡ some (record { limiter = limiter_of (clients ip); last_seen = now }))
  unfolding get_limiter
  get_limiter_own ip now clients = elim (Option-cases (clients ip)) [
    | inl e ↦ (rw (get_limiter, e), rw (get_limiter, e, same_refl ip))
    | inr (c, e) ↦ (rw (get_limiter, e), rw (get_limiter, e, same_refl ip))
  ]

  -- The state and the verdict that `Allow` leaves.
  abbrev used : Text → ℕ → Clients L → Clients L × Verdict
  used ip now clients =
      let (limiter, seen) = get_limiter rate ip limit burst now clients in
      let (allowed, after) = rate.allow now limiter in
      (with_limiter seen ip after, if allowed then next else too_many_requests)

  handle_cases :
      (ip : Text) (now : ℕ) (clients : Clients L)
      → (handle rate config limit burst ip now clients ≡ (clients, next))
        ⊎ (handle rate config limit burst ip now clients ≡ used ip now clients)
  unfolding handle
  handle_cases ip now clients = elim (Bool-cases config.disable_rate_limiting) [
    | inl e ↦ inl (rw e)
    | inr e ↦ elim (Bool-cases (is_exempt config ip)) [
      | inl x ↦ inl (rw (e, x))
      | inr x ↦ inr (rw (e, x))
    ]
  ]

  handle_limited :
      (ip : Text) (now : ℕ) (clients : Clients L)
      → config.disable_rate_limiting ≡ false
      → is_exempt config ip ≡ false
      → handle rate config limit burst ip now clients ≡ used ip now clients
  unfolding handle
  handle_limited ip now clients on limited = rw (on, limited)

  handle_other :
      (ip q : Text) (now : ℕ) (clients : Clients L)
      → same q ip ≡ false
      → (handle rate config limit burst ip now clients).0 q ≡ clients q
  handle_other ip q now clients other = elim (handle_cases ip now clients) [
    | inl e ↦ rw e
    | inr e ↦ rw (e, other) (get_limiter_other ip q now clients other)
  ]

  handle_own :
      (ip : Text) (now : ℕ) (clients : Clients L)
      → config.disable_rate_limiting ≡ false
      → is_exempt config ip ≡ false
      → ((handle rate config limit burst ip now clients).0 ip
          ≡ some
              (record { limiter = (rate.allow now (limiter_of (clients ip))).1; last_seen = now }))
        × ((handle rate config limit burst ip now clients).1
            ≡ (if (rate.allow now (limiter_of (clients ip))).0 then next else too_many_requests))
  handle_own ip now clients on limited =
      let (first, second) = get_limiter_own ip now clients in
      let e = handle_limited ip now clients on limited in
      (rw (e, same_refl ip, second, first), rw (e, first))

  -- The verdicts on the requests of an address that is not exempt are those of one limiter that
  -- sees its requests alone, whatever the other addresses ask. This supposes that rate limiting is
  -- on and that no clean-up comes more than three minutes after the address's last request.
  pub run-verdicts_of :
      (ip : Text) (events : List Event) (clients : Clients L)
      → config.disable_rate_limiting ≡ false
      → is_exempt config ip ≡ false
      → StaysRecent ip (seen_at (clients ip)) events
      → verdicts_of ip (run rate config limit burst events clients)
        ≡ decide rate (times_of ip events) (limiter_of (clients ip))
  unfolding run verdicts_of decide times_of cleanup_clients
  run-verdicts_of ip [] clients on limited recent = refl
  run-verdicts_of ip (clean_up now ∷ events) clients on limited recent =
      let same_client = kept_recent now (clients ip) recent.0 in
      let rest = run-verdicts_of ip events (cleanup_clients now clients) on limited in
      rw same_client at rest (recent.1)
  run-verdicts_of ip (request q now ∷ events) clients on limited recent =
      elim (Bool-cases (same q ip)) [
        | inl e ↦
            (let (state, verdict) = handle_own ip now clients on limited in
              let after = (handle rate config limit burst ip now clients).0 in
              let rest = run-verdicts_of ip events after on limited (rw state (rw e at recent)) in
              let rest' = rw state at rest in
              rw (same_eq q ip e, same_refl ip) (cc (verdict, rest')))
        | inr e ↦
            let unseen = handle_other q ip now clients (same_ne q ip e) in
            let after = (handle rate config limit burst q now clients).0 in
            let rest = run-verdicts_of ip events after on limited (rw unseen (rw e at recent)) in
            rw e (rw unseen at rest)
      ]
