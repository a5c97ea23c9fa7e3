-- ===== src/Program/Router/Answers.antt =====
-- What the server answers (backend/internal/bootstrap/router_bootstrap.go).
use vocy.Prelude.{◌≡◌, ap, ◌∙◌, true, false, some, [], ◌∷◌, ◌++◌, List, codes, inl, inr, Bool-cases}
use vocy.Env.Schema.{EnvConfigSchema, same}
use vocy.Utils.CaseStyle.{to_upper}
use vocy.Middleware.Headers.{plain_writes, Context, Write, once, handle_head}
use vocy.Middleware.ErrorHandler.{GinError, Response, handle_errors}
use vocy.Middleware.RateLimit.{Clients, too_many_requests, handle}
use vocy.Program.Router.{
  Route, healthz, handler, no_route, Site, Asking, burst, as_get, with_response, write_responses,
  answer_errors, chain, serve,
}

-- The context as it is for a HEAD request.
abbrev pub marked : Context → Context
marked c = record c { is_head_request = true }

-- A handler that does not look at the mark of a HEAD request and leaves it, and that writes by its
-- writer alone.
abbrev pub IsBlind : (Context → Context × List Write) → Type 0
IsBlind f = (c : Context) → (f (marked c) ≡ (marked (f c).0, (f c).1)) × ((f c).0.body ≡ c.body)

-- The same of a handler that may add errors.
abbrev pub IsBlindHandler : (Context → Context × List Write × List GinError) → Type 0
IsBlindHandler f =
    (c : Context) → (f (marked c) ≡ (marked (f c).0, (f c).1, (f c).2)) × ((f c).0.body ≡ c.body)

-- A route that is not the handler of a test that looks at it.
abbrev pub IsBlindRoute : Route → Type 0
IsBlindRoute healthz = Unit
IsBlindRoute no_route = Unit
IsBlindRoute (handler f) = IsBlindHandler f

abbrev pub refusal : Response
refusal = record { status = 429; error = codes "Too many requests" }

handle_head-status :
    (f : Context → Context × List Write) (c : Context) → (handle_head f c).status ≡ (f c).0.status
unfolding handle_head
handle_head-status f c = elim (Bool-cases c.is_head_request) [
  | inl head ↦ rw (handle_head, head)
  | inr plain ↦ rw (handle_head, plain)
]

handle_head-body :
    (f : Context → Context × List Write) (c : Context)
    → c.is_head_request ≡ false
    → (handle_head f c).body ≡ plain_writes (f c).0.body (f c).1
unfolding handle_head
handle_head-body f c plain = rw (handle_head, plain)

module _ {R L : Type 0} (site : Site R L) (config : EnvConfigSchema) (asking : Asking) where
  chain_refused :
      (clients : Clients L) (c : Context)
      → site.find c.method c.url_path ≡ no_route
      → (handle site.rate config site.limit burst asking.client_ip asking.now clients).1
        ≡ too_many_requests
      → chain site config asking clients c
        ≡ ((with_response c refusal, once (site.json refusal) ∷ []), true)
  unfolding chain answer_errors write_responses handle_errors to_upper
  chain_refused clients c missing refused = rw (chain, missing, refused)

  -- A request that the limit of the frontend refuses is answered with the status 429 and the JSON of
  -- the error, and with nothing of the frontend; no handler panics. The request is no HEAD request and
  -- has no route of its own.
  pub serve_refused :
      (clients : Clients L) (c : Context)
      → same c.method (codes "HEAD") ≡ false
      → c.is_head_request ≡ false
      → site.find c.method c.url_path ≡ no_route
      → (handle site.rate config site.limit burst asking.client_ip asking.now clients).1
        ≡ too_many_requests
      → ((serve site config asking clients c).1.status ≡ some 429)
        × ((serve site config asking clients c).1.body ≡ c.body ++ site.json refusal)
        × ((serve site config asking clients c).2 ≡ true)
  unfolding serve plain_writes
  serve_refused clients c get plain missing refused =
      let unchanged : as_get c ≡ c = rw get in
      let refuses = chain_refused clients c missing refused in
      let f = λ (d : Context). (chain site config asking clients d).0 in
      (
        rw (serve, unchanged) (handle_head-status f c ∙ ap (λ r. r.0.0.status) refuses),
        rw (serve, unchanged)
            (handle_head-body f c plain ∙ ap (λ r. plain_writes r.0.0.body r.0.1) refuses),
        rw (serve, unchanged) (ap (λ r. r.1) refuses),
      )
