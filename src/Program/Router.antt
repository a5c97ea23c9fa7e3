-- ===== src/Program/Router.antt =====
-- `initRouter` (backend/internal/bootstrap/router_bootstrap.go): the handlers that a request goes
-- through. gin's look-up of a route, the text of a JSON answer and the file server are arguments.
pub mod Answers
mod Tests
use vocy.Prelude.{
  ℕ, Bool, true, false, ◌||◌, Option, none, some, Result, ok, err, ◌>>=◌, check, ◌==◌, List, [],
  ◌∷◌, ◌++◌, codes, if◌then◌else◌,
}
use vocy.Env.Schema.{Text, ℤ, EnvConfigSchema, same, has_prefix}
use vocy.Middleware.Headers.{Context, Write, once, with_header, handle_head}
use vocy.Middleware.ErrorHandler.{GinError, Response, handle_errors}
use vocy.Middleware.RateLimit.{Rate, Clients, Verdict, next, too_many_requests, handle}
use vocy.Frontend.{Answer, Stat, serve_frontend}

-- `loggerSkipPathsPrefix`.
abbrev pub logger_skip_paths_prefix : List Text
logger_skip_paths_prefix =
    codes "GET /api/application-images/logo"
    ∷ codes "GET /api/application-images/background"
    ∷ codes "GET /api/application-images/favicon"
    ∷ codes "GET /api/application-images/email"
    ∷ codes "GET /_app"
    ∷ codes "GET /fonts"
    ∷ codes "GET /healthz"
    ∷ codes "HEAD /healthz"
    ∷ []

unfoldable pub has_some_prefix : List Text → Text → Bool
has_some_prefix [] line = false
has_some_prefix (p ∷ ps) line = has_prefix line p || has_some_prefix ps line

-- The skipper of `initLogger`: the method and the URL's text.
unfoldable pub skips_log : Text → Text → Bool
unfolding has_some_prefix
skips_log method url_text =
    has_some_prefix logger_skip_paths_prefix (method ++ codes " " ++ url_text)

-- What gin finds for a method and a path: the route of the health check, a handler of its own, as for
-- a slash too many, or of a test, or no route.
pub data Route : Type 0 where
  healthz : Route
  handler : (Context → Context × List Write × List GinError) → Route
  no_route : Route

-- What is outside of the router: gin's look-up, the JSON of an answer, what is written for the answers
-- of the frontend that are not its page, and the bundle with its index page.
pub record Site (R L : Type 0) : Type 0 where
  pub find : Text → Text → Route
  pub json : Response → Text
  pub others : Answer → Context → Context × List Write
  pub stat : Text → Stat
  pub index : Text
  pub rate : Rate R L
  pub limit : R

-- A request besides its context: the text of its URL, the address of the client and the time.
pub record Asking : Type 0 where
  pub url_text : Text
  pub client_ip : Text
  pub now : ℕ

abbrev pub burst : ℤ
burst = ℤ.pos 300

-- The handler in front of gin: gin does not match HEAD requests.
abbrev pub as_get : Context → Context
as_get c =
    if same c.method (codes "HEAD")
    then record c { method = codes "GET"; is_head_request = true }
    else c

-- `healthzHandler`.
abbrev pub healthz_handler : Context → Context
healthz_handler c = record c { status = some 204 }

-- The error of the rate limit.
abbrev pub too_many_requests_error : GinError
too_many_requests_error = record {
  is_record_not_found = false;
  validation = none;
  slice_validation = none;
  app_error = some (429, codes "Too many requests");
}

-- `c.JSON`: the response, and its one write.
abbrev pub with_response : Context → Response → Context
with_response c r =
    record (with_header (codes "Content-Type") (codes "application/json; charset=utf-8") c) {
      status = some r.status;
    }

unfoldable pub write_responses :
    (Response → Text) → List Response → Context → List Write → Context × List Write
write_responses json [] c writes = (c, writes)
write_responses json (r ∷ rs) c writes =
    write_responses json rs (with_response c r) (writes ++ once (json r) ∷ [])

-- The error handler behind the rest of the chain: the response, its writes, and whether it ends
-- without a panic.
unfoldable pub answer_errors :
    (Response → Text) → Context × List Write × List GinError → (Context × List Write) × Bool
unfolding write_responses
answer_errors json (c, writes, errors) =
    let (responses, ends) = handle_errors errors in (write_responses json responses c writes, ends)

-- A handler that adds no error.
abbrev pub without_errors : Context × List Write → Context × List Write × List GinError
without_errors (c, writes) = (c, writes, [])

module _ {R L : Type 0} (site : Site R L) (config : EnvConfigSchema) (asking : Asking) where
  -- Behind the rate limit, the frontend's handler. No middleware sets a nonce.
  abbrev pub after_limit : Verdict → Context → Context × List Write × List GinError
  after_limit next c =
      without_errors (serve_frontend site.others site.stat site.index asking.url_text [] c)
  after_limit too_many_requests c = (c, [], too_many_requests_error ∷ [])

  -- The handlers of a route, with the clients of the frontend's rate limit.
  abbrev pub route_chain : Clients L → Route → Context → Context × List Write × List GinError
  route_chain clients healthz c = (healthz_handler c, [], [])
  route_chain clients (handler f) c = f c
  route_chain clients no_route c =
      after_limit (handle site.rate config site.limit burst asking.client_ip asking.now clients).1 c

  abbrev pub route_clients : Clients L → Route → Clients L
  route_clients clients healthz = clients
  route_clients clients (handler f) = clients
  route_clients clients no_route =
      (handle site.rate config site.limit burst asking.client_ip asking.now clients).0

  -- The chain behind `HeadMiddleware`.
  unfoldable pub chain : Clients L → Context → (Context × List Write) × Bool
  unfolding answer_errors
  chain clients c = answer_errors site.json (route_chain clients (site.find c.method c.url_path) c)

  -- A request to the server: the clients of the rate limit, the response, and whether no handler
  -- panics.
  unfoldable pub serve : Clients L → Context → Clients L × Context × Bool
  unfolding chain
  serve clients c =
      let asked = as_get c in
      (
        route_clients clients (site.find asked.method asked.url_path),
        handle_head (λ d. (chain clients d).0) asked,
        (chain clients asked).1,
      )

-- `frontend.RegisterFrontend` returns `ErrFrontendNotIncluded` or another error.
pub data RegisterError (E : Type 0) : Type 0 where
  frontend_not_included : RegisterError E
  register_failed : E → RegisterError E

pub data RouterError (E : Type 0) : Type 0 where
  no_frontend no_listener : E → RouterError E

-- A frontend that is not included is only logged.
abbrev pub check_frontend :
    {E : Type 0} → Option (RegisterError E) → Result (RouterError E) (Unit {0})
check_frontend none = ok tt
check_frontend (some frontend_not_included) = ok tt
check_frontend (some (register_failed e)) = err (no_frontend e)

-- `net.JoinHostPort`: a host with a colon stands in brackets.
unfoldable pub has_colon : Text → Bool
has_colon [] = false
has_colon (c ∷ s) = c == b':' || has_colon s

abbrev pub join_host_port : Text → Text → Text
join_host_port host port =
    if has_colon host then codes "[" ++ host ++ codes "]:" ++ port else host ++ codes ":" ++ port

-- `initRouter`: the address that it listens on, or an error.
unfoldable pub init_router :
    {E : Type 0}
    → EnvConfigSchema
    → Option (RegisterError E)
    → (Text → Option E)
    → Result (RouterError E) Text
unfolding has_colon
init_router config register listen =
    let addr = join_host_port config.host config.port in
    check_frontend register >>= λ registered.
    check no_listener (listen addr) >>= λ listening. ok addr
