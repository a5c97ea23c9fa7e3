-- ===== src/Program/Router/Tests.antt =====
-- Tests and witnesses on the router (backend/internal/bootstrap/router_bootstrap.go).
use vocy.Prelude.{
  List, ◌∷◌, ℕ, zero, suc, ◌≡◌, refl, Bool, true, false, none, some, [], ◌++◌, codes, if◌then◌else◌,
}
use vocy.Env.Schema.{Text, default_config, same}
use vocy.Middleware.Headers.{Context, Write, copied}
use vocy.Middleware.RateLimit.{Clients, no_clients, too_many_requests, handle}
use vocy.Frontend.{Answer, not_exist}
use vocy.Program.Router.{Route, healthz, no_route, Site, Asking, burst, skips_log, serve}
use vocy.Program.Router.Answers.{refusal, serve_refused}

-- A limiter that lets a number of requests pass in all.
abbrev spend : ℕ → ℕ → Bool × ℕ
spend now zero = (false, zero)
spend now (suc left) = (true, left)

abbrev find_route : Text → Text → Route
find_route method path = if same path (codes "/healthz") then healthz else no_route

abbrev unanswered : Answer → Context → Context × List Write
unanswered answer c = (c, copied (codes "file" ∷ []) ∷ [])

abbrev site : Site ℕ ℕ
site = record {
  find = find_route;
  json = λ r. codes "{\"error\":\"" ++ r.error ++ codes "\"}";
  others = unanswered;
  stat = λ path. not_exist;
  index = codes "<html></html>";
  rate = record { new_limiter = λ limit burst. limit; allow = spend };
  limit = 0;
}

abbrev asking : Asking
asking = record { url_text = codes "/"; client_ip = codes "10.0.0.1"; now = 5 }

abbrev root : Context
root = record {
  full_path = codes "";
  url_path = codes "/";
  method = codes "GET";
  is_head_request = false;
  headers = λ q. none;
  status = none;
  body = [];
}

abbrev clients : Clients ℕ
clients = no_clients

is_refused :
    (handle site.rate default_config site.limit burst asking.client_ip asking.now clients).1
    ≡ too_many_requests
unfolding handle same
is_refused = refl

root_method : same root.method (codes "HEAD") ≡ false
unfolding same
root_method = refl

root_missing : site.find root.method root.url_path ≡ no_route
unfolding same
root_missing = refl

serve_refused_example :
    ((serve site default_config asking clients root).1.status ≡ some 429)
    × ((serve site default_config asking clients root).1.body ≡ [] ++ site.json refusal)
    × ((serve site default_config asking clients root).2 ≡ true)
serve_refused_example =
    serve_refused site default_config asking clients root root_method refl root_missing is_refused

-- The same site with requests left for the client.
abbrev open_site : Site ℕ ℕ
open_site = record site { limit = 5 }

abbrev by_head : Context
by_head = record root { method = codes "HEAD" }

skips_assets : skips_log (codes "GET") (codes "/_app/start.js") ≡ true
unfolding skips_log vocy.Env.Schema.has_prefix
skips_assets = refl

logs_pages : skips_log (codes "GET") (codes "/settings") ≡ false
unfolding skips_log vocy.Env.Schema.has_prefix
logs_pages = refl
