-- ===== src/Middleware/Headers.antt =====
-- The middlewares that write headers: backend/internal/middleware/cors.go,
-- backend/internal/middleware/csp_middleware.go and backend/internal/middleware/head_middleware.go.
pub mod Head
use vocy.Prelude.{
  itoa, ℕ, zero, suc, ◌+◌, ◌/◌, ◌%◌, ◌≡◌, refl, Bool, true, false, not, ◌||◌, Option, none, some,
  List, [], ◌∷◌, ◌++◌, ◌==◌, length, codes, ltb, if◌then◌else◌,
}
use vocy.Env.Schema.{Text, same, is_empty}

-- What the middlewares read and change of the request and the response; the body is what was
-- written to the connection.
pub record Context : Type 0 where
  pub full_path : Text
  pub url_path : Text
  pub method : Text
  pub is_head_request : Bool
  pub headers : Text → Option Text
  pub status : Option ℕ
  pub body : Text

-- `c.Writer.Header().Set(name, value)`.
abbrev pub with_header : Text → Text → Context → Context
with_header name value c = record c {
  headers = λ q. if same q name then some value else c.headers q;
}

unfoldable pub is_cors_path : Text → Bool
is_cors_path path =
    same path (codes "/api/oidc/token")
    || same path (codes "/api/oidc/userinfo")
    || same path (codes "/oidc/end-session")
    || same path (codes "/api/oidc/introspect")
    || same path (codes "/.well-known/jwks.json")
    || same path (codes "/.well-known/openid-configuration")

-- `path`: the route, or the raw path where the router has no route.
abbrev pub cors_path : Context → Text
cors_path c = if is_empty c.full_path then c.url_path else c.full_path

abbrev pub with_cors_headers : Context → Context
with_cors_headers c = with_header (codes "Access-Control-Allow-Methods") (codes "GET, POST") (
    with_header (codes "Access-Control-Allow-Headers") (codes "Authorization")
      (with_header (codes "Access-Control-Allow-Origin") (codes "*") c))

-- The handler of `CorsMiddleware.Add`; `next` is the rest of the chain.
unfoldable pub handle_cors : (Context → Context) → Context → Context
unfolding is_cors_path
handle_cors next c =
    if not (is_cors_path (cors_path c))
    then next c
    else if same c.method (codes "OPTIONS")
    then record (with_cors_headers c) { status = some 204 }
    else next (with_cors_headers c)

-- `generateNonce`; the text is the base64 of the random bytes, `none` a failed read.
abbrev pub generate_nonce : Option Text → Text
generate_nonce none = []
generate_nonce (some encoded) = encoded

abbrev pub policy : Text → Text
policy nonce =
    codes
      "default-src 'self'; base-uri 'self'; object-src 'none'; frame-ancestors 'none'; form-action 'self'; img-src * blob:;font-src 'self'; style-src 'self' 'unsafe-inline'; script-src 'self' 'nonce-"
    ++ nonce
    ++ codes "'"

-- The handler of `CspMiddleware.Add`. The nonce that it sets is an argument of what follows.
unfoldable pub handle_csp : Option Text → (Text → Context → Context) → Context → Context
handle_csp random next c =
    let nonce = generate_nonce random in
    next nonce (with_header (codes "Content-Security-Policy") (policy nonce) c)

-- `headWriter.Write`: the new size and the count that it returns.
abbrev pub head_write : ℕ → Text → ℕ × ℕ
head_write size b = (size + length b, size + length b)

-- A write of the rest of the chain: a call of `Write` whose count is not looked at, or `io.Copy` of a
-- file in buffers of 32 KiB.
pub data Write : Type 0 where
  once : Text → Write
  copied : List Text → Write

-- `io.Copy` to a `headWriter`: it stops where the count is not the length of the buffer.
unfoldable pub copy_to_head : ℕ → List Text → ℕ
copy_to_head size [] = size
copy_to_head size (b ∷ bs) =
    let (size', n) = head_write size b in
    let rest = copy_to_head size' bs in if n == length b then rest else size'

-- The writes of the rest of the chain to a `headWriter`.
unfoldable pub head_writes : ℕ → List Write → ℕ
unfolding copy_to_head
head_writes size [] = size
head_writes size (once b ∷ ws) = head_writes (head_write size b).0 ws
head_writes size (copied bs ∷ ws) = head_writes (copy_to_head size bs) ws

abbrev pub joined : List Text → Text
joined [] = []
joined (b ∷ bs) = b ++ joined bs

-- The writes to the writer of the connection, whose counts are right.
unfoldable pub plain_writes : Text → List Write → Text
plain_writes body [] = body
plain_writes body (once b ∷ ws) = plain_writes (body ++ b) ws
plain_writes body (copied bs ∷ ws) = plain_writes (body ++ joined bs) ws

-- `HeadMiddleware`; the rest of the chain changes the context and writes.
unfoldable pub handle_head : (Context → Context × List Write) → Context → Context
unfolding head_writes plain_writes
handle_head next c =
    let (after, writes) = next c in
    if not c.is_head_request
    then record after { body = plain_writes after.body writes }
    else record (with_header (codes "Content-Length") (itoa (head_writes 0 writes)) after) {
      method = codes "HEAD";
    }
