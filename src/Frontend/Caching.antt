-- ===== src/Frontend/Caching.antt =====
-- The file server with caching headers (backend/frontend/frontend_included.go).
use vocy.Prelude.{
  ℕ, ◌+◌, ◌*◌, ◌/◌, ◌≤◌, ◌<◌, ◌≡◌, ◌≢◌, refl, true, false, Option, some, [], ◌∷◌, ltb, arith,
}
use vocy.Env.Schema.{Text}
use vocy.Frontend.{
  FileServerWithCaching, second, serve_file, not_modified, new_file_server_with_caching, serve_http,
}

parsed_header :
    (parse : Text → Option ℕ) (f : FileServerWithCaching) (header : Text) (since : ℕ)
    → header ≢ []
    → parse header ≡ some since
    → ltb f.last_modified (since + second) ≡ true
    → serve_http parse f header ≡ not_modified
unfolding serve_http
parsed_header parse f [] since filled h fresh = absurd (filled refl)
parsed_header parse f (c ∷ header) since filled h fresh = rw (serve_http, h, fresh)

stale_header :
    (parse : Text → Option ℕ) (f : FileServerWithCaching) (header : Text) (since : ℕ)
    → parse header ≡ some since
    → ltb f.last_modified (since + second) ≡ false
    → serve_http parse f header ≡ serve_file f
unfolding serve_http
stale_header parse f [] since h old = refl
stale_header parse f (c ∷ header) since h old = rw (serve_http, h, old)

-- A client that sends back the `Last-Modified` of the server is told that the file has not changed, and
-- a client that sends the text of a second before the one in which the server was made is sent the
-- file. This supposes that the clock does not go back between the two readings, and that the text of
-- a time is not empty and is parsed as the time without its fraction of a second.
pub serve_http_round_trip :
    (format : ℕ → Text) (parse : Text → Option ℕ) (now later earlier max_age : ℕ)
    → ((t : ℕ) → parse (format t) ≡ some (t / second * second))
    → ((t : ℕ) → format t ≢ [])
    → now ≤ later
    → earlier / second < now / second
    → (serve_http parse
          (new_file_server_with_caching format now later max_age)
          (new_file_server_with_caching format now later max_age).last_modified_header
        ≡ not_modified)
      × (serve_http parse (new_file_server_with_caching format now later max_age) (format earlier)
          ≡ serve_file (new_file_server_with_caching format now later max_age))
unfolding new_file_server_with_caching
serve_http_round_trip format parse now later earlier max_age parses filled forward before =
    let server = new_file_server_with_caching format now later max_age in
    let fresh : ltb now (later / second * second + second) ≡ true = ground (arith, forward) in
    let old : ltb now (earlier / second * second + second) ≡ false = ground (arith, before) in
    (
      parsed_header parse server (format later) (later / second * second) (filled later)
          (parses later) fresh,
      stale_header parse server (format earlier) (earlier / second * second) (parses earlier) old,
    )
