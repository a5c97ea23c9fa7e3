-- ===== src/Frontend/Tests.antt =====
-- Tests and witnesses on backend/frontend/frontend_included.go.
use vocy.Prelude.{
  ℕ, ◌/◌, ◌*◌, ◌≡◌, ◌≢◌, refl, ap, true, false, Option, some, [], codes, arith, itoa, itoa_digits,
  itoa_filled, number_from,
}
use vocy.Env.Schema.{Text}
use vocy.Frontend.{
  write_index, present, not_exist, redirect, api_not_found, page, static, second,
  FileServerWithCaching, serve_file, not_modified, handle_frontend, new_file_server_with_caching,
  serve_http,
}
use vocy.Frontend.Caching.{serve_http_round_trip}

abbrev shell : Text
shell = codes "<html><script>go()</script></html>"

-- A time in the text of its seconds.
abbrev format : ℕ → Text
format t = itoa (t / second * second)

abbrev parse : Text → Option ℕ
parse s = some (number_from 0 s)

parse-format : (t : ℕ) → parse (format t) ≡ some (t / second * second)
parse-format t = ap some (itoa_digits (t / second * second)).1

format_filled : (t : ℕ) → format t ≢ []
format_filled t = itoa_filled (t / second * second)

abbrev server : FileServerWithCaching
server = new_file_server_with_caching format 5_900_000_000 6_100_000_000 60

serve_http_round_trip_example :
    (serve_http parse server server.last_modified_header ≡ not_modified)
    × (serve_http parse server (format 4_950_000_000) ≡ serve_file server)
serve_http_round_trip_example =
    serve_http_round_trip format parse 5_900_000_000 6_100_000_000 4_950_000_000 60 parse-format
      format_filled (omega arith) (omega arith)

-- The header may name the second behind the one that is compared: a client with the second of the first
-- reading is told that nothing changed.
straddled : serve_http parse server (format 5_900_000_000) ≡ not_modified
unfolding serve_http new_file_server_with_caching vocy.Prelude.itoa vocy.Prelude.number_from
straddled = refl

-- Only the tag `<script>` gets the nonce, not one with an attribute.
writes_nonce :
    write_index (codes "<script>a</script><script defer>b</script>") (codes "n1")
    ≡ codes "<script nonce=\"n1\">a</script><script defer>b</script>"
unfolding write_index vocy.Env.Schema.has_prefix
writes_nonce = refl

-- A path of the bundle, a path of the program, an unknown endpoint and a slash at the end.
answers_page :
    handle_frontend (codes "/settings") (codes "/settings") not_exist shell [] ≡ page shell
unfolding handle_frontend vocy.Env.Schema.has_prefix vocy.Env.Schema.same
answers_page = refl

answers_static :
    handle_frontend (codes "/app.js") (codes "/app.js") present shell [] ≡ static (codes "/app.js")
unfolding handle_frontend vocy.Env.Schema.has_prefix vocy.Env.Schema.same
answers_static = refl

answers_api : handle_frontend (codes "/api/x") (codes "/api/x") present shell [] ≡ api_not_found
unfolding handle_frontend vocy.Env.Schema.has_prefix
answers_api = refl

-- The location of the redirection names a host of the client's choice.
answers_host :
    handle_frontend (codes "//host/") (codes "//host/") not_exist shell []
    ≡ redirect (codes "//host")
unfolding handle_frontend vocy.Env.Schema.trim_right
answers_host = refl
