-- ===== src/Frontend.antt =====
-- The frontend's handler (backend/frontend/frontend_included.go). A text is ASCII.
pub mod Caching
mod Tests
use vocy.Prelude.{
  ℕ, zero, suc, ◌+◌, ◌-◌, Bool, true, false, not, ◌||◌, Option, none, some, List, [], ◌∷◌, ◌++◌,
  itoa, length, drop, codes, ltb, ◌==◌, if◌then◌else◌,
}
use vocy.Env.Schema.{Text, same, is_empty, has_prefix}
use vocy.Env.Prepare.{trim_trailing_slash}
use vocy.Middleware.Headers.{Context, Write, once, with_header}

-- `bytes.ReplaceAll(s, old, new)`; the number counts the bytes of a match that are still to be left
-- out.
unfoldable pub replace_from : Text → Text → ℕ → Text → Text
replace_from old new skip [] = []
replace_from old new (suc skip) (c ∷ s) = replace_from old new skip s
replace_from old new zero (c ∷ s) =
    let behind = replace_from old new (length old - 1) s in
    let rest = replace_from old new zero s in
    if has_prefix (c ∷ s) old then new ++ behind else c ∷ rest

abbrev pub script_tag : Text
script_tag = codes "<script>"

abbrev pub tag_with : Text → Text
tag_with nonce = codes "<script nonce=\"" ++ nonce ++ codes "\">"

-- `writeIndexFn`: what it writes.
unfoldable pub write_index : Text → Text → Text
unfolding replace_from
write_index index nonce =
    if is_empty nonce then index else replace_from script_tag (tag_with nonce) 0 index

-- What `fs.Stat` says of a path of the bundle: its file, that there is none, or another error, as for
-- a path that is not valid.
pub data Stat : Type 0 where
  present not_exist other_error : Stat

-- The handler's answers: a redirection, the error of an unknown API endpoint, the page, which is not
-- to be stored, or what the file server answers for a path.
pub data Answer : Type 0 where
  redirect : Text → Answer
  api_not_found : Answer
  page : Text → Answer
  static : Text → Answer

-- `strings.TrimPrefix(s, "/")`.
abbrev pub trim_slash : Text → Text
trim_slash [] = []
trim_slash (c ∷ s) = if c == b'/' then s else c ∷ s

-- `strings.HasSuffix(s, "/")`.
unfoldable pub ends_in_slash : Text → Bool
ends_in_slash [] = false
ends_in_slash (c ∷ []) = c == b'/'
ends_in_slash (c ∷ d ∷ s) = ends_in_slash (d ∷ s)

abbrev pub index_name : Text
index_name = codes "index.html"

-- The path that is served.
abbrev pub file_for : Text → Stat → Text
file_for path not_exist = index_name
file_for path found = if is_empty path then index_name else path

-- The handler of `RegisterFrontend`: the URL's path and its text, what `fs.Stat` says of the path,
-- the index page and the nonce.
unfoldable pub handle_frontend : Text → Text → Stat → Text → Text → Answer
unfolding ends_in_slash write_index
handle_frontend url_path url_text stat index nonce =
    let path = trim_slash url_path in
    let file = file_for path stat in
    if ends_in_slash path
    then redirect (trim_trailing_slash url_text)
    else if has_prefix path (codes "api/")
    then api_not_found
    else if same file index_name
    then page (write_index index nonce)
    else static (codes "/" ++ file)

-- What the handler does to the response, and what it writes; `others` is what gin and the file server
-- do for the answers that are not the page.
unfoldable pub respond :
    (Answer → Context → Context × List Write) → Answer → Context → Context × List Write
respond others (page text) c = (
  record (with_header (codes "Cache-Control") (codes "no-store")
      (with_header (codes "Content-Type") (codes "text/html; charset=utf-8") c)) {
        status = some 200;
      },
  once text ∷ [],
)
respond others answer c = others answer c

-- The handler on a request: `url_text` is its URL as a text, `stat` is `fs.Stat` of the bundle.
unfoldable pub serve_frontend :
    (Answer → Context → Context × List Write)
    → (Text → Stat)
    → Text
    → Text
    → Text
    → Context
    → Context × List Write
serve_frontend others stat index url_text nonce c =
    respond others (handle_frontend c.url_path url_text (stat (trim_slash c.url_path)) index nonce)
      c

-- `FileServerWithCaching`; a time is in nanoseconds.
pub record FileServerWithCaching : Type 0 where
  pub last_modified : ℕ
  pub last_modified_header : Text
  pub cache_control_header : Text

abbrev pub second : ℕ
second = 1_000_000_000

-- `NewFileServerWithCaching`, which reads the clock twice, and with `Time.Format(http.TimeFormat)`.
unfoldable pub new_file_server_with_caching : (ℕ → Text) → ℕ → ℕ → ℕ → FileServerWithCaching
unfolding itoa
new_file_server_with_caching format now later max_age = record {
  last_modified = now;
  last_modified_header = format later;
  cache_control_header = codes "public, max-age=" ++ itoa max_age;
}

-- What `ServeHTTP` does: the status 304, or the file with the two headers.
pub data Served : Type 0 where
  not_modified : Served
  file_with : Text → Text → Served

abbrev pub serve_file : FileServerWithCaching → Served
serve_file f = file_with f.last_modified_header f.cache_control_header

-- `ServeHTTP`, with `time.Parse(http.TimeFormat, …)` and the header `If-Modified-Since`, which is empty
-- where the request has none.
unfoldable pub serve_http : (Text → Option ℕ) → FileServerWithCaching → Text → Served
serve_http parse f [] = serve_file f
serve_http parse f (c ∷ header) = elim (parse (c ∷ header)) [
  | none ↦ serve_file f
  | some since ↦ if ltb f.last_modified (since + second) then not_modified else serve_file f
]
