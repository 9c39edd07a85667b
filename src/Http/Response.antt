-- ===== src/Http/Response.antt =====
-- `AxHttpResponse`, `AxBody` and `AxHtmlStream` of crates/axonyx-runtime/src/server.rs.
use axonyx_runtime.Prelude.{ℕ, ◌+◌, Option, List, [], ◌∷◌, ◌++◌, length}
use axonyx_runtime.Prelude.Bytes.{ascii}
use axonyx_runtime.Session.Cookie.{
  Cookie, new_cookie, with_path, with_max_age, with_http_only, with_same_site, render,
}
use axonyx_runtime.Session.Time.{zero_time}
use axonyx_runtime.Http.Text.{Text}
use axonyx_runtime.Http.Request.{Map, map_insert, find_header}

pub data Body : Type 0 where
  fixed : List ℕ → Body
  chunks : List (List ℕ) → Body

unfoldable pub flatten : List (List ℕ) → List ℕ
flatten [] = []
flatten (c ∷ cs) = c ++ flatten cs

unfoldable pub into_bytes : Body → List ℕ
unfolding flatten
into_bytes (fixed body) = body
into_bytes (chunks cs) = flatten cs

unfoldable pub sum_lengths : List (List ℕ) → ℕ
sum_lengths [] = 0
sum_lengths (c ∷ cs) = length c + sum_lengths cs

unfoldable pub body_len : Body → ℕ
unfolding sum_lengths
body_len (fixed body) = length body
body_len (chunks cs) = sum_lengths cs

pub record Response : Type 0 where
  pub status : ℕ
  pub content_type : Text
  pub headers : Map
  pub set_cookies : List Text
  pub body : Body

abbrev pub new_response : ℕ → Text → List ℕ → Response
new_response status content_type body = record {
  status = status;
  content_type = content_type;
  headers = [];
  set_cookies = [];
  body = fixed body;
}

abbrev pub html_response : ℕ → Text → Response
html_response status body = new_response status (ascii "text/html; charset=utf-8") body

abbrev pub text_response : ℕ → Text → Response
text_response status body = new_response status (ascii "text/plain; charset=utf-8") body

-- `AxHttpResponse::json`, on the text that serde_json makes.
abbrev pub json_response : ℕ → Text → Response
json_response status body = new_response status (ascii "application/json; charset=utf-8") body

abbrev pub no_content : Response
no_content = text_response 204 []

unfoldable pub response_with_header : Text → Text → Response → Response
unfolding map_insert
response_with_header name value r = record r { headers = map_insert name value r.headers }

abbrev pub with_no_store : Response → Response
with_no_store r = response_with_header (ascii "Cache-Control") (ascii "no-store") r

abbrev pub redirect_with_status : ℕ → Text → Response
redirect_with_status status location =
    response_with_header (ascii "Location") location (text_response status [])

abbrev pub redirect : Text → Response
redirect location = redirect_with_status 303 location

abbrev pub stream_chunks : ℕ → Text → List (List ℕ) → Response
stream_chunks status content_type cs = record {
  status = status;
  content_type = content_type;
  headers = [];
  set_cookies = [];
  body = chunks cs;
}

unfoldable pub with_cookie : Cookie → Response → Response
unfolding render
with_cookie c r = record r { set_cookies = r.set_cookies ++ render c ∷ [] }

unfoldable pub without_cookie : Text → Response → Response
unfolding with_cookie
without_cookie name r =
    with_cookie
      (with_same_site (ascii "Lax")
        (with_http_only (with_max_age zero_time (with_path (ascii "/") (new_cookie name [])))))
      r

unfoldable pub response_header_value : Response → Text → Option Text
unfolding find_header
response_header_value r name = find_header name r.headers

-- `AxHtmlStream::push`
unfoldable pub push_chunk : List (List ℕ) → List ℕ → List (List ℕ)
push_chunk cs [] = cs
push_chunk cs (b ∷ bs) = cs ++ (b ∷ bs) ∷ []
