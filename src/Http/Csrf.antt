-- ===== src/Http/Csrf.antt =====
-- CSRF proofs in requests and responses: crates/axonyx-runtime/src/csrf_http.rs. `none` is an error of
-- the runtime. A `Runtime` is what the code uses of `AxBackendRuntime`; of other crates are the MAC,
-- the test for a UUID and the reading of a JSON body, of the system the time and a new UUID.
pub mod Passed
pub mod Delivered
use axonyx_runtime.Prelude.{
  ℕ, zero, suc, ◌+◌, ◌-◌, Bool, true, false, not, ◌&&◌, ◌||◌, Option, none, some, List, [], ◌∷◌,
  ◌++◌, ltb, leb, ◌==◌, if◌then◌else◌, ◌>>=◌,
}
use axonyx_runtime.Prelude.Bytes.{ascii, bytes_eq, is_utf8, is_utf8_from}
use axonyx_runtime.Validation.{split_once}
use axonyx_runtime.StateWasm.Operators.{decimal}
use axonyx_runtime.Session.Tokens.{issue, verify, strip_prefix}
use axonyx_runtime.Session.Time.{zero_time}
use axonyx_runtime.Session.Cookie.{
  Cookie, new_cookie, with_path, with_max_age, with_http_only, with_secure, with_same_site,
}
use axonyx_runtime.Http.Text.{
  Text, to_ascii_lowercase, eq_ignore_ascii_case, split_once_text, starts_with_text, contains_text,
  parse_unsigned,
}
use axonyx_runtime.Http.Request.{Map, Request, header_value, find_header, cookie_value}
use axonyx_runtime.Http.Url.{form_value}
use axonyx_runtime.Http.Response.{
  Body, fixed, into_bytes, Response, response_with_header, with_no_store, with_cookie,
  text_response, json_response,
}
use axonyx_runtime.Http.Middleware.{Env, secret}
use axonyx_runtime.Http.Origin.{is_safe_method, rejects_mutation_request_with_origin}

abbrev pub csrf_header : Text
csrf_header = ascii "X-Axonyx-CSRF"

abbrev pub csrf_field : Text
csrf_field = ascii "__ax_csrf"

abbrev pub form_marker : Text
form_marker = ascii "<!--axonyx:csrf-field-->"

abbrev pub anonymous_ttl : ℕ
anonymous_ttl = 1800

abbrev pub max_u64 : ℕ
max_u64 = 18446744073709551615

abbrev pub is_host : Text → Text → Bool
is_host name host = bytes_eq host name || starts_with_text (name ++ b':' ∷ []) host

abbrev pub is_local_host : Option Text → Bool
is_local_host none = false
is_local_host (some host) =
    is_host (ascii "localhost") host
    || (is_host (ascii "127.0.0.1") host || is_host (ascii "[::1]") host)

unfoldable pub local_request : Request → Bool
unfolding find_header strip_prefix
local_request r = is_local_host (header_value r (ascii "Host"))

unfoldable pub anonymous_name : Request → Text
unfolding local_request
anonymous_name r = if local_request r then ascii "axonyx_csrf" else ascii "__Host-axonyx-csrf"

abbrev pub cookie_mark : Text
cookie_mark = ascii ".axcsrf1."

abbrev pub token_prefix : Text
token_prefix = ascii "axcsrf1."

abbrev pub anonymous_prefix : Text
anonymous_prefix = ascii "anonymous:"

pub record Runtime : Type 0 where
  pub env : Env
  -- The id of the request's session, if it has one.
  pub load_session : Request → Option (Option Text)

abbrev pub session_key : Runtime → Option Text
session_key runtime = secret runtime.env (ascii "session_key")

abbrev pub anonymous_cookie : Request → Text → Cookie
anonymous_cookie r value =
    let cookie = with_max_age (zero_time + anonymous_ttl) (
      with_same_site (ascii "Strict")
        (with_http_only (with_path (ascii "/") (new_cookie (anonymous_name r) value)))) in
    if local_request r then cookie else with_secure cookie

abbrev pub new_identity : ℕ → Text → Text
new_identity time nonce = anonymous_prefix ++ (decimal 20 time [] ++ b':' ∷ nonce)

-- `html.replace(FORM_MARKER, …)`: `skip` bytes of a marker that was found are left.
unfoldable pub replace_text : ℕ → Text → Text → Text → Text
unfolding strip_prefix
replace_text skip marker field [] = []
replace_text (suc skip) marker field (b ∷ s) = replace_text skip marker field s
replace_text zero marker field (b ∷ s) =
    if starts_with_text marker (b ∷ s)
    then field ++ replace_text 23 marker field s
    else b ∷ replace_text zero marker field s

abbrev pub form_field : Text → Text
form_field token =
    ascii "<input type=\"hidden\" name=\""
    ++ (csrf_field ++ (ascii "\" value=\"" ++ (token ++ ascii "\">")))

abbrev pub is_stale_header : Text → Bool
is_stale_header name =
    let lower_name = to_ascii_lowercase name in
    bytes_eq lower_name (ascii "etag")
    || (bytes_eq lower_name (ascii "content-length") || bytes_eq lower_name (ascii "last-modified"))

unfoldable pub retain_headers : Map → Map
retain_headers [] = []
retain_headers ((name, value) ∷ m) =
    let rest = retain_headers m in if is_stale_header name then rest else (name, value) ∷ rest

abbrev pub add_cookie : Option Cookie → Response → Response
add_cookie none r = r
add_cookie (some cookie) r = with_cookie cookie r

abbrev pub private_response : Response → Response
private_response r = response_with_header (ascii "Vary") (ascii "Cookie") (with_no_store r)

abbrev pub is_form_document : Request → Response → Bool
is_form_document r response =
    bytes_eq r.method (ascii "GET") || (bytes_eq r.method (ascii "POST") && response.status == 422)

abbrev pub with_form : Response → Text → Text × Option Cookie → Response
with_form response html (token, cookie) = add_cookie cookie (
    private_response (record response {
      body = fixed (replace_text zero form_marker (form_field token) html);
      headers = retain_headers response.headers;
    }))

abbrev pub is_absent : Option Text → Bool
is_absent none = true
is_absent (some value) = false

abbrev pub is_same_origin : Option Text → Bool
is_same_origin none = false
is_same_origin (some site) = eq_ignore_ascii_case site (ascii "same-origin")

unfoldable pub rejects_token_source : (Text → Option Text) → Request → Option Text → Bool
unfolding rejects_mutation_request_with_origin find_header
rejects_token_source ipv6 r public_origin =
    if is_absent (header_value r (ascii "Origin"))
      && is_absent (header_value r (ascii "Referer"))
      && is_same_origin (header_value r (ascii "Sec-Fetch-Site"))
    then false
    else rejects_mutation_request_with_origin ipv6 (record r { method = ascii "POST" })
        public_origin

abbrev pub is_json : Option Text → Bool
is_json none = false
is_json (some value) = starts_with_text (ascii "application/json") value

unfoldable pub proof : (List ℕ → Text → Option Text) → Request → Option Text
unfolding find_header form_value strip_prefix
proof json_field r = elim (header_value r csrf_header) [
  | some value ↦ some value
  | none ↦
      if is_json (header_value r (ascii "Content-Type"))
      then json_field r.body csrf_field
      else form_value r csrf_field
]

abbrev pub is_bare : Request → Bool
is_bare r =
    is_absent (header_value r (ascii "Cookie"))
    && is_absent (header_value r (ascii "Origin"))
    && is_absent (header_value r (ascii "Referer"))
    && is_absent (header_value r (ascii "Sec-Fetch-Site"))

abbrev pub forbidden : Response
forbidden = with_no_store (text_response 403 (ascii "Forbidden: invalid CSRF proof"))

module _ (mac : List ℕ → List ℕ → List ℕ) (is_uuid : Text → Bool) where
  abbrev pub if_verified : Text → Option Bool → Option (Option Text)
  if_verified identity none = none
  if_verified identity (some ok) = some (if ok then some identity else none)

  -- The steps on a cookie's value; `none` where the code returns `Ok(None)`.
  abbrev pub dated_identity : ℕ → Text → Text → Text → ℕ → Option (Text × Text)
  dated_identity time identity signature nonce issued =
      if ltb time issued || (leb anonymous_ttl (time - issued) || not (is_uuid nonce))
      then none
      else some (identity, token_prefix ++ signature)

  abbrev pub stamped_identity : ℕ → Text → Text → Text × Text → Option (Text × Text)
  stamped_identity time identity signature (timestamp, nonce) = do
    issued ← parse_unsigned max_u64 timestamp
    dated_identity time identity signature nonce issued

  abbrev pub stripped_identity : ℕ → Text → Text → Text → Option (Text × Text)
  stripped_identity time identity signature rest = do
    halves ← split_once b':' rest
    stamped_identity time identity signature halves

  abbrev pub cut_identity : ℕ → Text × Text → Option (Text × Text)
  cut_identity time (identity, signature) = do
    rest ← strip_prefix anonymous_prefix identity
    stripped_identity time identity signature rest

  unfoldable pub signed_identity : ℕ → Text → Option (Text × Text)
  unfolding split_once_text strip_prefix split_once parse_unsigned
  signed_identity time cookie = do
    halves ← split_once_text cookie_mark cookie
    cut_identity time halves

  abbrev pub verified_identity : Text → Option (Text × Text) → Option (Option Text)
  verified_identity key none = some none
  verified_identity key (some (identity, token)) =
      if_verified identity (verify mac identity token key)

  abbrev pub cookie_identity : Text → ℕ → Option Text → Option (Option Text)
  cookie_identity key time none = some none
  cookie_identity key time (some cookie) = verified_identity key (signed_identity time cookie)

  unfoldable pub anonymous_identity : Request → Text → ℕ → Option (Option Text)
  unfolding cookie_value anonymous_name signed_identity verify
  anonymous_identity r key time = cookie_identity key time (cookie_value r (anonymous_name r))

  abbrev pub issue_for : Text → Text → Option (Text × Option Cookie)
  issue_for identity key = do token ← issue mac identity key; some (token, none)

  abbrev pub deliver_anonymous :
      Request → Text → ℕ → Text → Option Text → Option (Text × Option Cookie)
  deliver_anonymous r key time nonce (some identity) = issue_for identity key
  deliver_anonymous r key time nonce none = do
    token ← issue mac (new_identity time nonce) key
    some (token, some (anonymous_cookie r (new_identity time nonce ++ b'.' ∷ token)))

  abbrev pub deliver :
      Request → Text → Option ℕ → Text → Option Text → Option (Text × Option Cookie)
  deliver r key now nonce (some session_id) = issue_for session_id key
  deliver r key now nonce none = do
    time ← now
    known ← anonymous_identity r key time
    deliver_anonymous r key time nonce known

  unfoldable pub delivery : Runtime → Request → Option ℕ → Text → Option (Text × Option Cookie)
  unfolding secret anonymous_identity issue decimal
  delivery runtime r now nonce = do
    key ← session_key runtime
    session ← runtime.load_session r
    deliver r key now nonce session

  unfoldable pub protect_form_response :
      Runtime → Request → Option ℕ → Text → Response → Option Response
  unfolding delivery replace_text retain_headers response_with_header with_cookie into_bytes
      contains_text is_utf8_from strip_prefix
  protect_form_response runtime r now nonce response =
      let html = into_bytes response.body in
      if not
        (is_form_document r response && starts_with_text (ascii "text/html") response.content_type)
      then some response
      else if not (is_utf8 html)
      then some response
      else if not (contains_text form_marker html)
      then some response
      else (do delivered ← delivery runtime r now nonce; some (with_form response html delivered))

  unfoldable pub token_response :
      (Text → Option Text) → Runtime → Request → Option ℕ → Text → Option Response
  unfolding delivery response_with_header with_cookie
  token_response token_json runtime r now nonce = do
    (token, cookie) ← delivery runtime r now nonce
    text ← token_json token
    some (add_cookie cookie (private_response (json_response 200 text)))

  abbrev pub identity_of : Request → Text → Option ℕ → Option Text → Option (Option Text)
  identity_of r key now (some session_id) = some (some session_id)
  identity_of r key now none = do time ← now; anonymous_identity r key time

  abbrev pub check_proof : Text → Option Text → Option Text → Option Bool
  check_proof key (some identity) (some token) = verify mac identity token key
  check_proof key _ _ = some false

  abbrev pub judge_session :
      (List ℕ → Text → Option Text)
      → Runtime
      → Request
      → Option ℕ
      → Option Text
      → Option (Option Response)
  judge_session json_field runtime r now session =
      if is_absent session && is_bare r then some none else (do
        key ← session_key runtime
        identity ← identity_of r key now session
        valid ← check_proof key identity (proof json_field r)
        some (if valid then none else some forbidden))

  -- `some none` lets the request through, `some (some …)` answers it.
  unfoldable pub reject_mutation :
      (List ℕ → Text → Option Text) → Runtime → Request → Option ℕ → Option (Option Response)
  unfolding secret anonymous_identity verify proof find_header response_with_header
  reject_mutation json_field runtime r now =
      if is_safe_method r.method
      then some none
      else (do session ← runtime.load_session r; judge_session json_field runtime r now session)
