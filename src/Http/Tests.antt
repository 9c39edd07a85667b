-- ===== src/Http/Tests.antt =====
-- Requests of crates/axonyx-runtime/src/server.rs, mutation_security.rs and csrf_http.rs at concrete
-- texts.
use axonyx_runtime.Prelude.{
  ℕ, ◌%◌, ◌≡◌, ◌↔◌, refl, Bool, true, false, none, some, Option, List, [], ◌∷◌, ◌++◌, length, all,
  arith,
}
use axonyx_runtime.Prelude.Bytes.{ascii, IsBytes, all-IsBytes, is_utf8_from}
use axonyx_runtime.Session.Hex.{hex_encode}
use axonyx_runtime.Session.Cookie.{Cookie}
use axonyx_runtime.Http.Text.{Text}
use axonyx_runtime.Http.Request.{Request, new_request, header_value, find_header, cookie_value}
use axonyx_runtime.Http.Url.{parse_urlencoded_fields}
use axonyx_runtime.Http.Url.RoundTrip.{form_text, insert_all, parse_urlencoded_fields-form_text}
use axonyx_runtime.Http.Response.{text_response}
use axonyx_runtime.Http.Events.{SseEvent, sse_render}
use axonyx_runtime.Http.Events.Data.{message_of, read_messages, read_messages-sse_render}
use axonyx_runtime.Http.Middleware.{
  RequestContext, Phase, before, after, Chain, empty_chain, run_chain, try_builtin_hook,
  try_builtin_hooks, add_before, add_after, require_signed_session_middleware,
  require_bearer_middleware, no_store_middleware, signed_session,
}
use axonyx_runtime.Http.Middleware.Chains.{
  is_some, is_builtin, signed_session_guards, hooks-is_some,
}
use axonyx_runtime.Http.Origin.{Origin, parse_origin, rejects_mutation_request_with_origin}
use axonyx_runtime.Http.Origin.Trusted.{Trusted, rejects-Trusted}
use axonyx_runtime.Http.Origin.Canonical.{IsCanonical, parse_origin-IsCanonical}
use axonyx_runtime.Http.Csrf.{
  Runtime, anonymous_name, anonymous_cookie, delivery, reject_mutation, csrf_header,
}
use axonyx_runtime.Http.Routing.{Handler, route, match_preview_route, normalize_preview_method}
use axonyx_runtime.Http.Routing.Choice.{IsChoice, match_preview_route-IsChoice}
use axonyx_runtime.Http.Csrf.Passed.{Admitted, reject_mutation-Admitted}
use axonyx_runtime.Http.Csrf.Delivered.{reject_mutation-delivery}

abbrev zeros : List ℕ
zeros =
    0 ∷ 0 ∷ 0 ∷ 0 ∷ 0 ∷ 0 ∷ 0 ∷ 0 ∷ 0 ∷ 0 ∷ 0 ∷ 0 ∷ 0 ∷ 0 ∷ 0 ∷ 0 ∷ 0 ∷ 0 ∷ 0 ∷ 0 ∷ 0 ∷ 0 ∷ 0 ∷ 0
    ∷ 0 ∷ 0 ∷ 0 ∷ 0 ∷ 0 ∷ 0 ∷ 0 ∷ []

-- A stand-in for the MAC, of 32 bytes.
abbrev mac : List ℕ → List ℕ → List ℕ
mac key message = length message % 256 ∷ zeros

mac-IsBytes : (key message : Text) → IsBytes (mac key message) × (length (mac key message) ≡ 32)
mac-IsBytes key message = ((omega arith, all-IsBytes zeros refl), refl)

abbrev no_address : Text → Option Text
no_address text = none

abbrev no_field : Text → Text → Option Text
no_field body name = none

abbrev any_uuid : Text → Bool
any_uuid text = true

-- A key and a value that have to be encoded.
abbrev pairs : List (Text × Text)
pairs = (ascii "a b", ascii "1&2") ∷ (ascii "c", 0xc3 ∷ 0xa9 ∷ []) ∷ []

parse_urlencoded_fields-form_text_example :
    parse_urlencoded_fields (form_text pairs) ≡ insert_all pairs []
parse_urlencoded_fields-form_text_example = parse_urlencoded_fields-form_text pairs (
  (
    (all-IsBytes (ascii "a b") refl, unfold is_utf8_from in refl),
    (all-IsBytes (ascii "1&2") refl, unfold is_utf8_from in refl),
  ),
  (
    (
      (all-IsBytes (ascii "c") refl, unfold is_utf8_from in refl),
      (all-IsBytes (0xc3 ∷ 0xa9 ∷ []) refl, unfold is_utf8_from in refl),
    ),
    tt,
  ),
)

abbrev two_lines : SseEvent
two_lines = record {
  event = some (ascii "tick");
  message = b'a' ∷ b'\n' ∷ b'b' ∷ b'\n' ∷ [];
  id = none;
  retry_ms = some 10;
}

read_messages-sse_render_example :
    read_messages (sse_render two_lines ++ sse_render two_lines)
    ≡ message_of two_lines.message ++ read_messages (sse_render two_lines)
read_messages-sse_render_example =
    read_messages-sse_render two_lines (sse_render two_lines) (refl, (refl, (refl, (refl, tt))))
      (tt, tt) ((refl, (refl, (refl, (refl, tt)))), (refl, (refl, (refl, (refl, tt)))))

abbrev context : RequestContext
context = record {
  request = new_request (ascii "GET") (ascii "/a");
  route = ascii "/a";
  env = none;
}

abbrev later_hooks : List (Phase × Text)
later_hooks = (after, ascii "Cache.noStore") ∷ (before, ascii "Auth.bearer") ∷ []

abbrev guarded : Chain
guarded = add_before (require_signed_session_middleware mac []) empty_chain

abbrev extended : Chain
extended = add_before (require_bearer_middleware mac []) (add_after no_store_middleware guarded)

guarded_hook :
    try_builtin_hook mac [] before (ascii "Auth.signedSession") empty_chain ≡ some guarded
unfolding try_builtin_hook
guarded_hook = refl

extended_hooks : try_builtin_hooks mac [] later_hooks guarded ≡ some extended
unfolding try_builtin_hooks
extended_hooks = refl

no_session : signed_session mac [] context ≡ none
unfolding signed_session
no_session = refl

signed_session_guards_example :
    run_chain extended context (λ c. text_response 200 (ascii "secret"))
    ≡ run_chain extended context (λ c. text_response 500 [])
signed_session_guards_example =
    signed_session_guards mac [] empty_chain guarded extended later_hooks context
      (λ c. text_response 200 (ascii "secret")) (λ c. text_response 500 []) guarded_hook
      extended_hooks no_session

hooks-is_some_example :
    is_some (try_builtin_hooks mac [] later_hooks guarded)
    ≡ all (λ (h : Phase × Text). is_builtin h.0 h.1) later_hooks
hooks-is_some_example = hooks-is_some mac [] later_hooks guarded

-- A form that another site sends.
abbrev foreign_post : Request
foreign_post = record (new_request (ascii "POST") (ascii "/a")) {
  headers = (ascii "Host", ascii "shop.test") ∷ (ascii "Origin", ascii "https://other.test") ∷ [];
}

rejects-Trusted_example :
    (rejects_mutation_request_with_origin no_address foreign_post none ≡ false)
    ↔ Trusted no_address foreign_post none
rejects-Trusted_example = rejects-Trusted no_address foreign_post none

abbrev shop : Origin
shop = record { scheme = ascii "https"; host = ascii "shop.test"; port = 8443 }

shop_read : parse_origin no_address (ascii "HTTPS://Shop.test:8443/a") ≡ some shop
unfolding parse_origin
shop_read = refl

parse_origin-IsCanonical_example : IsCanonical no_address shop
parse_origin-IsCanonical_example =
    parse_origin-IsCanonical no_address (ascii "HTTPS://Shop.test:8443/a") shop_read

abbrev key : Text
key = ascii "0123456789abcdef0123456789abcdef"

abbrev runtime : Runtime
runtime = record {
  env = record { public_values = []; secrets = (ascii "session_key", key) ∷ [] };
  load_session = λ r. some none;
}

abbrev visit : Request
visit = new_request (ascii "GET") (ascii "/form")

abbrev identity : Text
identity = ascii "anonymous:1000:n"

abbrev token : Text
token = ascii "axcsrf1.27000000000000000000000000000000" ++ ascii "00000000000000000000000000000000"

abbrev made : Cookie
made = anonymous_cookie visit (identity ++ b'.' ∷ token)

abbrev answer : Request
answer = record (new_request (ascii "POST") (ascii "/form")) {
  headers =
      (ascii "Cookie", ascii "a=b; __Host-axonyx-csrf=" ++ (identity ++ b'.' ∷ token))
      ∷ (ascii "x-axonyx-csrf", token)
      ∷ [];
}

delivered : delivery mac any_uuid runtime visit (some 1000) (ascii "n") ≡ some (token, some made)
unfolding delivery hex_encode
delivered = refl

carried : cookie_value answer (anonymous_name answer) ≡ some made.value
unfolding cookie_value anonymous_name
carried = refl

shown : header_value answer csrf_header ≡ some token
unfolding find_header
shown = refl

reject_mutation-delivery_example :
    reject_mutation mac any_uuid no_field runtime answer (some 2799) ≡ some none
reject_mutation-delivery_example =
    reject_mutation-delivery mac any_uuid no_field runtime visit answer 1000 2799 (ascii "n") token
      made mac-IsBytes (omega arith) refl (refl, tt) delivered (omega arith) (omega arith) refl
      carried shown

reject_mutation-Admitted_example : Admitted mac any_uuid no_field runtime answer (some 2799)
reject_mutation-Admitted_example =
    reject_mutation-Admitted mac any_uuid no_field runtime answer (some 2799) mac-IsBytes
      reject_mutation-delivery_example

-- A route with a parameter and one that is a text, for the same request.
abbrev by_id : Handler Unit Unit
by_id = record {
  name = ascii "by_id";
  rust_fn = ascii "by_id";
  kind = route (ascii "get") (ascii "/posts/:id") none [];
  steps = [];
}

abbrev latest : Handler Unit Unit
latest = record {
  name = ascii "latest";
  rust_fn = ascii "latest";
  kind = route (ascii "GET") (ascii "/posts/new") none [];
  steps = [];
}

latest_first :
    match_preview_route (by_id ∷ latest ∷ []) (ascii "Get") (ascii "/posts//new")
    ≡ some (record { handler = latest; params = [] })
unfolding match_preview_route
latest_first = refl

match_preview_route-IsChoice_example :
    IsChoice
      (normalize_preview_method (ascii "Get"))
      (ascii "/posts/7")
      (by_id ∷ latest ∷ [])
      (match_preview_route (by_id ∷ latest ∷ []) (ascii "Get") (ascii "/posts/7"))
match_preview_route-IsChoice_example =
    match_preview_route-IsChoice (by_id ∷ latest ∷ []) (ascii "Get") (ascii "/posts/7")
