-- ===== src/Http/Middleware.antt =====
-- Middleware chains and the route table of crates/axonyx-runtime/src/server.rs, with the secrets of
-- `AxEnv` (crates/axonyx-runtime/src/backend.rs). A middleware is a function, as in the code; the
-- MAC and the text of the JSON error are parameters.
pub mod Chains
use axonyx_runtime.Prelude.{
  ℕ, Bool, true, false, not, ◌&&◌, Option, none, some, List, [], ◌∷◌, ◌++◌, if◌then◌else◌, ◌>>=◌,
}
use axonyx_runtime.Prelude.Bytes.{ascii, bytes_eq}
use axonyx_runtime.Session.Tokens.{signed_cookie}
use axonyx_runtime.Http.Text.{Text, eq_ignore_ascii_case, to_ascii_lowercase, trim}
use axonyx_runtime.Http.Request.{
  Map, map_get, Request, bearer_token, cookie_value, request_path_without_query,
}
use axonyx_runtime.Http.Response.{Response, response_with_header, json_response, text_response}

-- `AxEnv`
pub record Env : Type 0 where
  pub public_values : Map
  pub secrets : Map

unfoldable pub normalize_env_key : Text → Text
unfolding trim
normalize_env_key key = to_ascii_lowercase (trim key)

-- `none` is the error of a missing key.
unfoldable pub secret : Env → Text → Option Text
unfolding map_get normalize_env_key
secret env key = elim (map_get key env.secrets) [
  | some value ↦ some value
  | none ↦ map_get (normalize_env_key key) env.secrets
]

pub record RequestContext : Type 0 where
  pub request : Request
  pub route : Text
  pub env : Option Env

pub data MiddlewareResult : Type 0 where
  continue_on : MiddlewareResult
  stop : Response → MiddlewareResult

abbrev pub BeforeMiddleware : Type 0
BeforeMiddleware = RequestContext → MiddlewareResult

abbrev pub AfterMiddleware : Type 0
AfterMiddleware = RequestContext → Response → Response

pub data Phase : Type 0 where
  before after : Phase

pub record Chain : Type 0 where
  pub befores : List BeforeMiddleware
  pub afters : List AfterMiddleware

abbrev pub empty_chain : Chain
empty_chain = record { befores = []; afters = [] }

abbrev pub add_before : BeforeMiddleware → Chain → Chain
add_before m c = record { befores = c.befores ++ m ∷ []; afters = c.afters }

abbrev pub add_after : AfterMiddleware → Chain → Chain
add_after m c = record { befores = c.befores; afters = c.afters ++ m ∷ [] }

unfoldable pub run_after : List AfterMiddleware → RequestContext → Response → Response
run_after [] context response = response
run_after (m ∷ ms) context response = run_after ms context (m context response)

unfoldable pub run_before :
    List BeforeMiddleware → RequestContext → (RequestContext → Response) → Response
run_before [] context handler = handler context
run_before (m ∷ ms) context handler = elim (m context) [
  | continue_on ↦ run_before ms context handler
  | stop response ↦ response
]

unfoldable pub run_chain : Chain → RequestContext → (RequestContext → Response) → Response
unfolding run_before run_after
run_chain c context handler = run_after c.afters context (run_before c.befores context handler)

unfoldable pub security_headers_middleware : AfterMiddleware
unfolding response_with_header
security_headers_middleware context response =
    response_with_header (ascii "Referrer-Policy") (ascii "strict-origin-when-cross-origin")
      (response_with_header (ascii "X-Content-Type-Options") (ascii "nosniff") response)

unfoldable pub no_store_middleware : AfterMiddleware
unfolding response_with_header
no_store_middleware context response =
    response_with_header (ascii "Cache-Control") (ascii "no-store") response

module _ (mac : List ℕ → List ℕ → List ℕ) (unauthorized_json : Text) where
  abbrev pub unauthorized : MiddlewareResult
  unauthorized = stop (json_response 401 unauthorized_json)

  abbrev pub unless_none : Option Text → MiddlewareResult
  unless_none none = unauthorized
  unless_none (some value) = continue_on

  unfoldable pub require_session_middleware : BeforeMiddleware
  unfolding cookie_value
  require_session_middleware context = unless_none (cookie_value context.request (ascii "session"))

  unfoldable pub require_bearer_middleware : BeforeMiddleware
  unfolding bearer_token
  require_bearer_middleware context = unless_none (bearer_token context.request)

  -- `AxAuth::signed_session` under the secret of the environment.
  unfoldable pub signed_session : RequestContext → Option Text
  unfolding cookie_value secret signed_cookie
  signed_session context = do
    env ← context.env
    key ← secret env (ascii "session_key")
    signed_cookie mac (cookie_value context.request (ascii "session")) key

  unfoldable pub require_signed_session_middleware : BeforeMiddleware
  unfolding signed_session
  require_signed_session_middleware context = unless_none (signed_session context)

  abbrev pub before_hook : Text → Option BeforeMiddleware
  before_hook hook =
      if bytes_eq hook (ascii "Auth.session")
      then some require_session_middleware
      else if bytes_eq hook (ascii "Auth.bearer")
      then some require_bearer_middleware
      else if bytes_eq hook (ascii "Auth.signedSession")
      then some require_signed_session_middleware
      else none

  abbrev pub after_hook : Text → Option AfterMiddleware
  after_hook hook =
      if bytes_eq hook (ascii "Security.headers")
      then some security_headers_middleware
      else if bytes_eq hook (ascii "Cache.noStore")
      then some no_store_middleware
      else none

  abbrev pub add_after_hook : Text → Chain → Option Chain
  add_after_hook hook c = do m ← after_hook hook; some (add_after m c)

  -- `none` is the error of an unknown hook.
  unfoldable pub try_builtin_hook : Phase → Text → Chain → Option Chain
  unfolding require_session_middleware require_bearer_middleware require_signed_session_middleware
      security_headers_middleware no_store_middleware
  try_builtin_hook before hook c = elim (before_hook hook) [
    | some m ↦ some (add_before m c)
    | none ↦ add_after_hook hook c
  ]
  try_builtin_hook after hook c = add_after_hook hook c

  unfoldable pub try_builtin_hooks : List (Phase × Text) → Chain → Option Chain
  unfolding try_builtin_hook
  try_builtin_hooks [] c = some c
  try_builtin_hooks ((phase, hook) ∷ hooks) c = do
    c' ← try_builtin_hook phase hook c
    try_builtin_hooks hooks c'

-- `AxRouteTarget`
pub data Target : Type 0 where
  handler : (RequestContext → Response) → Target
  response : Response → Target

abbrev pub handle_target : Target → RequestContext → Response
handle_target (handler f) context = f context
handle_target (response r) context = r

pub record Route : Type 0 where
  pub method : Text
  pub path : Text
  pub middleware : Chain
  pub target : Target

unfoldable pub route_matches : Route → Request → Bool
unfolding request_path_without_query
route_matches route request =
    eq_ignore_ascii_case route.method request.method
    && bytes_eq (request_path_without_query request.target) route.path

unfoldable pub handle_route : Route → Request → Option Env → Response
unfolding run_chain
handle_route route request env =
    run_chain route.middleware (record { request = request; route = route.path; env = env })
      (λ context. handle_target route.target context)

unfoldable pub route_for : List Route → Request → Option Route
unfolding route_matches
route_for [] request = none
route_for (r ∷ rs) request = if route_matches r request then some r else route_for rs request

abbrev pub handle_found : Option Route → Request → Option Env → Option Response
handle_found none request env = none
handle_found (some route) request env = some (handle_route route request env)

-- `AxRouteTable::handle`
unfoldable pub handle_table : List Route → Option Env → Request → Option Response
unfolding route_for handle_route
handle_table routes env request = handle_found (route_for routes request) request env

abbrev pub or_not_found : Option Response → Response
or_not_found none = text_response 404 (ascii "Not Found")
or_not_found (some r) = r

-- `AxMemoryServerAdapter::handle`
unfoldable pub handle_request : List Route → Option Env → Request → Response
unfolding handle_table
handle_request routes env request = or_not_found (handle_table routes env request)
