-- ===== src/Http/Request.antt =====
-- `AxHttpRequest` of crates/axonyx-runtime/src/server.rs and what reads it. A `BTreeMap` is the list of
-- its entries in the order of its keys.
use axonyx_runtime.Prelude.{
  ℕ, Bool, true, false, ◌&&◌, ◌||◌, Option, none, some, List, [], ◌∷◌, ltb, ◌==◌, if◌then◌else◌,
  ◌>>=◌,
}
use axonyx_runtime.Prelude.Bytes.{ascii, bytes_eq}
use axonyx_runtime.Validation.{split_once}
use axonyx_runtime.Session.Tokens.{strip_prefix}
use axonyx_runtime.Http.Text.{Text, eq_ignore_ascii_case, pieces, split, trim}

abbrev pub Map : Type 0
Map = List (Text × Text)

-- The order of `String`.
unfoldable pub text_lt : Text → Text → Bool
text_lt [] [] = false
text_lt [] (b ∷ t) = true
text_lt (a ∷ s) [] = false
text_lt (a ∷ s) (b ∷ t) = ltb a b || (a == b && text_lt s t)

-- `BTreeMap::insert` and `get`.
unfoldable pub map_insert : Text → Text → Map → Map
unfolding text_lt
map_insert key value [] = (key, value) ∷ []
map_insert key value ((k, v) ∷ m) =
    let rest = map_insert key value m in
    if bytes_eq k key
    then (k, value) ∷ m
    else if text_lt key k
    then (key, value) ∷ (k, v) ∷ m
    else (k, v) ∷ rest

unfoldable pub map_get : Text → Map → Option Text
map_get key [] = none
map_get key ((k, v) ∷ m) = if bytes_eq k key then some v else map_get key m

pub record IncomingFile : Type 0 where
  pub field_name : Text
  pub file_name : Text
  pub content_type : Option Text
  pub bytes : List ℕ

pub record MultipartForm : Type 0 where
  pub fields : Map
  pub files : List (Text × List IncomingFile)

pub record Request : Type 0 where
  pub method : Text
  pub target : Text
  pub headers : Map
  pub body : List ℕ
  pub multipart : Option MultipartForm

abbrev pub new_request : Text → Text → Request
new_request method target = record {
  method = method;
  target = target;
  headers = [];
  body = [];
  multipart = none;
}

unfoldable pub request_with_header : Text → Text → Request → Request
unfolding map_insert
request_with_header name value r = record r { headers = map_insert name value r.headers }

abbrev pub request_with_body : List ℕ → Request → Request
request_with_body body r = record r { body = body }

-- The first header whose name matches.
unfoldable pub find_header : Text → Map → Option Text
find_header name [] = none
find_header name ((header, value) ∷ m) =
    if eq_ignore_ascii_case header name then some value else find_header name m

abbrev pub header_value : Request → Text → Option Text
header_value r name = find_header name r.headers

abbrev pub match_pair : Text → Option (Text × Text) → Option Text
match_pair name none = none
match_pair name (some (key, value)) = if bytes_eq key name then some value else none

-- `cookies.split(';').find_map(…)`
unfoldable pub find_cookie : Text → List Text → Option Text
unfolding trim split_once
find_cookie name [] = none
find_cookie name (pair ∷ pairs) =
    let rest = find_cookie name pairs in
    elim (match_pair name (split_once b'=' (trim pair))) [ some value ↦ some value | none ↦ rest ]

unfoldable pub cookie_value : Request → Text → Option Text
unfolding find_header find_cookie split
cookie_value r name = do
  cookies ← header_value r (ascii "Cookie")
  find_cookie name (pieces b';' cookies)

abbrev pub nonempty : Text → Option Text
nonempty [] = none
nonempty (b ∷ s) = some (b ∷ s)

abbrev pub bearer_rest : Text → Option Text
bearer_rest authorization = elim (strip_prefix (ascii "Bearer ") authorization) [
  | some rest ↦ some rest
  | none ↦ strip_prefix (ascii "bearer ") authorization
]

unfoldable pub bearer_token : Request → Option Text
unfolding find_header trim strip_prefix
bearer_token r = do
  authorization ← header_value r (ascii "Authorization")
  rest ← bearer_rest (trim authorization)
  nonempty (trim rest)

abbrev pub cut_query : Text → Option (Text × Text) → Text
cut_query target none = target
cut_query target (some (path, query)) = path

unfoldable pub request_path_without_query : Text → Text
unfolding split_once
request_path_without_query target = cut_query target (split_once b'?' target)
