-- ===== src/Http/Origin.antt =====
-- The boundary of mutating browser requests: crates/axonyx-runtime/src/mutation_security.rs. An IPv6
-- address is read and written by the standard library: `ipv6` gives the canonical text of one.
pub mod Described
pub mod Trusted
pub mod Canonical
use axonyx_runtime.Prelude.{
  ℕ, ◌+◌, Bool, true, false, not, ◌&&◌, ◌||◌, Option, none, some, List, [], ◌∷◌, ◌++◌, ltb, leb,
  ◌==◌, if◌then◌else◌, ◌>>=◌, ◌>>◌, guard, all,
}
use axonyx_runtime.Prelude.Bytes.{ascii, bytes_eq}
use axonyx_runtime.Validation.{split_once, has_byte, is_alphanumeric}
use axonyx_runtime.Http.Text.{
  Text, to_ascii_lowercase, to_ascii_uppercase, eq_ignore_ascii_case, until, split_once_text,
  has_space, has_control, parse_unsigned,
}
use axonyx_runtime.Http.Request.{Request, header_value, find_header}

-- Scheme, host and port.
pub record Origin : Type 0 where
  pub scheme : Text
  pub host : Text
  pub port : ℕ

abbrev pub origin_eq : Origin → Origin → Bool
origin_eq a b = bytes_eq a.scheme b.scheme && (bytes_eq a.host b.host && a.port == b.port)

abbrev pub separator : Text
separator = ascii "://"

abbrev pub default_port : Text → Option ℕ
default_port scheme =
    if bytes_eq scheme (ascii "http")
    then some 80
    else if bytes_eq scheme (ascii "https")
    then some 443
    else none

-- `'@'`, a backslash or a comma.
abbrev pub is_suspicious : ℕ → Bool
is_suspicious b = b == b'@' || (b == b'\\' || b == b',')

abbrev pub any : (ℕ → Bool) → Text → Bool
any p [] = false
any p (b ∷ s) = p b || any p s

-- Where the authority ends.
abbrev pub ends_authority : ℕ → Bool
ends_authority b = b == b'/' || (b == b'?' || b == b'#')

abbrev pub is_host_byte : ℕ → Bool
is_host_byte b = is_alphanumeric b || (b == b'.' || b == b'-')

abbrev pub max_port : ℕ
max_port = 65535

abbrev pub port_of : ℕ → Text → Option ℕ
port_of port [] = some port
port_of port (b ∷ s) = guard (b == b':') >> parse_unsigned max_port s

abbrev pub named_host : ℕ → Text → Option (Text × Text) → Option (Text × ℕ)
named_host port authority none = some (authority, port)
named_host port authority (some (host, digits)) = do
  n ← parse_unsigned max_port digits
  some (host, n)

abbrev pub is_empty_text : Text → Bool
is_empty_text [] = true
is_empty_text (b ∷ s) = false

abbrev pub after_separator : Option (Text × Text) → Text
after_separator none = []
after_separator (some (scheme, rest)) = rest

abbrev pub is_some_origin : Option Origin → Bool
is_some_origin none = false
is_some_origin (some o) = true

abbrev pub is_web_scheme : Text → Bool
is_web_scheme scheme =
    eq_ignore_ascii_case scheme (ascii "https") || eq_ignore_ascii_case scheme (ascii "http")

abbrev pub matches_authority : Option (Text × Text) → Text → Bool
matches_authority none host = false
matches_authority (some (scheme, rest)) host =
    let authority = until ends_authority rest in
    is_web_scheme scheme
    && not (is_empty_text authority || (has_space authority || any is_suspicious authority))
    && eq_ignore_ascii_case authority host

unfoldable pub matches_host : Text → Option Text → Bool
unfolding split_once_text until has_space
matches_host origin none = false
matches_host origin (some host) = matches_authority (split_once_text separator origin) host

abbrev pub is_safe_method : Text → Bool
is_safe_method method =
    let name = to_ascii_uppercase method in
    bytes_eq name (ascii "GET") || (bytes_eq name (ascii "HEAD") || bytes_eq name (ascii "OPTIONS"))

abbrev pub differs : Option Origin → Option Origin → Bool
differs (some a) (some b) = not (origin_eq a b)
differs _ _ = true

abbrev pub is_given : Option Text → Bool
is_given none = false
is_given (some value) = true

-- The `Origin` header, or else the `Referer`.
abbrev pub source_of : Request → Option Text
source_of r = elim (header_value r (ascii "Origin")) [
  | some origin ↦ some origin
  | none ↦ header_value r (ascii "Referer")
]

abbrev pub is_foreign_site : Option Text → Bool
is_foreign_site none = false
is_foreign_site (some site) = not (eq_ignore_ascii_case site (ascii "same-origin"))

module _ (ipv6 : Text → Option Text) where
  -- The text after the opening bracket.
  unfoldable pub bracketed : ℕ → Text → Option (Text × ℕ)
  unfolding split_once parse_unsigned
  bracketed port rest = do
    (address, suffix) ← split_once b']' rest
    host ← ipv6 address
    n ← port_of port suffix
    some (host, n)

  unfoldable pub host_port : ℕ → Text → Option (Text × ℕ)
  unfolding split_once parse_unsigned
  host_port port authority = do
    (host, n) ← named_host port authority (split_once b':' authority)
    guard (not (is_empty_text host) && all is_host_byte host)
    some (to_ascii_lowercase host, n)

  abbrev pub authority_parts : ℕ → Text → Option (Text × ℕ)
  authority_parts port [] = host_port port []
  authority_parts port (b ∷ s) = if b == b'[' then bracketed port s else host_port port (b ∷ s)

  unfoldable pub parse_origin : Text → Option Origin
  unfolding split_once_text has_space has_control until bracketed host_port
  parse_origin value = do
    (scheme, rest) ← split_once_text separator value
    port ← default_port (to_ascii_lowercase scheme)
    guard (not (has_space value || (has_control value || any is_suspicious value)))
    (host, n) ← authority_parts port (until ends_authority rest)
    guard (not (n == 0))
    some record { scheme = to_ascii_lowercase scheme; host = host; port = n }

  unfoldable pub valid_public_origin : Text → Bool
  unfolding parse_origin split_once_text
  valid_public_origin value =
      is_some_origin (parse_origin value)
      && not (any ends_authority (after_separator (split_once_text separator value)))

  abbrev pub rejects_source : Text → Option Text → Option Text → Bool
  rejects_source origin (some expected) host = differs (parse_origin origin) (parse_origin expected)
  rejects_source origin none host = not (matches_host origin host)

  abbrev pub is_bad_origin : Option Text → Bool
  is_bad_origin none = false
  is_bad_origin (some origin) = not (valid_public_origin origin)

  abbrev pub judge : Option Text → Option Text → Option Text → Request → Bool
  judge (some origin) site public_origin r =
      rejects_source origin public_origin (header_value r (ascii "Host"))
  judge none (some site) public_origin r = is_given public_origin
  judge none none public_origin r = is_given (header_value r (ascii "Cookie"))

  unfoldable pub rejects_mutation_request_with_origin : Request → Option Text → Bool
  unfolding find_header parse_origin valid_public_origin matches_host
  rejects_mutation_request_with_origin r public_origin =
      if is_safe_method r.method
      then false
      else if is_bad_origin public_origin
      then true
      else if is_foreign_site (header_value r (ascii "Sec-Fetch-Site"))
      then true
      else judge (source_of r) (header_value r (ascii "Sec-Fetch-Site")) public_origin r

  unfoldable pub rejects_mutation_request : Request → Bool
  unfolding rejects_mutation_request_with_origin
  rejects_mutation_request r = rejects_mutation_request_with_origin r none
