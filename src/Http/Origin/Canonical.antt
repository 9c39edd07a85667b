-- ===== src/Http/Origin/Canonical.antt =====
-- What `parse_origin` of crates/axonyx-runtime/src/mutation_security.rs gives.
use axonyx_runtime.Prelude.{
  ◌≢◌, All, ℕ, ◌+◌, ◌-◌, ◌*◌, ◌≤◌, ◌<◌, ◌≡◌, ◌⊎◌, ap, ◌∙◌, inl, inr, true, not, ◌&&◌, ◌||◌, Option,
  none, some, [], ◌∷◌, leb, ◌==◌, guard, all, Bool-cases, and-eq-true, arith, leb→le, >>=-eq-some,
  guard-eq-some, some-pair_inj,
}
use mathlib.Core.Option.{some-injective}
use mathlib.Core.Path.{subst}
use axonyx_runtime.Prelude.Bytes.{ascii, bytes_eq, bytes_eq→eq}
use axonyx_runtime.Validation.{split_once}
use axonyx_runtime.Http.Text.{
  Text, lower, to_ascii_lowercase, until, split_once_text, has_space, has_control, is_digit,
  parse_digits, parse_nonempty, parse_unsigned,
}
use axonyx_runtime.Http.Origin.{
  Origin, separator, default_port, any, is_suspicious, ends_authority, is_host_byte, max_port,
  port_of, named_host, is_empty_text, bracketed, host_port, authority_parts, parse_origin,
}

parse_digits-le :
    (max acc : ℕ) (s : Text) {n : ℕ} → acc ≤ max → parse_digits max acc s ≡ some n → n ≤ max
unfolding parse_digits
parse_digits-le max acc [] h e = subst (λ n. n ≤ max) (some-injective _ _ e) h
parse_digits-le max acc (b ∷ s) h e =
    let (u, g, rest) = >>=-eq-some (guard (is_digit b && leb (acc * 10 + (b - b'0')) max)) _ e in
    let (digit, fits) = and-eq-true (is_digit b) _ (guard-eq-some _ g) in
    parse_digits-le max (acc * 10 + (b - b'0')) s (leb→le _ _ fits) rest

parse_unsigned-le : (max : ℕ) (s : Text) {n : ℕ} → parse_unsigned max s ≡ some n → n ≤ max
unfolding parse_unsigned
parse_unsigned-le max [] e = cc
parse_unsigned-le max (b ∷ s) e = elim (Bool-cases (b == b'+')) [
  | inl plus ↦ after_plus s (rw plus at e)
  | inr other ↦ parse_digits-le max 0 (b ∷ s) (omega arith) (rw other at e)
]
  where
    after_plus : {m : ℕ} (t : Text) → parse_nonempty max t ≡ some m → m ≤ max
    after_plus [] e = cc
    after_plus (c ∷ t) e = parse_digits-le max 0 (c ∷ t) (omega arith) e

-- A small letter, a digit, a period or a hyphen.
abbrev pub IsNameByte : ℕ → Type 0
IsNameByte b = ((b'a' ≤ b) × (b ≤ b'z')) ⊎ (((b'0' ≤ b) × (b ≤ b'9')) ⊎ ((b ≡ b'.') ⊎ (b ≡ b'-')))

-- A name in small letters.
abbrev pub IsName : Text → Type 0
IsName host = (host ≢ []) × All IsNameByte host

lower-IsNameByte : (b : ℕ) → is_host_byte b ≡ true → IsNameByte (lower b)
lower-IsNameByte b h = ground arith

lower-All : (host : Text) → all is_host_byte host ≡ true → All IsNameByte (to_ascii_lowercase host)
lower-All [] h = tt
lower-All (b ∷ s) h =
    let (p, q) = and-eq-true (is_host_byte b) (all is_host_byte s) h in
    (lower-IsNameByte b p, lower-All s q)

lower-IsName :
    (host : Text)
    → not (is_empty_text host) ≡ true
    → all is_host_byte host ≡ true
    → IsName (to_ascii_lowercase host)
lower-IsName [] filled h = cc filled
lower-IsName (b ∷ s) filled h = ((λ e. cc e), lower-All (b ∷ s) h)

default_port-cases :
    (scheme : Text) {n : ℕ}
    → default_port scheme ≡ some n
    → ((scheme ≡ ascii "http") ⊎ (scheme ≡ ascii "https")) × (n ≤ max_port)
default_port-cases scheme e = elim (Bool-cases (bytes_eq scheme (ascii "http"))) [
  | inl http ↦ (
    inl (bytes_eq→eq scheme (ascii "http") http),
    subst (λ n. n ≤ max_port) (some-injective _ _ (rw http at e)) (omega arith),
  )
  | inr other ↦ elim (Bool-cases (bytes_eq scheme (ascii "https"))) [
    | inl https ↦ (
      inr (bytes_eq→eq scheme (ascii "https") https),
      subst (λ n. n ≤ max_port) (some-injective _ _ (rw (other, https) at e)) (omega arith),
    )
    | inr none_of ↦ cc (rw (other, none_of) at e)
  ]
]

named_host-le :
    (port : ℕ) (authority : Text) (parts : Option (Text × Text)) {host : Text} {n : ℕ}
    → port ≤ max_port
    → named_host port authority parts ≡ some (host, n)
    → n ≤ max_port
named_host-le port authority none h e = subst (λ n. n ≤ max_port) (some-pair_inj e).1 h
named_host-le port authority (some (host, digits)) h e =
    let (m, parsed, rest) = >>=-eq-some (parse_unsigned max_port digits) _ e in
    subst (λ n. n ≤ max_port) (some-pair_inj rest).1 (parse_unsigned-le max_port digits parsed)

port_of-le :
    (port : ℕ) (suffix : Text) {n : ℕ}
    → port ≤ max_port
    → port_of port suffix ≡ some n
    → n ≤ max_port
port_of-le port [] h e = subst (λ n. n ≤ max_port) (some-injective _ _ e) h
port_of-le port (b ∷ s) h e =
    let (u, g, rest) = >>=-eq-some (guard (b == b':')) _ e in parse_unsigned-le max_port s rest

module _ (ipv6 : Text → Option Text) where
  -- The host is a name in small letters, or the canonical text of an IPv6 address.
  abbrev pub IsHost : Text → Type 0
  IsHost host = IsName host ⊎ ((address : Text) × (ipv6 address ≡ some host))

  pub record IsCanonical (o : Origin) : Type 0 where
    pub web : (o.scheme ≡ ascii "http") ⊎ (o.scheme ≡ ascii "https")
    pub named : IsHost o.host
    pub positive : 0 < o.port
    pub bounded : o.port ≤ max_port

  bracketed-IsHost :
      (port : ℕ) (rest : Text) {host : Text} {n : ℕ}
      → port ≤ max_port
      → bracketed ipv6 port rest ≡ some (host, n)
      → IsHost host × (n ≤ max_port)
  unfolding bracketed
  bracketed-IsHost port rest h e =
      let ((address, suffix), cut, e1) = >>=-eq-some (split_once b']' rest) _ e in
      let (canonical, parsed, e2) = >>=-eq-some (ipv6 address) _ e1 in
      let (m, number, e3) = >>=-eq-some (port_of port suffix) _ e2 in
      let (same, same') = some-pair_inj e3 in
      (
        inr (address, parsed ∙ ap some same),
        subst (λ n. n ≤ max_port) same' (port_of-le port suffix h number),
      )

  host_port-IsHost :
      (port : ℕ) (authority : Text) {host : Text} {n : ℕ}
      → port ≤ max_port
      → host_port ipv6 port authority ≡ some (host, n)
      → IsHost host × (n ≤ max_port)
  unfolding host_port
  host_port-IsHost port authority h e =
      let ((name, m), named, e1) =
        >>=-eq-some (named_host port authority (split_once b':' authority)) _ e in
      let (u, g, e2) =
        >>=-eq-some (guard (not (is_empty_text name) && all is_host_byte name)) _ e1 in
      let (filled, bytes) = and-eq-true (not (is_empty_text name)) _ (guard-eq-some _ g) in
      let (same, same') = some-pair_inj e2 in
      (
        inl (subst IsName same (lower-IsName name filled bytes)),
        subst (λ n. n ≤ max_port) same'
            (named_host-le port authority (split_once b':' authority) h named),
      )

  authority-IsHost :
      (port : ℕ) (authority : Text) {host : Text} {n : ℕ}
      → port ≤ max_port
      → authority_parts ipv6 port authority ≡ some (host, n)
      → IsHost host × (n ≤ max_port)
  authority-IsHost port [] h e = host_port-IsHost port [] h e
  authority-IsHost port (b ∷ s) h e = elim (Bool-cases (b == b'[')) [
    | inl bracket ↦ bracketed-IsHost port s h (rw bracket at e)
    | inr other ↦ host_port-IsHost port (b ∷ s) h (rw other at e)
  ]

  -- An origin that is read has the scheme http or https, a port from 1 to 65535, and as its host a
  -- name, not empty, of small letters, digits, periods and hyphens, or the canonical text of an IPv6
  -- address.
  pub parse_origin-IsCanonical :
      (value : Text) {o : Origin} → parse_origin ipv6 value ≡ some o → IsCanonical o
  unfolding parse_origin
  parse_origin-IsCanonical value e =
      let ((scheme, rest), cut, e1) = >>=-eq-some (split_once_text separator value) _ e in
      let (port, known, e2) = >>=-eq-some (default_port (to_ascii_lowercase scheme)) _ e1 in
      let (u, harmless, e3) =
        >>=-eq-some
          (guard (not (has_space value || (has_control value || any is_suspicious value)))) _ e2 in
      let authority = until ends_authority rest in
      let ((host, n), parts, e4) = >>=-eq-some (authority_parts ipv6 port authority) _ e3 in
      let (u', nonzero, e5) = >>=-eq-some (guard (not (n == 0))) _ e4 in
      let (web, small) = default_port-cases (to_ascii_lowercase scheme) known in
      let (named, bounded) = authority-IsHost port authority small parts in
      subst IsCanonical (some-injective _ _ e5) (record {
        web = web;
        named = named;
        positive = positive n (guard-eq-some _ nonzero);
        bounded = bounded;
      })
    where
      positive : (n : ℕ) → not (n == 0) ≡ true → 0 < n
      positive n h = ground arith
