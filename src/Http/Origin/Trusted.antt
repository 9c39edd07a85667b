-- ===== src/Http/Origin/Trusted.antt =====
-- Which requests crates/axonyx-runtime/src/mutation_security.rs lets through.
use axonyx_runtime.Prelude.{
  ◌≡◌, ◌↔◌, refl, sym, ap, ◌∙◌, inl, inr, Bool, true, false, not, Option, none, some, ◌==◌,
  Bool-cases, and-eq-true, ==_iff, ==_refl,
}
use mathlib.Core.Path.{ap₂, subst}
use axonyx_runtime.Prelude.Bytes.{ascii, bytes_eq, bytes_eq→eq, bytes_eq_refl}
use axonyx_runtime.Http.Text.{Text, to_ascii_lowercase}
use axonyx_runtime.Http.Request.{Request, header_value}
use axonyx_runtime.Http.Origin.Described.{
  IsReadOnly, is_safe_method_iff, IsFrom, IsFromNowhere, source_of_iff, source_of-none_iff, IsOwn,
  is_foreign_site_iff, IsSourceAt, matches_host_iff, IsPublic, valid_public_origin_iff,
}
use axonyx_runtime.Http.Origin.{
  Origin, origin_eq, parse_origin, valid_public_origin, matches_host, is_safe_method, differs,
  rejects_source, is_given, source_of, is_foreign_site, is_bad_origin, judge,
  rejects_mutation_request_with_origin,
}

abbrev pub site_of : Request → Option Text
site_of r = header_value r (ascii "Sec-Fetch-Site")

abbrev pub host_of : Request → Option Text
host_of r = header_value r (ascii "Host")

module _ (ipv6 : Text → Option Text) where
  -- The configured origin, if there is one, is an origin and nothing more.
  abbrev pub IsConfigured : Option Text → Type 0
  IsConfigured none = Unit
  IsConfigured (some origin) = IsPublic ipv6 origin

  -- Why a request is let through.
  pub data Trusted (r : Request) (configured : Option Text) : Type 0 where
    safe : IsReadOnly r.method → Trusted r configured
    same_host :
        (source host : Text)
        → configured ≡ none
        → IsFrom r source
        → IsOwn (site_of r)
        → host_of r ≡ some host
        → IsSourceAt source host
        → Trusted r configured
    same_origin :
        (expected source : Text) (o : Origin)
        → configured ≡ some expected
        → IsPublic ipv6 expected
        → IsFrom r source
        → IsOwn (site_of r)
        → parse_origin ipv6 source ≡ some o
        → parse_origin ipv6 expected ≡ some o
        → Trusted r configured
    same_site :
        (site : Text)
        → configured ≡ none
        → IsFromNowhere r
        → site_of r ≡ some site
        → to_ascii_lowercase site ≡ ascii "same-origin"
        → Trusted r configured
    no_browser :
        IsConfigured configured
        → IsFromNowhere r
        → site_of r ≡ none
        → header_value r (ascii "Cookie") ≡ none
        → Trusted r configured

origin_eq→eq : (a b : Origin) → origin_eq a b ≡ true → a ≡ b
origin_eq→eq a b h =
    let (scheme, h') = and-eq-true (bytes_eq a.scheme b.scheme) _ h in
    let (host, port) = and-eq-true (bytes_eq a.host b.host) (a.port == b.port) h' in
    cc (
      bytes_eq→eq a.scheme b.scheme scheme,
      bytes_eq→eq a.host b.host host,
      (==_iff a.port b.port).0 port,
    )

origin_eq_refl : (a : Origin) → origin_eq a a ≡ true
origin_eq_refl a = rw (bytes_eq_refl a.scheme, bytes_eq_refl a.host, ==_refl a.port) refl

not-false : (b : Bool) → not b ≡ false → b ≡ true
not-false true h = refl
not-false false h = cc

given-false : (o : Option Text) → is_given o ≡ false → o ≡ none
given-false none h = refl
given-false (some value) h = cc

-- Two texts that do not differ name the same origin.
differs-false :
    (a b : Option Origin) → differs a b ≡ false → (o : Origin) × (a ≡ some o) × (b ≡ some o)
differs-false none b h = cc
differs-false (some a) none h = cc
differs-false (some a) (some b) h =
    (a, refl, ap some (sym (origin_eq→eq a b (not-false (origin_eq a b) h))))

host_given :
    (source : Text) (host : Option Text)
    → matches_host source host ≡ true
    → (name : Text) × (host ≡ some name) × (matches_host source (some name) ≡ true)
unfolding matches_host
host_given source none h = cc
host_given source (some name) h = (name, refl, h)

module _ (ipv6 : Text → Option Text) (r : Request) where
  IsOwn-site :
      (site : Option Text) → site_of r ≡ site → is_foreign_site site ≡ false → IsOwn (site_of r)
  IsOwn-site site e own = subst IsOwn (sym e) ((is_foreign_site_iff site).0 own)

  foreign_of : IsOwn (site_of r) → is_foreign_site (site_of r) ≡ false
  foreign_of own = (is_foreign_site_iff (site_of r)).1 own

  judged :
      (source site configured : Option Text)
      → source_of r ≡ source
      → site_of r ≡ site
      → is_foreign_site site ≡ false
      → IsConfigured ipv6 configured
      → judge ipv6 source site configured r ≡ false
      → Trusted ipv6 r configured
  judged (some source) site none e e' own fine h =
      let (host, given, matches) =
        host_given source (host_of r) (not-false (matches_host source (host_of r)) h) in
      same_host source host refl ((source_of_iff r source).0 e) (IsOwn-site site e' own) given
        ((matches_host_iff source host).0 matches)
  judged (some source) site (some expected) e e' own fine h =
      let (o, p, q) = differs-false (parse_origin ipv6 source) (parse_origin ipv6 expected) h in
      same_origin expected source o refl fine ((source_of_iff r source).0 e)
        (IsOwn-site site e' own) p q
  judged none (some site) none e e' own fine h =
      same_site site refl ((source_of-none_iff r).0 e) e' ((is_foreign_site_iff (some site)).0 own)
  judged none (some site) (some expected) e e' own fine h = cc
  judged none none configured e e' own fine h =
      no_browser fine ((source_of-none_iff r).0 e) e' (given-false _ h)

  IsConfigured-fine :
      (configured : Option Text)
      → is_bad_origin ipv6 configured ≡ false
      → IsConfigured ipv6 configured
  IsConfigured-fine none h = tt
  IsConfigured-fine (some origin) h =
      (valid_public_origin_iff ipv6 origin).0 (not-false (valid_public_origin ipv6 origin) h)

  Trusted-of :
      (configured : Option Text)
      → rejects_mutation_request_with_origin ipv6 r configured ≡ false
      → Trusted ipv6 r configured
  unfolding rejects_mutation_request_with_origin
  Trusted-of configured h = elim (Bool-cases (is_safe_method r.method)) [
    | inl reads ↦ safe ((is_safe_method_iff r.method).0 reads)
    | inr writes ↦ elim (Bool-cases (is_bad_origin ipv6 configured)) [
      | inl bad ↦ cc (rw (writes, bad) at h)
      | inr fine ↦ elim (Bool-cases (is_foreign_site (site_of r))) [
        | inl foreign ↦ cc (rw (writes, fine, foreign) at h)
        | inr own ↦
            judged (source_of r) (site_of r) configured refl refl own
              (IsConfigured-fine configured fine) (rw (writes, fine, own) at h)
      ]
    ]
  ]

  let_through :
      (configured : Option Text)
      → is_bad_origin ipv6 configured ≡ false
      → is_foreign_site (site_of r) ≡ false
      → judge ipv6 (source_of r) (site_of r) configured r ≡ false
      → rejects_mutation_request_with_origin ipv6 r configured ≡ false
  unfolding rejects_mutation_request_with_origin
  let_through configured fine own h = elim (Bool-cases (is_safe_method r.method)) [
    | inl reads ↦ rw reads refl
    | inr writes ↦ rw (writes, fine, own) h
  ]

  judge_source :
      (source site configured : Option Text)
      → source_of r ≡ source
      → site_of r ≡ site
      → judge ipv6 source site configured r ≡ false
      → judge ipv6 (source_of r) (site_of r) configured r ≡ false
  judge_source source site configured e e' h = ap₂ (λ s t. judge ipv6 s t configured r) e e' ∙ h

  judge_given :
      (source : Text) (configured : Option Text)
      → source_of r ≡ some source
      → rejects_source ipv6 source configured (host_of r) ≡ false
      → judge ipv6 (source_of r) (site_of r) configured r ≡ false
  judge_given source configured e h = ap (λ s. judge ipv6 s (site_of r) configured r) e ∙ h

  bad_configured :
      (configured : Option Text)
      → IsConfigured ipv6 configured
      → is_bad_origin ipv6 configured ≡ false
  bad_configured none h = refl
  bad_configured (some origin) h = ap not ((valid_public_origin_iff ipv6 origin).1 h)

  rejects_of :
      (configured : Option Text)
      → Trusted ipv6 r configured
      → rejects_mutation_request_with_origin ipv6 r configured ≡ false
  rejects_of configured (safe h) =
      unfold rejects_mutation_request_with_origin in rw ((is_safe_method_iff r.method).1 h) refl
  rejects_of configured (same_host source host c e own given at_host) =
      let matches = (matches_host_iff source host).1 at_host in
      rw c (
        let_through none refl (foreign_of own) (
          judge_given source none ((source_of_iff r source).1 e)
            (ap not (ap (matches_host source) given ∙ matches))))
  rejects_of configured (same_origin expected source o c fine e own p q) = rw c (
      let_through (some expected) (bad_configured (some expected) fine) (foreign_of own) (
        judge_given source (some expected) ((source_of_iff r source).1 e)
          (ap₂ differs p q ∙ ap not (origin_eq_refl o))))
  rejects_of configured (same_site site c e e' same) = rw c (
      let_through none refl (ap is_foreign_site e' ∙ (is_foreign_site_iff (some site)).1 same)
        (judge_source none (some site) none ((source_of-none_iff r).1 e) e' refl))
  rejects_of configured (no_browser fine e e' cookie) =
      let_through configured (bad_configured configured fine) (ap is_foreign_site e')
        (judge_source none none configured ((source_of-none_iff r).1 e) e' (ap is_given cookie))

  -- A request is let through exactly if it is trusted. Its method is GET, HEAD or OPTIONS, in letters of
  -- either case. Or no origin is configured, and its source has the scheme http or https and an
  -- authority without spaces, `@`, backslashes and commas that is its host, again in either case. Or
  -- its source and the configured origin are read as the same scheme, host and port. Or no origin is
  -- configured, it names no source, and the browser says that it is of the same origin. Or it has no
  -- source, no such word of a browser and no cookie. The source is the Origin header, or without one
  -- the Referer. In all but the first case a configured origin is read and holds no path, query or
  -- fragment, and the browser does not say that the request is of another site.
  pub rejects-Trusted :
      (configured : Option Text)
      → (rejects_mutation_request_with_origin ipv6 r configured ≡ false) ↔ Trusted ipv6 r configured
  rejects-Trusted configured = (Trusted-of configured, rejects_of configured)
