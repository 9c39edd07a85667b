-- ===== src/Http/Origin/Described.antt =====
-- What crates/axonyx-runtime/src/mutation_security.rs asks of a method, of a source and of an origin,
-- without its own functions.
use axonyx_runtime.Prelude.{
  ℕ, ◌≡◌, ◌≢◌, ◌⊎◌, ◌↔◌, refl, sym, ap, ◌∙◌, inl, inr, Bool, true, false, not, ◌||◌, Option, none,
  some, [], ◌∷◌, ◌==◌, Bool-cases, Option-cases, and-eq-true, ==_iff,
}
use mathlib.Core.Path.{ap₂}
use axonyx_runtime.Prelude.Bytes.{ascii, bytes_eq, bytes_eq→eq, bytes_eq_refl}
use axonyx_runtime.Http.Text.{
  Text, lower, to_ascii_lowercase, to_ascii_uppercase, eq_ignore_ascii_case, until, split_once_text,
  has_space,
}
use axonyx_runtime.Http.Request.{Request, header_value}
use axonyx_runtime.Http.Origin.{
  Origin, any, separator, parse_origin, valid_public_origin, is_some_origin, after_separator,
  ends_authority, matches_host, matches_authority, is_web_scheme, is_empty_text, is_suspicious,
  is_safe_method, source_of, is_foreign_site,
}

or-true : (a b : Bool) → (a || b) ≡ true → (a ≡ true) ⊎ (b ≡ true)
or-true true b h = inl refl
or-true false b h = inr h

or-false : (a b : Bool) → (a || b) ≡ false → (a ≡ false) × (b ≡ false)
or-false true b h = cc
or-false false b h = (refl, h)

not-true : (b : Bool) → not b ≡ true → b ≡ false
not-true true h = cc
not-true false h = refl

bytes_eq-of : (a b : Text) → a ≡ b → bytes_eq a b ≡ true
bytes_eq-of a b e = ap (bytes_eq a) (sym e) ∙ bytes_eq_refl a

-- GET, HEAD or OPTIONS, in letters of either case.
abbrev pub IsReadOnly : Text → Type 0
IsReadOnly method =
    let name = to_ascii_uppercase method in
    (name ≡ ascii "GET") ⊎ ((name ≡ ascii "HEAD") ⊎ (name ≡ ascii "OPTIONS"))

IsReadOnly-of : (method : Text) → is_safe_method method ≡ true → IsReadOnly method
IsReadOnly-of method h =
    let name = to_ascii_uppercase method in
    elim (or-true (bytes_eq name (ascii "GET")) _ h) [
      | inl get ↦ inl (bytes_eq→eq name (ascii "GET") get)
      | inr more ↦ elim (or-true (bytes_eq name (ascii "HEAD")) _ more) [
        | inl head ↦ inr (inl (bytes_eq→eq name (ascii "HEAD") head))
        | inr options ↦ inr (inr (bytes_eq→eq name (ascii "OPTIONS") options))
      ]
    ]

is_safe_method_of : (method : Text) → IsReadOnly method → is_safe_method method ≡ true
is_safe_method_of method (inl e) = rw e refl
is_safe_method_of method (inr (inl e)) = rw e refl
is_safe_method_of method (inr (inr e)) = rw e refl

pub is_safe_method_iff : (method : Text) → (is_safe_method method ≡ true) ↔ IsReadOnly method
is_safe_method_iff method = (IsReadOnly-of method, is_safe_method_of method)

same_letters_of :
    (a b : Text) → eq_ignore_ascii_case a b ≡ true → to_ascii_lowercase a ≡ to_ascii_lowercase b
same_letters_of [] [] h = refl
same_letters_of [] (y ∷ b) h = cc
same_letters_of (x ∷ a) [] h = cc
same_letters_of (x ∷ a) (y ∷ b) h =
    let (p, q) = and-eq-true (lower x == lower y) _ h in
    ap₂ ◌∷◌ ((==_iff (lower x) (lower y)).0 p) (same_letters_of a b q)

eq_ignore_ascii_case_of :
    (a b : Text) → to_ascii_lowercase a ≡ to_ascii_lowercase b → eq_ignore_ascii_case a b ≡ true
eq_ignore_ascii_case_of [] [] e = refl
eq_ignore_ascii_case_of [] (y ∷ b) e = cc
eq_ignore_ascii_case_of (x ∷ a) [] e = cc
eq_ignore_ascii_case_of (x ∷ a) (y ∷ b) e =
    let p : lower x ≡ lower y = cc e in
    let q : to_ascii_lowercase a ≡ to_ascii_lowercase b = cc e in
    rw ((==_iff (lower x) (lower y)).1 p) (eq_ignore_ascii_case_of a b q)

-- Two texts with the same letters, whatever their case.
pub eq_ignore_ascii_case_iff :
    (a b : Text) → (eq_ignore_ascii_case a b ≡ true) ↔ (to_ascii_lowercase a ≡ to_ascii_lowercase b)
eq_ignore_ascii_case_iff a b = (same_letters_of a b, eq_ignore_ascii_case_of a b)

-- The end of an authority, and the marks that make one suspicious.
abbrev pub is_end : ℕ → Bool
is_end b = b == b'/' || (b == b'?' || b == b'#')

abbrev pub is_mark : ℕ → Bool
is_mark b = b == b'@' || (b == b'\\' || b == b',')

-- A source like `https://host/path` with the host, in letters of either case: http or https, and an
-- authority that is the host and has neither a space nor a suspicious mark.
pub record IsSourceAt (source host : Text) : Type 0 where
  pub scheme : Text
  pub rest : Text
  pub parted : split_once_text (ascii "://") source ≡ some (scheme, rest)
  pub web : (to_ascii_lowercase scheme ≡ ascii "https") ⊎ (to_ascii_lowercase scheme ≡ ascii "http")
  pub something : until is_end rest ≢ []
  pub spaceless : has_space (until is_end rest) ≡ false
  pub unmarked : any is_mark (until is_end rest) ≡ false
  pub same : to_ascii_lowercase (until is_end rest) ≡ to_ascii_lowercase host

filled_of : (s : Text) → is_empty_text s ≡ false → s ≢ []
filled_of s h e = cc (sym h ∙ ap is_empty_text e)

of_filled : (s : Text) → s ≢ [] → is_empty_text s ≡ false
of_filled [] h = absurd (h refl)
of_filled (b ∷ s) h = refl

IsSourceAt-of :
    (source host : Text) (o : Option (Text × Text))
    → split_once_text separator source ≡ o
    → matches_authority o host ≡ true
    → IsSourceAt source host
IsSourceAt-of source host none parted h = cc
IsSourceAt-of source host (some (scheme, rest)) parted h =
    let authority = until ends_authority rest in
    let (front, same) = and-eq-true _ (eq_ignore_ascii_case authority host) h in
    let (web, clean) = and-eq-true (is_web_scheme scheme) _ front in
    let (filled, more) = or-false (is_empty_text authority) _ (not-true _ clean) in
    let (spaceless, unmarked) = or-false (has_space authority) (any is_suspicious authority) more in
    record {
      scheme = scheme;
      rest = rest;
      parted = parted;
      web = elim (or-true (eq_ignore_ascii_case scheme (ascii "https")) _ web) [
        | inl https ↦ inl (same_letters_of scheme (ascii "https") https)
        | inr http ↦ inr (same_letters_of scheme (ascii "http") http)
      ];
      something = filled_of authority filled;
      spaceless = spaceless;
      unmarked = unmarked;
      same = same_letters_of authority host same;
    }

web_scheme_of :
    (scheme : Text)
    → (to_ascii_lowercase scheme ≡ ascii "https") ⊎ (to_ascii_lowercase scheme ≡ ascii "http")
    → is_web_scheme scheme ≡ true
web_scheme_of scheme (inl e) = rw (eq_ignore_ascii_case_of scheme (ascii "https") e) refl
web_scheme_of scheme (inr e) = elim (Bool-cases (eq_ignore_ascii_case scheme (ascii "https"))) [
  | inl https ↦ rw https refl
  | inr other ↦ rw (other, eq_ignore_ascii_case_of scheme (ascii "http") e) refl
]

-- `matches_host` tells such a source.
pub matches_host_iff :
    (source host : Text) → (matches_host source (some host) ≡ true) ↔ IsSourceAt source host
unfolding matches_host
matches_host_iff source host = (
  λ h. IsSourceAt-of source host (split_once_text separator source) refl h,
  λ is.
      let a = until ends_authority is.rest in
      let clean : (is_empty_text a || (has_space a || any is_suspicious a)) ≡ false =
        rw (of_filled a is.something, is.spaceless, is.unmarked) refl in
      ap (λ o. matches_authority o host) is.parted
      ∙ rw (web_scheme_of is.scheme is.web, clean, eq_ignore_ascii_case_of a host is.same) refl,
)

-- The word of a browser, if it gives one, is that the request is of the same origin.
abbrev pub IsOwn : Option Text → Type 0
IsOwn none = Unit
IsOwn (some site) = to_ascii_lowercase site ≡ ascii "same-origin"

pub is_foreign_site_iff : (o : Option Text) → (is_foreign_site o ≡ false) ↔ IsOwn o
is_foreign_site_iff none = (λ h. tt, λ h. refl)
is_foreign_site_iff (some site) = (
  λ h. same_letters_of site (ascii "same-origin") (not-false _ h),
  λ e. ap not (eq_ignore_ascii_case_of site (ascii "same-origin") e),
)
  where
    not-false : (b : Bool) → not b ≡ false → b ≡ true
    not-false true h = refl
    not-false false h = cc

-- Where a request says that it is from: its origin, or else its referrer.
abbrev pub IsFrom : Request → Text → Type 0
IsFrom r source =
    (header_value r (ascii "Origin") ≡ some source)
    ⊎ ((header_value r (ascii "Origin") ≡ none) × (header_value r (ascii "Referer") ≡ some source))

abbrev pub IsFromNowhere : Request → Type 0
IsFromNowhere r =
    (header_value r (ascii "Origin") ≡ none) × (header_value r (ascii "Referer") ≡ none)

pub source_of_iff : (r : Request) (source : Text) → (source_of r ≡ some source) ↔ IsFrom r source
source_of_iff r source = (there, back)
  where
    there : source_of r ≡ some source → IsFrom r source
    there e = elim (Option-cases (header_value r (ascii "Origin"))) [
      | inl absent ↦ inr (absent, rw (source_of, absent) at e)
      | inr (origin, given) ↦ inl (given ∙ rw (source_of, given) at e)
    ]

    back : IsFrom r source → source_of r ≡ some source
    back (inl given) = rw (source_of, given) refl
    back (inr (absent, given)) = rw (source_of, absent) given

pub source_of-none_iff : (r : Request) → (source_of r ≡ none) ↔ IsFromNowhere r
source_of-none_iff r = (there, λ h. rw (source_of, h.0) (h.1))
  where
    there : source_of r ≡ none → IsFromNowhere r
    there e = elim (Option-cases (header_value r (ascii "Origin"))) [
      | inl absent ↦ (absent, rw (source_of, absent) at e)
      | inr (origin, given) ↦ cc (rw (source_of, given) at e)
    ]

module _ (ipv6 : Text → Option Text) where
  -- An origin and nothing more: what follows the scheme holds no `/`, `?` or `#`.
  pub record IsPublic (value : Text) : Type 0 where
    pub origin : Origin
    pub parsed : parse_origin ipv6 value ≡ some origin
    pub bare :
        (scheme rest : Text)
        → split_once_text (ascii "://") value ≡ some (scheme, rest)
        → any is_end rest ≡ false

  some_origin : (o : Option Origin) → is_some_origin o ≡ true → (a : Origin) × (o ≡ some a)
  some_origin none h = cc
  some_origin (some a) h = (a, refl)

  bare_of :
      (o : Option (Text × Text))
      → ((scheme rest : Text) → o ≡ some (scheme, rest) → any is_end rest ≡ false)
      → any ends_authority (after_separator o) ≡ false
  bare_of none h = refl
  bare_of (some (scheme, rest)) h = h scheme rest refl

  pub valid_public_origin_iff :
      (value : Text) → (valid_public_origin ipv6 value ≡ true) ↔ IsPublic value
  unfolding valid_public_origin
  valid_public_origin_iff value = (
    λ h.
        let (read, bare) = and-eq-true (is_some_origin (parse_origin ipv6 value)) _ h in
        let (o, parsed) = some_origin (parse_origin ipv6 value) read in
        record {
          origin = o;
          parsed = parsed;
          bare = λ scheme rest e.
              ap (λ p. any ends_authority (after_separator p)) (sym e) ∙ not-true _ bare;
        },
    λ is. let bare = bare_of (split_once_text separator value) is.bare in rw (is.parsed, bare) refl,
  )
