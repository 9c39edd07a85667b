-- ===== src/Session/Manager.antt =====
-- `AxSessionCookiePolicy` and `AxSessionManager` of crates/axonyx-runtime/src/session.rs, over a store of
-- any kind. A request is the value of the policy's cookie in it, the new id of `Uuid::new_v4` is an
-- argument, and the state of the store is passed in and returned.
pub mod Lifetime
pub mod Lookup
use Prim.Native.Nat.{min}
use axonyx_runtime.Prelude.{
  ℕ, suc, ◌+◌, ◌-◌, Bool, true, false, not, ◌&&◌, ◌||◌, Option, none, some, List, [], ◌∷◌, ltb, leb,
  ◌==◌, if◌then◌else◌,
}
use axonyx_runtime.Prelude.Bytes.{ascii}
use axonyx_runtime.Session.Time.{zero_time, saturating_add, saturating_sub}
use axonyx_runtime.Session.Cookie.{
  Cookie, new_cookie, with_path, with_domain, with_max_age, with_http_only, with_secure,
  with_same_site,
}
use axonyx_runtime.Session.Store.{Session, Store, is_expired}
use axonyx_runtime.Session.Tokens.{sign_session, signed_cookie, issue, verify}

-- The messages of `AxRuntimeError`.
pub data Error : Type 0 where
  store_failed secret_empty subject_empty name_empty path_empty ttl_invalid insecure_same_site
        secret_short :
      Error

pub data Outcome (A : Type 0) : Type 0 where
  ok : A → Outcome A
  err : Error → Outcome A

pub data SameSite : Type 0 where
  strict lax none_site : SameSite

pub record Policy : Type 0 where
  pub name : List ℕ
  pub path : List ℕ
  pub domain : Option (List ℕ)
  pub ttl : ℕ
  pub absolute_ttl : ℕ
  pub secure : Bool
  pub same_site : SameSite

abbrev pub label : SameSite → List ℕ
label strict = ascii "Strict"
label lax = ascii "Lax"
label none_site = ascii "None"

-- The white space of Unicode in UTF-8, by its one, two or three bytes.
abbrev pub blank1 : ℕ → Bool
blank1 a = (leb 9 a && leb a 13) || a == 32

abbrev pub blank2 : ℕ → ℕ → Bool
blank2 a b = a == 0xc2 && (b == 0x85 || b == 0xa0)

abbrev pub blank3 : ℕ → ℕ → ℕ → Bool
blank3 a b c =
    (a == 0xe1 && (b == 0x9a && c == 0x80))
    || (a == 0xe2
        && (b == 0x80 && ((leb 0x80 c && leb c 0x8a) || (c == 0xa8 || (c == 0xa9 || c == 0xaf)))))
    || (a == 0xe2 && (b == 0x81 && c == 0x9f))
    || (a == 0xe3 && (b == 0x80 && c == 0x80))

-- `value.trim().is_empty()`
unfoldable pub is_blank : List ℕ → Bool
is_blank [] = true
is_blank (a ∷ []) = blank1 a
is_blank (a ∷ b ∷ []) = if blank1 a then is_blank (b ∷ []) else blank2 a b
is_blank (a ∷ b ∷ c ∷ rest) =
    let one = is_blank (b ∷ c ∷ rest) in
    let two = is_blank (c ∷ rest) in
    let three = is_blank rest in
    if blank1 a then one else if blank2 a b then two else blank3 a b c && three

abbrev is_none_site : SameSite → Bool
is_none_site none_site = true
is_none_site _ = false

-- `validate`; `none` is success.
unfoldable pub validate : Policy → Option Error
unfolding is_blank
validate p =
    if is_blank p.name
    then some name_empty
    else if is_blank p.path
    then some path_empty
    else if leb p.ttl zero_time || leb p.absolute_ttl zero_time
    then some ttl_invalid
    else if is_none_site p.same_site && not p.secure
    then some insecure_same_site
    else none

abbrev pub add_domain : Option (List ℕ) → Cookie → Cookie
add_domain none c = c
add_domain (some domain) c = with_domain domain c

abbrev pub cookie : Policy → List ℕ → ℕ → Cookie
cookie p value max_age =
    let base =
      with_same_site (label p.same_site)
        (with_http_only (with_max_age max_age (with_path p.path (new_cookie p.name value)))) in
    let c = add_domain p.domain base in if p.secure then with_secure c else c

module _ (mac : List ℕ → List ℕ → List ℕ) {D S : Type 0} (store : Store D S) (policy : Policy) where
  -- The end of a session that sliding refreshes do not move.
  abbrev pub deadline : Session D → ℕ
  deadline s = saturating_add s.created_at policy.absolute_ttl

  abbrev pub is_over : Session D → ℕ → Bool
  is_over s now = is_expired s now || leb (deadline s) now

  abbrev pub new_session : List ℕ → List ℕ → D → ℕ → Session D
  new_session id subject data_ now = record {
    id = id;
    subject = subject;
    data_ = data_;
    created_at = now;
    last_seen_at = now;
    expires_at = saturating_add now (min policy.ttl policy.absolute_ttl);
  }

  abbrev pub session_cookie : Session D → List ℕ → ℕ → Cookie
  session_cookie s secret now =
      cookie policy (sign_session mac s.id secret) (saturating_sub s.expires_at now)

  unfoldable pub create : List ℕ → List ℕ → D → List ℕ → ℕ → S → Outcome (Session D × Cookie) × S
  create id subject data_ secret now st =
      if is_blank secret
      then (err secret_empty, st)
      else if is_blank subject
      then (err subject_empty, st)
      else elim (store.save (new_session id subject data_ now) st) [
        | none ↦ (err store_failed, st)
        | some st' ↦ (
          ok (
            new_session id subject data_ now,
            session_cookie (new_session id subject data_ now) secret now,
          ),
          st',
        )
      ]

  -- `load`, by the session that the store holds.
  unfoldable pub load_found : List ℕ → ℕ → S → Option (Session D) → Outcome (Option (Session D)) × S
  load_found id now st none = (ok none, st)
  load_found id now st (some s) =
      if is_over s now
      then elim (store.delete id st) [ none ↦ (err store_failed, st) | some st' ↦ (ok none, st') ]
      else (ok (some s), st)

  -- `load`, by the id that the cookie carries.
  unfoldable pub load_id : ℕ → S → Option (List ℕ) → Outcome (Option (Session D)) × S
  load_id now st none = (ok none, st)
  load_id now st (some id) = elim (store.load id st) [
    | none ↦ (err store_failed, st)
    | some o ↦ load_found id now st o
  ]

  unfoldable pub load : Option (List ℕ) → List ℕ → ℕ → S → Outcome (Option (Session D)) × S
  load cookie_value secret now st =
      if is_blank secret
      then (err secret_empty, st)
      else load_id now st (signed_cookie mac cookie_value secret)

  abbrev pub slide : Session D → ℕ → Session D
  slide s now = record {
    id = s.id;
    subject = s.subject;
    data_ = s.data_;
    created_at = s.created_at;
    last_seen_at = now;
    expires_at = min (saturating_add now policy.ttl) (deadline s);
  }

  -- `refresh` behind `load`.
  unfoldable pub refresh_loaded :
      List ℕ → ℕ → Outcome (Option (Session D)) × S → Outcome (Option (Session D × Cookie)) × S
  refresh_loaded secret now (err e, st) = (err e, st)
  refresh_loaded secret now (ok none, st) = (ok none, st)
  refresh_loaded secret now (ok (some s), st) = elim (store.refresh_live (slide s now) now st) [
    | none ↦ (err store_failed, st)
    | some (live, st') ↦ (
      ok (if live then some (slide s now, session_cookie (slide s now) secret now) else none),
      st',
    )
  ]

  unfoldable pub refresh :
      Option (List ℕ) → List ℕ → ℕ → S → Outcome (Option (Session D × Cookie)) × S
  refresh cookie_value secret now st = refresh_loaded secret now (load cookie_value secret now st)

  unfoldable pub token_loaded :
      List ℕ → Outcome (Option (Session D)) × S → Outcome (Option (List ℕ)) × S
  token_loaded secret (err e, st) = (err e, st)
  token_loaded secret (ok none, st) = (ok none, st)
  token_loaded secret (ok (some s), st) = elim (issue mac s.id secret) [
    | none ↦ (err secret_short, st)
    | some token ↦ (ok (some token), st)
  ]

  unfoldable pub csrf_token : Option (List ℕ) → List ℕ → ℕ → S → Outcome (Option (List ℕ)) × S
  csrf_token cookie_value secret now st = token_loaded secret (load cookie_value secret now st)

  unfoldable pub verify_loaded :
      List ℕ → List ℕ → Outcome (Option (Session D)) × S → Outcome Bool × S
  verify_loaded token secret (err e, st) = (err e, st)
  verify_loaded token secret (ok none, st) = (ok false, st)
  verify_loaded token secret (ok (some s), st) = elim (verify mac s.id token secret) [
    | none ↦ (err secret_short, st)
    | some accepted ↦ (ok accepted, st)
  ]

  unfoldable pub verify_csrf : Option (List ℕ) → List ℕ → List ℕ → ℕ → S → Outcome Bool × S
  verify_csrf cookie_value token secret now st =
      verify_loaded token secret (load cookie_value secret now st)

  abbrev pub clear_cookie : Outcome Cookie
  clear_cookie = elim (validate policy) [ none ↦ ok (cookie policy [] zero_time) | some e ↦ err e ]

  abbrev pub destroy_id : S → Option (List ℕ) → Outcome Cookie × S
  destroy_id st none = (clear_cookie, st)
  destroy_id st (some id) = elim (store.delete id st) [
    | none ↦ (err store_failed, st)
    | some st' ↦ (clear_cookie, st')
  ]

  unfoldable pub destroy : Option (List ℕ) → List ℕ → S → Outcome Cookie × S
  destroy cookie_value secret st =
      if is_blank secret
      then (err secret_empty, st)
      else destroy_id st (signed_cookie mac cookie_value secret)
