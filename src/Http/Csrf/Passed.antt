-- ===== src/Http/Csrf/Passed.antt =====
-- Which requests crates/axonyx-runtime/src/csrf_http.rs lets through.
use axonyx_runtime.Prelude.{
  ℕ, ◌+◌, ◌-◌, ◌≤◌, ◌<◌, ◌≡◌, refl, sym, ap, ◌∙◌, inl, inr, Bool, true, false, not, ◌&&◌, ◌||◌,
  Option, none, some, List, ◌++◌, ltb, leb, if◌then◌else◌, length, Bool-cases, Option-cases,
  if_second, and-eq-true, arith, >>=-eq-some, some-pair_inj,
}
use mathlib.Core.Option.{some-injective}
use mathlib.Core.Path.{ap₂, subst}
use axonyx_runtime.Prelude.Bytes.{ascii, IsBytes}
use axonyx_runtime.Validation.{split_once}
use axonyx_runtime.Session.Tokens.{issue, verify, verify-issue, csrf_message, strip_prefix}
use axonyx_runtime.Http.Text.{Text, split_once_text, parse_unsigned}
use axonyx_runtime.Http.Request.{Request, header_value, cookie_value}
use axonyx_runtime.Http.Origin.{is_safe_method}
use axonyx_runtime.Http.Origin.Described.{IsReadOnly, is_safe_method_iff}
use axonyx_runtime.Http.Csrf.{
  Runtime, session_key, anonymous_name, cookie_mark, token_prefix, anonymous_prefix, anonymous_ttl,
  max_u64, signed_identity, if_verified, verified_identity, cookie_identity, anonymous_identity,
  proof, is_absent, is_bare, forbidden, identity_of, check_proof, reject_mutation,
}

module _ (mac : List ℕ → List ℕ → List ℕ) (is_uuid : Text → Bool) where
  -- What the code knows of an identity that it takes from a cookie.
  pub record IsFresh (r : Request) (key : Text) (time : ℕ) (identity : Text) : Type 0 where
    pub timestamp : Text
    pub nonce : Text
    pub signature : Text
    pub issued : ℕ
    pub carried :
        (cookie : Text) × (cookie_value r (anonymous_name r) ≡ some cookie)
        × (split_once_text cookie_mark cookie ≡ some (identity, signature))
    pub named :
        (rest : Text) × (strip_prefix anonymous_prefix identity ≡ some rest)
        × (split_once b':' rest ≡ some (timestamp, nonce))
    pub dated : parse_unsigned max_u64 timestamp ≡ some issued
    pub begun : issued ≤ time
    pub unexpired : time < issued + 1800
    pub unique : is_uuid nonce ≡ true
    pub signed : verify mac identity (token_prefix ++ signature) key ≡ some true

  is_current :
      (time issued : ℕ) (nonce : Text)
      → (ltb time issued || (leb anonymous_ttl (time - issued) || not (is_uuid nonce))) ≡ false
      → (issued ≤ time) × (time < issued + anonymous_ttl) × (is_uuid nonce ≡ true)
  is_current time issued nonce h = ground arith

  if_verified-some :
      (identity identity' : Text) (o : Option Bool)
      → if_verified mac is_uuid identity o ≡ some (some identity')
      → (o ≡ some true) × (identity ≡ identity')
  if_verified-some identity identity' none e = cc
  if_verified-some identity identity' (some false) e = cc
  if_verified-some identity identity' (some true) e =
      (refl, some-injective _ _ (some-injective _ _ e))

  none-some {ℓ} : {A : Type ℓ} {a : A} → ◌≡◌ {A = Option A} none (some a) → ⊥
  none-some e = cc

  -- The parts of a cookie that is read, with its token verified.
  signed-IsFresh :
      (r : Request) (key : Text) (time : ℕ) (cookie : Text) {identity token : Text}
      → cookie_value r (anonymous_name r) ≡ some cookie
      → signed_identity mac is_uuid time cookie ≡ some (identity, token)
      → verify mac identity token key ≡ some true
      → IsFresh r key time identity
  unfolding signed_identity
  signed-IsFresh r key time cookie given e valid =
      let ((identity, signature), cut, e1) = >>=-eq-some (split_once_text cookie_mark cookie) _ e in
      let (rest, stripped, e2) = >>=-eq-some (strip_prefix anonymous_prefix identity) _ e1 in
      let ((timestamp, nonce), halves, e3) = >>=-eq-some (split_once b':' rest) _ e2 in
      let (issued, dated, e4) = >>=-eq-some (parse_unsigned max_u64 timestamp) _ e3 in
      let (current, e5) = if_second _ _ _ _ none-some e4 in
      let (begun, unexpired, unique) = is_current time issued nonce current in
      let (same, same') = some-pair_inj e5 in
      subst (IsFresh r key time) same (record {
        timestamp = timestamp;
        nonce = nonce;
        signature = signature;
        issued = issued;
        carried = (cookie, given, cut);
        named = (rest, stripped, halves);
        dated = dated;
        begun = begun;
        unexpired = unexpired;
        unique = unique;
        signed = ap₂ (λ i t. verify mac i t key) same same' ∙ valid;
      })

  anonymous-IsFresh :
      (r : Request) (key : Text) (time : ℕ) {identity : Text}
      → anonymous_identity mac is_uuid r key time ≡ some (some identity)
      → IsFresh r key time identity
  unfolding anonymous_identity
  anonymous-IsFresh r key time {identity} e =
      elim (Option-cases (cookie_value r (anonymous_name r))) [
        | inl missing ↦ cc (ap (cookie_identity mac is_uuid key time) (sym missing) ∙ e)
        | inr (cookie, given) ↦ elim (Option-cases (signed_identity mac is_uuid time cookie)) [
          | inl unread ↦ cc (
              ap (verified_identity mac is_uuid key) (sym unread)
              ∙ (ap (cookie_identity mac is_uuid key time) (sym given) ∙ e))
          | inr ((named, token), read) ↦
              let (valid, same) = if_verified-some named identity (verify mac named token key) (
                ap (verified_identity mac is_uuid key) (sym read)
                ∙ (ap (cookie_identity mac is_uuid key time) (sym given) ∙ e)) in
              subst (IsFresh r key time) same (signed-IsFresh r key time cookie given read valid)
        ]
      ]

  -- Whose proof a request has to carry.
  pub data Identified (runtime : Runtime) (r : Request) (key : Text) (now : Option ℕ)
      (identity : Text) : Type 0 where
    by_session :
        runtime.load_session r ≡ some (some identity) → Identified runtime r key now identity
    by_cookie :
        (time : ℕ)
        → runtime.load_session r ≡ some none
        → now ≡ some time
        → IsFresh r key time identity
        → Identified runtime r key now identity

  -- Why a request is let through.
  pub data Admitted (json_field : List ℕ → Text → Option Text) (runtime : Runtime) (r : Request)
      (now : Option ℕ) : Type 0 where
    read_only : IsReadOnly r.method → Admitted json_field runtime r now
    no_browser :
        runtime.load_session r ≡ some none
        → header_value r (ascii "Cookie") ≡ none
        → header_value r (ascii "Origin") ≡ none
        → header_value r (ascii "Referer") ≡ none
        → header_value r (ascii "Sec-Fetch-Site") ≡ none
        → Admitted json_field runtime r now
    proven :
        (key identity token : Text)
        → session_key runtime ≡ some key
        → Identified runtime r key now identity
        → proof json_field r ≡ some token
        → issue mac identity key ≡ some token
        → Admitted json_field runtime r now

  identified :
      (runtime : Runtime) (r : Request) (key : Text) (now : Option ℕ) (session : Option Text)
      {identity : Text}
      → runtime.load_session r ≡ some session
      → identity_of mac is_uuid r key now session ≡ some (some identity)
      → Identified runtime r key now identity
  identified runtime r key now (some session_id) loaded e =
      by_session (loaded ∙ ap (λ (o : Option Text). some o) (some-injective _ _ e))
  identified runtime r key now none loaded e =
      let (time, clock, known) = >>=-eq-some now _ e in
      by_cookie time loaded clock (anonymous-IsFresh r key time known)

  checked :
      (key : Text) (identity token : Option Text)
      → check_proof mac is_uuid key identity token ≡ some true
      → (i : Text) × (t : Text) × (identity ≡ some i)
        × (token ≡ some t)
        × (verify mac i t key ≡ some true)
  checked key none token e = cc
  checked key (some i) none e = cc
  checked key (some i) (some t) e = (i, t, refl, refl, e)

  accepts :
      (valid : Bool) → some (if valid then none else some forbidden) ≡ some none → valid ≡ true
  accepts true e = refl
  accepts false e = cc

  -- A request that is let through has the method GET, HEAD or OPTIONS, in letters of either case; or
  -- has no session and none of the headers Cookie, Origin, Referer and Sec-Fetch-Site; or carries the very token that is issued for its session, or for the identity in its
  -- cookie, which is not older than 1800 seconds and was signed with the same key. The MAC is a
  -- string of 32 bytes.
  pub reject_mutation-Admitted :
      (json_field : List ℕ → Text → Option Text) (runtime : Runtime) (r : Request) (now : Option ℕ)
      → ((key message : Text) → IsBytes (mac key message) × (length (mac key message) ≡ 32))
      → reject_mutation mac is_uuid json_field runtime r now ≡ some none
      → Admitted json_field runtime r now
  unfolding reject_mutation
  reject_mutation-Admitted json_field runtime r now hmac e =
      elim (Bool-cases (is_safe_method r.method)) [
        | inl reads ↦ read_only ((is_safe_method_iff r.method).0 reads)
        | inr writes ↦
            let (session, loaded, e1) = >>=-eq-some (runtime.load_session r) _ (rw writes at e) in
            elim (Bool-cases (is_absent session && is_bare r)) [
              | inl bare ↦
                  let (absent, plain) = and-eq-true (is_absent session) (is_bare r) bare in
                  let (most, site) =
                    and-eq-true _ (is_absent (header_value r (ascii "Sec-Fetch-Site"))) plain in
                  let (more, referer) =
                    and-eq-true _ (is_absent (header_value r (ascii "Referer"))) most in
                  let (cookie, origin) =
                    and-eq-true (is_absent (header_value r (ascii "Cookie"))) _ more in
                  no_browser (loaded ∙ ap some (absent_none session absent)) (absent_none _ cookie)
                    (absent_none _ origin) (absent_none _ referer) (absent_none _ site)
              | inr asked ↦
                  let (key, keyed, e2) = >>=-eq-some (session_key runtime) _ (rw asked at e1) in
                  let (known, found, e3) =
                    >>=-eq-some (identity_of mac is_uuid r key now session) _ e2 in
                  let (valid, verified, e4) =
                    >>=-eq-some (check_proof mac is_uuid key known (proof json_field r)) _ e3 in
                  let (identity, token, who, shown, good) =
                    checked key known (proof json_field r)
                      (verified ∙ ap some (accepts valid e4)) in
                  let (bytes, size) = hmac key (csrf_message identity) in
                  proven key identity token keyed
                    (identified runtime r key now session loaded (found ∙ ap some who)) shown
                    ((verify-issue mac identity token key bytes size).0 good)
            ]
      ]
    where
      absent_none : (o : Option Text) → is_absent o ≡ true → o ≡ none
      absent_none none h = refl
      absent_none (some value) h = cc
