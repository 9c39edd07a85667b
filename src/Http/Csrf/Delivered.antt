-- ===== src/Http/Csrf/Delivered.antt =====
-- The proof that crates/axonyx-runtime/src/csrf_http.rs delivers, when it comes back.
use axonyx_runtime.Prelude.{
  ℕ, ◌+◌, ◌-◌, ◌%◌, ◌≤◌, ◌<◌, ◌≡◌, refl, sym, ap, ◌∙◌, inl, inr, Bool, true, false, not, ◌||◌,
  Option, none, some, List, [], ◌∷◌, ◌++◌, ltb, leb, ◌==◌, ◌>>=◌, length, All-append, Bool-cases,
  arith, >>=-eq-some, some-pair_inj, if_false,
}
use mathlib.Core.Option.{some-injective}
use mathlib.Core.Path.{subst}
use axonyx_runtime.Prelude.Bytes.{IsBytes}
use axonyx_runtime.StateWasm.Operators.{decimal}
use axonyx_runtime.Session.Hex.{hex_encode}
use axonyx_runtime.Session.Cookie.{Cookie}
use axonyx_runtime.Session.Tokens.{
  issue, session_mac, verify, verify-issue, csrf_message, strip_prefix, strip_prefix-append,
}
use axonyx_runtime.Http.Text.{Text, split_once_text}
use axonyx_runtime.Http.Splits.{Avoids, split_once-Avoids}
use axonyx_runtime.Http.Decimal.{decimal-Avoids, parse_unsigned-decimal}
use axonyx_runtime.Http.Request.{Request, header_value, cookie_value}
use axonyx_runtime.Http.Origin.{is_safe_method}
use axonyx_runtime.Http.Csrf.{
  Runtime, session_key, csrf_header, anonymous_name, token_prefix, anonymous_prefix, anonymous_ttl,
  max_u64, dated_identity, stamped_identity, stripped_identity, cut_identity, signed_identity,
  anonymous_identity, cookie_identity, verified_identity, if_verified, anonymous_cookie,
  new_identity, local_request, delivery, deliver, deliver_anonymous, proof, is_bare,
  reject_mutation,
}

-- A step that succeeds, and what comes of the rest.
some->>= {ℓ κ} :
    {A : Type ℓ} {B : Type κ} (m : Option A) (k : A → Option B) {a : A} {r : Option B}
    → m ≡ some a
    → k a ≡ r
    → (m >>= k) ≡ r
some->>= m k e h = ap (λ o. o >>= k) e ∙ h

==-false_sym : (a b : ℕ) → (a == b) ≡ false → (b == a) ≡ false
==-false_sym a b h = ground arith

split_once_text-Avoids :
    (c : ℕ) (m s t : Text) → Avoids c s → split_once_text (c ∷ m) (s ++ c ∷ (m ++ t)) ≡ some (s, t)
unfolding split_once_text
split_once_text-Avoids c m [] t h = rw (strip_prefix-append (c ∷ m) t, split_once_text) refl
split_once_text-Avoids c m (b ∷ s) t (p, h) =
    let other : strip_prefix (c ∷ m) (b ∷ (s ++ c ∷ (m ++ t))) ≡ none =
      unfold strip_prefix in rw (==-false_sym b c p) refl in
    rw (other, split_once_text-Avoids c m s t h, split_once_text) refl

digit-dot : (k : ℕ) → (b'0' + k % 10 == b'.') ≡ false
digit-dot k = ground arith

digit-colon : (k : ℕ) → (b'0' + k % 10 == b':') ≡ false
digit-colon k = ground arith

new_identity-Avoids :
    (time : ℕ) (nonce : Text) → Avoids b'.' nonce → Avoids b'.' (new_identity time nonce)
new_identity-Avoids time nonce h =
    All-append _ anonymous_prefix (decimal 20 time [] ++ b':' ∷ nonce)
      (refl, (refl, (refl, (refl, (refl, (refl, (refl, (refl, (refl, (refl, tt))))))))))
      (All-append _ (decimal 20 time []) (b':' ∷ nonce)
        (decimal-Avoids b'.' 20 time [] digit-dot tt) (refl, h))

module _ (mac : List ℕ → List ℕ → List ℕ) (is_uuid : Text → Bool) where
  fresh_enough :
      (time later : ℕ) (nonce : Text)
      → time ≤ later
      → later < time + anonymous_ttl
      → is_uuid nonce ≡ true
      → (ltb later time || (leb anonymous_ttl (later - time) || not (is_uuid nonce))) ≡ false
  fresh_enough time later nonce h k u = ground arith

  signed_identity-new :
      (time later : ℕ) (nonce signature : Text)
      → time ≤ max_u64
      → time ≤ later
      → later < time + anonymous_ttl
      → is_uuid nonce ≡ true
      → Avoids b'.' nonce
      → signed_identity mac is_uuid later
          (new_identity time nonce ++ b'.' ∷ (token_prefix ++ signature))
        ≡ some (new_identity time nonce, token_prefix ++ signature)
  unfolding signed_identity
  signed_identity-new time later nonce signature fits h k u dots =
      let identity = new_identity time nonce in
      let digits = decimal 20 time [] in
      some->>= _ (cut_identity mac is_uuid later)
        (split_once_text-Avoids b'.' token_prefix identity signature
          (new_identity-Avoids time nonce dots))
        (some->>= _ (stripped_identity mac is_uuid later identity signature)
          (strip_prefix-append anonymous_prefix (digits ++ b':' ∷ nonce))
          (some->>= _ (stamped_identity mac is_uuid later identity signature)
            (split_once-Avoids b':' digits nonce (decimal-Avoids b':' 20 time [] digit-colon tt))
            (some->>= _ (dated_identity mac is_uuid later identity signature nonce)
              (parse_unsigned-decimal max_u64 time fits (omega arith))
              (if_false _ none _ (fresh_enough time later nonce h k u)))))

  proof-header :
      (json_field : Text → Text → Option Text) (q : Request) (token : Text)
      → header_value q csrf_header ≡ some token
      → proof json_field q ≡ some token
  unfolding proof
  proof-header json_field q token h = rw (h, proof) refl

  let_through :
      (json_field : Text → Text → Option Text) (runtime : Runtime) (q : Request) (key : Text)
      (later : ℕ) (identity token : Text)
      → runtime.load_session q ≡ some none
      → session_key runtime ≡ some key
      → anonymous_identity mac is_uuid q key later ≡ some (some identity)
      → proof json_field q ≡ some token
      → verify mac identity token key ≡ some true
      → reject_mutation mac is_uuid json_field runtime q (some later) ≡ some none
  unfolding reject_mutation
  let_through json_field runtime q key later identity token loaded keyed known shown valid =
      elim (Bool-cases (is_safe_method q.method)) [
        | inl reads ↦ rw reads refl
        | inr writes ↦ elim (Bool-cases (is_bare q)) [
          | inl bare ↦ rw (writes, loaded, bare) refl
          | inr asked ↦ rw (writes, loaded, asked, keyed, known, shown, valid) refl
        ]
      ]

  anonymous_value : (r : Request) (value : Text) → (anonymous_cookie r value).value ≡ value
  anonymous_value r value = elim (Bool-cases (local_request r)) [
    | inl here ↦ rw here refl
    | inr there ↦ rw there refl
  ]

  issued_prefix :
      (identity key token : Text)
      → issue mac identity key ≡ some token
      → (signature : Text) × (token ≡ token_prefix ++ signature)
  unfolding issue
  issued_prefix identity key token e =
      let (code, made, e1) = >>=-eq-some (session_mac mac identity key) _ e in
      (hex_encode code, sym (some-injective _ _ e1))

  read_back :
      (q : Request) (key : Text) (time later : ℕ) (nonce token : Text)
      → time ≤ max_u64
      → time ≤ later
      → later < time + anonymous_ttl
      → is_uuid nonce ≡ true
      → Avoids b'.' nonce
      → issue mac (new_identity time nonce) key ≡ some token
      → cookie_value q (anonymous_name q) ≡ some (new_identity time nonce ++ b'.' ∷ token)
      → verify mac (new_identity time nonce) token key ≡ some true
      → anonymous_identity mac is_uuid q key later ≡ some (some (new_identity time nonce))
  unfolding anonymous_identity
  read_back q key time later nonce token fits h k u dots made given valid =
      let identity = new_identity time nonce in
      let (signature, shape) = issued_prefix identity key token made in
      let parsed : signed_identity mac is_uuid later (identity ++ b'.' ∷ token)
          ≡ some (identity, token) =
        subst (λ t. signed_identity mac is_uuid later (identity ++ b'.' ∷ t) ≡ some (identity, t))
          (sym shape) (signed_identity-new time later nonce signature fits h k u dots) in
      ap (cookie_identity mac is_uuid key later) given
      ∙ ap (verified_identity mac is_uuid key) parsed
      ∙ ap (if_verified mac is_uuid identity) valid

  new_delivery :
      (r : Request) (key : Text) (time : ℕ) (nonce : Text) (session known : Option Text)
      {token : Text} {cookie : Cookie}
      → deliver mac is_uuid r key (some time) nonce session ≡ some (token, some cookie)
      → (issue mac (new_identity time nonce) key ≡ some token)
        × (anonymous_cookie r (new_identity time nonce ++ b'.' ∷ token) ≡ cookie)
  new_delivery r key time nonce (some session_id) known e =
      let (token, made, e1) = >>=-eq-some (issue mac session_id key) _ e in
      absurd (none-not-some (some-pair_inj e1).1)
    where
      none-not-some : {cookie : Cookie} → ◌≡◌ {A = Option Cookie} none (some cookie) → ⊥
      none-not-some h = cc
  new_delivery r key time nonce none known e =
      let (known, found, e1) = >>=-eq-some (anonymous_identity mac is_uuid r key time) _ e in
      go known e1
    where
      go :
          (known : Option Text) {token : Text} {cookie : Cookie}
          → deliver_anonymous mac is_uuid r key time nonce known ≡ some (token, some cookie)
          → (issue mac (new_identity time nonce) key ≡ some token)
            × (anonymous_cookie r (new_identity time nonce ++ b'.' ∷ token) ≡ cookie)
      go (some identity) e =
          let (token, made, e1) = >>=-eq-some (issue mac identity key) _ e in
          cc (some-pair_inj e1).1
      go none {token = last} {cookie = cookie} e =
          let (token, made, e1) = >>=-eq-some (issue mac (new_identity time nonce) key) _ e in
          let (same, carried) = some-pair_inj e1 in
          (
            made ∙ ap some same,
            subst (λ t. anonymous_cookie r (new_identity time nonce ++ b'.' ∷ t) ≡ cookie) same
                (some-injective _ _ carried),
          )

  -- A request without a session that carries the token and the cookie that `delivery` made before,
  -- in the header and under its own name, is let through for less than 1800 seconds. The time fits
  -- 64 bits, the nonce is a UUID without a dot, the MAC is a string of 32 bytes.
  pub reject_mutation-delivery :
      (json_field : Text → Text → Option Text) (runtime : Runtime) (r q : Request) (time later : ℕ)
      (nonce token : Text) (cookie : Cookie)
      → ((key message : Text) → IsBytes (mac key message) × (length (mac key message) ≡ 32))
      → time ≤ max_u64
      → is_uuid nonce ≡ true
      → Avoids b'.' nonce
      → delivery mac is_uuid runtime r (some time) nonce ≡ some (token, some cookie)
      → time ≤ later
      → later < time + anonymous_ttl
      → runtime.load_session q ≡ some none
      → cookie_value q (anonymous_name q) ≡ some cookie.value
      → header_value q csrf_header ≡ some token
      → reject_mutation mac is_uuid json_field runtime q (some later) ≡ some none
  unfolding delivery
  reject_mutation-delivery json_field runtime r q time later nonce token cookie hmac fits u dots e h
        k loaded given shown =
      let identity = new_identity time nonce in
      let (key, keyed, e1) = >>=-eq-some (session_key runtime) _ e in
      let (session, at_first, e2) = >>=-eq-some (runtime.load_session r) _ e1 in
      let (made, carried) = new_delivery r key time nonce session none e2 in
      let (bytes, size) = hmac key (csrf_message identity) in
      let valid = (verify-issue mac identity token key bytes size).1 made in
      let value : cookie.value ≡ identity ++ b'.' ∷ token =
        sym (ap (λ (c : Cookie). c.value) carried) ∙ anonymous_value r (identity ++ b'.' ∷ token) in
      let_through json_field runtime q key later identity token loaded keyed
        (read_back q key time later nonce token fits h k u dots made (given ∙ ap some value) valid)
        (proof-header json_field q token shown) valid
