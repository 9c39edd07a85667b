-- ===== src/Session/Tokens.antt =====
-- Signed cookies (`AxAuth` of crates/axonyx-runtime/src/server.rs) and CSRF proofs (`issue` and `verify`
-- of crates/axonyx-runtime/src/session/csrf.rs). HMAC-SHA256, of the hmac and sha2 crates, is the
-- parameter `mac` of a key and a message; its `verify_slice` compares.
use axonyx_runtime.Prelude.{
  ap, ◌∙◌, map, some-pair_inj, >>=-eq-some, ℕ, zero, suc, ◌/◌, ◌%◌, ◌^◌, ◌≡◌, ◌↔◌, refl, sym, inl,
  inr, Bool, true, false, Option, none, some, List, [], ◌∷◌, ◌++◌, arith, ltb, ◌==◌, if◌then◌else◌,
  ◌>>=◌, length, All, Bool-cases, Option-cases, ==_refl, ==_iff,
}
use axonyx_runtime.Prelude.Bytes.{IsBytes, ascii, bytes_eq, bytes_eq→eq, bytes_eq_refl}
use axonyx_runtime.Session.Hex.{
  lower_digit, hex_encode-hex_decode, hex_encode, hex_decode, decode_pairs, nibble,
  length-hex_encode, hex_decode-hex_encode, nibbles-hex_encode, hex_encode-nibbles,
}
use mathlib.Core.Option.{some-injective}
use mathlib.Core.Path.{ap₂}

abbrev pub dot : ℕ
dot = b'.'

-- `rsplit_once('.')`
unfoldable pub rsplit_once : List ℕ → Option (List ℕ × List ℕ)
rsplit_once [] = none
rsplit_once (b ∷ bs) = elim (rsplit_once bs) [
  | some (before, after) ↦ some (b ∷ before, after)
  | none ↦ if b == dot then some ([], bs) else none
]

-- `to_be_bytes` of a `u64`
unfoldable pub to_be_bytes : ℕ → ℕ → List ℕ
to_be_bytes zero n = []
to_be_bytes (suc k) n = n / 256 ^ k % 256 ∷ to_be_bytes k n

abbrev pub prefix : List ℕ
prefix = ascii "axcsrf1."

-- `strip_prefix`
unfoldable pub strip_prefix : List ℕ → List ℕ → Option (List ℕ)
strip_prefix [] text = some text
strip_prefix (p ∷ ps) [] = none
strip_prefix (p ∷ ps) (b ∷ bs) = if p == b then strip_prefix ps bs else none

-- The message that binds a proof to a session.
abbrev pub csrf_message : List ℕ → List ℕ
csrf_message session_id =
    ascii "axonyx:csrf:v1" ++ 0 ∷ (to_be_bytes 8 (length session_id) ++ session_id)

module _ (mac : List ℕ → List ℕ → List ℕ) where
  abbrev pub signature_hex : List ℕ → List ℕ → List ℕ
  signature_hex value secret = hex_encode (mac secret value)

  unfoldable pub verify_signature : List ℕ → List ℕ → List ℕ → Bool
  unfolding hex_decode
  verify_signature value signature secret = elim (hex_decode signature) [
    | none ↦ false
    | some raw ↦ bytes_eq (mac secret value) raw
  ]

  unfoldable pub sign_session : List ℕ → List ℕ → List ℕ
  unfolding hex_encode
  sign_session value secret = value ++ dot ∷ signature_hex value secret

  -- `signed_cookie`, on the cookie's value.
  unfoldable pub signed_cookie : Option (List ℕ) → List ℕ → Option (List ℕ)
  unfolding rsplit_once verify_signature
  signed_cookie cookie secret = do
    text ← cookie
    (value, signature) ← rsplit_once text
    if verify_signature value signature secret then some value else none

  -- The secret has 32 bytes at least; `none` is the error.
  unfoldable pub session_mac : List ℕ → List ℕ → Option (List ℕ)
  unfolding to_be_bytes
  session_mac session_id secret =
      if ltb (length secret) 32 then none else some (mac secret (csrf_message session_id))

  unfoldable pub issue : List ℕ → List ℕ → Option (List ℕ)
  unfolding session_mac hex_encode
  issue session_id secret = do
    bytes ← session_mac session_id secret
    some (prefix ++ hex_encode bytes)

  -- `chunks_exact(2)` of 64 digits, nibble by nibble.
  unfoldable pub verify : List ℕ → List ℕ → List ℕ → Option Bool
  unfolding session_mac
  verify session_id token secret = do
    expected ← session_mac session_id secret
    elim (strip_prefix prefix token) [
      | none ↦ some false
      | some hex ↦
          if length hex == 64
          then elim (decode_pairs nibble hex) [
            | none ↦ some false
            | some signature ↦ some (bytes_eq expected signature)
          ]
          else some false
    ]

-- Hexadecimal text has no dot.
rsplit_once-none : (bs : List ℕ) → All (λ b. (b == dot) ≡ false) bs → rsplit_once bs ≡ none
unfolding rsplit_once
rsplit_once-none [] h = refl
rsplit_once-none (b ∷ bs) (p, h) = rw (rsplit_once-none bs h, p) refl

rsplit_once-append :
    (value bs : List ℕ)
    → All (λ b. (b == dot) ≡ false) bs
    → rsplit_once (value ++ dot ∷ bs) ≡ some (value, bs)
unfolding rsplit_once
rsplit_once-append [] bs h = rw (rsplit_once-none bs h) refl
rsplit_once-append (b ∷ value) bs h = rw (rsplit_once-append value bs h) refl

hex_encode-dotless : (bs : List ℕ) → IsBytes bs → All (λ b. (b == dot) ≡ false) (hex_encode bs)
unfolding hex_encode
hex_encode-dotless [] h = tt
hex_encode-dotless (b ∷ bs) (p, h) = (ground arith, (ground arith, hex_encode-dotless bs h))

pub strip_prefix-append : (ps bs : List ℕ) → strip_prefix ps (ps ++ bs) ≡ some bs
unfolding strip_prefix
strip_prefix-append [] bs = refl
strip_prefix-append (p ∷ ps) bs = rw (==_refl p) (strip_prefix-append ps bs)

strip_prefix-eq-some : (ps text bs : List ℕ) → strip_prefix ps text ≡ some bs → text ≡ ps ++ bs
unfolding strip_prefix
strip_prefix-eq-some [] text bs e = some-injective _ _ e
strip_prefix-eq-some (p ∷ ps) [] bs e = cc
strip_prefix-eq-some (p ∷ ps) (b ∷ text) bs e = elim (Bool-cases (p == b)) [
  | inl same ↦ ap₂ ◌∷◌ (sym ((==_iff p b).0 same)) (strip_prefix-eq-some ps text bs (rw same at e))
  | inr other ↦ cc (rw other at e)
]

rsplit_once-eq-some :
    (bs before after : List ℕ) → rsplit_once bs ≡ some (before, after) → bs ≡ before ++ dot ∷ after
unfolding rsplit_once
rsplit_once-eq-some [] before after e = cc
rsplit_once-eq-some (b ∷ bs) before after e = elim (Option-cases (rsplit_once bs)) [
  | inr (r, found) ↦
      let (before_lem, after_lem) = some-pair_inj (rw (rsplit_once, found) at e) in
      ap (◌∷◌ b) (rsplit_once-eq-some bs r.0 r.1 found)
      ∙ ap₂ (λ x y. x ++ dot ∷ y) before_lem after_lem
  | inl missing ↦ elim (Bool-cases (b == dot)) [
    | inr other ↦ cc (rw (rsplit_once, missing, other) at e)
    | inl here ↦
        let (before_lem, after_lem) = some-pair_inj (rw (rsplit_once, missing, here) at e) in
        ap₂ ◌∷◌ ((==_iff b dot).0 here) after_lem ∙ ap (λ x. x ++ dot ∷ after) before_lem
  ]
]

module _ (mac : List ℕ → List ℕ → List ℕ) where
  verify_of_issue :
      (session_id token secret : List ℕ)
      → IsBytes (mac secret (csrf_message session_id))
      → length (mac secret (csrf_message session_id)) ≡ 32
      → issue mac session_id secret ≡ some token
      → verify mac session_id token secret ≡ some true
  unfolding verify issue session_mac
  verify_of_issue session_id token secret b n e = elim (Bool-cases (ltb (length secret) 32)) [
    | inl short ↦ cc (rw short at e)
    | inr long ↦
        let m = mac secret (csrf_message session_id) in
        let token_lem : prefix ++ hex_encode m ≡ token = some-injective _ _ (rw long at e) in
        let digits : length (hex_encode m) ≡ 64 = omega (arith, length-hex_encode m, n) in
        rw
          (
            long,
            ← token_lem,
            strip_prefix-append prefix (hex_encode m),
            digits,
            nibbles-hex_encode m b,
            bytes_eq_refl m,
          )
          refl
  ]

  issue_of_verify :
      (session_id token secret : List ℕ)
      → verify mac session_id token secret ≡ some true
      → issue mac session_id secret ≡ some token
  unfolding verify issue session_mac
  issue_of_verify session_id token secret e = elim (Bool-cases (ltb (length secret) 32)) [
    | inl short ↦ cc (rw short at e)
    | inr long ↦
        let m = mac secret (csrf_message session_id) in
        elim (Option-cases (strip_prefix prefix token)) [
          | inl other ↦ cc (rw (long, other) at e)
          | inr (hex, stripped) ↦ elim (Bool-cases (length hex == 64)) [
            | inr differs ↦ cc (rw (long, stripped, differs) at e)
            | inl digits ↦ elim (Option-cases (decode_pairs nibble hex)) [
              | inl bad ↦ cc (rw (long, stripped, digits, bad) at e)
              | inr (raw, read) ↦
                  let equal =
                    bytes_eq→eq m raw
                      (some-injective _ _ (rw (long, stripped, digits, read) at e)) in
                  rw
                    (
                      long,
                      strip_prefix-eq-some prefix token hex stripped,
                      ← hex_encode-nibbles hex raw read,
                      equal,
                    )
                    refl
            ]
          ]
        ]
  ]

  -- The value that `sign_session` signs is the one that `signed_cookie` takes from the cookie, under the
  -- same secret, if the MAC is a string of bytes.
  pub signed_cookie-sign_session :
      (value secret : List ℕ)
      → IsBytes (mac secret value)
      → signed_cookie mac (some (sign_session mac value secret)) secret ≡ some value
  unfolding signed_cookie sign_session verify_signature
  signed_cookie-sign_session value secret b =
      rw
        (
          rsplit_once-append value (hex_encode (mac secret value))
              (hex_encode-dotless (mac secret value) b),
          verify_signature,
          hex_decode-hex_encode (mac secret value) b,
          bytes_eq_refl (mac secret value),
        )
        refl

  -- A cookie that `signed_cookie` reads is the value, a dot and the MAC in hexadecimal, in letters of
  -- either case.
  pub signed_cookie-eq-some :
      (cookie : Option (List ℕ)) (secret value : List ℕ)
      → signed_cookie mac cookie secret ≡ some value
      → (signature : List ℕ) × (cookie ≡ some (value ++ dot ∷ signature))
        × (map lower_digit signature ≡ hex_encode (mac secret value))
  unfolding signed_cookie verify_signature
  signed_cookie-eq-some cookie secret value e =
      let (text, given, e₁) = >>=-eq-some cookie _ e in
      let ((key, signature), cut, e₂) = >>=-eq-some (rsplit_once text) _ e₁ in
      elim (Bool-cases (verify_signature mac key signature secret)) [
        | inr forged ↦ cc (rw forged at e₂)
        | inl genuine ↦
            let key_lem : key ≡ value = some-injective _ _ (rw genuine at e₂) in
            elim (Option-cases (hex_decode signature)) [
              | inl unread ↦ cc (rw (verify_signature, unread) at genuine)
              | inr (raw, read) ↦
                  let equal =
                    bytes_eq→eq (mac secret key) raw (rw (verify_signature, read) at genuine) in
                  (
                    signature,
                    given
                        ∙ ap some (rsplit_once-eq-some text key signature cut)
                        ∙ ap (λ k. some (k ++ dot ∷ signature)) key_lem,
                    sym (hex_encode-hex_decode signature raw read)
                        ∙ ap hex_encode (sym equal)
                        ∙ ap (λ k. hex_encode (mac secret k)) key_lem,
                  )
            ]
      ]

  -- If the MAC of the session's message is a string of 32 bytes, `verify` accepts a token exactly
  -- if it is the one that `issue` gives for the session and the secret.
  pub verify-issue :
      (session_id token secret : List ℕ)
      → IsBytes (mac secret (csrf_message session_id))
      → length (mac secret (csrf_message session_id)) ≡ 32
      → (verify mac session_id token secret ≡ some true)
        ↔ (issue mac session_id secret ≡ some token)
  verify-issue session_id token secret b n =
      (issue_of_verify session_id token secret, verify_of_issue session_id token secret b n)
