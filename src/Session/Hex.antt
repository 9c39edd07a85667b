-- ===== src/Session/Hex.antt =====
-- Hexadecimal text: `hex_encode`, `hex_decode` and `hex_value` of crates/axonyx-runtime/src/server.rs and
-- `nibble` of crates/axonyx-runtime/src/session/csrf.rs. `byte >> 4` is `byte / 16`.
use axonyx_runtime.Prelude.{
  map, ℕ, ◌+◌, ◌-◌, ◌*◌, ◌/◌, ◌%◌, ◌<◌, ◌≡◌, refl, ap, ◌∙◌, sym, Bool, ◌&&◌, Option, none, some,
  List, [], ◌∷◌, arith, ltb, leb, if◌then◌else◌, ◌>>=◌, length, >>=-eq-some,
}
use axonyx_runtime.Prelude.Bytes.{IsBytes}
use mathlib.Core.Option.{some-injective}

abbrev pub hex_digit : ℕ → ℕ
hex_digit n = if ltb n 10 then b'0' + n else b'a' + (n - 10)

unfoldable pub hex_encode : List ℕ → List ℕ
hex_encode [] = []
hex_encode (b ∷ bs) = hex_digit (b / 16) ∷ hex_digit (b % 16) ∷ hex_encode bs

abbrev pub between : ℕ → ℕ → ℕ → Bool
between lo hi b = leb lo b && leb b hi

unfoldable pub nibble : ℕ → Option ℕ
nibble b =
    if between b'0' b'9' b
    then some (b - b'0')
    else if between b'a' b'f' b
    then some (b - b'a' + 10)
    else none

unfoldable pub hex_value : ℕ → Option ℕ
hex_value b =
    if between b'0' b'9' b
    then some (b - b'0')
    else if between b'a' b'f' b
    then some (b - b'a' + 10)
    else if between b'A' b'F' b
    then some (b - b'A' + 10)
    else none

-- The loop over the pairs, which an odd digit ends.
module _ (digit : ℕ → Option ℕ) where
  unfoldable pub decode_pairs : List ℕ → Option (List ℕ)
  decode_pairs [] = some []
  decode_pairs (a ∷ []) = none
  decode_pairs (a ∷ b ∷ rest) = do
    high ← digit a
    low ← digit b
    bytes ← decode_pairs rest
    some ((high * 16 + low) ∷ bytes)

unfoldable pub hex_decode : List ℕ → Option (List ℕ)
unfolding decode_pairs hex_value
hex_decode text = decode_pairs hex_value text

pub length-hex_encode : (bs : List ℕ) → length (hex_encode bs) ≡ 2 * length bs
unfolding hex_encode
length-hex_encode [] = omega arith
length-hex_encode (b ∷ bs) = let more = length-hex_encode bs in omega (arith, more)

hex_value-hex_digit : (n : ℕ) → n < 16 → hex_value (hex_digit n) ≡ some n
unfolding hex_value
hex_value-hex_digit n h = ground arith

nibble-hex_digit : (n : ℕ) → n < 16 → nibble (hex_digit n) ≡ some n
unfolding nibble
nibble-hex_digit n h = ground arith

-- Only lower case is read.
nibble-eq-some : (b n : ℕ) → nibble b ≡ some n → (n < 16) × (hex_digit n ≡ b)
unfolding nibble
nibble-eq-some b n e = ground arith

module _ (digit : ℕ → Option ℕ) (reads : (n : ℕ) → n < 16 → digit (hex_digit n) ≡ some n) where
  decode_pairs-hex_encode :
      (bs : List ℕ) → IsBytes bs → decode_pairs digit (hex_encode bs) ≡ some bs
  unfolding decode_pairs hex_encode
  decode_pairs-hex_encode [] h = refl
  decode_pairs-hex_encode (b ∷ bs) (p, h) =
      let high = reads (b / 16) (omega (arith, p)) in
      let low = reads (b % 16) (omega arith) in
      rw (high, low, decode_pairs-hex_encode bs h) (ap (λ n. some (n ∷ bs)) (omega arith))

pub hex_decode-hex_encode : (bs : List ℕ) → IsBytes bs → hex_decode (hex_encode bs) ≡ some bs
unfolding hex_decode
hex_decode-hex_encode = decode_pairs-hex_encode hex_value hex_value-hex_digit

pub nibbles-hex_encode : (bs : List ℕ) → IsBytes bs → decode_pairs nibble (hex_encode bs) ≡ some bs
nibbles-hex_encode = decode_pairs-hex_encode nibble nibble-hex_digit

-- A reader of digits that gives the digit back, as `fold` writes it.
module _ (digit : ℕ → Option ℕ) (fold : ℕ → ℕ)
    (inverts : (b n : ℕ) → digit b ≡ some n → (n < 16) × (hex_digit n ≡ fold b)) where
  hex_encode-decode_pairs :
      (text bs : List ℕ) → decode_pairs digit text ≡ some bs → hex_encode bs ≡ map fold text
  unfolding decode_pairs hex_encode
  hex_encode-decode_pairs [] bs e = ap hex_encode (sym (some-injective _ _ e))
  hex_encode-decode_pairs (a ∷ []) bs e = cc
  hex_encode-decode_pairs (a ∷ b ∷ rest) bs e =
      let (high, p, e₁) = >>=-eq-some (digit a) _ e in
      let (low, q, e₂) = >>=-eq-some (digit b) _ e₁ in
      let (more, r, e₃) = >>=-eq-some (decode_pairs digit rest) _ e₂ in
      let (high_lt, high_lem) = inverts a high p in
      let (low_lt, low_lem) = inverts b low q in
      let quotient : (high * 16 + low) / 16 ≡ high = omega (arith, low_lt) in
      let remainder : (high * 16 + low) % 16 ≡ low = omega (arith, low_lt) in
      ap hex_encode (sym (some-injective _ _ e₃))
      ∙ rw (quotient, remainder, high_lem, low_lem, hex_encode-decode_pairs rest more r) refl

map_same : (text : List ℕ) → map (λ (b : ℕ). b) text ≡ text
map_same [] = refl
map_same (b ∷ bs) = ap (◌∷◌ b) (map_same bs)

pub hex_encode-nibbles :
    (text bs : List ℕ) → decode_pairs nibble text ≡ some bs → hex_encode bs ≡ text
hex_encode-nibbles text bs e =
    hex_encode-decode_pairs nibble (λ b. b) nibble-eq-some text bs e ∙ map_same text

-- A digit in lower case.
abbrev pub lower_digit : ℕ → ℕ
lower_digit b = if between b'A' b'F' b then b + 32 else b

hex_value-eq-some : (b n : ℕ) → hex_value b ≡ some n → (n < 16) × (hex_digit n ≡ lower_digit b)
unfolding hex_value
hex_value-eq-some b n e = ground arith

pub hex_encode-hex_decode :
    (text bs : List ℕ) → hex_decode text ≡ some bs → hex_encode bs ≡ map lower_digit text
unfolding hex_decode
hex_encode-hex_decode = hex_encode-decode_pairs hex_value lower_digit hex_value-eq-some
