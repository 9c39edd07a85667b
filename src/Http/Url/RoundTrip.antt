-- ===== src/Http/Url/RoundTrip.antt =====
-- What `url_encode` of crates/axonyx-runtime/src/lib.rs writes, `url_decode` and
-- `parse_urlencoded_fields` of crates/axonyx-runtime/src/server.rs read back.
use axonyx_runtime.Prelude.{
  ℕ, zero, suc, ◌+◌, ◌*◌, ◌/◌, ◌%◌, ◌<◌, ◌≡◌, refl, sym, ap, ◌∙◌, inl, inr, Bool, true, false, ◌&&◌,
  Option, none, some, List, [], ◌∷◌, ◌++◌, leb, ◌==◌, All, All-append, ◌⊎◌, Bool-cases, and-eq-true,
  arith, append_assoc,
}
use mathlib.Core.Path.{ap₂}
use axonyx_runtime.Prelude.Bytes.{IsBytes, is_utf8, is_utf8_from, lead}
use axonyx_runtime.Session.Hex.{hex_value}
use axonyx_runtime.Http.Text.{Text, pieces, split}
use axonyx_runtime.Http.Request.{Map, map_insert}
use axonyx_runtime.Http.Splits.{Avoids, split-Avoids, split_last, split_once-Avoids}
use axonyx_runtime.Http.Url.{
  hex_upper, is_unreserved, url_encode, escaped, decode_bytes, Pending, begin_char, lossy_from,
  url_decode, insert_fields, key_value, parse_urlencoded_fields,
}

hex_value-hex_upper : (n : ℕ) → n < 16 → hex_value (hex_upper n) ≡ some n
unfolding hex_value
hex_value-hex_upper n h = ground arith

escaped-byte : (b : ℕ) → b < 256 → escaped (hex_upper (b / 16)) (hex_upper (b % 16)) ≡ some b
escaped-byte b h =
    let high : b / 16 < 16 = omega arith in
    let low : b % 16 < 16 = omega arith in
    let whole : b / 16 * 16 + b % 16 ≡ b = omega arith in
    rw (hex_value-hex_upper (b / 16) high, hex_value-hex_upper (b % 16) low) (ap some whole)

decode_plain :
    (b : ℕ) (t : Text)
    → (b == b'+') ≡ false
    → (b == b'%') ≡ false
    → decode_bytes (b ∷ t) ≡ b ∷ decode_bytes t
unfolding decode_bytes
decode_plain b [] p q = rw p refl
decode_plain b (c ∷ []) p q = rw p refl
decode_plain b (c ∷ d ∷ t) p q = rw (p, q) refl

decode_escaped :
    (b : ℕ) (t : Text)
    → b < 256
    → decode_bytes (b'%' ∷ hex_upper (b / 16) ∷ hex_upper (b % 16) ∷ t) ≡ b ∷ decode_bytes t
unfolding decode_bytes
decode_escaped b t h = rw (escaped-byte b h) refl

unreserved_plain : (b : ℕ) → is_unreserved b ≡ true → (b == b'+') ≡ false
unreserved_plain b h = ground arith

unreserved_percent : (b : ℕ) → is_unreserved b ≡ true → (b == b'%') ≡ false
unreserved_percent b h = ground arith

decode_bytes-url_encode : (s : Text) → IsBytes s → decode_bytes (url_encode s) ≡ s
unfolding url_encode
decode_bytes-url_encode [] h = unfold decode_bytes in refl
decode_bytes-url_encode (b ∷ s) (p, h) = elim (Bool-cases (is_unreserved b)) [
  | inl plain ↦ rw plain (
      decode_plain b (url_encode s) (unreserved_plain b plain) (unreserved_percent b plain)
      ∙ ap (◌∷◌ b) (decode_bytes-url_encode s h))
  | inr other ↦
      rw other (decode_escaped b (url_encode s) p ∙ ap (◌∷◌ b) (decode_bytes-url_encode s h))
]

-- Between two characters the range of the next byte does not matter.
utf8_between : (lo hi lo' hi' : ℕ) (s : Text) → is_utf8_from 0 lo hi s ≡ is_utf8_from 0 lo' hi' s
unfolding is_utf8_from
utf8_between lo hi lo' hi' [] = refl
utf8_between lo hi lo' hi' (b ∷ s) = refl

abbrev pending : List ℕ → ℕ → ℕ → ℕ → Pending
pending bytes need lo hi = record { bytes = bytes; need = need; lo = lo; hi = hi }

-- Bytes are pending inside a character only.
abbrev Fits : List ℕ → ℕ → Type 0
Fits bytes zero = bytes ≡ []
Fits bytes (suc need) = Unit

abbrev Lossless : List ℕ → Type 0
Lossless s =
    (bytes : List ℕ) (need lo hi : ℕ)
    → Fits bytes need
    → is_utf8_from need lo hi s ≡ true
    → lossy_from (pending bytes need lo hi) s ≡ bytes ++ s

abbrev begun : Text → ℕ → Option (ℕ × ℕ × ℕ) → Text
begun s b l = let (out, next) = begin_char b l in out ++ lossy_from next s

abbrev valid_after : Text → Option (ℕ × ℕ × ℕ) → Bool
valid_after s none = false
valid_after s (some (need, lo, hi)) = is_utf8_from need lo hi s

lossy_begin :
    (s : List ℕ) (b : ℕ) (l : Option (ℕ × ℕ × ℕ))
    → Lossless s
    → valid_after s l ≡ true
    → begun s b l ≡ b ∷ s
lossy_begin s b none ih h = cc
lossy_begin s b (some (zero, lo, hi)) ih h =
    ap (◌∷◌ b) (ih [] 0 0x80 0xbf refl (utf8_between 0x80 0xbf lo hi s ∙ h))
lossy_begin s b (some (suc need, lo, hi)) ih h = ih (b ∷ []) (suc need) lo hi tt h

valid_lead : (lo hi b : ℕ) (s : List ℕ) → is_utf8_from 0 lo hi (b ∷ s) ≡ valid_after s (lead b)
unfolding is_utf8_from
valid_lead lo hi b s = go (lead b)
  where
    go :
        (l : Option (ℕ × ℕ × ℕ))
        → (elim l [ none ↦ false | some (need, lo', hi') ↦ is_utf8_from need lo' hi' s ])
          ≡ valid_after s l
    go none = refl
    go (some (need, lo', hi')) = refl

lossy_valid : (s : List ℕ) → Lossless s
unfolding lossy_from is_utf8_from
lossy_valid [] bytes zero lo hi f h = rw f refl
lossy_valid [] bytes (suc need) lo hi f h = absurd (ground (arith, h))
lossy_valid (b ∷ s) bytes zero lo hi f h =
    rw f (lossy_begin s b (lead b) (lossy_valid s) (sym (valid_lead lo hi b s) ∙ h))
lossy_valid (b ∷ s) bytes (suc zero) lo hi f h =
    let (inside, rest) = and-eq-true (leb lo b && leb b hi) (is_utf8_from 0 0x80 0xbf s) h in
    rw inside (
      ap (λ t. (bytes ++ b ∷ []) ++ t) (lossy_valid s [] 0 0x80 0xbf refl rest)
      ∙ append_assoc bytes (b ∷ []) s)
lossy_valid (b ∷ s) bytes (suc (suc need)) lo hi f h =
    let (inside, rest) =
      and-eq-true (leb lo b && leb b hi) (is_utf8_from (suc need) 0x80 0xbf s) h in
    let going : (suc need == 0) ≡ false = ground arith in
    rw (inside, going)
      (lossy_valid s (bytes ++ b ∷ []) (suc need) 0x80 0xbf tt rest ∙ append_assoc bytes (b ∷ []) s)

url_decode_lem : (s : Text) → IsBytes s → is_utf8 s ≡ true → url_decode (url_encode s) ≡ s
unfolding url_decode
url_decode_lem s b h = rw (decode_bytes-url_encode s b) (lossy_valid s [] 0 0x80 0xbf refl h)

-- The text of a form: `key=value` pairs, percent-encoded, with `&` between them.
unfoldable pub pair_text : Text × Text → Text
unfolding url_encode
pair_text (key, value) = url_encode key ++ b'=' ∷ url_encode value

unfoldable pub form_text : List (Text × Text) → Text
unfolding pair_text
form_text [] = []
form_text (p ∷ []) = pair_text p
form_text (p ∷ q ∷ ps) = pair_text p ++ b'&' ∷ form_text (q ∷ ps)

abbrev pub insert_all : List (Text × Text) → Map → Map
insert_all [] m = m
insert_all ((key, value) ∷ ps) m = insert_all ps (map_insert key value m)

abbrev pub IsText : Text → Type 0
IsText s = IsBytes s × (is_utf8 s ≡ true)

hex_upper_mark :
    (mark n : ℕ) → (mark ≡ b'&') ⊎ (mark ≡ b'=') → n < 16 → (hex_upper n == mark) ≡ false
hex_upper_mark mark n m h = ground arith

unreserved_mark :
    (mark b : ℕ) → (mark ≡ b'&') ⊎ (mark ≡ b'=') → is_unreserved b ≡ true → (b == mark) ≡ false
unreserved_mark mark b m h = ground arith

percent_mark : (mark : ℕ) → (mark ≡ b'&') ⊎ (mark ≡ b'=') → (b'%' == mark) ≡ false
percent_mark mark m = ground arith

url_encode-Avoids :
    (mark : ℕ) (s : Text) → (mark ≡ b'&') ⊎ (mark ≡ b'=') → IsBytes s → Avoids mark (url_encode s)
unfolding url_encode
url_encode-Avoids mark [] m h = tt
url_encode-Avoids mark (b ∷ s) m (p, h) = elim (Bool-cases (is_unreserved b)) [
  | inl plain ↦ rw plain (unreserved_mark mark b m plain, url_encode-Avoids mark s m h)
  | inr other ↦ rw other (
    percent_mark mark m,
    (
      hex_upper_mark mark (b / 16) m (omega arith),
      (hex_upper_mark mark (b % 16) m (omega arith), url_encode-Avoids mark s m h),
    ),
  )
]

pair_text-Avoids :
    (key value : Text) → IsBytes key → IsBytes value → Avoids b'&' (pair_text (key, value))
unfolding pair_text
pair_text-Avoids key value k v =
    All-append _ (url_encode key) (b'=' ∷ url_encode value)
      (url_encode-Avoids b'&' key (inl refl) k) (refl, url_encode-Avoids b'&' value (inl refl) v)

abbrev inserted : Text → Option (Text × Text) → List Text → Map → Map
inserted pair parts rest m =
    let (key, value) = key_value pair parts in
    insert_fields rest (map_insert (url_decode key) (url_decode value) m)

insert_pair :
    (s t : Text) (rest : List Text) (m : Map)
    → Avoids b'=' s
    → insert_fields ((s ++ b'=' ∷ t) ∷ rest) m
      ≡ insert_fields rest (map_insert (url_decode s) (url_decode t) m)
unfolding insert_fields
insert_pair [] t rest m h = ap (λ o. inserted (b'=' ∷ t) o rest m) (split_once-Avoids b'=' [] t h)
insert_pair (b ∷ s) t rest m h =
    ap (λ o. inserted ((b ∷ s) ++ b'=' ∷ t) o rest m) (split_once-Avoids b'=' (b ∷ s) t h)

insert_encoded :
    (key value : Text) (rest : List Text) (m : Map)
    → IsText key
    → IsText value
    → insert_fields (pair_text (key, value) ∷ rest) m ≡ insert_fields rest (map_insert key value m)
unfolding pair_text
insert_encoded key value rest m (k, k') (v, v') =
    insert_pair (url_encode key) (url_encode value) rest m (url_encode-Avoids b'=' key (inr refl) k)
    ∙ ap₂ (λ s t. insert_fields rest (map_insert s t m)) (url_decode_lem key k k')
        (url_decode_lem value v v')

abbrev pub AreTexts : List (Text × Text) → Type 0
AreTexts = All (λ (p : Text × Text). IsText p.0 × IsText p.1)

insert-form_text :
    (ps : List (Text × Text)) (m : Map)
    → AreTexts ps
    → insert_fields (pieces b'&' (form_text ps)) m ≡ insert_all ps m
unfolding form_text
insert-form_text [] m h = unfold insert_fields split in refl
insert-form_text ((key, value) ∷ []) m ((k, v), h) =
    rw (split_last b'&' (pair_text (key, value)) (pair_text-Avoids key value k.0 v.0))
      (insert_encoded key value [] m k v ∙ unfold insert_fields in refl)
insert-form_text ((key, value) ∷ q ∷ ps) m ((k, v), h) =
    rw
      (split-Avoids b'&' (pair_text (key, value)) (form_text (q ∷ ps))
        (pair_text-Avoids key value k.0 v.0))
      (insert_encoded key value (pieces b'&' (form_text (q ∷ ps))) m k v
        ∙ insert-form_text (q ∷ ps) (map_insert key value m) h)

-- A form of pairs whose keys and values are UTF-8 text, percent-encoded and joined with `=` and `&`,
-- is parsed to the map in which the pairs are inserted one after another.
pub parse_urlencoded_fields-form_text :
    (ps : List (Text × Text))
    → AreTexts ps
    → parse_urlencoded_fields (form_text ps) ≡ insert_all ps []
unfolding parse_urlencoded_fields
parse_urlencoded_fields-form_text ps h = insert-form_text ps [] h
