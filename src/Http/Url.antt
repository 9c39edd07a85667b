-- ===== src/Http/Url.antt =====
-- Percent-encoding and form fields: `url_decode`, `parse_urlencoded_fields`, `form_value` and
-- `query_fields` of crates/axonyx-runtime/src/server.rs, and `url_encode` of
-- crates/axonyx-runtime/src/lib.rs.
pub mod RoundTrip
use axonyx_runtime.Prelude.{
  ℕ, zero, suc, ◌+◌, ◌-◌, ◌*◌, ◌/◌, ◌%◌, Bool, true, false, not, ◌&&◌, ◌||◌, Option, none, some,
  List, [], ◌∷◌, ◌++◌, ltb, leb, ◌==◌, if◌then◌else◌, ◌>>=◌,
}
use axonyx_runtime.Prelude.Bytes.{ascii, lead}
use axonyx_runtime.Validation.{split_once, is_alphanumeric}
use axonyx_runtime.Session.Hex.{between, hex_value}
use axonyx_runtime.Http.Text.{Text, pieces, split}
use axonyx_runtime.Http.Request.{Map, map_insert, map_get, MultipartForm, Request}

abbrev pub hex_upper : ℕ → ℕ
hex_upper n = if ltb n 10 then b'0' + n else b'A' + (n - 10)

abbrev pub is_unreserved : ℕ → Bool
is_unreserved b = is_alphanumeric b || (b == b'-' || (b == b'_' || (b == b'.' || b == b'~')))

unfoldable pub url_encode : Text → Text
url_encode [] = []
url_encode (b ∷ s) =
    let rest = url_encode s in
    if is_unreserved b then b ∷ rest else b'%' ∷ hex_upper (b / 16) ∷ hex_upper (b % 16) ∷ rest

-- The two digits after a percent sign.
abbrev pub escaped : ℕ → ℕ → Option ℕ
escaped h l = do high ← hex_value h; low ← hex_value l; some (high * 16 + low)

unfoldable pub decode_bytes : Text → List ℕ
unfolding hex_value
decode_bytes [] = []
decode_bytes (b ∷ []) = (if b == b'+' then b' ' else b) ∷ []
decode_bytes (b ∷ c ∷ []) = (if b == b'+' then b' ' else b) ∷ decode_bytes (c ∷ [])
decode_bytes (b ∷ c ∷ d ∷ s) =
    let one = decode_bytes (c ∷ d ∷ s) in
    let three = decode_bytes s in
    if b == b'+'
    then b' ' ∷ one
    else if b == b'%'
    then elim (escaped c d) [ some byte ↦ byte ∷ three | none ↦ b'%' ∷ one ]
    else b ∷ one

-- `String::from_utf8_lossy`: a part that begins a character and does not end it, and a byte that
-- begins none, become U+FFFD. `pending` is what was read of a character, of which `need` bytes are
-- missing, the next one in `lo..=hi`.
abbrev pub replacement : Text
replacement = 0xef ∷ 0xbf ∷ 0xbd ∷ []

pub record Pending : Type 0 where
  pub bytes : List ℕ
  pub need : ℕ
  pub lo : ℕ
  pub hi : ℕ

abbrev pub no_pending : Pending
no_pending = record { bytes = []; need = 0; lo = 0x80; hi = 0xbf }

abbrev pub begin_char : ℕ → Option (ℕ × ℕ × ℕ) → Text × Pending
begin_char b none = (replacement, no_pending)
begin_char b (some (zero, lo, hi)) = (b ∷ [], no_pending)
begin_char b (some (suc need, lo, hi)) =
    ([], record { bytes = b ∷ []; need = suc need; lo = lo; hi = hi })

abbrev pub continue_char : Pending → ℕ → ℕ → Text × Pending
continue_char p zero b = begin_char b (lead b)
continue_char p (suc need) b =
    if leb p.lo b && leb b p.hi
    then (if need == 0
        then (p.bytes ++ b ∷ [], no_pending)
        else ([], record { bytes = p.bytes ++ b ∷ []; need = need; lo = 0x80; hi = 0xbf }))
    else (let (out, next) = begin_char b (lead b) in (replacement ++ out, next))

unfoldable pub lossy_from : Pending → List ℕ → Text
lossy_from p [] = if p.need == 0 then [] else replacement
lossy_from p (b ∷ s) = let (out, next) = continue_char p p.need b in out ++ lossy_from next s

abbrev pub from_utf8_lossy : List ℕ → Text
from_utf8_lossy s = lossy_from no_pending s

unfoldable pub url_decode : Text → Text
unfolding decode_bytes lossy_from
url_decode value = from_utf8_lossy (decode_bytes value)

abbrev pub key_value : Text → Option (Text × Text) → Text × Text
key_value pair none = (pair, [])
key_value pair (some (key, value)) = (key, value)

-- The loop over the pairs; a later field of the same name replaces an earlier one.
unfoldable pub insert_fields : List Text → Map → Map
unfolding url_decode map_insert split_once
insert_fields [] fields = fields
insert_fields ([] ∷ pairs) fields = insert_fields pairs fields
insert_fields ((b ∷ s) ∷ pairs) fields =
    let (key, value) = key_value (b ∷ s) (split_once b'=' (b ∷ s)) in
    insert_fields pairs (map_insert (url_decode key) (url_decode value) fields)

unfoldable pub parse_urlencoded_fields : Text → Map
unfolding insert_fields split
parse_urlencoded_fields body = insert_fields (pieces b'&' body) []

abbrev pub multipart_field : Option MultipartForm → Text → Option Text
multipart_field none name = none
multipart_field (some form) name = map_get name form.fields

unfoldable pub form_value : Request → Text → Option Text
unfolding parse_urlencoded_fields map_get lossy_from
form_value r name = elim (multipart_field r.multipart name) [
  | some value ↦ some value
  | none ↦ map_get name (parse_urlencoded_fields (from_utf8_lossy r.body))
]

abbrev pub fields_of : Option (Text × Text) → Map
fields_of none = []
fields_of (some (path, query)) = parse_urlencoded_fields query

unfoldable pub query_fields : Request → Map
unfolding parse_urlencoded_fields split_once
query_fields r = fields_of (split_once b'?' r.target)
