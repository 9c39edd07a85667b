-- ===== src/StateWasm/Frame.antt =====
-- Value frames: `decode_expr_value`, `encode_expr_value` and `validate_value_frame` of
-- crates/axonyx-state-wasm/src/lib.rs.
pub mod Layout
pub mod Encoding
pub mod Decoding
mod Parts
pub mod Canonical
pub mod Validation
use axonyx_runtime.Prelude.{
  ℕ, zero, suc, ◌+◌, ◌-◌, ◌/◌, ◌%◌, ◌^◌, Bool, Option, none, some, List, [], ◌∷◌, ◌++◌, leb, ◌==◌,
  ◌&&◌, not, guard, ◌>>=◌, ◌>>◌, length, drop, if◌then◌else◌,
}
use axonyx_runtime.Prelude.Bytes.{to_le_bytes, from_le_bytes, from_utf8, contains}
use axonyx_runtime.Prelude.Int.{to_word, from_word}
use axonyx_runtime.StateWasm.Value.{
  ExprValue, null, string, bool, float, int, bytes, list, object, Values, nil, cons, Fields, end,
  field,
}
use axonyx_runtime.StateWasm.Cursor.{checked_add, take_bytes, read_u32, push_u32}

abbrev pub max_depth : ℕ
max_depth = 32

abbrev pub frame_version : ℕ
frame_version = 1

-- `f64::is_finite`: the exponent field is not all ones.
abbrev pub is_finite : ℕ → Bool
is_finite bits = not (bits / 2 ^ 52 % 2048 == 2047)

-- The fourth byte of a frame, and the arms of the `match` over it.
pub data Kind : Type 0 where
  a_null a_string a_bool a_float an_int a_bytes a_list an_object : Kind

abbrev pub tag : Kind → ℕ
tag a_null = 0
tag a_string = 1
tag a_bool = 2
tag a_float = 3
tag an_int = 4
tag a_bytes = 5
tag a_list = 6
tag an_object = 7

unfoldable pub kind_of : ℕ → Option Kind
kind_of n =
    if n == 0
    then some a_null
    else if n == 1
    then some a_string
    else if n == 2
    then some a_bool
    else if n == 3
    then some a_float
    else if n == 4
    then some an_int
    else if n == 5
    then some a_bytes
    else if n == 6
    then some a_list
    else if n == 7
    then some an_object
    else none

-- The checks on the first four bytes.
unfoldable pub header : List ℕ → Option Kind
unfolding kind_of
header (a ∷ x ∷ version ∷ n ∷ _) =
    if a == b'A' && x == b'X' && version == frame_version then kind_of n else none
header _ = none

-- The loops over the items and the fields; `decode` reads one frame at the start of a slice.
module _ (decode : List ℕ → Option (ExprValue × ℕ)) (data_ : List ℕ) where
  unfoldable pub decode_items : ℕ → ℕ → Option (Values × ℕ)
  decode_items zero cursor = some (nil, cursor)
  decode_items (suc count) cursor = do
    (item, consumed) ← decode (drop cursor data_)
    cursor' ← checked_add cursor consumed
    (items, last) ← decode_items count cursor'
    some (cons item items, last)

  -- `keys` are those of the fields read so far.
  unfoldable pub decode_fields : ℕ → List (List ℕ) → ℕ → Option (Fields × ℕ)
  decode_fields zero keys cursor = some (end, cursor)
  decode_fields (suc count) keys cursor = do
    (key_length, start) ← read_u32 data_ cursor
    (raw, after) ← take_bytes data_ start key_length
    key ← from_utf8 raw
    guard (not (contains keys key))
    (value, consumed) ← decode (drop after data_)
    cursor' ← checked_add after consumed
    (fields, last) ← decode_fields count (key ∷ keys) cursor'
    some (field key value fields, last)

  unfoldable pub decode_payload : Kind → Option (ExprValue × ℕ)
  decode_payload a_null = some (null, 4)
  decode_payload a_string = do
    (count, start) ← read_u32 data_ 4
    (raw, last) ← take_bytes data_ start count
    text ← from_utf8 raw
    some (string text, last)
  decode_payload a_bool = do
    (raw, last) ← take_bytes data_ 4 1
    guard (leb (from_le_bytes raw) 1)
    some (bool (from_le_bytes raw == 1), last)
  decode_payload a_float = do
    (raw, last) ← take_bytes data_ 4 8
    guard (is_finite (from_le_bytes raw))
    some (float (from_le_bytes raw), last)
  decode_payload an_int = do
    (raw, last) ← take_bytes data_ 4 8
    some (int (from_word (from_le_bytes raw)), last)
  decode_payload a_bytes = do
    (count, start) ← read_u32 data_ 4
    (raw, last) ← take_bytes data_ start count
    some (bytes raw, last)
  decode_payload a_list = do
    (count, start) ← read_u32 data_ 4
    guard (leb count ((length data_ - start) / 4))
    (items, last) ← decode_items count start
    some (list items, last)
  decode_payload an_object = do
    (count, start) ← read_u32 data_ 4
    guard (leb count ((length data_ - start) / 8))
    (fields, last) ← decode_fields count [] start
    some (object fields, last)

-- `levels` is `AX_STATE_VALUE_MAX_DEPTH + 1 - depth`, so that `depth > MAX_DEPTH` is `zero`.
unfoldable pub decode_levels : ℕ → List ℕ → Option (ExprValue × ℕ)
decode_levels zero data_ = none
decode_levels (suc levels) data_ = do
  kind ← header data_
  decode_payload (decode_levels levels) data_ kind

unfoldable pub decode_expr_value : List ℕ → ℕ → Option (ExprValue × ℕ)
unfolding decode_levels header decode_payload decode_items decode_fields read_u32 take_bytes
decode_expr_value data_ depth = decode_levels (max_depth + 1 - depth) data_

-- The same loops where only the lengths are wanted.
module _ (validate : List ℕ → Option ℕ) (data_ : List ℕ) where
  unfoldable pub validate_items : ℕ → ℕ → Option ℕ
  validate_items zero cursor = some cursor
  validate_items (suc count) cursor = do
    consumed ← validate (drop cursor data_)
    cursor' ← checked_add cursor consumed
    validate_items count cursor'

  unfoldable pub validate_fields : ℕ → ℕ → Option ℕ
  validate_fields zero cursor = some cursor
  validate_fields (suc count) cursor = do
    (key_length, start) ← read_u32 data_ cursor
    (key, after) ← take_bytes data_ start key_length
    from_utf8 key
    consumed ← validate (drop after data_)
    cursor' ← checked_add after consumed
    validate_fields count cursor'

  unfoldable pub validate_payload : Kind → Option ℕ
  validate_payload a_null = some 4
  validate_payload a_string = do
    (count, start) ← read_u32 data_ 4
    (raw, last) ← take_bytes data_ start count
    from_utf8 raw
    some last
  validate_payload a_bool = do
    (raw, last) ← take_bytes data_ 4 1
    guard (leb (from_le_bytes raw) 1)
    some last
  validate_payload a_float = do
    (raw, last) ← take_bytes data_ 4 8
    guard (is_finite (from_le_bytes raw))
    some last
  validate_payload an_int = do (raw, last) ← take_bytes data_ 4 8; some last
  validate_payload a_bytes = do
    (count, start) ← read_u32 data_ 4
    (raw, last) ← take_bytes data_ start count
    some last
  validate_payload a_list = do (count, start) ← read_u32 data_ 4; validate_items count start
  validate_payload an_object = do (count, start) ← read_u32 data_ 4; validate_fields count start

unfoldable pub validate_levels : ℕ → List ℕ → Option ℕ
validate_levels zero data_ = none
validate_levels (suc levels) data_ = do
  kind ← header data_
  validate_payload (validate_levels levels) data_ kind

unfoldable pub validate_value_frame : List ℕ → ℕ → Option ℕ
unfolding validate_levels header validate_payload validate_items validate_fields read_u32 take_bytes
validate_value_frame data_ depth = validate_levels (max_depth + 1 - depth) data_

-- The depth check and the first four bytes of a frame.
unfoldable pub open_frame : List ℕ → ℕ → Kind → Option (List ℕ)
open_frame output depth kind = do
  guard (leb depth max_depth)
  some (output ++ b'A' ∷ b'X' ∷ frame_version ∷ tag kind ∷ [])

abbrev pub length_items : Values → ℕ
length_items nil = 0
length_items (cons v vs) = suc (length_items vs)

abbrev pub length_fields : Fields → ℕ
length_fields end = 0
length_fields (field k v fs) = suc (length_fields fs)

-- `encode_expr_value` returns what it has written so far and this frame.
unfoldable mutual
  pub encode_expr_value : ExprValue → List ℕ → ℕ → Option (List ℕ)
  encode_expr_value null output depth = open_frame output depth a_null
  encode_expr_value (string value) output depth = do
    opened ← open_frame output depth a_string
    counted ← push_u32 opened (length value)
    some (counted ++ value)
  encode_expr_value (bool value) output depth = do
    opened ← open_frame output depth a_bool
    some (opened ++ (if value then 1 else 0) ∷ [])
  encode_expr_value (float value) output depth = do
    guard (is_finite value)
    opened ← open_frame output depth a_float
    some (opened ++ to_le_bytes 8 value)
  encode_expr_value (int value) output depth = do
    opened ← open_frame output depth an_int
    some (opened ++ to_le_bytes 8 (to_word value))
  encode_expr_value (bytes value) output depth = do
    opened ← open_frame output depth a_bytes
    counted ← push_u32 opened (length value)
    some (counted ++ value)
  encode_expr_value (list items) output depth = do
    opened ← open_frame output depth a_list
    counted ← push_u32 opened (length_items items)
    encode_items items counted (depth + 1)
  encode_expr_value (object fields) output depth = do
    opened ← open_frame output depth an_object
    counted ← push_u32 opened (length_fields fields)
    encode_fields fields counted (depth + 1)

  pub encode_items : Values → List ℕ → ℕ → Option (List ℕ)
  encode_items nil output depth = some output
  encode_items (cons v vs) output depth = do
    written ← encode_expr_value v output depth
    encode_items vs written depth

  pub encode_fields : Fields → List ℕ → ℕ → Option (List ℕ)
  encode_fields end output depth = some output
  encode_fields (field key v fs) output depth = do
    counted ← push_u32 output (length key)
    written ← encode_expr_value v (counted ++ key) depth
    encode_fields fs written depth
