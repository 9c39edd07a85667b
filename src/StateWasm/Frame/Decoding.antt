-- ===== src/StateWasm/Frame/Decoding.antt =====
-- `decode_expr_value` of crates/axonyx-state-wasm/src/lib.rs on frames.
use axonyx_runtime.Prelude.{
  ℕ, suc, ◌+◌, ◌-◌, ◌*◌, ◌/◌, ◌≤◌, ◌<◌, ◌^◌, ◌≡◌, refl, sym, ap, ◌∙◌, true, false, Option, some,
  List, [], ◌∷◌, ◌++◌, arith, append_assoc, le→leb, lt→ltb, length, length-append, drop,
}
use mathlib.Core.Path.{subst}
use axonyx_runtime.Prelude.Bytes.{
  to_le_bytes, from_le_bytes, length-to_le_bytes, from_le_bytes-to_le_bytes,
}
use axonyx_runtime.Prelude.Int.{to_word, from_word-to_word, to_word-lt}
use axonyx_runtime.StateWasm.Value.{
  ExprValue, null, string, bool, float, int, bytes, list, object, Values, nil, cons, Fields, end,
  field,
}
use axonyx_runtime.StateWasm.Cursor.{usize_size, take_bytes, read_u32, checked_add}
use axonyx_runtime.StateWasm.Cursor.Laws.{At, At-length, At-skip, take_bytes-At, read_u32-At}
use axonyx_runtime.StateWasm.Frame.{
  Kind, a_null, a_string, a_bool, a_float, an_int, a_bytes, a_list, an_object, header, max_depth,
  length_items, length_fields, decode_items, decode_fields, decode_payload, decode_levels,
  decode_expr_value, encode_expr_value,
}
use axonyx_runtime.StateWasm.Frame.Layout.{
  frame_header, counted, frame, frame_items, frame_fields, IsValue, AreValues, AreFields, Fits,
  FitsItems, FitsFields,
}
use axonyx_runtime.StateWasm.Frame.Encoding.{encode-eq-some_iff}

header_lem : (kind : Kind) (rest : List ℕ) → header (frame_header kind ++ rest) ≡ some kind
unfolding header
header_lem a_null rest = refl
header_lem a_string rest = refl
header_lem a_bool rest = refl
header_lem a_float rest = refl
header_lem an_int rest = refl
header_lem a_bytes rest = refl
header_lem a_list rest = refl
header_lem an_object rest = refl

payload-At : (kind : Kind) (payload : List ℕ) → At (frame_header kind ++ payload) 4 payload
payload-At kind payload = record { within = omega arith; behind = refl }

pub At-eq :
    {data_ : List ℕ} {cursor : ℕ} {xs ys : List ℕ}
    → At data_ cursor xs
    → xs ≡ ys
    → At data_ cursor ys
At-eq p e = record { within = p.within; behind = p.behind ∙ e }

module _ (data_ : List ℕ) (small : length data_ < usize_size) where
  -- The slice is read up to `last`, and what is left there is `rest`.
  read_word :
      (cursor value : ℕ) (rest : List ℕ)
      → At data_ cursor (to_le_bytes 4 value ++ rest)
      → value < 2 ^ 32
      → (read_u32 data_ cursor ≡ some (value, cursor + 4)) × At data_ (cursor + 4) rest
  read_word cursor value rest p bound = (
    read_u32-At data_ cursor value rest p small bound,
    rw (length-to_le_bytes 4 value) at (At-skip data_ cursor (to_le_bytes 4 value) rest p),
  )

  take_word8 :
      (value : ℕ) (rest : List ℕ)
      → At data_ 4 (to_le_bytes 8 value ++ rest)
      → take_bytes data_ 4 8 ≡ some (to_le_bytes 8 value, 12)
  take_word8 value rest p =
      rw (length-to_le_bytes 8 value) at (take_bytes-At data_ 4 (to_le_bytes 8 value) rest p small)

  checked_add-At :
      (cursor : ℕ) (xs rest : List ℕ)
      → At data_ cursor (xs ++ rest)
      → checked_add cursor (length xs) ≡ some (cursor + length xs)
  checked_add-At cursor xs rest p =
      let q = At-skip data_ cursor xs rest p in
      let w = q.within in rw (lt→ltb (cursor + length xs) usize_size (omega (arith, w)))

-- Each item takes four bytes at least, and each field eight, as the guards on the counts expect.
mutual
  unfolding frame

  length-frame-ge : (v : ExprValue) → 4 ≤ length (frame v)
  length-frame-ge null = omega arith
  length-frame-ge (string text) = omega arith
  length-frame-ge (bool b) = omega arith
  length-frame-ge (float bits) = omega arith
  length-frame-ge (int a) = omega arith
  length-frame-ge (bytes raw) = omega arith
  length-frame-ge (list vs) = omega arith
  length-frame-ge (object fs) = omega arith

  length-frame_items-ge : (vs : Values) → 4 * length_items vs ≤ length (frame_items vs)
  length-frame_items-ge nil = omega arith
  length-frame_items-ge (cons v vs) =
      omega (
        arith,
        length-append (frame v) (frame_items vs),
        length-frame-ge v,
        length-frame_items-ge vs,
      )

  length-frame_fields-ge : (fs : Fields) → 8 * length_fields fs ≤ length (frame_fields fs)
  length-frame_fields-ge end = omega arith
  length-frame_fields-ge (field k v fs) = omega (
    arith,
    length-append (counted k) (frame v ++ frame_fields fs),
    length-append (to_le_bytes 4 (length k)) k,
    length-to_le_bytes 4 (length k),
    length-append (frame v) (frame_fields fs),
    length-frame-ge v,
    length-frame_fields-ge fs,
  )

-- A counted text behind the cursor.
pub read_counted :
    (data_ : List ℕ) (cursor : ℕ) (text rest : List ℕ)
    → length data_ < usize_size
    → At data_ cursor (counted text ++ rest)
    → length text < 2 ^ 32
    → (read_u32 data_ cursor ≡ some (length text, cursor + 4))
      × (take_bytes data_ (cursor + 4) (length text) ≡ some (text, cursor + 4 + length text))
      × At data_ (cursor + 4 + length text) rest
read_counted data_ cursor text rest small p bound =
    let p' = At-eq p (append_assoc (to_le_bytes 4 (length text)) text rest) in
    let (word, q) = read_word data_ small cursor (length text) (text ++ rest) p' bound in
    (
      word,
      take_bytes-At data_ (cursor + 4) text rest q small,
      At-skip data_ (cursor + 4) text rest q,
    )

Fits-room : (v : ExprValue) (levels : ℕ) → Fits levels v → levels ≡ suc (levels - 1)
Fits-room null levels h = omega arith
Fits-room (string text) levels h = omega arith
Fits-room (bool b) levels h = omega arith
Fits-room (float bits) levels h = omega arith
Fits-room (int a) levels h = omega arith
Fits-room (bytes raw) levels h = omega arith
Fits-room (list vs) levels h = let room = h.0 in omega arith
Fits-room (object fs) levels h = let room = h.0 in omega arith

-- The length of a frame after its header, in the form in which the cursor arrives.
pub length-counted : (text : List ℕ) → length (counted text) ≡ 4 + length text
length-counted text =
    omega
      (arith, length-append (to_le_bytes 4 (length text)) text, length-to_le_bytes 4 (length text))

length-word :
    (count : ℕ) (parts : List ℕ) → length (to_le_bytes 4 count ++ parts) ≡ 4 + length parts
length-word count parts =
    omega (arith, length-append (to_le_bytes 4 count) parts, length-to_le_bytes 4 count)

ends : {A : Type 0} (a : A) {n m : ℕ} → n ≡ m → ◌≡◌ {A = Option (A × ℕ)} (some (a, n)) (some (a, m))
ends a e = ap (λ n. some (a, n)) e

At-small :
    (data_ : List ℕ) (cursor : ℕ) (rest : List ℕ)
    → At data_ cursor rest
    → length data_ < usize_size
    → length rest < usize_size
At-small data_ cursor rest p small = omega (arith, At-length data_ cursor rest p)

mutual
  unfolding decode_levels decode_payload decode_items decode_fields frame from_le_bytes

  decode-frame :
      (v : ExprValue) (levels : ℕ) (rest : List ℕ)
      → IsValue v
      → Fits (suc levels) v
      → length (frame v ++ rest) < usize_size
      → decode_levels (suc levels) (frame v ++ rest) ≡ some (v, length (frame v))
  decode-frame null levels rest is fit small = rw (header_lem a_null rest) refl
  decode-frame (string text) levels rest (b, utf8) (room, bound) small =
      let (p, q, _) =
        read_counted _ 4 text rest small (payload-At a_string (counted text ++ rest)) bound in
      rw (header_lem a_string (counted text ++ rest), p, q, utf8)
        (ends (string text) (omega (arith, length-counted text)))
  decode-frame (bool true) levels rest is fit small = rw (
    header_lem a_bool (1 ∷ rest),
    take_bytes-At _ 4 (1 ∷ []) rest (payload-At a_bool (1 ∷ rest)) small,
  )
  decode-frame (bool false) levels rest is fit small = rw (
    header_lem a_bool (0 ∷ rest),
    take_bytes-At _ 4 (0 ∷ []) rest (payload-At a_bool (0 ∷ rest)) small,
  )
  decode-frame (float bits) levels rest is (room, finite) small =
      let p = take_word8 _ small bits rest (payload-At a_float (to_le_bytes 8 bits ++ rest)) in
      rw
        (
          header_lem a_float (to_le_bytes 8 bits ++ rest),
          p,
          from_le_bytes-to_le_bytes 8 bits is,
          finite,
        )
        (ends (float bits) (omega (arith, length-to_le_bytes 8 bits)))
  decode-frame (int a) levels rest is fit small =
      let p =
        take_word8 _ small (to_word a) rest
          (payload-At an_int (to_le_bytes 8 (to_word a) ++ rest)) in
      rw
        (
          header_lem an_int (to_le_bytes 8 (to_word a) ++ rest),
          p,
          from_le_bytes-to_le_bytes 8 (to_word a) (to_word-lt a is),
          from_word-to_word a is,
        )
        (ends (int a) (omega (arith, length-to_le_bytes 8 (to_word a))))
  decode-frame (bytes raw) levels rest is (room, bound) small =
      let (p, q, _) =
        read_counted _ 4 raw rest small (payload-At a_bytes (counted raw ++ rest)) bound in
      rw (header_lem a_bytes (counted raw ++ rest), p, q)
        (ends (bytes raw) (omega (arith, length-counted raw)))
  decode-frame (list vs) levels rest is (room, bound, fit) small =
      let down : suc levels - 1 ≡ levels = omega arith in
      let here =
        At-eq (payload-At a_list _)
          (append_assoc (to_le_bytes 4 (length_items vs)) (frame_items vs) rest) in
      let (word, p) = read_word _ small 4 (length_items vs) (frame_items vs ++ rest) here bound in
      let enough = length-frame_items-ge vs in
      let total = At-length _ 8 (frame_items vs ++ rest) p in
      let items =
        decode_items-frame vs levels _ 8 rest is (subst (λ l. FitsItems l vs) down fit) small p in
      rw
        (
          header_lem a_list ((to_le_bytes 4 (length_items vs) ++ frame_items vs) ++ rest),
          word,
          le→leb (length_items vs) ((length (frame (list vs) ++ rest) - 8) / 4)
              (omega (arith, enough, total, length-append (frame_items vs) rest)),
          items,
        )
        (ends (list vs) (omega (arith, length-word (length_items vs) (frame_items vs))))
  decode-frame (object fs) levels rest is (room, bound, fit) small =
      let down : suc levels - 1 ≡ levels = omega arith in
      let here =
        At-eq (payload-At an_object _)
          (append_assoc (to_le_bytes 4 (length_fields fs)) (frame_fields fs) rest) in
      let (word, p) = read_word _ small 4 (length_fields fs) (frame_fields fs ++ rest) here bound in
      let enough = length-frame_fields-ge fs in
      let total = At-length _ 8 (frame_fields fs ++ rest) p in
      let fields =
        decode_fields-frame fs [] levels _ 8 rest is (subst (λ l. FitsFields l fs) down fit) small
          p in
      rw
        (
          header_lem an_object ((to_le_bytes 4 (length_fields fs) ++ frame_fields fs) ++ rest),
          word,
          le→leb (length_fields fs) ((length (frame (object fs) ++ rest) - 8) / 8)
              (omega (arith, enough, total, length-append (frame_fields fs) rest)),
          fields,
        )
        (ends (object fs) (omega (arith, length-word (length_fields fs) (frame_fields fs))))

  decode_items-frame :
      (vs : Values) (levels : ℕ) (data_ : List ℕ) (cursor : ℕ) (rest : List ℕ)
      → AreValues vs
      → FitsItems levels vs
      → length data_ < usize_size
      → At data_ cursor (frame_items vs ++ rest)
      → decode_items (decode_levels levels) data_ (length_items vs) cursor
        ≡ some (vs, cursor + length (frame_items vs))
  decode_items-frame nil levels data_ cursor rest is fit small p =
      ap (λ n. some (nil, n)) (omega arith)
  decode_items-frame (cons v vs) levels data_ cursor rest (is, are) (fit, fits) small p =
      let room = Fits-room v levels fit in
      let p' = At-eq p (append_assoc (frame v) (frame_items vs) rest) in
      let one =
        decode-frame v (levels - 1) (frame_items vs ++ rest) is (subst (λ l. Fits l v) room fit)
          (At-small data_ cursor _ p' small) in
      let here : decode_levels levels (drop cursor data_) ≡ some (v, length (frame v)) =
        subst (λ l. decode_levels l (drop cursor data_) ≡ some (v, length (frame v))) (sym room)
          (rw p'.behind one) in
      let more =
        decode_items-frame vs levels data_ (cursor + length (frame v)) rest are fits small
          (At-skip data_ cursor (frame v) (frame_items vs ++ rest) p') in
      rw (here, checked_add-At data_ small cursor (frame v) (frame_items vs ++ rest) p', more)
        (ends (cons v vs) (omega (arith, length-append (frame v) (frame_items vs))))

  decode_fields-frame :
      (fs : Fields) (keys : List (List ℕ)) (levels : ℕ) (data_ : List ℕ) (cursor : ℕ)
      (rest : List ℕ)
      → AreFields keys fs
      → FitsFields levels fs
      → length data_ < usize_size
      → At data_ cursor (frame_fields fs ++ rest)
      → decode_fields (decode_levels levels) data_ (length_fields fs) keys cursor
        ≡ some (fs, cursor + length (frame_fields fs))
  decode_fields-frame end keys levels data_ cursor rest is fit small p =
      ap (λ n. some (end, n)) (omega arith)
  decode_fields-frame (field k v fs) keys levels data_ cursor rest (_, utf8, fresh, is, are)
        (bound, fit, fits) small p =
      let room = Fits-room v levels fit in
      let tail = frame_fields fs ++ rest in
      let p' : At data_ cursor (counted k ++ (frame v ++ tail)) = At-eq p (simp append_assoc) in
      let (word, text, q) = read_counted data_ cursor k (frame v ++ tail) small p' bound in
      let after = cursor + 4 + length k in
      let one =
        decode-frame v (levels - 1) tail is (subst (λ l. Fits l v) room fit)
          (At-small data_ after _ q small) in
      let here : decode_levels levels (drop after data_) ≡ some (v, length (frame v)) =
        subst (λ l. decode_levels l (drop after data_) ≡ some (v, length (frame v))) (sym room)
          (rw q.behind one) in
      let more =
        decode_fields-frame fs (k ∷ keys) levels data_ (after + length (frame v)) rest are fits
          small (At-skip data_ after (frame v) tail q) in
      rw (word, text, utf8, fresh, here, checked_add-At data_ small after (frame v) tail q, more)
        (ends (field k v fs) (
          omega (
            arith,
            length-append (counted k) (frame v ++ frame_fields fs),
            length-counted k,
            length-append (frame v) (frame_fields fs),
          )))

-- Round trip, at any depth up to the limit: what a value encodes to, followed by anything, decodes
-- at the same depth to that value and to the number of bytes written, for a value as Rust's types
-- and distinct keys allow, and a slice that `usize` can measure.
pub decode-encode :
    (v : ExprValue) (depth : ℕ) (written rest : List ℕ)
    → depth ≤ max_depth
    → IsValue v
    → encode_expr_value v [] depth ≡ some written
    → length (written ++ rest) < usize_size
    → decode_expr_value (written ++ rest) depth ≡ some (v, length written)
unfolding decode_expr_value
decode-encode v depth written rest within is e small =
    let (fit, same) = (encode-eq-some_iff v [] depth (33 - depth) written (omega arith)).0 e in
    let room = Fits-room v (33 - depth) fit in
    let small' = subst (λ t. length (t ++ rest) < usize_size) same small in
    let one = decode-frame v (33 - depth - 1) rest is (subst (λ l. Fits l v) room fit) small' in
    rw (same, room) one
