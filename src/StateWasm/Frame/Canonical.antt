-- ===== src/StateWasm/Frame/Canonical.antt =====
-- `decode_expr_value` of crates/axonyx-state-wasm/src/lib.rs against the layout of frames.
use mathlib.Core.Path.{subst, subst₂}
use axonyx_runtime.Prelude.{
  ℕ, zero, suc, ◌+◌, ◌-◌, ◌/◌, ◌≤◌, ◌<◌, ◌^◌, ◌≡◌, refl, sym, ap, ◌∙◌, true, Option, some, List, [],
  ◌∷◌, ◌++◌, arith, ◌==◌, append_assoc, leb, guard, length, length-append, if◌then◌else◌, drop,
  >>=-eq-some, guard-eq-some, some-pair_inj,
}
use axonyx_runtime.Prelude.Bytes.{
  IsBytes, to_le_bytes, from_le_bytes, from_le_bytes-lt, to_le_bytes-from_le_bytes,
  length-to_le_bytes, from_utf8,
}
use axonyx_runtime.Prelude.Int.{from_word, to_word-from_word, from_word-in_i64}
use axonyx_runtime.StateWasm.Value.{ExprValue, string, bool, float, int, bytes, list, object}
use axonyx_runtime.StateWasm.Cursor.{take_bytes, read_u32}
use axonyx_runtime.StateWasm.Cursor.Laws.{take_bytes-Taken, read_u32-Read, Taken-IsBytes}
use axonyx_runtime.StateWasm.Frame.{
  Kind, a_null, a_string, a_bool, a_float, an_int, a_bytes, a_list, an_object, header, max_depth,
  is_finite, length_items, length_fields, decode_items, decode_fields, decode_payload,
  decode_levels, decode_expr_value, encode_expr_value,
}
use axonyx_runtime.StateWasm.Frame.Layout.{
  frame_header, counted, frame, frame_items, frame_fields, IsValue, Fits, FitsItems, FitsFields,
}
use axonyx_runtime.StateWasm.Frame.Parts.{
  Decoded, DecodesTo, header-eq-some, from_utf8-eq-some, KeyAt-of_reads, decode_items-ItemsAt,
  decode_fields-FieldsAt,
}
use axonyx_runtime.StateWasm.Frame.Encoding.{encode-eq-some_iff}
use axonyx_runtime.Prelude.{take, take-length-append}

-- The byte of a flag, and an eight-byte word, are what their values encode to.
bool_payload :
    (raw : List ℕ)
    → IsBytes raw
    → length raw ≡ 1
    → leb (from_le_bytes raw) 1 ≡ true
    → raw ≡ (if from_le_bytes raw == 1 then 1 else 0) ∷ []
unfolding from_le_bytes
bool_payload [] b n h = absurd (omega arith)
bool_payload (x ∷ []) b n h = ground arith
bool_payload (x ∷ y ∷ xs) b n h = absurd (omega arith)

word8 :
    (raw : List ℕ)
    → IsBytes raw
    → length raw ≡ 8
    → (from_le_bytes raw < 2 ^ 64) × (to_le_bytes 8 (from_le_bytes raw) ≡ raw)
word8 raw b n = (
  omega (arith, subst (λ k. from_le_bytes raw < 256 ^ k) n (from_le_bytes-lt raw b)),
  subst (λ k. to_le_bytes k (from_le_bytes raw) ≡ raw) n (to_le_bytes-from_le_bytes raw b),
)

-- A header and a payload make a frame.
Decoded-of_payload :
    {levels : ℕ} {data_ : List ℕ} {v w : ExprValue} {last end_ : ℕ} (kind : Kind) (payload : List ℕ)
    → IsValue v
    → Fits levels v
    → frame v ≡ frame_header kind ++ payload
    → data_ ≡ frame_header kind ++ drop 4 data_
    → drop 4 data_ ≡ payload ++ drop last data_
    → last ≡ 4 + length payload
    → ◌≡◌ {A = Option (ExprValue × ℕ)} (some (v, last)) (some (w, end_))
    → Decoded levels data_ w end_
Decoded-of_payload {levels} {data_} {v} {w} {last} {end_} kind payload is fit layout opened split
      consumed e =
    let (same, same_last) = some-pair_inj e in
    subst₂ (λ u n. Decoded levels data_ u n) same same_last
      (record {
        is = is;
        fits = fit;
        split =
            opened
            ∙ ap (λ t. frame_header kind ++ t) split
            ∙ ap (λ t. t ++ drop last data_) (sym layout);
        consumed = omega (arith, consumed, ap length layout);
      })

module _ (levels : ℕ) (decode : List ℕ → Option (ExprValue × ℕ)) (ih : DecodesTo levels decode)
    (data_ : List ℕ) (b : IsBytes data_) where
  decode_payload-Decoded :
      (kind : Kind) {v : ExprValue} {last : ℕ}
      → data_ ≡ frame_header kind ++ drop 4 data_
      → decode_payload decode data_ kind ≡ some (v, last)
      → Decoded (suc levels) data_ v last
  unfolding decode_payload frame
  decode_payload-Decoded a_null opened e =
      Decoded-of_payload a_null [] tt (omega arith) refl opened refl (omega arith) e
  decode_payload-Decoded a_string opened e =
      let ((count, start), p₁, e₁) = >>=-eq-some (read_u32 data_ 4) _ e in
      let ((raw, last), p₂, e₂) = >>=-eq-some (take_bytes data_ start count) _ e₁ in
      let (text, p₃, e₃) = >>=-eq-some (from_utf8 raw) _ e₂ in
      let (utf8, text_lem) = from_utf8-eq-some raw p₃ in
      let k =
        KeyAt-of_reads data_ 4 b (read_u32-Read data_ 4 b p₁)
          (take_bytes-Taken data_ start count p₂) in
      Decoded-of_payload {v = string raw} a_string (counted raw) (k.bytes_lem, utf8)
        (omega arith, k.bounded) refl opened k.split k.consumed
        (ap (λ t. some (string t, last)) (sym text_lem) ∙ e₃)
  decode_payload-Decoded a_bool opened e =
      let ((raw, last), p₁, e₁) = >>=-eq-some (take_bytes data_ 4 1) _ e in
      let (_, p₂, e₂) = >>=-eq-some (guard (leb (from_le_bytes raw) 1)) _ e₁ in
      let t = take_bytes-Taken data_ 4 1 p₁ in
      let flag = from_le_bytes raw == 1 in
      let payload_lem = bool_payload raw (Taken-IsBytes b t) t.counted (guard-eq-some _ p₂) in
      Decoded-of_payload {v = bool flag} a_bool ((if flag then 1 else 0) ∷ []) tt (omega arith) refl
        opened (t.split ∙ ap (λ xs. xs ++ drop last data_) payload_lem) t.moved e₂
  decode_payload-Decoded a_float opened e =
      let ((raw, last), p₁, e₁) = >>=-eq-some (take_bytes data_ 4 8) _ e in
      let (_, p₂, e₂) = >>=-eq-some (guard (is_finite (from_le_bytes raw))) _ e₁ in
      let t = take_bytes-Taken data_ 4 8 p₁ in
      let (bound, same) = word8 raw (Taken-IsBytes b t) t.counted in
      Decoded-of_payload {v = float (from_le_bytes raw)} a_float raw bound
        (omega arith, guard-eq-some _ p₂) (ap (λ xs. frame_header a_float ++ xs) same) opened
        t.split (omega (arith, t.moved, t.counted)) e₂
  decode_payload-Decoded an_int opened e =
      let ((raw, last), p₁, e₁) = >>=-eq-some (take_bytes data_ 4 8) _ e in
      let t = take_bytes-Taken data_ 4 8 p₁ in
      let (bound, same) = word8 raw (Taken-IsBytes b t) t.counted in
      Decoded-of_payload {v = int (from_word (from_le_bytes raw))} an_int raw
        (from_word-in_i64 (from_le_bytes raw) bound) (omega arith)
        (ap (λ xs. frame_header an_int ++ xs)
          (ap (to_le_bytes 8) (to_word-from_word (from_le_bytes raw) bound) ∙ same))
        opened t.split (omega (arith, t.moved, t.counted)) e₁
  decode_payload-Decoded a_bytes opened e =
      let ((count, start), p₁, e₁) = >>=-eq-some (read_u32 data_ 4) _ e in
      let ((raw, last), p₂, e₂) = >>=-eq-some (take_bytes data_ start count) _ e₁ in
      let k =
        KeyAt-of_reads data_ 4 b (read_u32-Read data_ 4 b p₁)
          (take_bytes-Taken data_ start count p₂) in
      Decoded-of_payload {v = bytes raw} a_bytes (counted raw) k.bytes_lem (omega arith, k.bounded)
        refl opened k.split k.consumed e₂
  decode_payload-Decoded a_list opened e =
      let ((count, start), p₁, e₁) = >>=-eq-some (read_u32 data_ 4) _ e in
      let (_, p₂, e₂) = >>=-eq-some (guard (leb count ((length data_ - start) / 4))) _ e₁ in
      let ((items, last), p₃, e₃) = >>=-eq-some (decode_items decode data_ count start) _ e₂ in
      let r = read_u32-Read data_ 4 b p₁ in
      let i = decode_items-ItemsAt levels decode ih data_ b count start p₃ in
      let word = ap (to_le_bytes 4) (sym i.counted_lem) in
      Decoded-of_payload {v = list items} a_list
        (to_le_bytes 4 (length_items items) ++ frame_items items) i.are
        (
          omega arith,
          omega (arith, i.counted_lem, r.bounded),
          subst (λ l. FitsItems l items) down i.fits,
        )
        refl opened
        (r.split
          ∙ ap (λ xs. xs ++ drop start data_) word
          ∙ ap (λ xs. to_le_bytes 4 (length_items items) ++ xs) i.split
          ∙ sym (append_assoc _ (frame_items items) _))
        (omega (
          arith,
          i.consumed,
          r.moved,
          length-append (to_le_bytes 4 (length_items items)) (frame_items items),
          length-to_le_bytes 4 (length_items items),
        ))
        e₃
    where
      down : levels ≡ suc levels - 1
      down = omega arith
  decode_payload-Decoded an_object opened e =
      let ((count, start), p₁, e₁) = >>=-eq-some (read_u32 data_ 4) _ e in
      let (_, p₂, e₂) = >>=-eq-some (guard (leb count ((length data_ - start) / 8))) _ e₁ in
      let ((fields, last), p₃, e₃) = >>=-eq-some (decode_fields decode data_ count [] start) _ e₂ in
      let r = read_u32-Read data_ 4 b p₁ in
      let i = decode_fields-FieldsAt levels decode ih data_ b count [] start p₃ in
      let word = ap (to_le_bytes 4) (sym i.counted_lem) in
      Decoded-of_payload {v = object fields} an_object
        (to_le_bytes 4 (length_fields fields) ++ frame_fields fields) i.are
        (
          omega arith,
          omega (arith, i.counted_lem, r.bounded),
          subst (λ l. FitsFields l fields) down i.fits,
        )
        refl opened
        (r.split
          ∙ ap (λ xs. xs ++ drop start data_) word
          ∙ ap (λ xs. to_le_bytes 4 (length_fields fields) ++ xs) i.split
          ∙ sym (append_assoc _ (frame_fields fields) _))
        (omega (
          arith,
          i.consumed,
          r.moved,
          length-append (to_le_bytes 4 (length_fields fields)) (frame_fields fields),
          length-to_le_bytes 4 (length_fields fields),
        ))
        e₃
    where
      down : levels ≡ suc levels - 1
      down = omega arith

decode_levels-Decoded : (levels : ℕ) → DecodesTo levels (decode_levels levels)
unfolding decode_levels
decode_levels-Decoded zero data_ v last b e = cc
decode_levels-Decoded (suc levels) data_ v last b e =
    let (kind, p, q) = >>=-eq-some (header data_) _ e in
    decode_payload-Decoded levels (decode_levels levels) (decode_levels-Decoded levels) data_ b kind
      (header-eq-some data_ p) q

-- The format is canonical: where decoding a slice of bytes at a depth up to the limit succeeds, it
-- consumes no more than the slice and returns a value that Rust's types and distinct keys allow,
-- and encoding this value at the same depth writes exactly the bytes that were consumed.
pub encode-decode :
    (data_ : List ℕ) (depth : ℕ) (v : ExprValue) (last : ℕ)
    → IsBytes data_
    → depth ≤ max_depth
    → decode_expr_value data_ depth ≡ some (v, last)
    → IsValue v × (encode_expr_value v [] depth ≡ some (take last data_)) × (last ≤ length data_)
unfolding decode_expr_value
encode-decode data_ depth v last b within e =
    let d = decode_levels-Decoded (33 - depth) data_ v last b e in
    let same : take last data_ ≡ frame v =
      ap (take last) d.split
      ∙ ap (λ n. take n (frame v ++ drop last data_)) d.consumed
      ∙ take-length-append (frame v) (drop last data_) in
    (
      d.is,
      (encode-eq-some_iff v [] depth (33 - depth) (take last data_) (omega arith)).1 (d.fits, same),
      omega (arith, ap length d.split, length-append (frame v) (drop last data_), d.consumed),
    )
