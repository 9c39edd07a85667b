-- ===== src/StateWasm/Frame/Validation.antt =====
-- `validate_value_frame` against `decode_expr_value`.
use axonyx_runtime.Prelude.{
  ℕ, zero, suc, ◌-◌, ◌/◌, ◌≡◌, ap, ◌∙◌, not, Option, some, List, [], ◌∷◌, arith, leb, guard, length,
  drop, >>=-eq-some, some-pair_inj,
}
use axonyx_runtime.Prelude.Bytes.{from_utf8, contains}
use axonyx_runtime.StateWasm.Value.{ExprValue, Values, Fields}
use axonyx_runtime.StateWasm.Cursor.{take_bytes, read_u32, checked_add}
use axonyx_runtime.StateWasm.Frame.{
  Kind, a_null, a_list, an_object, header, decode_items, decode_fields, decode_payload,
  decode_levels, decode_expr_value, validate_items, validate_fields, validate_payload,
  validate_levels, validate_value_frame,
}

abbrev Agree : (List ℕ → Option (ExprValue × ℕ)) → (List ℕ → Option ℕ) → Type 0
Agree decode validate =
    (data_ : List ℕ) (v : ExprValue) (last : ℕ)
    → decode data_ ≡ some (v, last)
    → validate data_ ≡ some last

module _ (decode : List ℕ → Option (ExprValue × ℕ)) (validate : List ℕ → Option ℕ)
    (agree : Agree decode validate) (data_ : List ℕ) where
  validate_items-decode :
      (count cursor : ℕ) (vs : Values) (last : ℕ)
      → decode_items decode data_ count cursor ≡ some (vs, last)
      → validate_items validate data_ count cursor ≡ some last
  unfolding decode_items validate_items
  validate_items-decode zero cursor vs last e = ap some (some-pair_inj e).1
  validate_items-decode (suc count) cursor vs last e =
      let ((item, consumed), p, e₁) = >>=-eq-some (decode (drop cursor data_)) _ e in
      let (cursor', q, e₂) = >>=-eq-some (checked_add cursor consumed) _ e₁ in
      let ((items, last'), r, e₃) = >>=-eq-some (decode_items decode data_ count cursor') _ e₂ in
      rw (agree (drop cursor data_) item consumed p, q)
        (validate_items-decode count cursor' items last' r ∙ ap some (some-pair_inj e₃).1)

  validate_fields-decode :
      (count : ℕ) (keys : List (List ℕ)) (cursor : ℕ) (fs : Fields) (last : ℕ)
      → decode_fields decode data_ count keys cursor ≡ some (fs, last)
      → validate_fields validate data_ count cursor ≡ some last
  unfolding decode_fields validate_fields
  validate_fields-decode zero keys cursor fs last e = ap some (some-pair_inj e).1
  validate_fields-decode (suc count) keys cursor fs last e =
      let ((key_length, start), p₁, e₁) = >>=-eq-some (read_u32 data_ cursor) _ e in
      let ((raw, after), p₂, e₂) = >>=-eq-some (take_bytes data_ start key_length) _ e₁ in
      let (key, p₃, e₃) = >>=-eq-some (from_utf8 raw) _ e₂ in
      let (_, p₄, e₄) = >>=-eq-some (guard (not (contains keys key))) _ e₃ in
      let ((value, consumed), p₅, e₅) = >>=-eq-some (decode (drop after data_)) _ e₄ in
      let (cursor', p₆, e₆) = >>=-eq-some (checked_add after consumed) _ e₅ in
      let ((fields, last'), p₇, e₇) =
        >>=-eq-some (decode_fields decode data_ count (key ∷ keys) cursor') _ e₆ in
      rw (p₁, p₂, p₃, agree (drop after data_) value consumed p₅, p₆)
        (validate_fields-decode count (key ∷ keys) cursor' fields last' p₇
          ∙ ap some (some-pair_inj e₇).1)

  validate_payload-decode :
      (kind : Kind) (v : ExprValue) (last : ℕ)
      → decode_payload decode data_ kind ≡ some (v, last)
      → validate_payload validate data_ kind ≡ some last
  unfolding decode_payload validate_payload
  validate_payload-decode a_null v last e = ap some (some-pair_inj e).1
  validate_payload-decode a_list v last e =
      let ((count, start), p₁, e₁) = >>=-eq-some (read_u32 data_ 4) _ e in
      let (_, _, e₂) = >>=-eq-some (guard (leb count ((length data_ - start) / 4))) _ e₁ in
      let ((items, last'), p₃, e₃) = >>=-eq-some (decode_items decode data_ count start) _ e₂ in
      rw p₁ (validate_items-decode count start items last' p₃ ∙ ap some (some-pair_inj e₃).1)
  validate_payload-decode an_object v last e =
      let ((count, start), p₁, e₁) = >>=-eq-some (read_u32 data_ 4) _ e in
      let (_, _, e₂) = >>=-eq-some (guard (leb count ((length data_ - start) / 8))) _ e₁ in
      let ((fields, last'), p₃, e₃) =
        >>=-eq-some (decode_fields decode data_ count [] start) _ e₂ in
      rw p₁ (validate_fields-decode count [] start fields last' p₃ ∙ ap some (some-pair_inj e₃).1)
  validate_payload-decode _ v last e = ground arith

validate_levels-decode : (levels : ℕ) → Agree (decode_levels levels) (validate_levels levels)
unfolding decode_levels validate_levels
validate_levels-decode zero data_ v last e = cc
validate_levels-decode (suc levels) data_ v last e =
    let (kind, p, q) = >>=-eq-some (header data_) _ e in
    rw p (
      validate_payload-decode (decode_levels levels) (validate_levels levels)
        (validate_levels-decode levels) data_ kind v last q)

-- The validator accepts every byte slice that the decoder accepts, and returns the same length.
pub validate-decode :
    (data_ : List ℕ) (depth : ℕ) (v : ExprValue) (last : ℕ)
    → decode_expr_value data_ depth ≡ some (v, last)
    → validate_value_frame data_ depth ≡ some last
unfolding decode_expr_value validate_value_frame
validate-decode data_ depth v last e = validate_levels-decode (33 - depth) data_ v last e
