-- ===== src/StateWasm/Frame/Parts.antt =====
-- What the loops of `decode_expr_value` over items and fields have read.
use mathlib.Core.Path.{subst, subst₂}
use axonyx_runtime.Prelude.{
  ℕ, zero, suc, ◌+◌, ◌<◌, ◌^◌, ◌≡◌, refl, sym, ap, ◌∙◌, Bool, true, false, not, Option, some, List,
  [], ◌∷◌, ◌++◌, arith, append_assoc, guard, length, length-append, drop, drop-drop, >>=-eq-some,
  guard-eq-some, some-pair_inj,
}
use axonyx_runtime.Prelude.Bytes.{
  IsBytes, to_le_bytes, length-to_le_bytes, is_utf8, from_utf8, contains,
}
use axonyx_runtime.StateWasm.Value.{ExprValue, Values, nil, cons, Fields, end, field}
use axonyx_runtime.StateWasm.Cursor.{take_bytes, read_u32, checked_add}
use axonyx_runtime.StateWasm.Cursor.Laws.{
  Taken, Read, take_bytes-Taken, read_u32-Read, drop-IsBytes, Taken-IsBytes,
}
use axonyx_runtime.StateWasm.Frame.{
  Kind, kind_of, header, tag, length_items, length_fields, decode_items, decode_fields,
}
use axonyx_runtime.StateWasm.Frame.Layout.{
  frame_header, counted, frame, frame_items, frame_fields, IsValue, AreValues, AreFields, Fits,
  FitsItems, FitsFields,
}

kind_of-tag : (n : ℕ) (kind : Kind) → kind_of n ≡ some kind → n ≡ tag kind
unfolding kind_of
kind_of-tag n kind e = ground arith

pub header-eq-some :
    (data_ : List ℕ) {kind : Kind}
    → header data_ ≡ some kind
    → data_ ≡ frame_header kind ++ drop 4 data_
unfolding header
header-eq-some (a ∷ x ∷ version ∷ n ∷ rest) {kind} e = ground (arith, kind_of-tag n kind)
header-eq-some [] e = cc
header-eq-some (a ∷ []) e = cc
header-eq-some (a ∷ b ∷ []) e = cc
header-eq-some (a ∷ b ∷ c ∷ []) e = cc

pub checked_add-eq-some : (a b : ℕ) {c : ℕ} → checked_add a b ≡ some c → c ≡ a + b
checked_add-eq-some a b e = ground arith

pub from_utf8-eq-some :
    (raw : List ℕ) {text : List ℕ} → from_utf8 raw ≡ some text → (is_utf8 raw ≡ true) × (text ≡ raw)
from_utf8-eq-some raw e = ground arith

not-eq-true : (x : Bool) → not x ≡ true → x ≡ false
not-eq-true true h = cc
not-eq-true false h = refl

pub record Decoded (levels : ℕ) (data_ : List ℕ) (v : ExprValue) (last : ℕ) : Type 0 where
  pub is : IsValue v
  pub fits : Fits levels v
  pub split : data_ ≡ frame v ++ drop last data_
  pub consumed : last ≡ length (frame v)

abbrev pub DecodesTo : ℕ → (List ℕ → Option (ExprValue × ℕ)) → Type 0
DecodesTo levels decode =
    (data_ : List ℕ) (v : ExprValue) (last : ℕ)
    → IsBytes data_
    → decode data_ ≡ some (v, last)
    → Decoded levels data_ v last

-- What the loops have read between two cursors.
pub record ItemsAt (levels : ℕ) (data_ : List ℕ) (count cursor : ℕ) (vs : Values) (last : ℕ)
    : Type 0 where
  pub are : AreValues vs
  pub fits : FitsItems levels vs
  pub counted_lem : length_items vs ≡ count
  pub split : drop cursor data_ ≡ frame_items vs ++ drop last data_
  pub consumed : last ≡ cursor + length (frame_items vs)

pub record FieldsAt (levels : ℕ) (data_ : List ℕ) (keys : List (List ℕ)) (count cursor : ℕ)
    (fs : Fields) (last : ℕ) : Type 0 where
  pub are : AreFields keys fs
  pub fits : FitsFields levels fs
  pub counted_lem : length_fields fs ≡ count
  pub split : drop cursor data_ ≡ frame_fields fs ++ drop last data_
  pub consumed : last ≡ cursor + length (frame_fields fs)

ItemsAt-nil : (levels : ℕ) (data_ : List ℕ) (cursor : ℕ) → ItemsAt levels data_ 0 cursor nil cursor
unfolding frame
ItemsAt-nil levels data_ cursor = record {
  are = tt;
  fits = tt;
  counted_lem = refl;
  split = refl;
  consumed = omega arith;
}

FieldsAt-end :
    (levels : ℕ) (data_ : List ℕ) (keys : List (List ℕ)) (cursor : ℕ)
    → FieldsAt levels data_ keys 0 cursor end cursor
unfolding frame
FieldsAt-end levels data_ keys cursor = record {
  are = tt;
  fits = tt;
  counted_lem = refl;
  split = refl;
  consumed = omega arith;
}

ItemsAt-cons :
    {levels : ℕ} {data_ : List ℕ} {count cursor : ℕ} {v : ExprValue} {consumed : ℕ} {vs : Values}
    {last : ℕ}
    → Decoded levels (drop cursor data_) v consumed
    → ItemsAt levels data_ count (cursor + consumed) vs last
    → ItemsAt levels data_ (suc count) cursor (cons v vs) last
unfolding frame
ItemsAt-cons {data_} {cursor} {v} {consumed} {vs} {last} d i = record {
  are = (d.is, i.are);
  fits = (d.fits, i.fits);
  counted_lem = ap suc i.counted_lem;
  split =
      d.split
      ∙ ap (λ t. frame v ++ t) (drop-drop cursor consumed data_ ∙ i.split)
      ∙ sym (append_assoc (frame v) (frame_items vs) (drop last data_));
  consumed = omega (arith, i.consumed, d.consumed, length-append (frame v) (frame_items vs));
}

-- The key in front of a field's value.
pub record KeyAt (data_ : List ℕ) (cursor : ℕ) (key : List ℕ) (after : ℕ) : Type 0 where
  pub bytes_lem : IsBytes key
  pub bounded : length key < 2 ^ 32
  pub split : drop cursor data_ ≡ counted key ++ drop after data_
  pub consumed : after ≡ cursor + length (counted key)

pub KeyAt-of_reads :
    (data_ : List ℕ) (cursor : ℕ) {count start : ℕ} {raw : List ℕ} {after : ℕ}
    → IsBytes data_
    → Read data_ cursor count start
    → Taken data_ start count raw after
    → KeyAt data_ cursor raw after
KeyAt-of_reads data_ cursor {count} {start} {raw} {after} b r t = record {
  bytes_lem = Taken-IsBytes b t;
  bounded = omega (arith, r.bounded, t.counted);
  split =
      r.split
      ∙ ap (λ n. to_le_bytes 4 n ++ drop start data_) (sym t.counted)
      ∙ ap (λ u. to_le_bytes 4 (length raw) ++ u) t.split
      ∙ sym (append_assoc (to_le_bytes 4 (length raw)) raw (drop after data_));
  consumed = omega (
    arith,
    r.moved,
    t.moved,
    t.counted,
    length-append (to_le_bytes 4 (length raw)) raw,
    length-to_le_bytes 4 (length raw),
  );
}

FieldsAt-field :
    {levels : ℕ} {data_ : List ℕ} {keys : List (List ℕ)} {count cursor : ℕ} {key : List ℕ}
    {after : ℕ} {v : ExprValue} {consumed : ℕ} {fs : Fields} {last : ℕ}
    → KeyAt data_ cursor key after
    → is_utf8 key ≡ true
    → contains keys key ≡ false
    → Decoded levels (drop after data_) v consumed
    → FieldsAt levels data_ (key ∷ keys) count (after + consumed) fs last
    → FieldsAt levels data_ keys (suc count) cursor (field key v fs) last
unfolding frame
FieldsAt-field {data_} {cursor} {key} {after} {v} {consumed} {fs} {last} k utf8 fresh d i = record {
  are = (k.bytes_lem, utf8, fresh, d.is, i.are);
  fits = (k.bounded, d.fits, i.fits);
  counted_lem = ap suc i.counted_lem;
  split =
      k.split
      ∙ ap (λ t. counted key ++ t)
          (d.split ∙ ap (λ t. frame v ++ t) (drop-drop after consumed data_ ∙ i.split))
      ∙ simp append_assoc;
  consumed = omega (
    arith,
    k.consumed,
    i.consumed,
    d.consumed,
    length-append (counted key) (frame v ++ frame_fields fs),
    length-append (frame v) (frame_fields fs),
  );
}

module _ (levels : ℕ) (decode : List ℕ → Option (ExprValue × ℕ)) (ih : DecodesTo levels decode)
    (data_ : List ℕ) (b : IsBytes data_) where
  pub decode_items-ItemsAt :
      (count cursor : ℕ) {vs : Values} {last : ℕ}
      → decode_items decode data_ count cursor ≡ some (vs, last)
      → ItemsAt levels data_ count cursor vs last
  unfolding decode_items
  decode_items-ItemsAt zero cursor e =
      let (same, same_last) = some-pair_inj e in
      subst₂ (λ vs last. ItemsAt levels data_ 0 cursor vs last) same same_last
        (ItemsAt-nil levels data_ cursor)
  decode_items-ItemsAt (suc count) cursor e =
      let ((item, consumed), p, e₁) = >>=-eq-some (decode (drop cursor data_)) _ e in
      let (cursor', q, e₂) = >>=-eq-some (checked_add cursor consumed) _ e₁ in
      let ((items, last'), r, e₃) = >>=-eq-some (decode_items decode data_ count cursor') _ e₂ in
      let one = ih (drop cursor data_) item consumed (drop-IsBytes cursor data_ b) p in
      let moved = checked_add-eq-some cursor consumed q in
      let more =
        subst (λ c. ItemsAt levels data_ count c items last') moved
          (decode_items-ItemsAt count cursor' r) in
      let (same, same_last) = some-pair_inj e₃ in
      subst₂ (λ vs last. ItemsAt levels data_ (suc count) cursor vs last) same same_last
        (ItemsAt-cons one more)

  pub decode_fields-FieldsAt :
      (count : ℕ) (keys : List (List ℕ)) (cursor : ℕ) {fs : Fields} {last : ℕ}
      → decode_fields decode data_ count keys cursor ≡ some (fs, last)
      → FieldsAt levels data_ keys count cursor fs last
  unfolding decode_fields
  decode_fields-FieldsAt zero keys cursor e =
      let (same, same_last) = some-pair_inj e in
      subst₂ (λ fs last. FieldsAt levels data_ keys 0 cursor fs last) same same_last
        (FieldsAt-end levels data_ keys cursor)
  decode_fields-FieldsAt (suc count) keys cursor e =
      let ((key_length, start), p₁, e₁) = >>=-eq-some (read_u32 data_ cursor) _ e in
      let ((raw, after), p₂, e₂) = >>=-eq-some (take_bytes data_ start key_length) _ e₁ in
      let (key, p₃, e₃) = >>=-eq-some (from_utf8 raw) _ e₂ in
      let (_, p₄, e₄) = >>=-eq-some (guard (not (contains keys key))) _ e₃ in
      let ((value, consumed), p₅, e₅) = >>=-eq-some (decode (drop after data_)) _ e₄ in
      let (cursor', p₆, e₆) = >>=-eq-some (checked_add after consumed) _ e₅ in
      let ((fields, last'), p₇, e₇) =
        >>=-eq-some (decode_fields decode data_ count (key ∷ keys) cursor') _ e₆ in
      let (utf8, key_lem) = from_utf8-eq-some raw p₃ in
      let fresh = not-eq-true (contains keys key) (guard-eq-some _ p₄) in
      let at_raw =
        KeyAt-of_reads data_ cursor b (read_u32-Read data_ cursor b p₁)
          (take_bytes-Taken data_ start key_length p₂) in
      let at_key = subst (λ k. KeyAt data_ cursor k after) (sym key_lem) at_raw in
      let one = ih (drop after data_) value consumed (drop-IsBytes after data_ b) p₅ in
      let moved = checked_add-eq-some after consumed p₆ in
      let more =
        subst (λ c. FieldsAt levels data_ (key ∷ keys) count c fields last') moved
          (decode_fields-FieldsAt count (key ∷ keys) cursor' p₇) in
      let (same, same_last) = some-pair_inj e₇ in
      subst₂ (λ fs last. FieldsAt levels data_ keys (suc count) cursor fs last) same same_last
        (FieldsAt-field at_key (subst (λ k. is_utf8 k ≡ true) (sym key_lem) utf8) fresh one more)
