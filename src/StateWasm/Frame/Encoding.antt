-- ===== src/StateWasm/Frame/Encoding.antt =====
-- `encode_expr_value` of crates/axonyx-state-wasm/src/lib.rs against the layout of frames.
use axonyx_runtime.Prelude.{
  ℕ, ◌+◌, ◌-◌, ◌<◌, ◌^◌, ◌≡◌, ◌↔◌, sym, ap, ◌∙◌, Option, some, List, ◌++◌, arith, append_assoc,
  append-nil, le→leb, lt→ltb, guard, ◌>>=◌, length, >>=-eq-some, guard-eq-some,
}
use mathlib.Core.Option.{some-injective}
use axonyx_runtime.Prelude.Bytes.{to_le_bytes}
use axonyx_runtime.StateWasm.Value.{
  ExprValue, null, string, bool, float, int, bytes, list, object, Values, nil, cons, Fields, end,
  field,
}
use axonyx_runtime.StateWasm.Cursor.{push_u32}
use axonyx_runtime.StateWasm.Cursor.Laws.{push_u32-eq-some}
use axonyx_runtime.StateWasm.Frame.{
  Kind, a_null, a_string, a_bool, a_float, an_int, a_bytes, a_list, an_object, is_finite,
  length_items, length_fields, open_frame, encode_expr_value, encode_items, encode_fields,
}
use axonyx_runtime.StateWasm.Frame.Layout.{
  frame_header, frame, frame_items, frame_fields, Fits, FitsItems, FitsFields,
}

open_frame-eq-some :
    (output : List ℕ) (depth levels : ℕ) (kind : Kind) {opened : List ℕ}
    → depth + levels ≡ 33
    → open_frame output depth kind ≡ some opened
    → (0 < levels) × (opened ≡ output ++ frame_header kind)
unfolding open_frame
open_frame-eq-some output depth levels kind e h = (ground arith, ground arith)

-- The opening and the length of a frame with a counted payload, which `rest` writes.
open_push {ℓ} :
    {B : Type ℓ} (output : List ℕ) (depth levels count : ℕ) (kind : Kind) (rest : List ℕ → Option B)
    {b : B}
    → depth + levels ≡ 33
    → (open_frame output depth kind >>= λ opened. push_u32 opened count >>= rest) ≡ some b
    → (0 < levels)
      × (count < 2 ^ 32)
      × (rest (output ++ (frame_header kind ++ to_le_bytes 4 count)) ≡ some b)
open_push output depth levels count kind rest e h =
    let (opened, p, q) = >>=-eq-some (open_frame output depth kind) _ h in
    let (room, opened_lem) = open_frame-eq-some output depth levels kind e p in
    let (written, r, last) = >>=-eq-some (push_u32 opened count) rest q in
    let (bound, written_lem) = push_u32-eq-some opened count r in
    let same =
      written_lem ∙ ap (λ t. t ++ to_le_bytes 4 count) opened_lem ∙ append_assoc output _ _ in
    (room, bound, rw (← same) last)

-- `some (a ++ b)` after a prefix `output ++ a`, regrouped.
regroup :
    (output a b : List ℕ) {written : List ℕ}
    → ◌≡◌ {A = Option (List ℕ)} (some ((output ++ a) ++ b)) (some written)
    → written ≡ output ++ (a ++ b)
regroup output a b h = sym (some-injective _ _ h) ∙ append_assoc output a b

nested : (a b c d : List ℕ) → (a ++ (b ++ c)) ++ d ≡ a ++ (b ++ (c ++ d))
nested a b c d = simp append_assoc

mutual
  unfolding encode_expr_value frame

  encode-Fits :
      (v : ExprValue) (output : List ℕ) (depth levels : ℕ) {written : List ℕ}
      → depth + levels ≡ 33
      → encode_expr_value v output depth ≡ some written
      → Fits levels v × (written ≡ output ++ frame v)
  encode-Fits null output depth levels e h = open_frame-eq-some output depth levels a_null e h
  encode-Fits (string text) output depth levels e h =
      let (room, bound, q) = open_push output depth levels (length text) a_string _ e h in
      ((room, bound), sym (some-injective _ _ q) ∙ nested output (frame_header a_string) _ text)
  encode-Fits (bool b) output depth levels e h =
      let (opened, p, q) = >>=-eq-some (open_frame output depth a_bool) _ h in
      let (room, opened_lem) = open_frame-eq-some output depth levels a_bool e p in
      (room, regroup output _ _ (rw opened_lem at q))
  encode-Fits (float bits) output depth levels e h =
      let (_, finite, h') = >>=-eq-some (guard (is_finite bits)) _ h in
      let (opened, p, q) = >>=-eq-some (open_frame output depth a_float) _ h' in
      let (room, opened_lem) = open_frame-eq-some output depth levels a_float e p in
      ((room, guard-eq-some (is_finite bits) finite), regroup output _ _ (rw opened_lem at q))
  encode-Fits (int a) output depth levels e h =
      let (opened, p, q) = >>=-eq-some (open_frame output depth an_int) _ h in
      let (room, opened_lem) = open_frame-eq-some output depth levels an_int e p in
      (room, regroup output _ _ (rw opened_lem at q))
  encode-Fits (bytes raw) output depth levels e h =
      let (room, bound, q) = open_push output depth levels (length raw) a_bytes _ e h in
      ((room, bound), sym (some-injective _ _ q) ∙ nested output (frame_header a_bytes) _ raw)
  encode-Fits (list vs) output depth levels e h =
      let (room, bound, q) = open_push output depth levels (length_items vs) a_list _ e h in
      let (fit, same) = encode_items-Fits vs _ (depth + 1) (levels - 1) (omega arith) q in
      ((room, bound, fit), same ∙ nested output (frame_header a_list) _ _)
  encode-Fits (object fs) output depth levels e h =
      let (room, bound, q) = open_push output depth levels (length_fields fs) an_object _ e h in
      let (fit, same) = encode_fields-Fits fs _ (depth + 1) (levels - 1) (omega arith) q in
      ((room, bound, fit), same ∙ nested output (frame_header an_object) _ _)

  encode_items-Fits :
      (vs : Values) (output : List ℕ) (depth levels : ℕ) {written : List ℕ}
      → depth + levels ≡ 33
      → encode_items vs output depth ≡ some written
      → FitsItems levels vs × (written ≡ output ++ frame_items vs)
  encode_items-Fits nil output depth levels e h =
      (tt, sym (some-injective _ _ h) ∙ sym (append-nil output))
  encode_items-Fits (cons v vs) output depth levels e h =
      let (middle, p, q) = >>=-eq-some (encode_expr_value v output depth) _ h in
      let (fit, same) = encode-Fits v output depth levels e p in
      let (fits, same') = encode_items-Fits vs middle depth levels e q in
      ((fit, fits), same' ∙ ap (λ t. t ++ frame_items vs) same ∙ append_assoc output _ _)

  encode_fields-Fits :
      (fs : Fields) (output : List ℕ) (depth levels : ℕ) {written : List ℕ}
      → depth + levels ≡ 33
      → encode_fields fs output depth ≡ some written
      → FitsFields levels fs × (written ≡ output ++ frame_fields fs)
  encode_fields-Fits end output depth levels e h =
      (tt, sym (some-injective _ _ h) ∙ sym (append-nil output))
  encode_fields-Fits (field k v fs) output depth levels e h =
      let (keyed, p, q) = >>=-eq-some (push_u32 output (length k)) _ h in
      let (bound, keyed_lem) = push_u32-eq-some output (length k) p in
      let (middle, r, q') = >>=-eq-some (encode_expr_value v (keyed ++ k) depth) _ q in
      let (fit, same) = encode-Fits v (keyed ++ k) depth levels e r in
      let (fits, same') = encode_fields-Fits fs middle depth levels e q' in
      (
        (bound, fit, fits),
        same'
            ∙ ap (λ t. t ++ frame_fields fs) (same ∙ ap (λ t. (t ++ k) ++ frame v) keyed_lem)
            ∙ simp append_assoc,
      )

open_frame_of_room :
    (output : List ℕ) (depth levels : ℕ) (kind : Kind)
    → depth + levels ≡ 33
    → 0 < levels
    → open_frame output depth kind ≡ some (output ++ frame_header kind)
unfolding open_frame
open_frame_of_room output depth levels kind e room = rw (le→leb depth 32 (omega arith))

push_u32_of_lt :
    (output : List ℕ) (value : ℕ)
    → value < 2 ^ 32
    → push_u32 output value ≡ some (output ++ to_le_bytes 4 value)
unfolding push_u32
push_u32_of_lt output value bound = rw (lt→ltb value (2 ^ 32) bound)

mutual
  unfolding encode_expr_value frame

  encode_of_Fits :
      (v : ExprValue) (output : List ℕ) (depth levels : ℕ)
      → depth + levels ≡ 33
      → Fits levels v
      → encode_expr_value v output depth ≡ some (output ++ frame v)
  encode_of_Fits null output depth levels e fit =
      open_frame_of_room output depth levels a_null e fit
  encode_of_Fits (string text) output depth levels e (room, bound) =
      rw
        (
          open_frame_of_room output depth levels a_string e room,
          push_u32_of_lt _ (length text) bound,
        )
        (ap some (simp append_assoc))
  encode_of_Fits (bool b) output depth levels e room =
      rw (open_frame_of_room output depth levels a_bool e room) (ap some (append_assoc output _ _))
  encode_of_Fits (float bits) output depth levels e (room, finite) =
      rw (finite, open_frame_of_room output depth levels a_float e room)
        (ap some (append_assoc output _ _))
  encode_of_Fits (int a) output depth levels e room =
      rw (open_frame_of_room output depth levels an_int e room) (ap some (append_assoc output _ _))
  encode_of_Fits (bytes raw) output depth levels e (room, bound) =
      rw
        (open_frame_of_room output depth levels a_bytes e room, push_u32_of_lt _ (length raw) bound)
        (ap some (simp append_assoc))
  encode_of_Fits (list vs) output depth levels e (room, bound, fit) =
      rw
        (
          open_frame_of_room output depth levels a_list e room,
          push_u32_of_lt _ (length_items vs) bound,
        )
        (encode_items_of_Fits vs _ (depth + 1) (levels - 1) (omega arith) fit
          ∙ ap some (simp append_assoc))
  encode_of_Fits (object fs) output depth levels e (room, bound, fit) =
      rw
        (
          open_frame_of_room output depth levels an_object e room,
          push_u32_of_lt _ (length_fields fs) bound,
        )
        (encode_fields_of_Fits fs _ (depth + 1) (levels - 1) (omega arith) fit
          ∙ ap some (simp append_assoc))

  encode_items_of_Fits :
      (vs : Values) (output : List ℕ) (depth levels : ℕ)
      → depth + levels ≡ 33
      → FitsItems levels vs
      → encode_items vs output depth ≡ some (output ++ frame_items vs)
  encode_items_of_Fits nil output depth levels e fit = ap some (sym (append-nil output))
  encode_items_of_Fits (cons v vs) output depth levels e (fit, fits) =
      rw (encode_of_Fits v output depth levels e fit)
        (encode_items_of_Fits vs _ depth levels e fits ∙ ap some (append_assoc output _ _))

  encode_fields_of_Fits :
      (fs : Fields) (output : List ℕ) (depth levels : ℕ)
      → depth + levels ≡ 33
      → FitsFields levels fs
      → encode_fields fs output depth ≡ some (output ++ frame_fields fs)
  encode_fields_of_Fits end output depth levels e fit = ap some (sym (append-nil output))
  encode_fields_of_Fits (field k v fs) output depth levels e (bound, fit, fits) =
      rw (push_u32_of_lt output (length k) bound, encode_of_Fits v _ depth levels e fit)
        (encode_fields_of_Fits fs _ depth levels e fits ∙ ap some (simp append_assoc))

-- Encoding with some levels left (33 less the depth) succeeds exactly for the values that fit in
-- these levels, and appends the value's frame to the output, which it keeps.
pub encode-eq-some_iff :
    (v : ExprValue) (output : List ℕ) (depth levels : ℕ) (written : List ℕ)
    → depth + levels ≡ 33
    → (encode_expr_value v output depth ≡ some written)
      ↔ (Fits levels v × (written ≡ output ++ frame v))
encode-eq-some_iff v output depth levels written e = (
  encode-Fits v output depth levels e,
  λ p. encode_of_Fits v output depth levels e p.0 ∙ ap some (sym p.1),
)
