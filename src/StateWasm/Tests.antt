-- ===== src/StateWasm/Tests.antt =====
-- Frames and programs of crates/axonyx-state-wasm/src/lib.rs, worked through at concrete values.
use axonyx_runtime.Prelude.{
  ℕ, ◌≤◌, ◌≡◌, ◌↔◌, refl, true, false, some, List, [], ◌∷◌, ◌++◌, arith, length, take, zero, suc,
  ap, ◌-◌, length-append,
}
use axonyx_runtime.Prelude.Int.{negsuc, to_word, from_word}
use axonyx_runtime.Prelude.Bytes.{ascii, all-IsBytes, to_le_bytes, from_le_bytes, is_utf8_from}
use axonyx_runtime.StateWasm.Value.{
  ExprValue, bool, int, list, object, string, Fields, nil, cons, end, field,
}
use axonyx_runtime.StateWasm.Cursor.{push_u32}
use axonyx_runtime.StateWasm.Frame.{
  decode_expr_value, encode_expr_value, validate_value_frame, open_frame,
}
use axonyx_runtime.StateWasm.Frame.Layout.{frame, IsValue, Fits}
use axonyx_runtime.StateWasm.Frame.Encoding.{encode-eq-some_iff}
use axonyx_runtime.StateWasm.Frame.Decoding.{decode-encode}
use axonyx_runtime.StateWasm.Frame.Canonical.{encode-decode}
use axonyx_runtime.StateWasm.Frame.Validation.{validate-decode}
use axonyx_runtime.StateWasm.Operators.{Floats}
use axonyx_runtime.StateWasm.Machine.{run, machine_runs}
use axonyx_runtime.StateWasm.Each.{Keys, plan, reconcile_key_request}
use axonyx_runtime.StateWasm.Each.Reconcile.{answer_of, Requests, IsPlan, reconcile-IsPlan}
use axonyx_runtime.StateWasm.Abi.{value_capacity, decode_request, serve}
use axonyx_runtime.StateWasm.Abi.Responses.{IsResponse, serve-IsResponse}
use axonyx_runtime.StateWasm.Machine.Rounds.{Ends, run-Ends}

-- A list of -2 and an object with one field.
abbrev sample : ExprValue
sample = list (cons (int (negsuc 1)) (cons (object (field (ascii "on") (bool true) end)) nil))

abbrev sample_bytes : List ℕ
sample_bytes =
    b'A' ∷ b'X' ∷ 1 ∷ 6 ∷ 2 ∷ 0 ∷ 0 ∷ 0 ∷ b'A' ∷ b'X' ∷ 1 ∷ 4 ∷ 254 ∷ 255 ∷ 255 ∷ 255 ∷ 255 ∷ 255
    ∷ 255 ∷ 255 ∷ b'A' ∷ b'X' ∷ 1 ∷ 7 ∷ 1 ∷ 0 ∷ 0 ∷ 0 ∷ 2 ∷ 0 ∷ 0 ∷ 0 ∷ b'o' ∷ b'n' ∷ b'A' ∷ b'X'
    ∷ 1 ∷ 2 ∷ 1 ∷ []

sample_encodes : encode_expr_value sample [] 0 ≡ some sample_bytes
unfolding encode_expr_value open_frame push_u32 to_le_bytes to_word
sample_encodes = refl

sample_decodes : decode_expr_value sample_bytes 0 ≡ some (sample, 39)
unfolding decode_expr_value from_le_bytes is_utf8_from from_word
sample_decodes = refl

sample-IsValue : IsValue sample
unfolding is_utf8_from
sample-IsValue = (refl, ((all-IsBytes (ascii "on") refl, refl, refl, tt, tt), tt))

sample-Fits : Fits 33 sample
sample-Fits = (
  omega arith,
  omega arith,
  (omega arith, ((omega arith, omega arith, (omega arith, omega arith, tt)), tt)),
)

-- Every byte behind the frame is left alone.
decode-encode_example : decode_expr_value (sample_bytes ++ 7 ∷ []) 0 ≡ some (sample, 39)
decode-encode_example =
    decode-encode sample 0 sample_bytes (7 ∷ []) (omega arith) sample-IsValue sample_encodes
      (omega arith)

encode-decode_example :
    IsValue sample
    × (encode_expr_value sample [] 0 ≡ some sample_bytes)
    × (39 ≤ length sample_bytes)
encode-decode_example =
    encode-decode sample_bytes 0 sample 39 (all-IsBytes sample_bytes refl) (omega arith)
      sample_decodes

encode-eq-some_iff_example :
    (encode_expr_value sample [] 0 ≡ some sample_bytes)
    ↔ (Fits 33 sample × (sample_bytes ≡ [] ++ frame sample))
encode-eq-some_iff_example = encode-eq-some_iff sample [] 0 33 sample_bytes (omega arith)

validate-decode_example : validate_value_frame sample_bytes 0 ≡ some 39
validate-decode_example = validate-decode sample_bytes 0 sample 39 sample_decodes

-- An arithmetic in which every operation gives zero.
abbrev still : Floats
still = record {
  add = λ a b. 0;
  sub = λ a b. 0;
  mul = λ a b. 0;
  div = λ a b. 0;
  rem = λ a b. 0;
  of_int = λ a. 0;
  to_string = λ a. [];
}

-- `not state`, for the state in the first slot.
abbrev negation : List ℕ
negation = b'A' ∷ b'X' ∷ b'E' ∷ 1 ∷ 0 ∷ 0 ∷ 0 ∷ 10 ∷ []

abbrev on : List ExprValue
on = bool true ∷ []

negation_runs : run still negation on 8 4 [] ≡ some (8, bool false ∷ [])
unfolding machine_runs from_le_bytes
negation_runs = refl

run-Ends_example : Ends still negation on 4 [] (run still negation on (length negation) 4 [])
run-Ends_example = run-Ends still negation on 4 []

abbrev old_and_next : Fields
old_and_next =
    field (ascii "old") (list (cons (string (ascii "a")) (cons (string (ascii "b")) nil)))
      (field (ascii "next") (list (cons (string (ascii "b")) (cons (string (ascii "c")) nil))) end)

abbrev old_keys : Keys
old_keys = ascii "a" ∷ ascii "b" ∷ []

abbrev next_keys : Keys
next_keys = ascii "b" ∷ ascii "c" ∷ []

reconciled : reconcile_key_request (object old_and_next) ≡ some (plan old_keys next_keys)
unfolding reconcile_key_request
reconciled = refl

reconcile-IsPlan_example :
    (fields : Fields) × (old : Keys) × (next : Keys) × (inserted : Keys) × (order : Keys)
    × (removed : Keys) × (object old_and_next ≡ object fields)
    × Requests fields old next
    × (plan old_keys next_keys ≡ answer_of inserted order removed)
    × IsPlan old next inserted order removed
reconcile-IsPlan_example =
    reconcile-IsPlan (object old_and_next) (plan old_keys next_keys) reconciled

unfoldable zeros : ℕ → List ℕ
zeros zero = []
zeros (suc n) = 0 ∷ zeros n

length-zeros : (n : ℕ) → length (zeros n) ≡ n
unfolding zeros
length-zeros zero = refl
length-zeros (suc n) = ap (λ m. suc m) (length-zeros n)

-- A buffer that begins with the sample.
abbrev full_buffer : List ℕ
full_buffer = sample_bytes ++ zeros (value_capacity - 39)

length-full_buffer : length full_buffer ≡ value_capacity
length-full_buffer = omega (
  arith,
  length-append sample_bytes (zeros (value_capacity - 39)),
  length-zeros (value_capacity - 39),
)

serve-IsResponse_example :
    IsResponse full_buffer
      (decode_request (take 39 full_buffer))
      (serve decode_request 39 full_buffer)
serve-IsResponse_example = serve-IsResponse decode_request 39 full_buffer length-full_buffer
