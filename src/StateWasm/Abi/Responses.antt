-- ===== src/StateWasm/Abi/Responses.antt =====
-- The buffer after an exported function of crates/axonyx-state-wasm/src/lib.rs.
use axonyx_runtime.Prelude.{
  ℕ, ◌≤◌, ◌≡◌, ◌⊎◌, refl, ap, ◌∙◌, inl, inr, Option, none, some, List, [], arith, ltb, ltb→ge,
  length, length-append, length-drop, take, drop, Bool-cases, take-length-append,
  drop-length-append, if_elim,
}
use axonyx_runtime.StateWasm.Value.{ExprValue}
use axonyx_runtime.StateWasm.Frame.{encode_expr_value}
use axonyx_runtime.StateWasm.Frame.Layout.{frame}
use axonyx_runtime.StateWasm.Frame.Encoding.{encode-eq-some_iff}
use axonyx_runtime.StateWasm.Abi.{value_capacity, state_error, respond_encoded, respond, serve}

-- The host can read the answer `v` in the buffer, which goes on as before behind it.
pub record Answered (buffer : List ℕ) (v : ExprValue) (r : ℕ × List ℕ) : Type 0 where
  pub size : r.0 ≡ length (frame v)
  pub small : r.0 ≤ value_capacity
  pub written : take r.0 r.1 ≡ frame v
  pub kept : drop r.0 r.1 ≡ drop r.0 buffer

-- An error leaves the buffer alone; otherwise an answer is there.
pub record IsResponse (buffer : List ℕ) (answer : Option ExprValue) (r : ℕ × List ℕ) : Type 0 where
  pub capacity : length r.1 ≡ length buffer
  pub response :
      (r ≡ (state_error, buffer)) ⊎ ((v : ExprValue) × (answer ≡ some v) × Answered buffer v r)

failed :
    (buffer : List ℕ) (answer : Option ExprValue) → IsResponse buffer answer (state_error, buffer)
failed buffer answer = record { capacity = refl; response = inl refl }

respond_encoded-IsResponse :
    (buffer : List ℕ) (v : ExprValue) (o : Option (List ℕ))
    → length buffer ≡ value_capacity
    → encode_expr_value v [] 0 ≡ o
    → IsResponse buffer (some v) (respond_encoded o buffer)
unfolding respond_encoded
respond_encoded-IsResponse buffer v none full e = failed buffer (some v)
respond_encoded-IsResponse buffer v (some encoded) full e =
    elim (Bool-cases (ltb value_capacity (length encoded))) [
      | inl large ↦ rw large (failed buffer (some v))
      | inr fits ↦
          let small = ltb→ge value_capacity (length encoded) fits in
          let (_, same) = (encode-eq-some_iff v [] 0 33 encoded (omega arith)).0 e in
          let size = length-append encoded (drop (length encoded) buffer) in
          let rest = length-drop (length encoded) buffer in
          rw fits (record {
            capacity = omega (arith, size, rest, full, small);
            response = inr (
              v,
              refl,
              record {
                size = ap length same;
                small = small;
                written = take-length-append encoded (drop (length encoded) buffer) ∙ same;
                kept = drop-length-append encoded (drop (length encoded) buffer);
              },
            );
          })
    ]

respond-IsResponse :
    (buffer : List ℕ) (answer : Option ExprValue)
    → length buffer ≡ value_capacity
    → IsResponse buffer answer (respond answer buffer)
unfolding respond
respond-IsResponse buffer none full = failed buffer none
respond-IsResponse buffer (some v) full = respond_encoded-IsResponse buffer v _ full refl

-- With a value buffer of its capacity, an exported function that answers in it keeps its size. It
-- returns an error and leaves the buffer alone, or it returns the length of the frame of the answer
-- to the request, with which the buffer then begins, and leaves the rest alone.
pub serve-IsResponse :
    (answer : List ℕ → Option ExprValue) (request_len : ℕ) (buffer : List ℕ)
    → length buffer ≡ value_capacity
    → IsResponse buffer (answer (take request_len buffer)) (serve answer request_len buffer)
unfolding serve
serve-IsResponse answer request_len buffer full =
    if_elim (IsResponse buffer (answer (take request_len buffer))) (ltb value_capacity request_len)
      _ _ (failed buffer (answer (take request_len buffer)))
      (respond-IsResponse buffer (answer (take request_len buffer)) full)
