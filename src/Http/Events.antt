-- ===== src/Http/Events.antt =====
-- Server-sent events: `AxSseEvent::render`, `push_sse_field` and `AxHttpResponse::sse_events` of
-- crates/axonyx-runtime/src/server.rs.
pub mod Reader
mod Plain
pub mod Data
use axonyx_runtime.Prelude.{
  ℕ, zero, suc, ◌+◌, Bool, true, false, Option, none, some, List, [], ◌∷◌, ◌++◌, ◌==◌,
  if◌then◌else◌, map,
}
use axonyx_runtime.Prelude.Bytes.{ascii}
use axonyx_runtime.Validation.{ends_with}
use axonyx_runtime.StateWasm.Operators.{decimal}
use axonyx_runtime.Http.Text.{Text, split}
use axonyx_runtime.Http.Response.{Response, stream_chunks, response_with_header, with_no_store}

pub record SseEvent : Type 0 where
  pub event : Option Text
  pub message : Text
  pub id : Option Text
  pub retry_ms : Option ℕ

unfoldable pub sse_field : Text → Text → Text
sse_field name value = name ++ (ascii ": " ++ (value ++ b'\n' ∷ []))

unfoldable pub optional_field : Text → Option Text → Text
unfolding sse_field
optional_field name none = []
optional_field name (some value) = sse_field name value

-- A `u64` has at most 20 digits.
unfoldable pub retry_field : Option ℕ → Text
unfolding decimal
retry_field none = []
retry_field (some n) = ascii "retry: " ++ (decimal 20 n [] ++ b'\n' ∷ [])

-- A line that a line feed ends loses a carriage return before it.
unfoldable pub strip_return : Text → Text
strip_return [] = []
strip_return (b ∷ []) = if b == 13 then [] else b ∷ []
strip_return (b ∷ c ∷ s) = b ∷ strip_return (c ∷ s)

-- `str::lines`: what stands after the last line feed is a line if it is not empty.
unfoldable pub lines_of : Text × List Text → List Text
unfolding strip_return
lines_of ([], []) = []
lines_of (b ∷ s, []) = (b ∷ s) ∷ []
lines_of (line, next ∷ others) = strip_return line ∷ lines_of (next, others)

unfoldable pub lines : Text → List Text
unfolding lines_of split
lines s = lines_of (split b'\n' s)

unfoldable pub message_fields : List Text → Text
unfolding sse_field
message_fields [] = []
message_fields (line ∷ rest) = sse_field (ascii "data") line ++ message_fields rest

abbrev pub last_field : Text → Text
last_field message = if ends_with b'\n' message then sse_field (ascii "data") [] else []

unfoldable pub sse_render : SseEvent → Text
unfolding optional_field retry_field message_fields lines sse_field
sse_render e =
    optional_field (ascii "id") e.id
    ++ (optional_field (ascii "event") e.event
        ++ (retry_field e.retry_ms
            ++ (message_fields (lines e.message) ++ (last_field e.message ++ b'\n' ∷ []))))

unfoldable pub sse_events : List SseEvent → Response
unfolding sse_render response_with_header
sse_events events = with_no_store (
    response_with_header (ascii "X-Accel-Buffering") (ascii "no")
      (stream_chunks 200 (ascii "text/event-stream; charset=utf-8") (map sse_render events)))
