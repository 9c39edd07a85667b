-- ===== src/Http/Events/Reader.antt =====
-- A reader of event streams, for the events of crates/axonyx-runtime/src/server.rs.
use axonyx_runtime.Prelude.{
  append-nil, ℕ, ◌+◌, ◌%◌, ◌≡◌, refl, sym, ap, ◌∙◌, false, Option, none, some, List, [], ◌∷◌, ◌++◌,
  ◌==◌, if◌then◌else◌, All, arith, append_assoc,
}
use axonyx_runtime.Prelude.Bytes.{ascii, bytes_eq}
use axonyx_runtime.StateWasm.Operators.{decimal}
use axonyx_runtime.Session.Tokens.{strip_prefix}
use axonyx_runtime.Http.Text.{Text, split, pieces}
use axonyx_runtime.Http.Splits.{Avoids, split-Avoids}
use axonyx_runtime.Http.Decimal.{decimal-Avoids}
use axonyx_runtime.Http.Events.{sse_field, optional_field, retry_field, message_fields}

unfoldable pub join_lines : List Text → Text
join_lines [] = []
join_lines (line ∷ []) = line
join_lines (line ∷ next ∷ rest) = line ++ b'\n' ∷ join_lines (next ∷ rest)

-- One space after the colon is not part of the value.
abbrev pub after_space : Text → Text
after_space [] = []
after_space (b ∷ s) = if b == b' ' then s else b ∷ s

-- What a line adds to the data that are collected.
unfoldable pub collect : List Text → Text → List Text
unfolding strip_prefix
collect data_ line =
    if bytes_eq line (ascii "data")
    then data_ ++ [] ∷ []
    else elim (strip_prefix (ascii "data:") line) [
      | some value ↦ data_ ++ after_space value ∷ []
      | none ↦ data_
    ]

-- What the end of an event announces: a message, if there are data.
unfoldable pub announced : List Text → List Text
unfolding join_lines
announced [] = []
announced (line ∷ rest) = join_lines (line ∷ rest) ∷ []

-- A reader of an event stream, as the HTML standard describes it, of the messages alone: an empty line ends
-- an event, and what no end of a line follows is not read.
unfoldable pub read_events : List Text → List Text → List Text
unfolding collect announced
read_events data_ [] = []
read_events data_ (line ∷ []) = []
read_events data_ ([] ∷ next ∷ rest) = announced data_ ++ read_events [] (next ∷ rest)
read_events data_ ((b ∷ s) ∷ next ∷ rest) = read_events (collect data_ (b ∷ s)) (next ∷ rest)

-- A line ends with a line feed, a carriage return, or both in the other order.
unfoldable pub with_feeds : Text → Text
with_feeds [] = []
with_feeds (b ∷ []) = if b == 13 then b'\n' ∷ [] else b ∷ []
with_feeds (b ∷ c ∷ s) =
    let skipped = with_feeds s in
    let rest = with_feeds (c ∷ s) in
    if b == 13 then (if c == b'\n' then b'\n' ∷ skipped else b'\n' ∷ rest) else b ∷ rest

-- The messages of a stream.
unfoldable pub read_messages : Text → List Text
unfolding read_events split with_feeds
read_messages text = read_events [] (pieces b'\n' (with_feeds text))

-- The message of an event, if it is not empty.
abbrev pub message_of : Text → List Text
message_of [] = []
message_of (b ∷ s) = (b ∷ s) ∷ []

abbrev pub IsLine : Text → Type 0
IsLine = Avoids b'\n'

-- No carriage return, which would end a line too.
abbrev pub IsPlain : Text → Type 0
IsPlain = Avoids 13

-- A line that is not empty is collected.
read_line :
    (data_ : List Text) (b : ℕ) (line t : Text)
    → IsLine (b ∷ line)
    → read_events data_ (pieces b'\n' ((b ∷ line) ++ b'\n' ∷ t))
      ≡ read_events (collect data_ (b ∷ line)) (pieces b'\n' t)
unfolding read_events
read_line data_ b line t h = ap (read_events data_) (split-Avoids b'\n' (b ∷ line) t h)

pub read_data :
    (data_ : List Text) (value t : Text)
    → IsLine value
    → read_events data_ (pieces b'\n' (sse_field (ascii "data") value ++ t))
      ≡ read_events (data_ ++ value ∷ []) (pieces b'\n' t)
unfolding sse_field collect strip_prefix
read_data data_ value t h = rw (append_assoc value (b'\n' ∷ []) t) (
    read_line data_ b'd' (ascii "ata: " ++ value) t
      (refl, (refl, (refl, (refl, (refl, (refl, h)))))))

pub read_fields :
    (data_ values : List Text) (t : Text)
    → All IsLine values
    → read_events data_ (pieces b'\n' (message_fields values ++ t))
      ≡ read_events (data_ ++ values) (pieces b'\n' t)
unfolding message_fields
read_fields data_ [] t h = ap (λ d. read_events d (pieces b'\n' t)) (sym (append-nil data_))
read_fields data_ (v ∷ vs) t (p, h) =
    rw (append_assoc (sse_field (ascii "data") v) (message_fields vs) t) (
      read_data data_ v (message_fields vs ++ t) p
      ∙ read_fields (data_ ++ v ∷ []) vs t h
      ∙ ap (λ d. read_events d (pieces b'\n' t)) (append_assoc data_ (v ∷ []) vs))

read_id :
    (data_ : List Text) (value t : Text)
    → IsLine value
    → read_events data_ (pieces b'\n' (sse_field (ascii "id") value ++ t))
      ≡ read_events data_ (pieces b'\n' t)
unfolding sse_field collect strip_prefix
read_id data_ value t h =
    rw (append_assoc value (b'\n' ∷ []) t)
      (read_line data_ b'i' (ascii "d: " ++ value) t (refl, (refl, (refl, (refl, h)))))

read_event :
    (data_ : List Text) (value t : Text)
    → IsLine value
    → read_events data_ (pieces b'\n' (sse_field (ascii "event") value ++ t))
      ≡ read_events data_ (pieces b'\n' t)
unfolding sse_field collect strip_prefix
read_event data_ value t h = rw (append_assoc value (b'\n' ∷ []) t) (
    read_line data_ b'e' (ascii "vent: " ++ value) t
      (refl, (refl, (refl, (refl, (refl, (refl, (refl, h))))))))

digit-line : (n : ℕ) → (b'0' + n % 10 == b'\n') ≡ false
digit-line n = ground arith

pub read_retry :
    (data_ : List Text) (retry : Option ℕ) (t : Text)
    → read_events data_ (pieces b'\n' (retry_field retry ++ t)) ≡ read_events data_ (pieces b'\n' t)
unfolding retry_field collect strip_prefix
read_retry data_ none t = refl
read_retry data_ (some n) t = rw (append_assoc (decimal 20 n []) (b'\n' ∷ []) t) (
    read_line data_ b'r' (ascii "etry: " ++ decimal 20 n []) t (
      refl,
      (refl, (refl, (refl, (refl, (refl, (refl, decimal-Avoids b'\n' 20 n [] digit-line tt)))))),
    ))

-- A field that is absent, or whose value is one line.
abbrev pub IsLineOption : Option Text → Type 0
IsLineOption none = Unit
IsLineOption (some value) = IsLine value

pub read_optional_id :
    (data_ : List Text) (value : Option Text) (t : Text)
    → IsLineOption value
    → read_events data_ (pieces b'\n' (optional_field (ascii "id") value ++ t))
      ≡ read_events data_ (pieces b'\n' t)
unfolding optional_field
read_optional_id data_ none t h = refl
read_optional_id data_ (some value) t h = read_id data_ value t h

pub read_optional_event :
    (data_ : List Text) (value : Option Text) (t : Text)
    → IsLineOption value
    → read_events data_ (pieces b'\n' (optional_field (ascii "event") value ++ t))
      ≡ read_events data_ (pieces b'\n' t)
unfolding optional_field
read_optional_event data_ none t h = refl
read_optional_event data_ (some value) t h = read_event data_ value t h
