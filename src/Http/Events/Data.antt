-- ===== src/Http/Events/Data.antt =====
-- What a reader of an event stream finds in the events of crates/axonyx-runtime/src/server.rs.
use axonyx_runtime.Prelude.{
  append-nil, ℕ, ◌≡◌, refl, sym, ap, ◌∙◌, inl, inr, Bool, true, false, List, [], ◌∷◌, ◌++◌, ◌==◌,
  if◌then◌else◌, All, Bool-cases, ==_iff, append_assoc,
}
use mathlib.Core.Path.{ap₂, subst}
use axonyx_runtime.Prelude.Bytes.{ascii}
use axonyx_runtime.Validation.{ends_with}
use axonyx_runtime.Http.Text.{Text, split, pieces}
use axonyx_runtime.Http.Splits.{split-All, split-Splits}
use axonyx_runtime.Http.Events.{
  SseEvent, optional_field, retry_field, strip_return, lines_of, lines, message_fields, last_field,
  sse_render,
}
pub use axonyx_runtime.Http.Events.Reader.{read_messages, message_of}
use axonyx_runtime.Http.Events.Reader.{
  join_lines, announced, read_events, with_feeds, IsLine, IsPlain, IsLineOption, read_data,
  read_fields, read_retry, read_optional_id, read_optional_event,
}
use axonyx_runtime.Http.Events.Plain.{
  strip_return-IsPlain, with_feeds-IsPlain, render-IsPlain, IsPlainOption,
}

-- Whether the last piece is empty, of at least one, and of at least two.
last_empty : Text → List Text → Bool
last_empty [] [] = true
last_empty (b ∷ s) [] = false
last_empty s (t ∷ ts) = last_empty t ts

ends_empty : Text → List Text → Bool
ends_empty s [] = false
ends_empty s (t ∷ ts) = last_empty t ts

ends_empty_any : (s t : Text) (ts : List Text) → ends_empty s ts ≡ ends_empty t ts
unfolding ends_empty
ends_empty_any s t [] = refl
ends_empty_any s t (u ∷ us) = refl

last_ends : (b : ℕ) (s : Text) (ts : List Text) → last_empty (b ∷ s) ts ≡ ends_empty (b ∷ s) ts
unfolding last_empty ends_empty
last_ends b s [] = refl
last_ends b s (t ∷ ts) = refl

split-last_ends :
    (b : ℕ) (s : Text) → let r = split b'\n' (b ∷ s) in last_empty r.0 r.1 ≡ ends_empty r.0 r.1
unfolding split
split-last_ends b s = elim (Bool-cases (b == b'\n')) [
  | inl here ↦ rw here (unfold last_empty ends_empty in refl)
  | inr other ↦ rw other (last_ends b (split b'\n' s).0 (split b'\n' s).1)
]

ends_empty_cons :
    (b : ℕ) (t : Text)
    → last_empty (split b'\n' t).0 (split b'\n' t).1
      ≡ ends_empty (split b'\n' t).0 (split b'\n' t).1
    → ends_empty (split b'\n' (b ∷ t)).0 (split b'\n' (b ∷ t)).1
      ≡ ends_empty (split b'\n' t).0 (split b'\n' t).1
unfolding split ends_empty
ends_empty_cons b t e = elim (Bool-cases (b == b'\n')) [
  | inl here ↦ rw here e
  | inr other ↦
      rw other (ends_empty_any (b ∷ (split b'\n' t).0) (split b'\n' t).0 (split b'\n' t).1)
]

-- Whether a text ends with a line feed shows in its pieces.
ends_with-pieces : (s : Text) → ends_with b'\n' s ≡ ends_empty (split b'\n' s).0 (split b'\n' s).1
ends_with-pieces [] = unfold split ends_empty in refl
ends_with-pieces (b ∷ []) = elim (Bool-cases (b == b'\n')) [
  | inl here ↦ unfold split ends_empty last_empty in rw here refl
  | inr other ↦ unfold split ends_empty last_empty in rw other refl
]
ends_with-pieces (b ∷ c ∷ s) =
    ends_with-pieces (c ∷ s) ∙ sym (ends_empty_cons b (c ∷ s) (split-last_ends c s))

-- The lines with an empty one after them, if the text ends with a line feed, are the pieces.
closed_lines :
    (s : Text) (ts : List Text)
    → All IsPlain (s ∷ ts)
    → lines_of (s, ts) ++ (if last_empty s ts then [] ∷ [] else []) ≡ s ∷ ts
unfolding lines_of last_empty
closed_lines [] [] h = refl
closed_lines (b ∷ s) [] h = refl
closed_lines [] (t ∷ ts) (p, h) = unfold strip_return in ap (◌∷◌ []) (closed_lines t ts h)
closed_lines (b ∷ s) (t ∷ ts) (p, h) =
    ap₂ ◌∷◌ (strip_return-IsPlain (b ∷ s) p) (closed_lines t ts h)

join_lines_cons :
    (b : ℕ) (s : Text) (ts : List Text) → join_lines ((b ∷ s) ∷ ts) ≡ b ∷ join_lines (s ∷ ts)
unfolding join_lines
join_lines_cons b s [] = refl
join_lines_cons b s (t ∷ ts) = refl

join_opened :
    (s : Text) (ts : List Text)
    → All IsPlain (s ∷ ts)
    → join_lines (lines_of (s, ts) ++ (if ends_empty s ts then [] ∷ [] else []))
      ≡ join_lines (s ∷ ts)
unfolding lines_of ends_empty
join_opened [] [] h = unfold join_lines in refl
join_opened (b ∷ s) [] h = refl
join_opened [] (t ∷ ts) (p, h) =
    unfold strip_return in ap join_lines (ap (◌∷◌ []) (closed_lines t ts h))
join_opened (b ∷ s) (t ∷ ts) (p, h) =
    ap join_lines (ap₂ ◌∷◌ (strip_return-IsPlain (b ∷ s) p) (closed_lines t ts h))

-- The values of the `data` fields of an event.
abbrev values : Text → List Text
values message = lines message ++ (if ends_with b'\n' message then [] ∷ [] else [])

join-pieces : (s : Text) → join_lines (pieces b'\n' s) ≡ s
unfolding split join_lines
join-pieces [] = refl
join-pieces (b ∷ s) = elim (Bool-cases (b == b'\n')) [
  | inl here ↦ rw here (ap₂ ◌∷◌ (sym ((==_iff b b'\n').0 here)) (join-pieces s))
  | inr other ↦
      rw other (join_lines_cons b (split b'\n' s).0 (split b'\n' s).1 ∙ ap (◌∷◌ b) (join-pieces s))
]

join-values : (s : Text) → All IsPlain (pieces b'\n' s) → join_lines (values s) ≡ s
unfolding lines
join-values s h =
    rw (ends_with-pieces s) (join_opened (split b'\n' s).0 (split b'\n' s).1 h ∙ join-pieces s)

lines_opened :
    (s : Text) (ts : List Text)
    → All IsPlain (s ∷ ts)
    → All IsLine (s ∷ ts)
    → All IsLine (lines_of (s, ts))
unfolding lines_of
lines_opened [] [] p h = tt
lines_opened (b ∷ s) [] p h = h
lines_opened [] (t ∷ ts) (p, p') (h, h') = (unfold strip_return in tt, lines_opened t ts p' h')
lines_opened (b ∷ s) (t ∷ ts) (p, p') (h, h') =
    (subst IsLine (sym (strip_return-IsPlain (b ∷ s) p)) h, lines_opened t ts p' h')

-- The empty line after the fields.
read_end :
    (data_ : List Text) (t : Text)
    → read_events data_ (pieces b'\n' (b'\n' ∷ t))
      ≡ announced data_ ++ read_events [] (pieces b'\n' t)
unfolding read_events split
read_end data_ t = refl

read_last :
    (data_ : List Text) (message t : Text)
    → read_events data_ (pieces b'\n' (last_field message ++ b'\n' ∷ t))
      ≡ announced (data_ ++ (if ends_with b'\n' message then [] ∷ [] else []))
        ++ read_events [] (pieces b'\n' t)
read_last data_ message t = elim (Bool-cases (ends_with b'\n' message)) [
  | inl ends ↦ rw ends (read_data data_ [] (b'\n' ∷ t) tt ∙ read_end (data_ ++ [] ∷ []) t)
  | inr other ↦ rw other (
      read_end data_ t
      ∙ ap (λ d. announced d ++ read_events [] (pieces b'\n' t)) (sym (append-nil data_)))
]

announced-join_lines :
    (m : Text) (vs : List Text)
    → join_lines vs ≡ m
    → (m ≡ [] → vs ≡ [])
    → announced vs ≡ message_of m
unfolding announced join_lines
announced-join_lines [] vs e none_left = ap announced (none_left refl)
announced-join_lines (b ∷ s) [] e none_left = cc e
announced-join_lines (b ∷ s) (v ∷ vs) e none_left = ap (λ m. m ∷ []) e

values-empty : (m : Text) → m ≡ [] → values m ≡ []
unfolding lines lines_of split
values-empty m e = ap values e

-- What the data of a message announce.
announced-values :
    (message : Text)
    → All IsPlain (pieces b'\n' message)
    → announced (values message) ≡ message_of message
announced-values message plain =
    announced-join_lines message (values message) (join-values message plain) (values-empty message)

five_parts :
    (a b c d e rest : Text)
    → (a ++ (b ++ (c ++ (d ++ (e ++ b'\n' ∷ []))))) ++ rest
      ≡ a ++ (b ++ (c ++ (d ++ (e ++ b'\n' ∷ rest))))
five_parts a b c d e rest =
    append_assoc a _ rest
    ∙ ap (λ x. a ++ x)
        (append_assoc b _ rest
          ∙ ap (λ x. b ++ x)
              (append_assoc c _ rest
                ∙ ap (λ x. c ++ x)
                    (append_assoc d _ rest ∙ ap (λ x. d ++ x) (append_assoc e (b'\n' ∷ []) rest))))

-- A reader of an event stream that begins with the rendered event reads its message first, line feeds
-- included, and then what it reads from the rest of the stream alone; from an event with an empty
-- message it reads none. The message, and the id and the event's name where they are given, hold no
-- carriage return, and the id and the name no line feed.
pub read_messages-sse_render :
    (e : SseEvent) (rest : Text)
    → IsPlain e.message
    → IsPlainOption e.id × IsLineOption e.id
    → IsPlainOption e.event × IsLineOption e.event
    → read_messages (sse_render e ++ rest) ≡ message_of e.message ++ read_messages rest
unfolding read_messages sse_render
read_messages-sse_render e rest plain (id_plain, id) (event_plain, event) =
    let whole = split-All (λ b. (b == 13) ≡ false) b'\n' e.message plain in
    ap (λ t. read_events [] (pieces b'\n' t))
      (with_feeds-IsPlain (sse_render e) rest (render-IsPlain e plain id_plain event_plain)
        ∙ five_parts (optional_field (ascii "id") e.id) (optional_field (ascii "event") e.event)
            (retry_field e.retry_ms) (message_fields (lines e.message)) (last_field e.message)
            (with_feeds rest))
    ∙ read_optional_id [] e.id _ id
    ∙ read_optional_event [] e.event _ event
    ∙ read_retry [] e.retry_ms _
    ∙ read_fields [] (lines e.message) (last_field e.message ++ b'\n' ∷ with_feeds rest) (
        unfold lines in
        lines_opened (split b'\n' e.message).0 (split b'\n' e.message).1 whole
          (split-Splits b'\n' e.message))
    ∙ read_last (lines e.message) e.message (with_feeds rest)
    ∙ ap (λ m. m ++ read_events [] (pieces b'\n' (with_feeds rest)))
        (announced-values e.message whole)
