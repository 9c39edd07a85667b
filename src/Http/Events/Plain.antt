-- ===== src/Http/Events/Plain.antt =====
-- Where the events of crates/axonyx-runtime/src/server.rs hold no carriage return.
use axonyx_runtime.Prelude.{
  ℕ, ◌+◌, ◌%◌, ◌≡◌, refl, sym, ap, inl, inr, false, Option, none, some, List, [], ◌∷◌, ◌++◌, ◌==◌,
  All, Bool-cases, arith,
}
use mathlib.Core.Path.{subst}
use axonyx_runtime.Prelude.Bytes.{ascii}
use axonyx_runtime.Validation.{ends_with}
use axonyx_runtime.StateWasm.Operators.{decimal}
use axonyx_runtime.Http.Text.{Text, split}
use axonyx_runtime.Http.Splits.{split-All}
use axonyx_runtime.Http.Decimal.{decimal-Avoids}
use axonyx_runtime.Http.Events.{
  SseEvent, sse_field, optional_field, retry_field, strip_return, lines_of, lines, message_fields,
  last_field, sse_render,
}
use axonyx_runtime.Http.Events.Reader.{with_feeds, IsPlain}

pub strip_return-IsPlain : (s : Text) → IsPlain s → strip_return s ≡ s
unfolding strip_return
strip_return-IsPlain [] h = refl
strip_return-IsPlain (b ∷ []) (p, h) = rw p refl
strip_return-IsPlain (b ∷ c ∷ s) (p, h) = ap (◌∷◌ b) (strip_return-IsPlain (c ∷ s) h)

pub with_feeds-IsPlain : (s rest : Text) → IsPlain s → with_feeds (s ++ rest) ≡ s ++ with_feeds rest
unfolding with_feeds
with_feeds-IsPlain [] rest h = refl
with_feeds-IsPlain (b ∷ []) [] (p, h) = rw p refl
with_feeds-IsPlain (b ∷ []) (c ∷ rest) (p, h) = rw p refl
with_feeds-IsPlain (b ∷ c ∷ s) rest (p, h) = rw p (ap (◌∷◌ b) (with_feeds-IsPlain (c ∷ s) rest h))

append-IsPlain : (s t : Text) → IsPlain s → IsPlain t → IsPlain (s ++ t)
append-IsPlain [] t p q = q
append-IsPlain (b ∷ s) t (p, p') q = (p, append-IsPlain s t p' q)

-- A field that is absent, or whose value holds no carriage return.
abbrev pub IsPlainOption : Option Text → Type 0
IsPlainOption none = Unit
IsPlainOption (some value) = IsPlain value

field-IsPlain : (name value : Text) → IsPlain name → IsPlain value → IsPlain (sse_field name value)
unfolding sse_field
field-IsPlain name value p q =
    append-IsPlain name (ascii ": " ++ (value ++ b'\n' ∷ [])) p
      (refl, (refl, append-IsPlain value (b'\n' ∷ []) q (refl, tt)))

optional-IsPlain :
    (name : Text) (value : Option Text)
    → IsPlain name
    → IsPlainOption value
    → IsPlain (optional_field name value)
unfolding optional_field
optional-IsPlain name none p q = tt
optional-IsPlain name (some value) p q = field-IsPlain name value p q

digit-not_return : (n : ℕ) → (b'0' + n % 10 == 13) ≡ false
digit-not_return n = ground arith

retry-IsPlain : (retry : Option ℕ) → IsPlain (retry_field retry)
unfolding retry_field
retry-IsPlain none = tt
retry-IsPlain (some n) =
    append-IsPlain (ascii "retry: ") (decimal 20 n [] ++ b'\n' ∷ [])
      (refl, (refl, (refl, (refl, (refl, (refl, (refl, tt)))))))
      (append-IsPlain (decimal 20 n []) (b'\n' ∷ []) (decimal-Avoids 13 20 n [] digit-not_return tt)
        (refl, tt))

data-IsPlain : IsPlain (ascii "data")
data-IsPlain = (refl, (refl, (refl, (refl, tt))))

fields-IsPlain : (vs : List Text) → All IsPlain vs → IsPlain (message_fields vs)
unfolding message_fields
fields-IsPlain [] h = tt
fields-IsPlain (v ∷ vs) (p, h) =
    append-IsPlain (sse_field (ascii "data") v) (message_fields vs)
      (field-IsPlain (ascii "data") v data-IsPlain p) (fields-IsPlain vs h)

lines_of-IsPlain :
    (s : Text) (ts : List Text) → All IsPlain (s ∷ ts) → All IsPlain (lines_of (s, ts))
unfolding lines_of
lines_of-IsPlain [] [] h = tt
lines_of-IsPlain (b ∷ s) [] h = h
lines_of-IsPlain [] (t ∷ ts) (p, h) = (unfold strip_return in tt, lines_of-IsPlain t ts h)
lines_of-IsPlain (b ∷ s) (t ∷ ts) (p, h) =
    (subst IsPlain (sym (strip_return-IsPlain (b ∷ s) p)) p, lines_of-IsPlain t ts h)

last-IsPlain : (message : Text) → IsPlain (last_field message)
last-IsPlain message = elim (Bool-cases (ends_with b'\n' message)) [
  | inl ends ↦ rw ends (field-IsPlain (ascii "data") [] data-IsPlain tt)
  | inr other ↦ rw other tt
]

pub render-IsPlain :
    (e : SseEvent)
    → IsPlain e.message
    → IsPlainOption e.id
    → IsPlainOption e.event
    → IsPlain (sse_render e)
unfolding sse_render
render-IsPlain e plain id event =
    let whole = split-All (λ b. (b == 13) ≡ false) b'\n' e.message plain in
    let fields = fields-IsPlain (lines e.message) (
      unfold lines in lines_of-IsPlain (split b'\n' e.message).0 (split b'\n' e.message).1 whole) in
    append-IsPlain (optional_field (ascii "id") e.id) _
      (optional-IsPlain (ascii "id") e.id (refl, (refl, tt)) id)
      (append-IsPlain (optional_field (ascii "event") e.event) _
        (optional-IsPlain (ascii "event") e.event (refl, (refl, (refl, (refl, (refl, tt))))) event)
        (append-IsPlain (retry_field e.retry_ms) _ (retry-IsPlain e.retry_ms) (
          append-IsPlain (message_fields (lines e.message)) _ fields (
            append-IsPlain (last_field e.message) (b'\n' ∷ []) (last-IsPlain e.message)
              (refl, tt)))))
