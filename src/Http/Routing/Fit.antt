-- ===== src/Http/Routing/Fit.antt =====
-- When a path fits a pattern, for `match_preview_route_pattern` and the guards of `match_preview_route`
-- in crates/axonyx-runtime/src/lib.rs.
use axonyx_runtime.Prelude.{
  ℕ, ◌+◌, ◌-◌, ◌≡◌, ◌⊎◌, refl, sym, ap, ◌∙◌, inl, inr, Bool, true, false, ◌&&◌, Option, none, some,
  List, [], ◌∷◌, ◌==◌, ◌>>=◌, length, Bool-cases, arith,
}
use mathlib.Core.Path.{subst}
use axonyx_runtime.Prelude.Bytes.{bytes_eq}
use axonyx_runtime.Http.Text.{Text}
use axonyx_runtime.Http.Request.{Map, map_insert}
use axonyx_runtime.Http.Routing.{
  HandlerKind, route, loader, action, job, path_segments, normalize_preview_method, Segment,
  parameter, fixed_text, segment_of, match_segment, match_segments, match_preview_route_pattern,
  max_usize, Score, match_kind,
}

-- Whether the segments fit the pattern's.
abbrev pub fits_segment : Segment → Text → Bool
fits_segment (parameter []) segment = false
fits_segment (parameter (b ∷ s)) segment = true
fits_segment (fixed_text s) segment = bytes_eq s segment

unfoldable pub fits : List Text → List Text → Bool
fits [] [] = true
fits (p ∷ ps) (s ∷ ss) = fits_segment (segment_of p) s && fits ps ss
fits _ _ = false

abbrev pub static : Segment → ℕ
static (parameter s) = 0
static (fixed_text s) = 1

-- How many segments of the pattern are texts.
unfoldable pub statics : List Text → ℕ
statics [] = 0
statics (p ∷ ps) = static (segment_of p) + statics ps

abbrev pub bind_segment : Segment → Text → Map → Map
bind_segment (parameter s) segment m = map_insert s segment m
bind_segment (fixed_text s) segment m = m

-- The parameters' values.
unfoldable pub bound : List Text → List Text → Map → Map
bound (p ∷ ps) (s ∷ ss) m = bound ps ss (bind_segment (segment_of p) s m)
bound _ _ m = m

abbrev pub serves_kind : {F : Type 0} → Text → Text → HandlerKind F → Bool
serves_kind method request_path (route route_method path returns input) =
    bytes_eq (normalize_preview_method route_method) method
    && fits (path_segments path) (path_segments request_path)
serves_kind method request_path _ = false

abbrev pub pattern_of : {F : Type 0} → HandlerKind F → List Text
pattern_of (route method path returns input) = path_segments path
pattern_of _ = []

abbrev pub Outcome {ℓ} : {A : Type ℓ} → Bool → A → Option A → Type ℓ
Outcome ok a o = ((ok ≡ true) × (o ≡ some a)) ⊎ ((ok ≡ false) × (o ≡ none))

step_outcome :
    (p : Segment) (s : Text) (m : Map) (n : ℕ)
    → Outcome (fits_segment p s) (bind_segment p s m, n + static p) (match_segment p s (m, n))
step_outcome (parameter []) s m n = inr (refl, refl)
step_outcome (parameter (b ∷ name)) s m n =
    inl (refl, ap (λ (k : ℕ). some (map_insert (b ∷ name) s m, k)) (omega arith))
step_outcome (fixed_text t) s m n = elim (Bool-cases (bytes_eq t s)) [
  | inl same ↦ inl (same, rw same refl)
  | inr other ↦ inr (other, rw other refl)
]

segments_outcome :
    (ps ss : List Text) (m : Map) (n : ℕ)
    → length ps ≡ length ss
    → Outcome (fits ps ss) (bound ps ss m, n + statics ps) (match_segments ps ss (m, n))
unfolding fits match_segments bound statics
segments_outcome [] [] m n h = inl (refl, ap (λ (k : ℕ). some (m, k)) (omega arith))
segments_outcome [] (s ∷ ss) m n h = absurd (omega arith)
segments_outcome (p ∷ ps) [] m n h = absurd (omega arith)
segments_outcome (p ∷ ps) (s ∷ ss) m n h = elim (step_outcome (segment_of p) s m n) [
  | inr (off, e) ↦ inr (rw off refl, ap (λ o. o >>= λ found. match_segments ps ss found) e)
  | inl (on, e) ↦
      elim (segments_outcome ps ss (bind_segment (segment_of p) s m) (n + static (segment_of p))
        (omega arith)) [
          | inr (off, e') ↦
              inr (rw on off, ap (λ o. o >>= λ found. match_segments ps ss found) e ∙ e')
          | inl (on', e') ↦ inl (
            rw on on',
            ap (λ o. o >>= λ found. match_segments ps ss found) e
                ∙ e'
                ∙ ap (λ (k : ℕ). some (bound ps ss (bind_segment (segment_of p) s m), k))
                    (omega arith),
          )
        ]
]

fits-length : (ps ss : List Text) → (length ps == length ss) ≡ false → fits ps ss ≡ false
unfolding fits
fits-length [] [] h = h
fits-length [] (s ∷ ss) h = refl
fits-length (p ∷ ps) [] h = refl
fits-length (p ∷ ps) (s ∷ ss) h =
    rw (fits-length ps ss (ground arith)) (and-false (fits_segment (segment_of p) s))
  where
    and-false : (b : Bool) → (b && false) ≡ false
    and-false true = refl
    and-false false = refl

pattern_outcome :
    (path request_path : Text)
    → Outcome
        (fits (path_segments path) (path_segments request_path))
        (bound (path_segments path) (path_segments request_path) [], statics (path_segments path))
        (match_preview_route_pattern path request_path)
unfolding match_preview_route_pattern
pattern_outcome path request_path =
    let ps = path_segments path in
    let ss = path_segments request_path in
    elim (Bool-cases (length ps == length ss)) [
      | inl same ↦ rw same (
          subst (λ k. Outcome (fits ps ss) (bound ps ss [], k) (match_segments ps ss ([], 0)))
            (omega arith) (segments_outcome ps ss [] 0 (ground arith)))
      | inr other ↦ inr (fits-length ps ss other, rw other refl)
    ]

-- The score of a handler that serves the request.
abbrev pub score_of : {F : Type 0} → Text → HandlerKind F → Score
score_of request_path kind =
    (statics (pattern_of kind), max_usize - length (path_segments request_path))

abbrev pub params_of : {F : Type 0} → Text → HandlerKind F → Map
params_of request_path kind = bound (pattern_of kind) (path_segments request_path) []

fits→length : (ps ss : List Text) → fits ps ss ≡ true → length ps ≡ length ss
unfolding fits
fits→length ps ss h = elim (Bool-cases (length ps == length ss)) [
  | inl same ↦ ground arith
  | inr other ↦ cc (sym (fits-length ps ss other) ∙ h)
]

pub kind_outcome :
    {F : Type 0} (method request_path : Text) (kind : HandlerKind F)
    → Outcome
        (serves_kind method request_path kind)
        (params_of request_path kind, score_of request_path kind)
        (match_kind method request_path kind)
kind_outcome method request_path (loader returns input) = inr (refl, refl)
kind_outcome method request_path (action returns input) = inr (refl, refl)
kind_outcome method request_path job = inr (refl, refl)
kind_outcome method request_path (route route_method path returns input) =
    elim (Bool-cases (bytes_eq (normalize_preview_method route_method) method)) [
      | inr other ↦ inr (rw other refl, rw other refl)
      | inl same ↦ elim (pattern_outcome path request_path) [
        | inr (off, e) ↦ inr (rw same off, rw (same, e) refl)
        | inl (on, e) ↦ inl (
          rw same on,
          rw (same, e)
              (ap
                (λ (k : ℕ). some (
                  bound (path_segments path) (path_segments request_path) [],
                  (statics (path_segments path), max_usize - k),
                ))
                (fits→length (path_segments path) (path_segments request_path) on)),
        )
      ]
    ]
