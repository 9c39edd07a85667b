-- ===== src/Http/Routing.antt =====
-- The choice of a route handler by method and path: `match_preview_route`, its pattern and
-- `normalize_preview_request_path` of crates/axonyx-runtime/src/lib.rs, over `AxHandlerPlan` of
-- crates/axonyx-core/src/ax_backend_lowering.rs. The plans of a handler's fields and steps, which
-- the choice does not look into, are types that the definitions take.
pub mod Choice
mod Fit
use axonyx_runtime.Prelude.{
  ℕ, zero, suc, ◌+◌, ◌-◌, Bool, true, false, not, ◌&&◌, ◌||◌, Option, none, some, List, [], ◌∷◌,
  ◌++◌, ltb, leb, ◌==◌, if◌then◌else◌, ◌>>=◌, ◌>>◌, guard, length,
}
use axonyx_runtime.Prelude.Bytes.{ascii, bytes_eq}
use axonyx_runtime.Http.Text.{Text, to_ascii_uppercase, trim, pieces, split, until}
use axonyx_runtime.Http.Request.{Map, map_insert}

-- `AxHandlerKind` and `AxHandlerPlan`
pub data HandlerKind (F : Type 0) : Type 0 where
  route : (method path : Text) (returns : Option Text) (input : List F) → HandlerKind F
  loader : (returns : Option Text) (input : List F) → HandlerKind F
  action : (returns : Option Text) (input : List F) → HandlerKind F
  job : HandlerKind F

pub record Handler (F S : Type 0) : Type 0 where
  pub name : Text
  pub rust_fn : Text
  pub kind : HandlerKind F
  pub steps : List S

-- `trim_start_matches('/')`
unfoldable pub trim_slashes : Text → Text
trim_slashes [] = []
trim_slashes (b ∷ s) = let rest = trim_slashes s in if b == b'/' then rest else b ∷ s

unfoldable pub filled : List Text → List Text
filled [] = []
filled ([] ∷ ss) = filled ss
filled ((b ∷ s) ∷ ss) = (b ∷ s) ∷ filled ss

unfoldable pub path_segments : Text → List Text
unfolding trim_slashes filled split
path_segments path = filled (pieces b'/' (trim_slashes path))

unfoldable pub normalize_preview_method : Text → Text
unfolding trim
normalize_preview_method method = to_ascii_uppercase (trim method)

-- A segment of the pattern: a parameter, or a text.
pub data Segment : Type 0 where
  parameter : Text → Segment
  fixed_text : Text → Segment

abbrev pub segment_of : Text → Segment
segment_of [] = fixed_text []
segment_of (b ∷ s) = if b == b':' then parameter s else fixed_text (b ∷ s)

-- One round of the loop over the segments; the code returns `None` on `none`.
abbrev pub match_segment : Segment → Text → Map × ℕ → Option (Map × ℕ)
match_segment (parameter []) segment found = none
match_segment (parameter (b ∷ s)) segment (params, n) = some (map_insert (b ∷ s) segment params, n)
match_segment (fixed_text s) segment (params, n) =
    if bytes_eq s segment then some (params, n + 1) else none

unfoldable pub match_segments : List Text → List Text → Map × ℕ → Option (Map × ℕ)
unfolding map_insert
match_segments (p ∷ ps) (s ∷ ss) found = do
  found' ← match_segment (segment_of p) s found
  match_segments ps ss found'
match_segments _ _ found = some found

unfoldable pub match_preview_route_pattern : Text → Text → Option (Map × ℕ)
unfolding path_segments match_segments
match_preview_route_pattern pattern request_path =
    let ps = path_segments pattern in
    let ss = path_segments request_path in
    if not (length ps == length ss) then none else match_segments ps ss ([], 0)

abbrev pub max_usize : ℕ
max_usize = 18446744073709551615

-- The number of static segments, and how far the number of segments is from the largest one.
abbrev pub Score : Type 0
Score = ℕ × ℕ

abbrev pub scored : Text → Map × ℕ → Map × Score
scored path (params, n) = (params, (n, max_usize - length (path_segments path)))

-- What the guards of the loop over the routes leave of a route.
abbrev pub match_kind : {F : Type 0} → Text → Text → HandlerKind F → Option (Map × Score)
match_kind method request_path (route route_method path returns input) =
    if not (bytes_eq (normalize_preview_method route_method) method)
    then none
    else (do found ← match_preview_route_pattern path request_path; some (scored path found))
match_kind method request_path _ = none

pub record RouteMatch (F S : Type 0) : Type 0 where
  pub handler : Handler F S
  pub params : Map

-- `best_score` and `best_match`
pub record Best (F S : Type 0) : Type 0 where
  pub best_score : Option Score
  pub best_match : Option (RouteMatch F S)

-- `best_score.is_some_and(|current| current >= score)`
abbrev pub is_dominated : Option Score → Score → Bool
is_dominated none score = false
is_dominated (some (a, b)) (c, d) = ltb c a || (a == c && leb d b)

abbrev pub consider : {F S : Type 0} → Handler F S → Option (Map × Score) → Best F S → Best F S
consider h none best = best
consider h (some (params, score)) best =
    if is_dominated best.best_score score then best else record {
      best_score = some score;
      best_match = some (record { handler = h; params = params });
    }

unfoldable pub search_routes :
    {F S : Type 0} → Text → Text → List (Handler F S) → Best F S → Best F S
unfolding normalize_preview_method match_preview_route_pattern path_segments
search_routes method request_path [] best = best
search_routes method request_path (h ∷ hs) best =
    search_routes method request_path hs (consider h (match_kind method request_path h.kind) best)

unfoldable pub match_preview_route :
    {F S : Type 0} → List (Handler F S) → Text → Text → Option (RouteMatch F S)
unfolding search_routes normalize_preview_method
match_preview_route routes method request_path =
    (search_routes (normalize_preview_method method) request_path routes
      (record { best_score = none; best_match = none })).best_match

-- `join("/")`, with a slash before.
unfoldable pub join_path : List Text → Text
join_path [] = []
join_path (s ∷ ss) = b'/' ∷ (s ++ join_path ss)

abbrev pub is_backward : Text → Bool
is_backward s = bytes_eq s (ascii ".") || bytes_eq s (ascii "..")

unfoldable pub has_backslash : Text → Bool
has_backslash [] = false
has_backslash (b ∷ s) = b == b'\\' || has_backslash s

unfoldable pub collect_segments : List Text → Option (List Text)
unfolding has_backslash
collect_segments [] = some []
collect_segments ([] ∷ ss) = collect_segments ss
collect_segments ((b ∷ s) ∷ ss) = do
  guard (not (is_backward (b ∷ s) || has_backslash (b ∷ s)))
  rest ← collect_segments ss
  some ((b ∷ s) ∷ rest)

abbrev pub root_path : List Text → Text
root_path [] = ascii "/"
root_path (s ∷ ss) = join_path (s ∷ ss)

abbrev pub or_root : Text → Text
or_root [] = ascii "/"
or_root (b ∷ s) = b ∷ s

-- `none` is the error of an invalid path.
unfoldable pub normalize_preview_request_path : Text → Option Text
unfolding collect_segments join_path trim until trim_slashes split
normalize_preview_request_path target =
    let raw = or_root (trim (until (λ b. b == b'?' || b == b'#') target)) in
    do segments ← collect_segments (pieces b'/' (trim_slashes raw)); some (root_path segments)
