-- ===== src/Http/Routing/Choice.antt =====
-- Which handler `match_preview_route` of crates/axonyx-runtime/src/lib.rs chooses.
use axonyx_runtime.Prelude.{
  ℕ, ◌≤◌, ◌<◌, ◌≡◌, refl, sym, ap, ◌∙◌, inl, inr, Bool, true, false, ◌&&◌, ◌||◌, Option, none, some,
  List, [], ◌∷◌, ◌++◌, ltb, leb, ◌==◌, All, All-append, Bool-cases, append_assoc, append-nil, arith,
}
use mathlib.Core.Path.{subst}
use axonyx_runtime.Http.Text.{Text}
use axonyx_runtime.Http.Routing.{
  Handler, normalize_preview_method, match_kind, RouteMatch, Best, consider, search_routes,
  match_preview_route,
}
use axonyx_runtime.Http.Routing.Fit.{
  serves_kind, pattern_of, statics, score_of, params_of, kind_outcome,
}

is_dominated_lem : (a b n : ℕ) → (ltb b a || (a == b && leb n n)) ≡ leb b a
is_dominated_lem a b n = ground arith

module _ {F S : Type 0} (method request_path : Text) where
  abbrev pub serves : Handler F S → Bool
  serves h = serves_kind method request_path h.kind

  -- How many of the segments of the handler's path are texts.
  abbrev pub weight : Handler F S → ℕ
  weight h = statics (pattern_of h.kind)

  -- Handlers of which none has as many texts as `n`, and none has more.
  abbrev pub NoneReach : ℕ → List (Handler F S) → Type 0
  NoneReach n = All (λ (h : Handler F S). (serves h && leb n (weight h)) ≡ false)

  abbrev pub NonePass : ℕ → List (Handler F S) → Type 0
  NonePass n = All (λ (h : Handler F S). (serves h && ltb n (weight h)) ≡ false)

  abbrev pub NoneServes : List (Handler F S) → Type 0
  NoneServes = All (λ (h : Handler F S). serves h ≡ false)

  -- The first of the heaviest handlers that serve the request, with the parameters of its path.
  pub record IsChosen (routes : List (Handler F S)) (m : RouteMatch F S) : Type 0 where
    pub earlier : List (Handler F S)
    pub later : List (Handler F S)
    pub stands : routes ≡ earlier ++ m.handler ∷ later
    pub served : serves m.handler ≡ true
    pub filled_in : m.params ≡ params_of request_path m.handler.kind
    pub first : NoneReach (weight m.handler) earlier
    pub heaviest : NonePass (weight m.handler) later

  abbrev pub IsChoice : List (Handler F S) → Option (RouteMatch F S) → Type 0
  IsChoice routes none = NoneServes routes
  IsChoice routes (some m) = IsChosen routes m

  -- The state of the search after some routes.
  data Searched (routes : List (Handler F S)) : Best F S → Type 0 where
    nothing : NoneServes routes → Searched routes (record { best_score = none; best_match = none })
    found :
        (m : RouteMatch F S)
        → IsChosen routes m
        → Searched routes (record {
          best_score = some (score_of request_path m.handler.kind);
          best_match = some m;
        })

  unserved-NoneReach : (n : ℕ) (hs : List (Handler F S)) → NoneServes hs → NoneReach n hs
  unserved-NoneReach n [] h = tt
  unserved-NoneReach n (k ∷ hs) (p, h) = (rw p refl, unserved-NoneReach n hs h)

  raise-NoneReach : (a b : ℕ) (hs : List (Handler F S)) → a ≤ b → NoneReach a hs → NoneReach b hs
  raise-NoneReach a b [] h r = tt
  raise-NoneReach a b (k ∷ hs) h (p, r) = (ground arith, raise-NoneReach a b hs h r)

  pass-NoneReach : (a b : ℕ) (hs : List (Handler F S)) → a < b → NonePass a hs → NoneReach b hs
  pass-NoneReach a b [] h r = tt
  pass-NoneReach a b (k ∷ hs) h (p, r) = (ground arith, pass-NoneReach a b hs h r)

  -- One more handler that does not take the place of the chosen one.
  pass_by :
      (routes : List (Handler F S)) (h : Handler F S) (m : RouteMatch F S)
      → IsChosen routes m
      → (serves h && ltb (weight m.handler) (weight h)) ≡ false
      → IsChosen (routes ++ h ∷ []) m
  pass_by routes h m c p = record {
    earlier = c.earlier;
    later = c.later ++ h ∷ [];
    stands =
        ap (λ hs. hs ++ h ∷ []) c.stands ∙ append_assoc c.earlier (m.handler ∷ c.later) (h ∷ []);
    served = c.served;
    filled_in = c.filled_in;
    first = c.first;
    heaviest = All-append _ c.later (h ∷ []) c.heaviest (p, tt);
  }

  choose :
      (routes : List (Handler F S)) (h : Handler F S)
      → serves h ≡ true
      → NoneReach (weight h) routes
      → IsChosen (routes ++ h ∷ []) (record { handler = h; params = params_of request_path h.kind })
  choose routes h served first = record {
    earlier = routes;
    later = [];
    stands = refl;
    served = served;
    filled_in = refl;
    first = first;
    heaviest = tt;
  }

  overtake :
      (routes : List (Handler F S)) (h : Handler F S) (m : RouteMatch F S)
      → IsChosen routes m
      → weight m.handler < weight h
      → NoneReach (weight h) routes
  overtake routes h m c p = subst (NoneReach (weight h)) (sym c.stands) (
      All-append _ c.earlier (m.handler ∷ c.later)
        (raise-NoneReach (weight m.handler) (weight h) c.earlier (omega arith) c.first)
        (ground arith, pass-NoneReach (weight m.handler) (weight h) c.later p c.heaviest))

  consider-Searched :
      (routes : List (Handler F S)) (h : Handler F S) (best : Best F S)
      → Searched routes best
      → Searched (routes ++ h ∷ []) (consider h (match_kind method request_path h.kind) best)
  consider-Searched routes h best searched = elim (kind_outcome method request_path h.kind) [
    | inr (off, e) ↦
        subst (λ o. Searched (routes ++ h ∷ []) (consider h o best)) (sym e) (unserved searched off)
    | inl (on, e) ↦
        subst (λ o. Searched (routes ++ h ∷ []) (consider h o best)) (sym e) (go searched on)
  ]
    where
      unserved :
          {best : Best F S}
          → Searched routes best
          → serves h ≡ false
          → Searched (routes ++ h ∷ []) best
      unserved (nothing none_served) off =
          nothing (All-append _ routes (h ∷ []) none_served (off, tt))
      unserved (found m c) off = found m (pass_by routes h m c (rw off refl))

      go :
          {best : Best F S}
          → Searched routes best
          → serves h ≡ true
          → Searched
              (routes ++ h ∷ [])
              (consider h (some (params_of request_path h.kind, score_of request_path h.kind)) best)
      go (nothing none_served) on =
          found (record { handler = h; params = params_of request_path h.kind })
            (choose routes h on (unserved-NoneReach (weight h) routes none_served))
      go (found m c) on =
          rw (is_dominated_lem (weight m.handler) (weight h) _)
            (elim (Bool-cases (leb (weight h) (weight m.handler))) [
              | inl less ↦ rw less (found m (pass_by routes h m c (ground arith)))
              | inr more ↦ rw more (
                  found (record { handler = h; params = params_of request_path h.kind })
                    (choose routes h on (overtake routes h m c (ground arith))))
            ])

  search-Searched :
      (hs routes : List (Handler F S)) (best : Best F S)
      → Searched routes best
      → Searched (routes ++ hs) (search_routes method request_path hs best)
  unfolding search_routes
  search-Searched [] routes best s = subst (λ hs. Searched hs best) (sym (append-nil routes)) s
  search-Searched (h ∷ hs) routes best s =
      subst
        (λ all. Searched all (
          search_routes method request_path hs
            (consider h (match_kind method request_path h.kind) best)))
        (append_assoc routes (h ∷ []) hs)
        (search-Searched hs (routes ++ h ∷ []) _ (consider-Searched routes h best s))

  Searched-IsChoice :
      (routes : List (Handler F S)) {best : Best F S}
      → Searched routes best
      → IsChoice routes best.best_match
  Searched-IsChoice routes (nothing h) = h
  Searched-IsChoice routes (found m c) = c

-- The handler that is chosen serves the request: its method is the request's, without regard to
-- case and surrounding space, and each segment of its path is a parameter or the request's; the
-- parameters have the values of the request's segments. Of the handlers that serve it, none has more
-- segments that are texts, and none before it has as many. If none is chosen, none serves it.
pub match_preview_route-IsChoice :
    {F S : Type 0} (routes : List (Handler F S)) (method request_path : Text)
    → IsChoice
        (normalize_preview_method method)
        request_path
        routes
        (match_preview_route routes method request_path)
unfolding match_preview_route
match_preview_route-IsChoice routes method request_path =
    Searched-IsChoice (normalize_preview_method method) request_path routes
      (search-Searched (normalize_preview_method method) request_path routes [] _ (nothing tt))
