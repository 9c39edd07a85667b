-- ===== src/Http/Middleware/Chains.antt =====
-- What the built-in hooks of crates/axonyx-runtime/src/server.rs do to a chain of middleware.
use axonyx_runtime.Prelude.{
  ℕ, ◌≡◌, refl, sym, ap, ◌∙◌, inl, inr, Bool, true, false, ◌&&◌, ◌||◌, Option, none, some, List, [],
  ◌∷◌, ◌++◌, ◌>>=◌, all, append_assoc, append-nil, Option-cases, arith, >>=-eq-some,
}
use mathlib.Core.Option.{some-injective}
use mathlib.Core.Path.{subst}
use axonyx_runtime.Prelude.Bytes.{ascii, bytes_eq}
use axonyx_runtime.Http.Text.{Text}
use axonyx_runtime.Http.Response.{Response}
use axonyx_runtime.Http.Middleware.{
  RequestContext, MiddlewareResult, continue_on, stop, BeforeMiddleware, AfterMiddleware, Phase,
  before, after, Chain, add_before, add_after, run_after, run_before, run_chain, signed_session,
  require_signed_session_middleware, before_hook, after_hook, try_builtin_hook, try_builtin_hooks,
  unauthorized,
}

-- A middleware that stops a request keeps it from the handler, wherever it stands.
run_before-stop :
    (xs ys : List BeforeMiddleware) (m : BeforeMiddleware) (context : RequestContext) (r : Response)
    (f g : RequestContext → Response)
    → m context ≡ stop r
    → run_before (xs ++ m ∷ ys) context f ≡ run_before (xs ++ m ∷ ys) context g
unfolding run_before
run_before-stop [] ys m context r f g e = rw e refl
run_before-stop (x ∷ xs) ys m context r f g e =
    go (x context) (run_before-stop xs ys m context r f g e)
  where
    go :
        (result : MiddlewareResult)
        → run_before (xs ++ m ∷ ys) context f ≡ run_before (xs ++ m ∷ ys) context g
        → (elim result [
          | continue_on ↦ run_before (xs ++ m ∷ ys) context f
          | stop response ↦ response
        ])
          ≡ (elim result [
            | continue_on ↦ run_before (xs ++ m ∷ ys) context g
            | stop response ↦ response
          ])
    go continue_on h = h
    go (stop response) h = refl

abbrev pub is_some {ℓ} : {A : Type ℓ} → Option A → Bool
is_some none = false
is_some (some a) = true

-- An independent description of the hooks that are built in.
unfoldable pub is_builtin : Phase → Text → Bool
is_builtin after hook =
    bytes_eq hook (ascii "Security.headers") || bytes_eq hook (ascii "Cache.noStore")
is_builtin before hook =
    bytes_eq hook (ascii "Auth.session")
    || bytes_eq hook (ascii "Auth.bearer")
    || bytes_eq hook (ascii "Auth.signedSession")
    || bytes_eq hook (ascii "Security.headers")
    || bytes_eq hook (ascii "Cache.noStore")

-- The middleware that runs before is kept, and followed by more.
abbrev Extends : Chain → Chain → Type 0
Extends c c' = (ys : List BeforeMiddleware) × (c'.befores ≡ c.befores ++ ys)

Extends-refl : (c : Chain) → Extends c c
Extends-refl c = ([], sym (append-nil c.befores))

Extends-trans : (a b c : Chain) → Extends a b → Extends b c → Extends a c
Extends-trans a b c (ys, p) (zs, q) =
    (ys ++ zs, q ∙ ap (λ xs. xs ++ zs) p ∙ append_assoc a.befores ys zs)

add_before-Extends :
    (m : BeforeMiddleware) (c c' : Chain) → some (add_before m c) ≡ some c' → Extends c c'
add_before-Extends m c c' e = (m ∷ [], sym (ap (λ (k : Chain). k.befores) (some-injective _ _ e)))

add_after-Extends :
    (m : Option AfterMiddleware) (c c' : Chain)
    → (m >>= λ m. some (add_after m c)) ≡ some c'
    → Extends c c'
add_after-Extends none c c' e = cc
add_after-Extends (some m) c c' e =
    ([], sym (ap (λ (k : Chain). k.befores) (some-injective _ _ e)) ∙ sym (append-nil c.befores))

module _ (mac : List ℕ → List ℕ → List ℕ) (unauthorized_json : Text) where
  hook-Extends :
      (phase : Phase) (hook : Text) (c c' : Chain)
      → try_builtin_hook mac unauthorized_json phase hook c ≡ some c'
      → Extends c c'
  unfolding try_builtin_hook
  hook-Extends after hook c c' e = add_after-Extends (after_hook mac unauthorized_json hook) c c' e
  hook-Extends before hook c c' e = elim (Option-cases (before_hook mac unauthorized_json hook)) [
    | inl other ↦
        add_after-Extends (after_hook mac unauthorized_json hook) c c'
          (rw (other, try_builtin_hook) at e)
    | inr (m, found) ↦ add_before-Extends m c c' (rw (found, try_builtin_hook) at e)
  ]

  hooks-Extends :
      (hooks : List (Phase × Text)) (c c' : Chain)
      → try_builtin_hooks mac unauthorized_json hooks c ≡ some c'
      → Extends c c'
  unfolding try_builtin_hooks
  hooks-Extends [] c c' e = subst (Extends c) (some-injective _ _ e) (Extends-refl c)
  hooks-Extends ((phase, hook) ∷ hooks) c c' e =
      let (k, first, rest) =
        >>=-eq-some (try_builtin_hook mac unauthorized_json phase hook c) _ e in
      Extends-trans c k c' (hook-Extends phase hook c k first) (hooks-Extends hooks k c' rest)

  signed_session_stops :
      (context : RequestContext)
      → signed_session mac unauthorized_json context ≡ none
      → require_signed_session_middleware mac unauthorized_json context
        ≡ unauthorized mac unauthorized_json
  unfolding require_signed_session_middleware
  signed_session_stops context h = rw h refl

  signed_session_added :
      (c c' : Chain)
      → try_builtin_hook mac unauthorized_json before (ascii "Auth.signedSession") c ≡ some c'
      → c'.befores ≡ c.befores ++ require_signed_session_middleware mac unauthorized_json ∷ []
  unfolding try_builtin_hook
  signed_session_added c c' e = sym (ap (λ (k : Chain). k.befores) (some-injective _ _ e))

  -- On a chain that the hook `Auth.signedSession` was added to, whatever was added before it and
  -- whichever built-in hooks after it, a request without a signed session gets the same response
  -- with every handler: the handler has no part in it.
  pub signed_session_guards :
      (c c' c'' : Chain) (hooks : List (Phase × Text)) (context : RequestContext)
      (f g : RequestContext → Response)
      → try_builtin_hook mac unauthorized_json before (ascii "Auth.signedSession") c ≡ some c'
      → try_builtin_hooks mac unauthorized_json hooks c' ≡ some c''
      → signed_session mac unauthorized_json context ≡ none
      → run_chain c'' context f ≡ run_chain c'' context g
  unfolding run_chain
  signed_session_guards c c' c'' hooks context f g added more h =
      let guard = require_signed_session_middleware mac unauthorized_json in
      let (ys, extended) = hooks-Extends hooks c' c'' more in
      let shape : c''.befores ≡ c.befores ++ guard ∷ ys =
        extended
        ∙ ap (λ xs. xs ++ ys) (signed_session_added c c' added)
        ∙ append_assoc c.befores (guard ∷ []) ys in
      ap (run_after c''.afters context) (
        ap (λ xs. run_before xs context f) shape
        ∙ run_before-stop c.befores ys guard context _ f g (signed_session_stops context h)
        ∙ sym (ap (λ xs. run_before xs context g) shape))

  hook-is_some :
      (phase : Phase) (hook : Text) (c : Chain)
      → is_some (try_builtin_hook mac unauthorized_json phase hook c) ≡ is_builtin phase hook
  unfolding try_builtin_hook is_builtin
  hook-is_some after hook c = ground arith
  hook-is_some before hook c = ground arith

  -- A list of hooks is refused exactly if one of them is not built in for its phase: `Auth.session`,
  -- `Auth.bearer` and `Auth.signedSession` before, `Security.headers` and `Cache.noStore` before or
  -- after.
  pub hooks-is_some :
      (hooks : List (Phase × Text)) (c : Chain)
      → is_some (try_builtin_hooks mac unauthorized_json hooks c)
        ≡ all (λ (h : Phase × Text). is_builtin h.0 h.1) hooks
  unfolding try_builtin_hooks
  hooks-is_some [] c = refl
  hooks-is_some ((phase, hook) ∷ hooks) c =
      go (try_builtin_hook mac unauthorized_json phase hook c) (hook-is_some phase hook c)
        (λ c'. hooks-is_some hooks c')
    where
      go :
          (o : Option Chain)
          → is_some o ≡ is_builtin phase hook
          → ((c' : Chain)
              → is_some (try_builtin_hooks mac unauthorized_json hooks c')
                ≡ all (λ (h : Phase × Text). is_builtin h.0 h.1) hooks)
          → is_some (o >>= λ c'. try_builtin_hooks mac unauthorized_json hooks c')
            ≡ (is_builtin phase hook && all (λ (h : Phase × Text). is_builtin h.0 h.1) hooks)
      go none e ih = rw (← e) refl
      go (some c') e ih = rw (← e) (ih c')
