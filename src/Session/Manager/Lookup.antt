-- ===== src/Session/Manager/Lookup.antt =====
-- Which sessions `load` of crates/axonyx-runtime/src/session.rs finds, after `create` and after `destroy`.
use axonyx_runtime.Prelude.{
  map, ◌++◌, ◌∷◌, ℕ, ◌<◌, ◌≡◌, ◌≢◌, refl, ap, ◌∙◌, sym, inl, inr, Bool, true, false, ◌||◌, Option,
  none, some, List, length, All, Bool-cases, Option-cases, if_second, if_false, if_elim, leb→gt,
  gt→leb,
}
use axonyx_runtime.Prelude.Bytes.{IsBytes, bytes_eq_refl}
use mathlib.Core.Option.{some-injective}
use mathlib.Core.Path.{subst}
use axonyx_runtime.Session.Store.{Session, Store, IsStore, is_expired}
use axonyx_runtime.Session.Hex.{hex_encode, lower_digit}
use axonyx_runtime.Session.Time.{saturating_add}
use axonyx_runtime.Session.Tokens.{
  dot, signed_cookie-eq-some, signed_cookie, sign_session, signed_cookie-sign_session, issue,
  verify-issue, csrf_message,
}
use axonyx_runtime.Session.Cookie.{Cookie}
use axonyx_runtime.Session.Manager.{
  Error, Outcome, ok, err, Policy, add_domain, session_cookie, is_blank, deadline, is_over,
  new_session, create, load_found, load_id, load, destroy_id, destroy, token_loaded, csrf_token,
  verify_loaded, verify_csrf,
}
use axonyx_runtime.Session.Manager.Lifetime.{Operation, perform_all, Avoids, perform_all-IsAbsent}

ok_inj : {A : Type 0} {a b : A} → ok a ≡ ok b → a ≡ b
ok_inj {a} h = ap (λ r. get r a) h
  where
    get : {A : Type 0} → Outcome A → A → A
    get (ok x) y = x
    get (err e) y = y

add_domain-value : (o : Option (List ℕ)) (c : Cookie) → (add_domain o c).value ≡ c.value
add_domain-value none c = refl
add_domain-value (some domain) c = refl

err_differs :
    {A S : Type 0} (e : Error) (a : A) (st st' : S)
    → ◌≢◌ {A = Outcome A × S} (err e, st) (ok a, st')
err_differs e a st st' h = cc (ap (λ p. p.0) h)

or-false : (a b : Bool) → (a || b) ≡ false → (a ≡ false) × (b ≡ false)
or-false true b e = cc
or-false false b e = (refl, e)

module _ (mac : List ℕ → List ℕ → List ℕ) {D S : Type 0} (store : Store D S) (policy : Policy)
    (view : S → List ℕ → Option (Session D)) (is : IsStore store view) where
  -- What it takes that `load` returns a session: the cookie is its id, a dot and the MAC of the id in
  -- hexadecimal, the store holds it, and it is neither expired nor past its absolute lifetime.
  pub record Found (cookie : Option (List ℕ)) (secret : List ℕ) (now : ℕ) (st : S) (s : Session D)
      : Type 0 where
    pub key : List ℕ
    pub signature : List ℕ
    pub carried : cookie ≡ some (key ++ dot ∷ signature)
    pub genuine : map lower_digit signature ≡ hex_encode (mac secret key)
    pub signed : signed_cookie mac cookie secret ≡ some key
    pub held : view st key ≡ some s
    pub unexpired : now < s.expires_at
    pub in_time : now < saturating_add s.created_at policy.absolute_ttl

  load_found-ok :
      (id : List ℕ) (now : ℕ) (st st' : S) (o : Option (Session D)) (s : Session D)
      → load_found mac store policy id now st o ≡ (ok (some s), st')
      → (o ≡ some s) × (st' ≡ st) × (is_over mac store policy s now ≡ false)
  unfolding load_found
  load_found-ok id now st st' none s e = cc (ap (λ p. p.0) e)
  load_found-ok id now st st' (some c) s e = elim (Bool-cases (is_over mac store policy c now)) [
    | inl over ↦ elim (Option-cases (store.delete id st)) [
      | inl failed ↦ cc (ap (λ p. p.0) (rw (over, failed) at e))
      | inr (st'', deleted) ↦ cc (ap (λ p. p.0) (rw (over, deleted) at e))
    ]
    | inr live ↦
        let q = rw live at e in
        let s_lem = some-injective _ _ (ok_inj (ap (λ p. p.0) q)) in
        (
          ap some s_lem,
          sym (ap (λ p. p.1) q),
          subst (λ t. is_over mac store policy t now ≡ false) s_lem live,
        )
  ]

  load_id-ok :
      (now : ℕ) (st st' : S) (o : Option (List ℕ)) (s : Session D)
      → load_id mac store policy now st o ≡ (ok (some s), st')
      → (key : List ℕ) × (o ≡ some key)
        × (view st key ≡ some s)
        × (st' ≡ st)
        × (is_over mac store policy s now ≡ false)
  unfolding load_id
  load_id-ok now st st' none s e = cc (ap (λ p. p.0) e)
  load_id-ok now st st' (some id) s e = elim (Option-cases (store.load id st)) [
    | inl failed ↦ cc (ap (λ p. p.0) (rw (load_id, failed) at e))
    | inr (o, loaded) ↦
        let (found, same, live) = load_found-ok id now st st' o s (rw (load_id, loaded) at e) in
        (id, refl, is.load_lem id st o loaded ∙ found, same, live)
  ]

  -- Over a store that keeps its promises: if `load` returns a session, the cookie is an id, a dot and the
  -- MAC of this id under the secret, in hexadecimal with letters of either case; the store holds the
  -- session under the id; it has not expired, its age is below the absolute lifetime of the policy,
  -- the sum saturating; and the store is as before.
  pub load-Found :
      (cookie : Option (List ℕ)) (secret : List ℕ) (now : ℕ) (st st' : S) (s : Session D)
      → load mac store policy cookie secret now st ≡ (ok (some s), st')
      → Found cookie secret now st s × (st' ≡ st)
  unfolding load
  load-Found cookie secret now st st' s e =
      let (_, e') = if_second (is_blank secret) _ _ _ (err_differs _ _ _ _) e in
      let (key, signed, held, same, live) =
        load_id-ok now st st' (signed_cookie mac cookie secret) s e' in
      let (expired, past) = or-false (is_expired s now) _ live in
      let (signature, carried, genuine) = signed_cookie-eq-some mac cookie secret key signed in
      (
        record {
          key = key;
          signature = signature;
          carried = carried;
          genuine = genuine;
          signed = signed;
          held = held;
          unexpired = leb→gt s.expires_at now expired;
          in_time = leb→gt (deadline mac store policy s) now past;
        },
        same,
      )

  destroy_id-view :
      (st st' : S) (key : List ℕ) (c : Cookie)
      → destroy_id mac store policy st (some key) ≡ (ok c, st')
      → view st' key ≡ none
  destroy_id-view st st' key c e = elim (Option-cases (store.delete key st)) [
    | inl failed ↦ cc (ap (λ p. p.0) (rw (destroy_id, failed) at e))
    | inr (st'', deleted) ↦
        let same = ap (λ p. p.1) (rw (destroy_id, deleted) at e) in
        ap (λ t. view t key) (sym same)
        ∙ rw (bytes_eq_refl key) at (is.delete_lem key st st'' key deleted)
  ]

  -- Over a store that keeps its promises: after `destroy` has succeeded for a cookie that carries a
  -- signed id, and whatever calls of the manager follow that create no session under the same id,
  -- `load` with this cookie returns no session, at any time.
  pub load-destroy :
      (cookie : Option (List ℕ)) (secret key : List ℕ) (st st' st'' : S) (c : Cookie)
      (os : List (Operation D)) (now : ℕ) (s : Session D)
      → signed_cookie mac cookie secret ≡ some key
      → destroy mac store policy cookie secret st ≡ (ok c, st')
      → All (Avoids mac store policy view is key) os
      → load mac store policy cookie secret now (perform_all mac store policy os st')
        ≢ (ok (some s), st'')
  unfolding destroy
  load-destroy cookie secret key st st' st'' c os now s signed e avoids loaded =
      let (_, e') = if_second (is_blank secret) _ _ _ (err_differs _ _ _ _) e in
      let gone = destroy_id-view st st' key c (rw signed at e') in
      let absent = perform_all-IsAbsent mac store policy view is key os st' gone avoids in
      let (found, _) =
        load-Found cookie secret now (perform_all mac store policy os st') st'' s loaded in
      let same : found.key ≡ key = some-injective _ _ (sym found.signed ∙ signed) in
      cc (sym absent ∙ ap (view (perform_all mac store policy os st')) (sym same) ∙ found.held)

  load_id_held :
      (now : ℕ) (st : S) (key : List ℕ) (s : Session D)
      → store.load key st ≡ some (some s)
      → is_over mac store policy s now ≡ false
      → load_id mac store policy now st (some key) ≡ (ok (some s), st)
  unfolding load_id load_found
  load_id_held now st key s answers live = rw (load_id, answers, load_found, live) refl

  load_of_Found :
      (cookie : Option (List ℕ)) (secret : List ℕ) (now : ℕ) (st : S) (s : Session D)
      (o : Option (Session D))
      → is_blank secret ≡ false
      → (found : Found cookie secret now st s) → store.load found.key st ≡ some o
      → load mac store policy cookie secret now st ≡ (ok (some s), st)
  unfolding load
  load_of_Found cookie secret now st s o named found answers =
      let held : o ≡ some s = sym (is.load_lem found.key st o answers) ∙ found.held in
      let answers' : store.load found.key st ≡ some (some s) = answers ∙ ap some held in
      let unexpired = gt→leb s.expires_at now found.unexpired in
      let in_time = gt→leb (deadline mac store policy s) now found.in_time in
      let live : is_over mac store policy s now ≡ false = rw (unexpired, in_time) refl in
      if_false _ _ _ named
      ∙ ap (load_id mac store policy now st) found.signed
      ∙ load_id_held now st found.key s answers' live

  session_cookie-value :
      (s : Session D) (secret : List ℕ) (now : ℕ)
      → (session_cookie mac store policy s secret now).value ≡ sign_session mac s.id secret
  session_cookie-value s secret now =
      if_elim (λ (t : Cookie). t.value ≡ sign_session mac s.id secret) policy.secure _ _
        (add_domain-value policy.domain _) (add_domain-value policy.domain _)

  create-Found :
      (id subject : List ℕ) (data_ : D) (secret : List ℕ) (now later : ℕ) (st st' : S)
      (s : Session D) (c : Cookie)
      → IsBytes (mac secret s.id)
      → create mac store policy id subject data_ secret now st ≡ (ok (s, c), st')
      → later < s.expires_at
      → later < deadline mac store policy s
      → (is_blank secret ≡ false)
        × (found : Found (some c.value) secret later st' s) × (found.key ≡ s.id)
  unfolding create
  create-Found id subject data_ secret now later st st' s c bytes e unexpired in_time =
      let (named, e₁) = if_second (is_blank secret) _ _ _ (err_differs _ _ _ _) e in
      let (_, e₂) = if_second (is_blank subject) _ _ _ (err_differs _ _ _ _) e₁ in
      elim (Option-cases (store.save (new_session mac store policy id subject data_ now) st)) [
        | inl failed ↦ cc (ap (λ p. p.0) (rw failed at e₂))
        | inr (saved_st, saved) ↦
            let n = new_session mac store policy id subject data_ now in
            let q = rw saved at e₂ in
            let pair = ok_inj (ap (λ p. p.0) q) in
            let s_lem : n ≡ s = ap (λ p. p.0) pair in
            let c_lem = ap (λ p. p.1) pair in
            let held = rw (bytes_eq_refl id) at (is.save_lem n st saved_st id saved) in
            let signed : signed_cookie mac (some c.value) secret ≡ some s.id =
              ap (λ v. signed_cookie mac (some v) secret)
                (sym (ap (λ t. t.value) c_lem)
                  ∙ session_cookie-value n secret now
                  ∙ ap (λ t. sign_session mac t.id secret) s_lem)
              ∙ signed_cookie-sign_session mac s.id secret bytes in
            let (signature, carried, genuine) =
              signed_cookie-eq-some mac (some c.value) secret s.id signed in
            (
              named,
              record {
                key = s.id;
                signature = signature;
                carried = carried;
                genuine = genuine;
                signed = signed;
                held =
                    ap (λ k. view st' k) (sym (ap (λ t. t.id) s_lem))
                    ∙ ap (λ t. view t id) (sym (ap (λ p. p.1) q))
                    ∙ held
                    ∙ ap some s_lem;
                unexpired = unexpired;
                in_time = in_time;
              },
              refl,
            )
      ]

  -- Over a store that keeps its promises: a session that `create` returns is the one that `load`
  -- finds for the cookie that `create` returns with it, before it expires and before its deadline,
  -- if the store answers and the MAC is a string of bytes.
  pub load-create :
      (id subject : List ℕ) (data_ : D) (secret : List ℕ) (now later : ℕ) (st st' : S)
      (s : Session D) (c : Cookie) (o : Option (Session D))
      → IsBytes (mac secret s.id)
      → create mac store policy id subject data_ secret now st ≡ (ok (s, c), st')
      → later < s.expires_at
      → later < deadline mac store policy s
      → store.load s.id st' ≡ some o
      → load mac store policy (some c.value) secret later st' ≡ (ok (some s), st')
  load-create id subject data_ secret now later st st' s c o bytes e unexpired in_time answers =
      let (named, found, key_lem) =
        create-Found id subject data_ secret now later st st' s c bytes e unexpired in_time in
      load_of_Found (some c.value) secret later st' s o named found
        (ap (λ k. store.load k st') key_lem ∙ answers)

  token_loaded-ok :
      (secret token : List ℕ) (r : Outcome (Option (Session D)) × S) (st' : S)
      → token_loaded mac store policy secret r ≡ (ok (some token), st')
      → (s : Session D) × (r ≡ (ok (some s), st')) × (issue mac s.id secret ≡ some token)
  unfolding token_loaded
  token_loaded-ok secret token (err x, st) st' e = cc (ap (λ p. p.0) e)
  token_loaded-ok secret token (ok none, st) st' e = cc (ap (λ p. p.0) e)
  token_loaded-ok secret token (ok (some s), st) st' e =
      elim (Option-cases (issue mac s.id secret)) [
        | inl short ↦ cc (ap (λ p. p.0) (rw (token_loaded, short) at e))
        | inr (t, issued) ↦
            let q = rw (token_loaded, issued) at e in
            let t_lem = some-injective _ _ (ok_inj (ap (λ p. p.0) q)) in
            (s, ap (λ x. (ok (some s), x)) (ap (λ p. p.1) q), issued ∙ ap some t_lem)
      ]

  -- Over a store that keeps its promises: a token that `csrf_token` returns for a request is
  -- accepted by `verify_csrf` for the same request at the same time, if every MAC is a string of 32
  -- bytes.
  pub verify_csrf-csrf_token :
      (cookie : Option (List ℕ)) (secret token : List ℕ) (now : ℕ) (st st' : S)
      → ((message : List ℕ) → IsBytes (mac secret message) × (length (mac secret message) ≡ 32))
      → csrf_token mac store policy cookie secret now st ≡ (ok (some token), st')
      → verify_csrf mac store policy cookie token secret now st' ≡ (ok true, st')
  unfolding csrf_token verify_csrf verify_loaded
  verify_csrf-csrf_token cookie secret token now st st' words e =
      let (s, loaded, issued) =
        token_loaded-ok secret token (load mac store policy cookie secret now st) st' e in
      let (_, same) = load-Found cookie secret now st st' s loaded in
      let again : load mac store policy cookie secret now st' ≡ (ok (some s), st') =
        ap (load mac store policy cookie secret now) same ∙ loaded in
      let (bytes, size) = words (csrf_message s.id) in
      let accepted = (verify-issue mac s.id token secret bytes size).1 issued in
      ap (verify_loaded mac store policy token secret) again ∙ rw (verify_loaded, accepted) refl
