-- ===== src/Session/Manager/Lifetime.antt =====
-- What the operations of `AxSessionManager` of crates/axonyx-runtime/src/session.rs make of the sessions
-- in a store.
use Prim.Native.Nat.{min}
use axonyx_runtime.Prelude.{
  ℕ, ◌≤◌, ◌≡◌, refl, ◌∙◌, sym, inl, inr, Bool, false, Option, none, some, List, [], ◌∷◌, arith, All,
  Bool-cases, Option-cases, if_elim,
}
use axonyx_runtime.Prelude.Bytes.{bytes_eq, bytes_eq→eq}
use mathlib.Core.Option.{some-injective}
use mathlib.Core.Path.{subst}
use axonyx_runtime.Session.Time.{saturating_add}
use axonyx_runtime.Session.Store.{Session, Store, IsStore, is_refreshed, later, refreshed}
use axonyx_runtime.Session.Tokens.{signed_cookie}
use axonyx_runtime.Session.Cookie.{Cookie}
use axonyx_runtime.Session.Manager.{
  Outcome, ok, err, Policy, is_blank, is_over, new_session, create, load_found, load_id, load,
  slide, refresh_loaded, refresh, destroy_id, destroy,
}

-- A call of the manager that may change the store, with its arguments.
pub data Operation (D : Type 0) : Type 0 where
  creates : List ℕ → List ℕ → D → List ℕ → ℕ → Operation D
  loads refreshes : Option (List ℕ) → List ℕ → ℕ → Operation D
  destroys : Option (List ℕ) → List ℕ → Operation D

module _ (mac : List ℕ → List ℕ → List ℕ) {D S : Type 0} (store : Store D S) (policy : Policy) where
  unfoldable pub perform : Operation D → S → S
  perform (creates id subject data_ secret now) st =
      (create mac store policy id subject data_ secret now st).1
  perform (loads cookie secret now) st = (load mac store policy cookie secret now st).1
  perform (refreshes cookie secret now) st = (refresh mac store policy cookie secret now st).1
  perform (destroys cookie secret) st = (destroy mac store policy cookie secret st).1

  unfoldable pub perform_all : List (Operation D) → S → S
  perform_all [] st = st
  perform_all (o ∷ os) st = perform_all os (perform o st)

-- A property of states that deleting and refreshing keep.
pub record Keeps (mac : List ℕ → List ℕ → List ℕ) {D S : Type 0} (store : Store D S)
    (policy : Policy) (P : S → Type 0) : Type 0 where
  pub delete : (id : List ℕ) (st st' : S) → P st → store.delete id st ≡ some st' → P st'
  pub refresh :
      (s : Session D) (now : ℕ) (st : S) (r : Bool × S)
      → P st
      → store.refresh_live (slide mac store policy s now) now st ≡ some r
      → P r.1

module _ (mac : List ℕ → List ℕ → List ℕ) {D S : Type 0} (store : Store D S) (policy : Policy)
    (P : S → Type 0) (keeps : Keeps mac store policy P) where
  keep_load_found :
      (id : List ℕ) (now : ℕ) (st : S) (o : Option (Session D))
      → P st
      → P (load_found mac store policy id now st o).1
  unfolding load_found
  keep_load_found id now st none p = p
  keep_load_found id now st (some s) p = elim (Bool-cases (is_over mac store policy s now)) [
    | inl over ↦ elim (Option-cases (store.delete id st)) [
      | inl failed ↦ rw (over, failed) p
      | inr (st', deleted) ↦ rw (over, deleted) (keeps.delete id st st' p deleted)
    ]
    | inr live ↦ rw live p
  ]

  keep_load_id :
      (now : ℕ) (st : S) (id : Option (List ℕ)) → P st → P (load_id mac store policy now st id).1
  unfolding load_id
  keep_load_id now st none p = p
  keep_load_id now st (some id) p = elim (Option-cases (store.load id st)) [
    | inl failed ↦ rw (load_id, failed) p
    | inr (o, loaded) ↦ rw (load_id, loaded) (keep_load_found id now st o p)
  ]

  keep_load :
      (cookie : Option (List ℕ)) (secret : List ℕ) (now : ℕ) (st : S)
      → P st
      → P (load mac store policy cookie secret now st).1
  unfolding load
  keep_load cookie secret now st p =
      if_elim (λ (r : Outcome (Option (Session D)) × S). P r.1) (is_blank secret) _ _ p
        (keep_load_id now st (signed_cookie mac cookie secret) p)

  keep_refresh_loaded :
      (secret : List ℕ) (now : ℕ) (r : Outcome (Option (Session D)) × S)
      → P r.1
      → P (refresh_loaded mac store policy secret now r).1
  unfolding refresh_loaded
  keep_refresh_loaded secret now (err e, st) p = p
  keep_refresh_loaded secret now (ok none, st) p = p
  keep_refresh_loaded secret now (ok (some s), st) p =
      elim (Option-cases (store.refresh_live (slide mac store policy s now) now st)) [
        | inl failed ↦ rw (refresh_loaded, failed) p
        | inr (r, extended) ↦ rw (refresh_loaded, extended) (keeps.refresh s now st r p extended)
      ]

  keep_destroy_id : (st : S) (id : Option (List ℕ)) → P st → P (destroy_id mac store policy st id).1
  keep_destroy_id st none p = p
  keep_destroy_id st (some id) p = elim (Option-cases (store.delete id st)) [
    | inl failed ↦ rw (destroy_id, failed) p
    | inr (st', deleted) ↦ rw (destroy_id, deleted) (keeps.delete id st st' p deleted)
  ]

  -- What a new session has to keep.
  abbrev pub Saves : Operation D → S → Type 0
  Saves (creates id subject data_ secret now) st =
      (st' : S)
      → store.save (new_session mac store policy id subject data_ now) st ≡ some st'
      → P st'
  Saves _ st = Unit

  keep_perform : (o : Operation D) (st : S) → P st → Saves o st → P (perform mac store policy o st)
  unfolding perform create refresh destroy
  keep_perform (creates id subject data_ secret now) st p saves =
      if_elim (λ (r : Outcome (Session D × Cookie) × S). P r.1) (is_blank secret) _ _ p
        (if_elim (λ (r : Outcome (Session D × Cookie) × S). P r.1) (is_blank subject) _ _ p
          (elim (Option-cases (store.save (new_session mac store policy id subject data_ now) st)) [
            | inl failed ↦ rw failed p
            | inr (st', saved) ↦ rw saved (saves st' saved)
          ]))
  keep_perform (loads cookie secret now) st p saves = keep_load cookie secret now st p
  keep_perform (refreshes cookie secret now) st p saves =
      keep_refresh_loaded secret now (load mac store policy cookie secret now st)
        (keep_load cookie secret now st p)
  keep_perform (destroys cookie secret) st p saves =
      if_elim (λ (r : Outcome Cookie × S). P r.1) (is_blank secret) _ _ p
        (keep_destroy_id st (signed_cookie mac cookie secret) p)

sooner :
    (now ttl absolute : ℕ) → saturating_add now (min ttl absolute) ≤ saturating_add now absolute
sooner now ttl absolute = ground arith

min-right : (a b : ℕ) → min a b ≤ b
min-right a b = omega arith

later-le : (a b c : ℕ) → a ≤ c → b ≤ c → later a b ≤ c
later-le a b c h k = ground arith

-- A session that `refresh_live` leaves is capped, if the one before it and the new one are.
refreshed-capped :
    {D : Type 0} (absolute : ℕ) (s n : Session D) (now : ℕ) (id : List ℕ) (o : Option (Session D))
    (c : Session D)
    → n.created_at ≡ s.created_at
    → n.expires_at ≤ saturating_add s.created_at absolute
    → ((d : Session D)
        → o ≡ some d
        → (d.id ≡ id) × (d.expires_at ≤ saturating_add d.created_at absolute))
    → refreshed n now o ≡ some c
    → (c.id ≡ id) × (c.expires_at ≤ saturating_add c.created_at absolute)
refreshed-capped absolute s n now id none c same capped p e = cc
refreshed-capped absolute s n now id (some d) c same capped p e =
    elim (Bool-cases (is_refreshed n now (some d))) [
      | inr stale ↦ p c (rw stale at e)
      | inl fresh ↦
          let c_lem = some-injective _ _ (rw fresh at e) in
          let created : n.created_at ≡ d.created_at = ground arith in
          let (id_lem, bound) = p d refl in
          let bound' : n.expires_at ≤ saturating_add d.created_at absolute =
            subst (λ t. n.expires_at ≤ saturating_add t absolute) (sym same ∙ created) capped in
          subst (λ t. (t.id ≡ id) × (t.expires_at ≤ saturating_add t.created_at absolute)) c_lem
            (id_lem, later-le d.expires_at n.expires_at _ bound bound')
    ]

module _ (mac : List ℕ → List ℕ → List ℕ) {D S : Type 0} (store : Store D S) (policy : Policy)
    (view : S → List ℕ → Option (Session D)) (is : IsStore store view) where
  -- Every session stands under its id and ends by its deadline.
  abbrev pub AllCapped : S → Type 0
  AllCapped st =
      (id : List ℕ) (s : Session D)
      → view st id ≡ some s
      → (s.id ≡ id) × (s.expires_at ≤ saturating_add s.created_at policy.absolute_ttl)

  pub record IsCapped (st : S) : Type 0 where
    pub capped : AllCapped st

  capped_delete :
      (key : List ℕ) (st st' : S) → AllCapped st → store.delete key st ≡ some st' → AllCapped st'
  capped_delete key st st' p e id s found = elim (Bool-cases (bytes_eq key id)) [
    | inl same ↦ cc (sym found ∙ rw same at (is.delete_lem key st st' id e))
    | inr other ↦ p id s (sym (rw other at (is.delete_lem key st st' id e)) ∙ found)
  ]

  capped_save :
      (id subject : List ℕ) (data_ : D) (now : ℕ) (st st' : S)
      → AllCapped st
      → store.save (new_session mac store policy id subject data_ now) st ≡ some st'
      → AllCapped st'
  capped_save key subject data_ now st st' p e id s found = elim (Bool-cases (bytes_eq key id)) [
    | inl same ↦
        let s_lem = some-injective _ _ (sym (rw same at (is.save_lem _ st st' id e)) ∙ found) in
        subst (λ t. (t.id ≡ id) × (t.expires_at ≤ saturating_add t.created_at policy.absolute_ttl))
          s_lem (bytes_eq→eq key id same, sooner now policy.ttl policy.absolute_ttl)
    | inr other ↦ p id s (sym (rw other at (is.save_lem _ st st' id e)) ∙ found)
  ]

  capped_refresh :
      (s : Session D) (now : ℕ) (st : S) (r : Bool × S)
      → AllCapped st
      → store.refresh_live (slide mac store policy s now) now st ≡ some r
      → AllCapped r.1
  capped_refresh s now st r p e id c found = elim (Bool-cases (bytes_eq s.id id)) [
    | inl same ↦
        let c_lem = sym (rw same at (is.refresh_lem _ now st r id e).1) ∙ found in
        refreshed-capped policy.absolute_ttl s (slide mac store policy s now) now id (view st id) c
          refl (min-right _ _) (p id) c_lem
    | inr other ↦ p id c (sym (rw other at (is.refresh_lem _ now st r id e).1) ∙ found)
  ]

  capped-Keeps : Keeps mac store policy AllCapped
  capped-Keeps = record { delete = capped_delete; refresh = capped_refresh }

  capped-Saves :
      (o : Operation D) (st : S) → AllCapped st → Saves mac store policy AllCapped capped-Keeps o st
  capped-Saves (creates id subject data_ secret now) st p =
      λ st' saved. capped_save id subject data_ now st st' p saved
  capped-Saves (loads cookie secret now) st p = tt
  capped-Saves (refreshes cookie secret now) st p = tt
  capped-Saves (destroys cookie secret) st p = tt

  perform_all-AllCapped :
      (os : List (Operation D)) (st : S)
      → AllCapped st
      → AllCapped (perform_all mac store policy os st)
  unfolding perform_all
  perform_all-AllCapped [] st p = p
  perform_all-AllCapped (o ∷ os) st p =
      perform_all-AllCapped os _
        (keep_perform mac store policy AllCapped capped-Keeps o st p (capped-Saves o st p))

  -- Over a store that keeps its promises: whatever calls of the manager are made, with any
  -- arguments and in any order, every session in the store stands under its own id and expires no
  -- later than its creation plus the absolute lifetime, if this holds at first.
  pub perform_all-IsCapped :
      (os : List (Operation D)) (st : S)
      → IsCapped st
      → IsCapped (perform_all mac store policy os st)
  perform_all-IsCapped os st p = record { capped = perform_all-AllCapped os st p.capped }

  -- No session stands under the id.
  abbrev pub IsAbsent : List ℕ → S → Type 0
  IsAbsent key st = view st key ≡ none

  absent-Keeps : (key : List ℕ) → Keeps mac store policy (IsAbsent key)
  absent-Keeps key = record {
    delete = λ id st st' p e. elim (Bool-cases (bytes_eq id key)) [
      | inl same ↦ rw same at (is.delete_lem id st st' key e)
      | inr other ↦ rw other at (is.delete_lem id st st' key e) ∙ p
    ];
    refresh = λ s now st r p e. elim (Bool-cases (bytes_eq s.id key)) [
      | inl same ↦ rw (same, p) at (is.refresh_lem _ now st r key e).1
      | inr other ↦ rw other at (is.refresh_lem _ now st r key e).1 ∙ p
    ];
  }

  -- No call creates a session under the id.
  abbrev pub Avoids : List ℕ → Operation D → Type 0
  Avoids key (creates id subject data_ secret now) = bytes_eq id key ≡ false
  Avoids key _ = Unit

  absent-Saves :
      (key : List ℕ) (o : Operation D) (st : S)
      → IsAbsent key st
      → Avoids key o
      → Saves mac store policy (IsAbsent key) (absent-Keeps key) o st
  absent-Saves key (creates id subject data_ secret now) st p avoids =
      λ st' saved. rw avoids at (is.save_lem _ st st' key saved) ∙ p
  absent-Saves key (loads cookie secret now) st p avoids = tt
  absent-Saves key (refreshes cookie secret now) st p avoids = tt
  absent-Saves key (destroys cookie secret) st p avoids = tt

  -- A session that is not in the store does not come back: whatever calls of the manager are made, it is
  -- absent, as long as none of them creates a session under the same id.
  pub perform_all-IsAbsent :
      (key : List ℕ) (os : List (Operation D)) (st : S)
      → IsAbsent key st
      → All (Avoids key) os
      → IsAbsent key (perform_all mac store policy os st)
  unfolding perform_all
  perform_all-IsAbsent key [] st p avoids = p
  perform_all-IsAbsent key (o ∷ os) st p (here, avoids) =
      perform_all-IsAbsent key os _
        (keep_perform mac store policy (IsAbsent key) (absent-Keeps key) o st p
          (absent-Saves key o st p here))
        avoids
