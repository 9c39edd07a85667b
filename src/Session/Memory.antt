-- ===== src/Session/Memory.antt =====
-- `AxMemorySessionStore` of crates/axonyx-runtime/src/session.rs: the `BTreeMap` is an association list,
-- and `poisoned` the state of the `RwLock`.
use Prim.Native.Nat.{max}
use axonyx_runtime.Prelude.{
  not, ◌||◌, ◌==◌, arith, ℕ, ◌≡◌, refl, ap, ◌∙◌, sym, inl, inr, Bool, true, false, Option, none,
  some, List, [], ◌∷◌, if◌then◌else◌, Bool-cases, if_second,
}
use axonyx_runtime.Prelude.Bytes.{bytes_eq, bytes_eq→eq, bytes_eq_apart}
use axonyx_runtime.Session.Store.{
  Session, Store, IsStore, is_expired, is_refreshed, later, refreshed,
}
use mathlib.Core.Option.{some-injective}

abbrev pub Sessions : Type 0 → Type 0
Sessions D = List (List ℕ × Session D)

pub record Memory (D : Type 0) : Type 0 where
  pub poisoned : Bool
  pub sessions : Sessions D

if_twice :
    {A : Type 0} (b : Bool) (x y z : A)
    → (if b then x else (if b then y else z)) ≡ (if b then x else z)
if_twice true x y z = refl
if_twice false x y z = refl

if_same : {A : Type 0} (b : Bool) (x : A) → (if b then x else x) ≡ x
if_same true x = refl
if_same false x = refl

max-later : (a b : ℕ) → max a b ≡ later a b
max-later a b = ground arith

module _ {D : Type 0} where
  -- `refresh_live` changes nothing of an expired session, or of one that was created at another time.
  abbrev pub is_stale : Session D → ℕ → Session D → Bool
  is_stale s now c = is_expired c now || not (c.created_at == s.created_at)

  abbrev pub extend : Session D → Session D → Session D
  extend s c = record {
    id = c.id;
    subject = c.subject;
    data_ = c.data_;
    created_at = c.created_at;
    last_seen_at = max c.last_seen_at s.last_seen_at;
    expires_at = max c.expires_at s.expires_at;
  }

  unfoldable pub get : List ℕ → Sessions D → Option (Session D)
  get key [] = none
  get key ((k, s) ∷ xs) = if bytes_eq k key then some s else get key xs

  unfoldable pub insert : List ℕ → Session D → Sessions D → Sessions D
  insert key s [] = (key, s) ∷ []
  insert key s ((k, c) ∷ xs) = if bytes_eq k key then (k, s) ∷ xs else (k, c) ∷ insert key s xs

  unfoldable pub remove : List ℕ → Sessions D → Sessions D
  remove key [] = []
  remove key ((k, c) ∷ xs) = if bytes_eq k key then remove key xs else (k, c) ∷ remove key xs

  -- `*sessions.get_mut(key)? = …`
  unfoldable pub set : List ℕ → Session D → Sessions D → Sessions D
  set key s [] = []
  set key s ((k, c) ∷ xs) = if bytes_eq k key then (k, s) ∷ xs else (k, c) ∷ set key s xs

  abbrev pub with_sessions : Memory D → Sessions D → Memory D
  with_sessions m xs = record { poisoned = m.poisoned; sessions = xs }

  -- The lock, which a panic of another thread poisons.
  abbrev locked : {A : Type 0} → Memory D → A → Option A
  locked m a = if m.poisoned then none else some a

  -- `refresh_live`, by the session that stands under the id.
  abbrev pub refresh_found : Session D → ℕ → Memory D → Option (Session D) → Bool × Memory D
  refresh_found s now m none = (false, m)
  refresh_found s now m (some c) =
      if is_stale s now c
      then (false, m)
      else (true, with_sessions m (set s.id (extend s c) m.sessions))

  abbrev pub memory_store : Store D (Memory D)
  memory_store = record {
    save = λ s m. locked m (with_sessions m (insert s.id s m.sessions));
    load = λ id m. locked m (get id m.sessions);
    delete = λ id m. locked m (with_sessions m (remove id m.sessions));
    refresh_live = λ s now m. locked m (refresh_found s now m (get s.id m.sessions));
  }

  abbrev pub memory_view : Memory D → List ℕ → Option (Session D)
  memory_view m id = get id m.sessions

  get-insert :
      (key id : List ℕ) (s : Session D) (xs : Sessions D)
      → get id (insert key s xs) ≡ (if bytes_eq key id then some s else get id xs)
  unfolding get insert
  get-insert key id s [] = refl
  get-insert key id s ((k, c) ∷ xs) = elim (Bool-cases (bytes_eq k key)) [
    | inl same ↦
        rw (same, bytes_eq→eq k key same)
          (sym (if_twice (bytes_eq key id) (some s) (some c) (get id xs)))
    | inr other ↦ elim (Bool-cases (bytes_eq k id)) [
      | inl here ↦ rw (other, here, bytes_eq_apart k key id here other) refl
      | inr there ↦ rw (other, there) (get-insert key id s xs)
    ]
  ]

  get-remove :
      (key id : List ℕ) (xs : Sessions D)
      → get id (remove key xs) ≡ (if bytes_eq key id then none else get id xs)
  unfolding get remove
  get-remove key id [] = sym (if_same (bytes_eq key id) none)
  get-remove key id ((k, c) ∷ xs) = elim (Bool-cases (bytes_eq k key)) [
    | inl same ↦
        rw (same, bytes_eq→eq k key same)
          (get-remove key id xs ∙ sym (if_twice (bytes_eq key id) none (some c) (get id xs)))
    | inr other ↦ elim (Bool-cases (bytes_eq k id)) [
      | inl here ↦ rw (other, here, bytes_eq_apart k key id here other) refl
      | inr there ↦ rw (other, there) (get-remove key id xs)
    ]
  ]

  get-set :
      (key id : List ℕ) (s c : Session D) (xs : Sessions D)
      → get key xs ≡ some c
      → get id (set key s xs) ≡ (if bytes_eq key id then some s else get id xs)
  unfolding get set
  get-set key id s c [] e = cc
  get-set key id s c ((k, d) ∷ xs) e = elim (Bool-cases (bytes_eq k key)) [
    | inl same ↦
        rw (same, bytes_eq→eq k key same)
          (sym (if_twice (bytes_eq key id) (some s) (some d) (get id xs)))
    | inr other ↦ elim (Bool-cases (bytes_eq k id)) [
      | inl here ↦ rw (other, here, bytes_eq_apart k key id here other) refl
      | inr there ↦ rw (other, there) (get-set key id s c xs (rw other at e))
    ]
  ]

  locked-eq-some : {A : Type 0} (m : Memory D) (a b : A) → locked m a ≡ some b → a ≡ b
  locked-eq-some m a b e =
      let (_, q) = if_second m.poisoned none (some a) (some b) (λ r. cc) e in some-injective _ _ q

  is_stale-is_refreshed :
      (s : Session D) (now : ℕ) (c : Session D)
      → is_stale s now c ≡ not (is_refreshed s now (some c))
  is_stale-is_refreshed s now c = ground arith

  -- What the code makes of the session that it finds, as a store promises it.
  refreshed_lem :
      (s : Session D) (now : ℕ) (c : Session D)
      → refreshed s now (some c) ≡ (if is_stale s now c then some c else some (extend s c))
  refreshed_lem s now c = elim (Bool-cases (is_refreshed s now (some c))) [
    | inl fresh ↦
        rw
          (
            fresh,
            is_stale-is_refreshed s now c ∙ ap not fresh,
            max-later c.last_seen_at s.last_seen_at,
            max-later c.expires_at s.expires_at,
          )
          refl
    | inr stale ↦ rw (stale, is_stale-is_refreshed s now c ∙ ap not stale) refl
  ]

  refresh_found-answer :
      (s : Session D) (now : ℕ) (m : Memory D) (o : Option (Session D))
      → (refresh_found s now m o).0 ≡ is_refreshed s now o
  refresh_found-answer s now m none = refl
  refresh_found-answer s now m (some c) = elim (Bool-cases (is_refreshed s now (some c))) [
    | inl fresh ↦ rw (is_stale-is_refreshed s now c ∙ ap not fresh, fresh) refl
    | inr stale ↦ rw (is_stale-is_refreshed s now c ∙ ap not stale, stale) refl
  ]

  refresh_found-get :
      (s : Session D) (now : ℕ) (m : Memory D) (id : List ℕ) (o : Option (Session D))
      → get s.id m.sessions ≡ o
      → get id (refresh_found s now m o).1.sessions
        ≡ (if bytes_eq s.id id then refreshed s now (get id m.sessions) else get id m.sessions)
  refresh_found-get s now m id none e = elim (Bool-cases (bytes_eq s.id id)) [
    | inl same ↦
        let here = ap (λ k. get k m.sessions) (sym (bytes_eq→eq s.id id same)) ∙ e in
        rw (same, here) refl
    | inr other ↦ rw other refl
  ]
  refresh_found-get s now m id (some c) e = elim (Bool-cases (bytes_eq s.id id)) [
    | inl same ↦
        let here = ap (λ k. get k m.sessions) (sym (bytes_eq→eq s.id id same)) ∙ e in
        elim (Bool-cases (is_stale s now c)) [
          | inl stale ↦
              rw (same, stale, here)
                (sym
                  (refreshed_lem s now c ∙ ap (λ b. if b then some c else some (extend s c)) stale))
          | inr fresh ↦
              rw (same, fresh, here)
                ((rw same at (get-set s.id id (extend s c) c m.sessions e))
                  ∙ sym (
                      refreshed_lem s now c
                      ∙ ap (λ b. if b then some c else some (extend s c)) fresh))
        ]
    | inr other ↦ elim (Bool-cases (is_stale s now c)) [
      | inl stale ↦ rw (stale, other) refl
      | inr fresh ↦ rw (fresh, other) (rw other at (get-set s.id id (extend s c) c m.sessions e))
    ]
  ]

  -- The store in memory is a store as `IsStore` asks: what `load` returns is held under the id, `save` puts
  -- a session under its id, `delete` leaves none there, and neither changes another id. `refresh_live`
  -- answers whether the session under the id has not expired and was created at the same time; if so, it
  -- takes the later end and the later time of use, and nothing else changes, if not, nothing does.
  pub memory_store-IsStore : IsStore memory_store memory_view
  memory_store-IsStore = record {
    load_lem = λ id m o e. locked-eq-some m _ o e;
    save_lem = λ s m m' id e.
        ap (λ n. get id n.sessions) (sym (locked-eq-some m _ m' e))
        ∙ get-insert s.id id s m.sessions;
    delete_lem = λ key m m' id e.
        ap (λ n. get id n.sessions) (sym (locked-eq-some m _ m' e)) ∙ get-remove key id m.sessions;
    refresh_lem = λ s now m r id e. (
      ap (λ q. q.0) (sym (locked-eq-some m _ r e))
          ∙ refresh_found-answer s now m (get s.id m.sessions),
      ap (λ q. get id q.1.sessions) (sym (locked-eq-some m _ r e))
          ∙ refresh_found-get s now m id (get s.id m.sessions) refl,
    );
  }
