-- ===== src/Session/Store.antt =====
-- `AxSession` and the trait `AxSessionStore` of crates/axonyx-runtime/src/session.rs. The values of
-- `data`, which the code only passes on, have a type that is left open, and a failure of the store is
-- `none`.
use axonyx_runtime.Prelude.{
  ℕ, ◌≡◌, Bool, false, ltb, ◌&&◌, Option, none, some, List, leb, ◌==◌, if◌then◌else◌,
}
use axonyx_runtime.Prelude.Bytes.{bytes_eq}

pub record Session (D : Type 0) : Type 0 where
  pub id : List ℕ
  pub subject : List ℕ
  pub data_ : D
  pub created_at : ℕ
  pub last_seen_at : ℕ
  pub expires_at : ℕ

abbrev pub later : ℕ → ℕ → ℕ
later a b = if leb a b then b else a

module _ {D : Type 0} where
  abbrev pub is_expired : Session D → ℕ → Bool
  is_expired s now = leb s.expires_at now

  -- What `refresh_live` promises: a session that has not expired and was created at the same time takes
  -- the later of the two ends and of the two times of use, and is the only one that changes.
  abbrev pub is_refreshed : Session D → ℕ → Option (Session D) → Bool
  is_refreshed s now none = false
  is_refreshed s now (some c) = ltb now c.expires_at && c.created_at == s.created_at

  abbrev pub refreshed : Session D → ℕ → Option (Session D) → Option (Session D)
  refreshed s now none = none
  refreshed s now (some c) =
      if ltb now c.expires_at && c.created_at == s.created_at
      then some (record {
        id = c.id;
        subject = c.subject;
        data_ = c.data_;
        created_at = c.created_at;
        last_seen_at = later c.last_seen_at s.last_seen_at;
        expires_at = later c.expires_at s.expires_at;
      })
      else some c

-- The trait, over the states of a store.
pub record Store (D S : Type 0) : Type 0 where
  pub save : Session D → S → Option S
  pub load : List ℕ → S → Option (Option (Session D))
  pub delete : List ℕ → S → Option S
  pub refresh_live : Session D → ℕ → S → Option (Bool × S)

-- What a store promises of the session that it holds under each id, its `view`, where its operations
-- succeed.
pub record IsStore {D S : Type 0} (store : Store D S) (view : S → List ℕ → Option (Session D))
    : Type 0 where
  pub load_lem :
      (id : List ℕ) (st : S) (o : Option (Session D)) → store.load id st ≡ some o → view st id ≡ o
  pub save_lem :
      (s : Session D) (st st' : S) (id : List ℕ)
      → store.save s st ≡ some st'
      → view st' id ≡ (if bytes_eq s.id id then some s else view st id)
  pub delete_lem :
      (key : List ℕ) (st st' : S) (id : List ℕ)
      → store.delete key st ≡ some st'
      → view st' id ≡ (if bytes_eq key id then none else view st id)
  pub refresh_lem :
      (s : Session D) (now : ℕ) (st : S) (r : Bool × S) (id : List ℕ)
      → store.refresh_live s now st ≡ some r
      → (r.0 ≡ is_refreshed s now (view st s.id))
        × (view r.1 id ≡ (if bytes_eq s.id id then refreshed s now (view st id) else view st id))
