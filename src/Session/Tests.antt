-- ===== src/Session/Tests.antt =====
-- Sessions of crates/axonyx-runtime/src/session.rs at a concrete policy, in the store in memory.
use axonyx_runtime.Prelude.{
  All, ℕ, ◌+◌, ◌%◌, ◌≡◌, ◌≢◌, ◌↔◌, refl, sym, ◌∙◌, true, false, none, some, List, [], ◌∷◌, arith,
  length, ◌++◌,
}
use axonyx_runtime.Prelude.Bytes.{ascii, IsBytes, all-IsBytes}
use axonyx_runtime.Session.Hex.{hex_encode}
use axonyx_runtime.Session.Tokens.{
  signed_cookie, sign_session, signed_cookie-sign_session, issue, verify, verify-issue,
  csrf_message,
}
use axonyx_runtime.Session.Time.{zero_time}
use axonyx_runtime.Session.Store.{Session, IsStore}
use axonyx_runtime.Session.Memory.{
  Memory, memory_store, memory_view, memory_store-IsStore, get, insert, remove,
}
use axonyx_runtime.Session.Cookie.{Cookie, new_cookie, with_path, parts, render}
use axonyx_runtime.Session.Cookie.Render.{is_break, semicolons, render-parts}
use axonyx_runtime.Session.Manager.{
  Policy, lax, ok, create, load, load_id, load_found, destroy, csrf_token, token_loaded,
  verify_csrf, cookie as policy_cookie, session_cookie, new_session, is_blank, validate,
}
use axonyx_runtime.Session.Manager.Lifetime.{
  Operation, creates, loads, refreshes, perform_all, IsCapped, perform_all-IsCapped,
}
use axonyx_runtime.Session.Manager.Lookup.{
  Found, load-Found, load-destroy, load-create, verify_csrf-csrf_token,
}

abbrev zeros : List ℕ
zeros =
    0 ∷ 0 ∷ 0 ∷ 0 ∷ 0 ∷ 0 ∷ 0 ∷ 0 ∷ 0 ∷ 0 ∷ 0 ∷ 0 ∷ 0 ∷ 0 ∷ 0 ∷ 0 ∷ 0 ∷ 0 ∷ 0 ∷ 0 ∷ 0 ∷ 0 ∷ 0 ∷ 0
    ∷ 0 ∷ 0 ∷ 0 ∷ 0 ∷ 0 ∷ 0 ∷ 0 ∷ []

-- A stand-in for the MAC, of 32 bytes.
abbrev mac : List ℕ → List ℕ → List ℕ
mac secret message = length message % 256 ∷ zeros

zeros-IsBytes : IsBytes zeros
zeros-IsBytes = all-IsBytes zeros refl

mac-IsBytes :
    (secret message : List ℕ) → IsBytes (mac secret message) × (length (mac secret message) ≡ 32)
mac-IsBytes secret message = ((omega arith, zeros-IsBytes), omega arith)

abbrev secret : List ℕ
secret = ascii "a secret of thirty-two bytes, at least"

abbrev key : List ℕ
key = ascii "s1"

signed_cookie-sign_session_example :
    signed_cookie mac (some (sign_session mac key secret)) secret ≡ some key
signed_cookie-sign_session_example =
    signed_cookie-sign_session mac key secret (mac-IsBytes secret key).0

abbrev token : List ℕ
token = ascii "axcsrf1." ++ hex_encode (mac secret (csrf_message key))

verify-issue_example :
    (verify mac key token secret ≡ some true) ↔ (issue mac key secret ≡ some token)
verify-issue_example =
    verify-issue mac key token secret (mac-IsBytes secret (csrf_message key)).0
      (mac-IsBytes secret (csrf_message key)).1

memory_store-IsStore_example : IsStore (memory_store {D = ℕ}) memory_view
memory_store-IsStore_example = memory_store-IsStore {D = ℕ}

abbrev policy : Policy
policy = record {
  name = ascii "session";
  path = ascii "/";
  domain = none;
  ttl = zero_time + 10;
  absolute_ttl = zero_time + 25;
  secure = true;
  same_site = lax;
}

abbrev empty : Memory ℕ
empty = record { poisoned = false; sessions = [] }

abbrev started : ℕ
started = zero_time + 100

abbrev session : Session ℕ
session = new_session mac memory_store policy key (ascii "ann") 7 started

abbrev one : Memory ℕ
one = record { poisoned = false; sessions = (key, session) ∷ [] }

abbrev cookie : Cookie
cookie = session_cookie mac memory_store policy session secret started

created :
    create mac memory_store policy key (ascii "ann") 7 secret started empty
    ≡ (ok (session, cookie), one)
unfolding create is_blank insert
created = refl

load-create_example :
    load mac memory_store policy (some cookie.value) secret (zero_time + 109) one
    ≡ (ok (some session), one)
load-create_example =
    load-create mac memory_store policy memory_view memory_store-IsStore key (ascii "ann") 7 secret
      started (zero_time + 109) empty one session cookie (get key one.sessions)
      (mac-IsBytes secret key).0 created (omega arith) (omega arith) refl

load-Found_example :
    Found mac memory_store policy memory_view memory_store-IsStore
      (some cookie.value)
      secret
      (zero_time + 109)
      one
      session
    × (one ≡ one)
load-Found_example =
    load-Found mac memory_store policy memory_view memory_store-IsStore (some cookie.value) secret
      (zero_time + 109) one one session load-create_example

some-none : {A : Type 0} {a : A} → some a ≢ none
some-none h = cc

empty-IsCapped : IsCapped mac memory_store policy memory_view memory_store-IsStore empty
unfolding get
empty-IsCapped = record {
  capped = λ id s e. absurd (some-none (sym e ∙ memory_store-IsStore.load_lem id empty none refl));
}

abbrev calls : List (Operation ℕ)
calls =
    creates key (ascii "ann") 7 secret started
    ∷ refreshes (some cookie.value) secret (zero_time + 109)
    ∷ loads (some cookie.value) secret (zero_time + 118)
    ∷ []

perform_all-IsCapped_example :
    IsCapped mac memory_store policy memory_view memory_store-IsStore
      (perform_all mac memory_store policy calls empty)
perform_all-IsCapped_example =
    perform_all-IsCapped mac memory_store policy memory_view memory_store-IsStore calls empty
      empty-IsCapped

abbrev cleared : Cookie
cleared = policy_cookie policy [] zero_time

destroyed : destroy mac memory_store policy (some cookie.value) secret one ≡ (ok cleared, empty)
unfolding destroy is_blank remove signed_cookie sign_session validate
destroyed = refl

abbrev others : List (Operation ℕ)
others =
    refreshes (some cookie.value) secret (zero_time + 104)
    ∷ creates (ascii "s2") (ascii "bob") 8 secret (zero_time + 105)
    ∷ []

load-destroy_example :
    load mac memory_store policy
      (some cookie.value)
      secret
      (zero_time + 106)
      (perform_all mac memory_store policy others empty)
    ≢ (ok (some session), one)
load-destroy_example =
    load-destroy mac memory_store policy memory_view memory_store-IsStore (some cookie.value) secret
      key one empty one cleared others (zero_time + 106) session signed_cookie-sign_session_example
      destroyed (tt, (refl, tt))

token_issued :
    csrf_token mac memory_store policy (some cookie.value) secret (zero_time + 109) one
    ≡ (ok (some token), one)
unfolding csrf_token token_loaded load is_blank load_id load_found issue get signed_cookie
    sign_session
token_issued = refl

verify_csrf-csrf_token_example :
    verify_csrf mac memory_store policy (some cookie.value) token secret (zero_time + 109) one
    ≡ (ok true, one)
verify_csrf-csrf_token_example =
    verify_csrf-csrf_token mac memory_store policy memory_view memory_store-IsStore
      (some cookie.value) secret token (zero_time + 109) one one (mac-IsBytes secret) token_issued

-- A name that tries to add a header.
abbrev forged : Cookie
forged = with_path (ascii "/a;b") (new_cookie (ascii "x") (13 ∷ 10 ∷ ascii "Y: 1"))

forged_text : render forged ≡ ascii "x=Y: 1; Path=/ab"
unfolding render
forged_text = refl

render-parts_example :
    All (λ b. is_break b ≡ false) (render forged)
    × (semicolons (render forged) + 1 ≡ length (parts forged))
render-parts_example = render-parts forged
