-- ===== src/Session/Cookie/Render.antt =====
-- The header text that `AxCookie::render` of crates/axonyx-runtime/src/server.rs makes.
use axonyx_runtime.Prelude.{
  ℕ, zero, suc, ◌+◌, ◌-◌, ◌/◌, ◌%◌, ◌≡◌, refl, inl, inr, Bool, true, false, ◌||◌, Option, none,
  some, List, [], ◌∷◌, ◌++◌, arith, leb, ◌==◌, if◌then◌else◌, length, all, All, All-append,
  Bool-cases, if_elim, and-eq-true,
}
use axonyx_runtime.Prelude.Bytes.{ascii}
use axonyx_runtime.StateWasm.Operators.{decimal}
use axonyx_runtime.Session.Time.{zero_time}
use axonyx_runtime.Session.Cookie.{
  Cookie, is_plain, sanitize_cookie_part, time_to_string, attribute, max_age_part, flag, parts,
  join, render,
}

abbrev pub IsPlain : List ℕ → Type 0
IsPlain = All (λ b. is_plain b ≡ true)

sanitize-IsPlain : (bs : List ℕ) → IsPlain (sanitize_cookie_part bs)
unfolding sanitize_cookie_part
sanitize-IsPlain [] = tt
sanitize-IsPlain (b ∷ bs) = elim (Bool-cases (is_plain b)) [
  | inl plain ↦ rw plain (plain, sanitize-IsPlain bs)
  | inr other ↦ rw other (sanitize-IsPlain bs)
]

decimal-IsPlain : (fuel n : ℕ) (digits : List ℕ) → IsPlain digits → IsPlain (decimal fuel n digits)
unfolding decimal
decimal-IsPlain zero n digits p = p
decimal-IsPlain (suc fuel) n digits p =
    elim (n / 10)
      as (λ m. IsPlain (elim m [
        | zero ↦ (b'0' + n % 10) ∷ digits
        | suc more ↦ decimal fuel (suc more) ((b'0' + n % 10) ∷ digits)
      ])) [ zero ↦ (digit n, p) | suc more ↦ decimal-IsPlain fuel (suc more) _ (digit n, p) ]
  where
    digit : (n : ℕ) → is_plain (b'0' + n % 10) ≡ true
    digit n = ground arith

-- For a label that is known, the test computes.
label-IsPlain : (label : List ℕ) → all is_plain label ≡ true → IsPlain label
label-IsPlain [] h = tt
label-IsPlain (b ∷ bs) h =
    let (p, q) = and-eq-true (is_plain b) (all is_plain bs) h in (p, label-IsPlain bs q)

time-IsPlain : (t : ℕ) → IsPlain (time_to_string t)
time-IsPlain t =
    if_elim IsPlain (leb zero_time t) _ _ (decimal-IsPlain 20 (t - zero_time) [] tt)
      (refl, decimal-IsPlain 20 (zero_time - t) [] tt)

abbrev ArePlain : List (List ℕ) → Type 0
ArePlain = All IsPlain

attribute-ArePlain :
    (label : List ℕ) (o : Option (List ℕ))
    → all is_plain label ≡ true
    → ArePlain (attribute label o)
attribute-ArePlain label none h = tt
attribute-ArePlain label (some value) h = (
  All-append _ label (sanitize_cookie_part value) (label-IsPlain label h) (sanitize-IsPlain value),
  tt,
)

max_age-ArePlain : (o : Option ℕ) → ArePlain (max_age_part o)
max_age-ArePlain none = tt
max_age-ArePlain (some t) = (
  All-append _ (ascii "Max-Age=") (time_to_string t) (label-IsPlain (ascii "Max-Age=") refl)
      (time-IsPlain t),
  tt,
)

flag-ArePlain : (b : Bool) (label : List ℕ) → all is_plain label ≡ true → ArePlain (flag b label)
flag-ArePlain true label h = (label-IsPlain label h, tt)
flag-ArePlain false label h = tt

parts-ArePlain : (c : Cookie) → ArePlain (parts c)
parts-ArePlain c =
    let pair =
      All-append _ (sanitize_cookie_part c.name) (b'=' ∷ sanitize_cookie_part c.value)
        (sanitize-IsPlain c.name) (refl, sanitize-IsPlain c.value) in
    let last = attribute-ArePlain (ascii "SameSite=") c.same_site refl in
    let secure = All-append IsPlain _ _ (flag-ArePlain c.secure (ascii "Secure") refl) last in
    let http_only =
      All-append IsPlain _ _ (flag-ArePlain c.http_only (ascii "HttpOnly") refl) secure in
    let max_age = All-append IsPlain _ _ (max_age-ArePlain c.max_age) http_only in
    let domain =
      All-append IsPlain _ _ (attribute-ArePlain (ascii "Domain=") c.domain refl) max_age in
    (pair, All-append IsPlain _ _ (attribute-ArePlain (ascii "Path=") c.path refl) domain)

abbrev pub semicolons : List ℕ → ℕ
semicolons [] = 0
semicolons (b ∷ bs) = (if b == b';' then 1 else 0) + semicolons bs

abbrev pub is_break : ℕ → Bool
is_break b = b == 13 || b == 10

semicolons-append : (xs ys : List ℕ) → semicolons (xs ++ ys) ≡ semicolons xs + semicolons ys
semicolons-append [] ys = omega arith
semicolons-append (x ∷ xs) ys = let more = semicolons-append xs ys in omega (arith, more)

semicolons-IsPlain : (bs : List ℕ) → IsPlain bs → semicolons bs ≡ 0
semicolons-IsPlain [] p = refl
semicolons-IsPlain (b ∷ bs) (plain, p) =
    let other : (b == b';') ≡ false = ground arith in rw (other, semicolons-IsPlain bs p) refl

breaks-IsPlain : (bs : List ℕ) → IsPlain bs → All (λ b. is_break b ≡ false) bs
breaks-IsPlain [] p = tt
breaks-IsPlain (b ∷ bs) (plain, p) = (ground arith, breaks-IsPlain bs p)

join-semicolons :
    (p : List ℕ) (ps : List (List ℕ)) → ArePlain (p ∷ ps) → semicolons (join (p ∷ ps)) ≡ length ps
unfolding join
join-semicolons p [] (plain, _) = semicolons-IsPlain p plain
join-semicolons p (q ∷ ps) (plain, are) =
    let more = join-semicolons q ps are in
    let here = semicolons-IsPlain p plain in
    omega (arith, semicolons-append p (ascii "; " ++ join (q ∷ ps)), more, here)

join-count :
    (p : List ℕ) (ps : List (List ℕ))
    → ArePlain (p ∷ ps)
    → semicolons (join (p ∷ ps)) + 1 ≡ length (p ∷ ps)
join-count p ps are = let n = join-semicolons p ps are in omega (arith, n)

join-breaks : (ps : List (List ℕ)) → ArePlain ps → All (λ b. is_break b ≡ false) (join ps)
unfolding join
join-breaks [] are = tt
join-breaks (p ∷ []) (plain, _) = breaks-IsPlain p plain
join-breaks (p ∷ q ∷ ps) (plain, are) =
    All-append _ p (ascii "; " ++ join (q ∷ ps)) (breaks-IsPlain p plain)
      (refl, (refl, join-breaks (q ∷ ps) are))

-- Whatever bytes a cookie's fields hold, its header text has no line break, and one semicolon less than
-- it has parts, so that no field adds a header line or an attribute.
pub render-parts :
    (c : Cookie)
    → All (λ b. is_break b ≡ false) (render c) × (semicolons (render c) + 1 ≡ length (parts c))
unfolding render
render-parts c = let are = parts-ArePlain c in (join-breaks (parts c) are, join-count _ _ are)
