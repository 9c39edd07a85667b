-- ===== src/Session/Cookie.antt =====
-- `AxCookie` of crates/axonyx-runtime/src/server.rs: its builder and its rendering. `Max-Age` is a time of
-- Session/Time.
pub mod Render
use axonyx_runtime.Prelude.{
  ℕ, ◌-◌, ◌^◌, ◌≡◌, refl, ap, ◌∙◌, inl, inr, Bool, true, false, not, ◌&&◌, ◌||◌, Option, none, some,
  List, [], ◌∷◌, ◌++◌, leb, ◌==◌, if◌then◌else◌, all, Bool-cases,
}
use axonyx_runtime.Prelude.Bytes.{ascii}
use axonyx_runtime.StateWasm.Operators.{decimal}
use axonyx_runtime.Session.Time.{zero_time}

pub record Cookie : Type 0 where
  pub name : List ℕ
  pub value : List ℕ
  pub path : Option (List ℕ)
  pub domain : Option (List ℕ)
  pub max_age : Option ℕ
  pub http_only : Bool
  pub secure : Bool
  pub same_site : Option (List ℕ)

abbrev pub new_cookie : List ℕ → List ℕ → Cookie
new_cookie name value = record {
  name = name;
  value = value;
  path = none;
  domain = none;
  max_age = none;
  http_only = false;
  secure = false;
  same_site = none;
}

abbrev pub with_path : List ℕ → Cookie → Cookie
with_path path c = record {
  name = c.name;
  value = c.value;
  path = some path;
  domain = c.domain;
  max_age = c.max_age;
  http_only = c.http_only;
  secure = c.secure;
  same_site = c.same_site;
}

abbrev pub with_domain : List ℕ → Cookie → Cookie
with_domain domain c = record {
  name = c.name;
  value = c.value;
  path = c.path;
  domain = some domain;
  max_age = c.max_age;
  http_only = c.http_only;
  secure = c.secure;
  same_site = c.same_site;
}

abbrev pub with_max_age : ℕ → Cookie → Cookie
with_max_age max_age c = record {
  name = c.name;
  value = c.value;
  path = c.path;
  domain = c.domain;
  max_age = some max_age;
  http_only = c.http_only;
  secure = c.secure;
  same_site = c.same_site;
}

abbrev pub with_http_only : Cookie → Cookie
with_http_only c = record {
  name = c.name;
  value = c.value;
  path = c.path;
  domain = c.domain;
  max_age = c.max_age;
  http_only = true;
  secure = c.secure;
  same_site = c.same_site;
}

abbrev pub with_secure : Cookie → Cookie
with_secure c = record {
  name = c.name;
  value = c.value;
  path = c.path;
  domain = c.domain;
  max_age = c.max_age;
  http_only = c.http_only;
  secure = true;
  same_site = c.same_site;
}

abbrev pub with_same_site : List ℕ → Cookie → Cookie
with_same_site same_site c = record {
  name = c.name;
  value = c.value;
  path = c.path;
  domain = c.domain;
  max_age = c.max_age;
  http_only = c.http_only;
  secure = c.secure;
  same_site = some same_site;
}

-- Neither a line break nor a semicolon.
abbrev pub is_plain : ℕ → Bool
is_plain b = not (b == 13 || b == 10 || b == b';')

unfoldable pub sanitize_cookie_part : List ℕ → List ℕ
sanitize_cookie_part [] = []
sanitize_cookie_part (b ∷ bs) =
    if is_plain b then b ∷ sanitize_cookie_part bs else sanitize_cookie_part bs

-- The time as a signed number.
abbrev pub time_to_string : ℕ → List ℕ
time_to_string t =
    if leb zero_time t then decimal 20 (t - zero_time) [] else b'-' ∷ decimal 20 (zero_time - t) []

abbrev pub attribute : List ℕ → Option (List ℕ) → List (List ℕ)
attribute label none = []
attribute label (some value) = (label ++ sanitize_cookie_part value) ∷ []

abbrev pub max_age_part : Option ℕ → List (List ℕ)
max_age_part none = []
max_age_part (some t) = (ascii "Max-Age=" ++ time_to_string t) ∷ []

abbrev pub flag : Bool → List ℕ → List (List ℕ)
flag b label = if b then label ∷ [] else []

abbrev pub parts : Cookie → List (List ℕ)
parts c =
    (sanitize_cookie_part c.name ++ b'=' ∷ sanitize_cookie_part c.value)
    ∷ (attribute (ascii "Path=") c.path
        ++ (attribute (ascii "Domain=") c.domain
            ++ (max_age_part c.max_age
                ++ (flag c.http_only (ascii "HttpOnly")
                    ++ (flag c.secure (ascii "Secure")
                        ++ attribute (ascii "SameSite=") c.same_site)))))

-- `parts.join("; ")`
unfoldable pub join : List (List ℕ) → List ℕ
join [] = []
join (p ∷ []) = p
join (p ∷ q ∷ ps) = p ++ (ascii "; " ++ join (q ∷ ps))

unfoldable pub render : Cookie → List ℕ
unfolding sanitize_cookie_part join
render c = join (parts c)
