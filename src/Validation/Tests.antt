-- ===== src/Validation/Tests.antt =====
-- The predicates of crates/axonyx-runtime/src/validation.rs at concrete texts.
use axonyx_runtime.Prelude.{ℕ, ◌≡◌, refl, true, false, List, All}
use axonyx_runtime.Prelude.Bytes.{ascii}
use axonyx_runtime.Validation.{email, escape}
use axonyx_runtime.Validation.Email.{IsAddress, email-IsAddress}
use axonyx_runtime.Validation.Escape.{is_text, escape-is_text}

abbrev ann : List ℕ
ann = ascii "ann.b@mail.example.org"

ann_accepted : email ann ≡ true
unfolding email
ann_accepted = refl

no_dot : email (ascii "ann@localhost") ≡ false
unfolding email
no_dot = refl

email-IsAddress_example : IsAddress ann
email-IsAddress_example = email-IsAddress ann ann_accepted

abbrev script : List ℕ
script = ascii "<b title='x'>&"

script_escaped : escape script ≡ ascii "&lt;b title=&#39;x&#39;&gt;&amp;"
unfolding escape
script_escaped = refl

escape-is_text_example : All (λ b. is_text b ≡ true) (escape script)
escape-is_text_example = escape-is_text script
