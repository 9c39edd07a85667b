-- ===== src/StateWasm/Each/Reconcile.antt =====
-- The plan of `reconcile_key_request` of crates/axonyx-state-wasm/src/lib.rs.
use axonyx_runtime.Prelude.{
  ◌⊎◌, Option-cases, some-pair_inj, ◌==◌, ℕ, ◌+◌, ◌≤◌, ◌≡◌, refl, ap, ◌∙◌, sym, inl, inr, Bool,
  true, false, not, ◌&&◌, some, List, [], ◌∷◌, arith, leb, leb→le, if◌then◌else◌, guard, length,
  Bool-cases, >>=-eq-some, guard-eq-some, and-eq-true,
}
use axonyx_runtime.Prelude.Bytes.{ascii, bytes_eq, contains, bytes_eq→eq, bytes_eq_refl}
use mathlib.Core.Option.{some-injective}
use mathlib.Core.Path.{ap₂}
use axonyx_runtime.StateWasm.Value.{
  ExprValue, string, list, object, Values, nil, cons, Fields, end, field,
}
use axonyx_runtime.StateWasm.Each.{
  Keys, take_strings, is_empty, is_distinct, select, plan, checked_plan, reconcile_key_request,
  reconcile_max_keys, take_field, strings, list_strings, string_values,
}

bytes_eq_sym : (xs ys : List ℕ) → bytes_eq xs ys ≡ bytes_eq ys xs
bytes_eq_sym xs ys = elim (Bool-cases (bytes_eq xs ys)) [
  | inl same ↦ same ∙ sym (ap (bytes_eq ys) (bytes_eq→eq xs ys same) ∙ bytes_eq_refl ys)
  | inr other ↦ elim (Bool-cases (bytes_eq ys xs)) [
    | inl same ↦ cc (sym other ∙ ap (bytes_eq xs) (bytes_eq→eq ys xs same) ∙ bytes_eq_refl xs)
    | inr differs ↦ other ∙ sym differs
  ]
]

not-eq-true : (b : Bool) → not b ≡ true → b ≡ false
not-eq-true true h = cc
not-eq-true false h = refl

and-false : (b : Bool) → (b && false) ≡ false
and-false true = refl
and-false false = refl

abbrev one_if : Bool → ℕ
one_if b = if b then 1 else 0

-- A key more in the set is one key more that is selected, if it is among the keys.
select-suc :
    (k : List ℕ) (set ks : Keys)
    → contains set k ≡ false
    → is_distinct ks ≡ true
    → length (select true (k ∷ set) ks) ≡ length (select true set ks) + one_if (contains ks k)
unfolding select is_distinct
select-suc k set [] fresh d = omega arith
select-suc k set (n ∷ ns) fresh d =
    let (absent, d') = and-eq-true _ _ d in
    let more = select-suc k set ns fresh d' in
    elim (Bool-cases (bytes_eq k n)) [
      | inl same ↦
          let n_lem = sym (bytes_eq→eq k n same) in
          let fresh' : contains set n ≡ false = ap (contains set) n_lem ∙ fresh in
          let absent' : contains ns k ≡ false =
            ap (contains ns) (sym n_lem) ∙ not-eq-true _ absent in
          let more' = rw absent' at more in
          rw (same, fresh', bytes_eq_sym n k ∙ same) (omega (arith, more'))
      | inr other ↦ elim (Bool-cases (contains set n)) [
        | inl old ↦ rw (other, old, bytes_eq_sym n k ∙ other) (omega (arith, more))
        | inr new ↦ rw (other, new, bytes_eq_sym n k ∙ other) more
      ]
    ]

select-nil : (ks : Keys) → length (select true [] ks) ≡ 0
unfolding select
select-nil [] = refl
select-nil (k ∷ ks) = select-nil ks

-- As many of the keys are in the set as the other way round.
select-swap :
    (set ks : Keys)
    → is_distinct set ≡ true
    → is_distinct ks ≡ true
    → length (select true set ks) ≡ length (select true ks set)
unfolding select is_distinct
select-swap [] ks d d' = select-nil ks
select-swap (k ∷ set) ks d d' =
    let (absent, rest) = and-eq-true _ _ d in
    let more = select-swap set ks rest d' in
    let one = select-suc k set ks (not-eq-true _ absent) d' in
    elim (Bool-cases (contains ks k)) [
      | inl both ↦ let one' = rw both at one in rw both (omega (arith, more, one'))
      | inr only ↦ let one' = rw only at one in rw only (omega (arith, more, one'))
    ]

-- Every key is selected or left.
select-split :
    (set ks : Keys) → length (select true set ks) + length (select false set ks) ≡ length ks
unfolding select
select-split set [] = refl
select-split set (k ∷ ks) =
    let more = select-split set ks in
    elim (Bool-cases (contains set k)) [
      | inl in_set ↦ rw in_set (omega (arith, more))
      | inr out ↦ rw out (omega (arith, more))
    ]

contains-select :
    (member : Bool) (set ks : Keys) (key : List ℕ)
    → contains (select member set ks) key
      ≡ (contains ks key && (if member then contains set key else not (contains set key)))
unfolding select
contains-select member set [] key = refl
contains-select true set (k ∷ ks) key =
    let more = contains-select true set ks key in
    elim (Bool-cases (bytes_eq k key)) [
      | inl same ↦ elim (Bool-cases (contains set k)) [
        | inl in_set ↦
            let here = ap (contains set) (sym (bytes_eq→eq k key same)) ∙ in_set in
            rw (in_set, same, here) refl
        | inr out ↦
            let here = ap (contains set) (sym (bytes_eq→eq k key same)) ∙ out in
            rw (out, same, more, here) (and-false (contains ks key))
      ]
      | inr other ↦ elim (Bool-cases (contains set k)) [
        | inl in_set ↦ rw (in_set, other) more
        | inr out ↦ rw (out, other) more
      ]
    ]
contains-select false set (k ∷ ks) key =
    let more = contains-select false set ks key in
    elim (Bool-cases (bytes_eq k key)) [
      | inl same ↦ elim (Bool-cases (contains set k)) [
        | inl in_set ↦
            let here = ap (contains set) (sym (bytes_eq→eq k key same)) ∙ in_set in
            rw (in_set, same, more, here) (and-false (contains ks key))
        | inr out ↦
            let here = ap (contains set) (sym (bytes_eq→eq k key same)) ∙ out in
            rw (out, same, here) refl
      ]
      | inr other ↦ elim (Bool-cases (contains set k)) [
        | inl in_set ↦ rw (in_set, other) more
        | inr out ↦ rw (out, other) more
      ]
    ]

-- A plan that fits the lists of keys before and after.
pub record IsPlan (old next inserted order removed : Keys) : Type 0 where
  pub distinct : (is_distinct old ≡ true) × (is_distinct next ≡ true)
  pub few : (length old ≤ 4096) × (length next ≤ 4096)
  pub old_size : length order + length removed ≡ length old
  pub next_size : length order + length inserted ≡ length next
  pub kept : (key : List ℕ) → contains order key ≡ (contains next key && contains old key)
  pub gone : (key : List ℕ) → contains removed key ≡ (contains old key && not (contains next key))
  pub new : (key : List ℕ) → contains inserted key ≡ (contains next key && not (contains old key))

select-IsPlan :
    (old next : Keys)
    → is_distinct old ≡ true
    → is_distinct next ≡ true
    → length old ≤ reconcile_max_keys
    → length next ≤ reconcile_max_keys
    → IsPlan old next (select false old next) (select true old next) (select false next old)
select-IsPlan old next d d' few few' = record {
  distinct = (d, d');
  few = (few, few');
  old_size = omega (arith, select-swap old next d d', select-split next old);
  next_size = select-split old next;
  kept = contains-select true old next;
  gone = contains-select false next old;
  new = contains-select false old next;
}

checked_plan-IsPlan :
    (old next : Keys) (rest : Fields) (answer : ExprValue)
    → checked_plan old next rest ≡ some answer
    → (answer ≡ plan old next)
      × (is_empty rest ≡ true)
      × IsPlan old next (select false old next) (select true old next) (select false next old)
unfolding checked_plan
checked_plan-IsPlan old next rest answer e =
    let small : Bool = leb (length old) reconcile_max_keys in
    let small' : Bool = leb (length next) reconcile_max_keys in
    let (_, g, e₁) = >>=-eq-some (guard (is_empty rest && small && small')) _ e in
    let (_, g', e₂) = >>=-eq-some (guard (is_distinct old && is_distinct next)) _ e₁ in
    let (most, few') = and-eq-true (is_empty rest && small) small' (guard-eq-some _ g) in
    let (bare, few) = and-eq-true (is_empty rest) small most in
    let (d, d') = and-eq-true (is_distinct old) (is_distinct next) (guard-eq-some _ g') in
    (
      sym (some-injective _ _ e₂),
      bare,
      select-IsPlan old next d d' (leb→le (length old) reconcile_max_keys few)
          (leb→le (length next) reconcile_max_keys few'),
    )

-- A list of texts, as a value.
abbrev pub texts : Keys → Values
texts [] = nil
texts (k ∷ ks) = cons (string k) (texts ks)

texts_lem : (ks : Keys) → string_values ks ≡ texts ks
texts_lem [] = refl
texts_lem (k ∷ ks) = ap (cons (string k)) (texts_lem ks)

-- The answer's fields.
abbrev pub answer_of : Keys → Keys → Keys → ExprValue
answer_of inserted order removed = object (
    field (ascii "inserted") (list (texts inserted)) (
      field (ascii "order") (list (texts order))
        (field (ascii "removed") (list (texts removed)) end)))

plan-answer_of :
    (old next : Keys)
    → plan old next
      ≡ answer_of (select false old next) (select true old next) (select false next old)
plan-answer_of old next =
    rw
      (
        texts_lem (select false old next),
        texts_lem (select true old next),
        texts_lem (select false next old),
      )
      refl

-- A request: the two lists, in either order, and nothing else.
abbrev pub Requests : Fields → Keys → Keys → Type 0
Requests fields old next =
    let a = list (texts old) in
    let b = list (texts next) in
    (fields ≡ field (ascii "old") a (field (ascii "next") b end))
    ⊎ (fields ≡ field (ascii "next") b (field (ascii "old") a end))

strings-texts :
    (nonempty : Bool) (vs : Values) (ks : Keys) → strings nonempty vs ≡ some ks → vs ≡ texts ks
unfolding strings
strings-texts nonempty nil ks e = ap texts (some-injective _ _ e)
strings-texts nonempty (cons (string t) vs) ks e = elim (Bool-cases (nonempty && length t == 0)) [
  | inl bad ↦ cc (rw bad at e)
  | inr good ↦ elim (Option-cases (strings nonempty vs)) [
    | inl missing ↦ cc (rw (good, missing) at e)
    | inr (ts, found) ↦
        ap (cons (string t)) (strings-texts nonempty vs ts found)
        ∙ ap texts (some-injective _ _ (rw (good, found) at e))
  ]
]
strings-texts nonempty (cons _ vs) ks e = cc

list_strings-texts :
    (nonempty : Bool) (v : ExprValue) (ks : Keys)
    → list_strings nonempty v ≡ some ks
    → v ≡ list (texts ks)
list_strings-texts nonempty (list vs) ks e = ap list (strings-texts nonempty vs ks e)
list_strings-texts nonempty _ ks e = cc

bare-end : (fs : Fields) → is_empty fs ≡ true → fs ≡ end
bare-end end h = refl
bare-end (field k v fs) h = cc h

-- A field that is taken stands before the others or among them.
take_field-cases :
    (name k : List ℕ) (w v : ExprValue) (fs others : Fields)
    → take_field name (field k w fs) ≡ some (v, others)
    → (field k w fs ≡ field name v others)
      ⊎ ((rest : Fields) × (take_field name fs ≡ some (v, rest)) × (field k w rest ≡ others))
unfolding take_field
take_field-cases name k w v fs others e = elim (Bool-cases (bytes_eq k name)) [
  | inl same ↦
      let (v_lem, fs_lem) = some-pair_inj (rw (take_field, same) at e) in
      inl (cc (bytes_eq→eq k name same, v_lem, fs_lem))
  | inr other ↦ elim (Option-cases (take_field name fs)) [
    | inl missing ↦ cc (rw (take_field, other, missing) at e)
    | inr (r, found) ↦
        let (v_lem, fs_lem) = some-pair_inj (rw (take_field, other, found) at e) in
        inr (r.1, found ∙ ap (λ u. some (u, r.1)) v_lem, fs_lem)
  ]
]

take_field-last :
    (name : List ℕ) (fs : Fields) (v : ExprValue)
    → take_field name fs ≡ some (v, end)
    → fs ≡ field name v end
unfolding take_field
take_field-last name end v e = cc
take_field-last name (field k w fs) v e = elim (take_field-cases name k w v fs end e) [
  | inl here ↦ here
  | inr (rest, found, same) ↦ cc
]

take_field-two :
    (name other : List ℕ) (fs : Fields) (v u : ExprValue)
    → take_field name fs ≡ some (v, field other u end)
    → (fs ≡ field name v (field other u end)) ⊎ (fs ≡ field other u (field name v end))
unfolding take_field
take_field-two name other end v u e = cc
take_field-two name other (field k w fs) v u e =
    elim (take_field-cases name k w v fs (field other u end) e) [
      | inl here ↦ inl here
      | inr (rest, found, same) ↦
          let bare : rest ≡ end = cc same in
          let last = take_field-last name fs v (found ∙ ap (λ r. some (v, r)) bare) in
          inr (cc (same, last, bare))
    ]

take_strings-eq-some :
    (name : List ℕ) (fields : Fields) (r : Keys × Fields)
    → take_strings true name fields ≡ some r
    → take_field name fields ≡ some (list (texts r.0), r.1)
unfolding take_strings
take_strings-eq-some name fields r e =
    let ((value, others), taken, e₁) = >>=-eq-some (take_field name fields) _ e in
    let (ks, read, e₂) = >>=-eq-some (list_strings true value) _ e₁ in
    let (ks_lem, others_lem) = some-pair_inj e₂ in
    taken
    ∙ ap₂ (λ v fs. some (v, fs))
        (list_strings-texts true value ks read ∙ ap (λ k. list (texts k)) ks_lem) others_lem

-- A request that is answered is an object of two lists of texts, `old` and `next` in either order, and of
-- nothing else, each with at most 4,096 keys, neither with a repeated key. The answer is an object of
-- the inserted keys, the order and the removed ones: the order has the keys of `next` that are old,
-- inserted are the other ones of `next`, removed the old ones that are not in `next`; order and removed
-- together are as many as the old keys, order and inserted as many as the next.
pub reconcile-IsPlan :
    (value answer : ExprValue)
    → reconcile_key_request value ≡ some answer
    → (fields : Fields) × (old : Keys) × (next : Keys) × (inserted : Keys) × (order : Keys)
      × (removed : Keys) × (value ≡ object fields)
      × Requests fields old next
      × (answer ≡ answer_of inserted order removed)
      × IsPlan old next inserted order removed
unfolding reconcile_key_request
reconcile-IsPlan (object fields) answer e =
    let ((old, others), p, e₁) = >>=-eq-some (take_strings true (ascii "old") fields) _ e in
    let ((next, rest), q, e₂) = >>=-eq-some (take_strings true (ascii "next") others) _ e₁ in
    let (same, bare, is) = checked_plan-IsPlan old next rest answer e₂ in
    let taken = take_strings-eq-some (ascii "old") fields (old, others) p in
    let last = take_field-last (ascii "next") others (list (texts next)) (
      take_strings-eq-some (ascii "next") others (next, rest) q
      ∙ ap (λ r. some (list (texts next), r)) (bare-end rest bare)) in
    (
      fields,
      old,
      next,
      select false old next,
      select true old next,
      select false next old,
      refl,
      take_field-two (ascii "old") (ascii "next") fields (list (texts old)) (list (texts next))
          (taken ∙ ap (λ r. some (list (texts old), r)) last),
      same ∙ plan-answer_of old next,
      is,
    )
reconcile-IsPlan _ answer e = cc
