-- ===== src/StateWasm/Each.antt =====
-- Each blocks: `reconcile_key_request`, `render_each_request` and their helpers, of
-- crates/axonyx-state-wasm/src/lib.rs. A `BTreeSet` of keys is the list that it is collected from, and
-- has as many elements as the list exactly if the list repeats none.
pub mod Reconcile
use axonyx_runtime.Prelude.{
  ℕ, zero, suc, ◌+◌, Bool, true, false, not, ◌&&◌, ◌||◌, Option, none, some, List, [], ◌∷◌, ltb,
  leb, ◌==◌, if◌then◌else◌, ◌>>=◌, ◌>>◌, guard, length,
}
use axonyx_runtime.Prelude.Bytes.{ascii, bytes_eq, contains}
use axonyx_runtime.StateWasm.Value.{
  ExprValue, null, string, bool, float, int, bytes, list, object, Values, nil, cons, Fields, end,
  field,
}
use axonyx_runtime.StateWasm.Frame.{max_depth}
use axonyx_runtime.StateWasm.Operators.{get_field}

abbrev pub reconcile_max_keys : ℕ
reconcile_max_keys = 4096

abbrev pub render_max_paths : ℕ
render_max_paths = 256

abbrev pub Keys : Type 0
Keys = List (List ℕ)

-- `position` and `remove`: the first field of the name, and the others.
unfoldable pub take_field : List ℕ → Fields → Option (ExprValue × Fields)
take_field name end = none
take_field name (field k v fs) =
    let rest = take_field name fs in
    if bytes_eq k name
    then some (v, fs)
    else elim rest [ none ↦ none | some (w, others) ↦ some (w, field k v others) ]

-- The items of a list, which are strings, none of them empty if `nonempty` holds.
unfoldable pub strings : Bool → Values → Option Keys
strings nonempty nil = some []
strings nonempty (cons (string text) vs) =
    let rest = strings nonempty vs in
    if nonempty && length text == 0
    then none
    else elim rest [ none ↦ none | some texts ↦ some (text ∷ texts) ]
strings nonempty (cons _ vs) = none

abbrev pub list_strings : Bool → ExprValue → Option Keys
list_strings nonempty (list vs) = strings nonempty vs
list_strings nonempty _ = none

-- `take_string_list` and `take_render_paths`
unfoldable pub take_strings : Bool → List ℕ → Fields → Option (Keys × Fields)
unfolding take_field strings
take_strings nonempty name fields = do
  (value, others) ← take_field name fields
  texts ← list_strings nonempty value
  some (texts, others)

abbrev pub is_empty : Fields → Bool
is_empty end = true
is_empty (field k v fs) = false

-- `set.len() == keys.len()`
unfoldable pub is_distinct : Keys → Bool
is_distinct [] = true
is_distinct (k ∷ ks) = not (contains ks k) && is_distinct ks

-- `filter(|key| set.contains(key) == member)`
unfoldable pub select : Bool → Keys → Keys → Keys
select member set [] = []
select member set (k ∷ ks) =
    if contains set k
    then (if member then k ∷ select member set ks else select member set ks)
    else (if member then select member set ks else k ∷ select member set ks)

abbrev pub string_values : Keys → Values
string_values [] = nil
string_values (k ∷ ks) = cons (string k) (string_values ks)

abbrev pub plan : Keys → Keys → ExprValue
plan old next = object (
    field (ascii "inserted") (list (string_values (select false old next))) (
      field (ascii "order") (list (string_values (select true old next)))
        (field (ascii "removed") (list (string_values (select false next old))) end)))

-- The checks on the lists and on what is left of the request.
unfoldable pub checked_plan : Keys → Keys → Fields → Option ExprValue
unfolding is_distinct select
checked_plan old next rest = do
  guard
      (is_empty rest && leb (length old) reconcile_max_keys && leb (length next) reconcile_max_keys)
  guard (is_distinct old && is_distinct next)
  some (plan old next)

unfoldable pub reconcile_key_request : ExprValue → Option ExprValue
unfolding take_strings checked_plan
reconcile_key_request (object fields) = do
  (old, others) ← take_strings true (ascii "old") fields
  (next, rest) ← take_strings true (ascii "next") others
  checked_plan old next rest
reconcile_key_request _ = none

-- `path.split('.')`: the first part and the others.
unfoldable pub split : List ℕ → List ℕ × Keys
split [] = ([], [])
split (b ∷ bs) =
    let (part, parts) = split bs in if b == b'.' then ([], part ∷ parts) else (b ∷ part, parts)

-- The loop over the parts; `segments` counts those before.
unfoldable pub walk : ℕ → Keys → ExprValue → Option ExprValue
unfolding get_field
walk segments [] value = some value
walk segments (part ∷ parts) (object fields) =
    if length part == 0 || ltb max_depth (segments + 1)
    then none
    else elim (get_field part fields) [ none ↦ none | some value ↦ walk (segments + 1) parts value ]
walk segments (part ∷ parts) _ = none

unfoldable pub resolve_each_path : ExprValue → List ℕ → Option ExprValue
unfolding split walk
resolve_each_path item [] = some item
resolve_each_path item (b ∷ bs) = let (part, parts) = split (b ∷ bs) in walk 0 (part ∷ parts) item

unfoldable pub resolve_all : ExprValue → Keys → Option Values
unfolding resolve_each_path
resolve_all item [] = some nil
resolve_all item (path ∷ paths) = do
  value ← resolve_each_path item path
  values ← resolve_all item paths
  some (cons value values)

unfoldable pub render_each_request : ExprValue → Option ExprValue
unfolding take_strings resolve_all
render_each_request (object fields) = do
  (item, others) ← take_field (ascii "item") fields
  (paths, rest) ← take_strings false (ascii "paths") others
  guard (is_empty rest && leb (length paths) render_max_paths)
  values ← resolve_all item paths
  some (list values)
render_each_request _ = none
