-- ===== src/StateWasm/Cursor/Laws.antt =====
-- What a read at a cursor returns, and what a successful read tells of the slice.
use axonyx_runtime.Prelude.{
  ℕ, ◌+◌, ◌^◌, ◌≤◌, ◌<◌, ◌≡◌, sym, ap, ◌∙◌, some, List, ◌++◌, arith, length, take, drop, lt→ltb,
  le→leb, length-append, length-drop, length-take, take-append-drop, take-length-append,
  drop-length-append, drop-drop, All-append_left, All-append_right, >>=-eq-some,
}
use axonyx_runtime.Prelude.Bytes.{
  IsBytes, to_le_bytes, from_le_bytes, from_le_bytes-lt, from_le_bytes-to_le_bytes,
  to_le_bytes-from_le_bytes, length-to_le_bytes,
}
use axonyx_runtime.StateWasm.Cursor.{usize_size, take_bytes, read_u32, push_u32}

-- The slice goes on with `rest` behind the cursor.
pub record At (data_ : List ℕ) (cursor : ℕ) (rest : List ℕ) : Type 0 where
  pub within : cursor ≤ length data_
  pub behind : drop cursor data_ ≡ rest

pub At-length :
    (data_ : List ℕ) (cursor : ℕ) (rest : List ℕ)
    → At data_ cursor rest
    → cursor + length rest ≡ length data_
At-length data_ cursor rest p =
    let w = p.within in omega (arith, length-drop cursor data_, ap length p.behind)

pub At-skip :
    (data_ : List ℕ) (cursor : ℕ) (xs rest : List ℕ)
    → At data_ cursor (xs ++ rest)
    → At data_ (cursor + length xs) rest
At-skip data_ cursor xs rest p = record {
  within = omega (arith, At-length data_ cursor (xs ++ rest) p, length-append xs rest);
  behind =
      sym (drop-drop cursor (length xs) data_)
      ∙ ap (drop (length xs)) p.behind
      ∙ drop-length-append xs rest;
}

pub take_bytes-At :
    (data_ : List ℕ) (cursor : ℕ) (xs rest : List ℕ)
    → At data_ cursor (xs ++ rest)
    → length data_ < usize_size
    → take_bytes data_ cursor (length xs) ≡ some (xs, cursor + length xs)
unfolding take_bytes
take_bytes-At data_ cursor xs rest p small =
    let skipped = At-skip data_ cursor xs rest p in
    let fits = skipped.within in
    rw (
      lt→ltb (cursor + length xs) usize_size (omega (arith, fits)),
      le→leb (cursor + length xs) (length data_) fits,
      p.behind,
      take-length-append xs rest,
    )

pub read_u32-At :
    (data_ : List ℕ) (cursor value : ℕ) (rest : List ℕ)
    → At data_ cursor (to_le_bytes 4 value ++ rest)
    → length data_ < usize_size
    → value < 2 ^ 32
    → read_u32 data_ cursor ≡ some (value, cursor + 4)
unfolding read_u32
read_u32-At data_ cursor value rest p small bound =
    let e = take_bytes-At data_ cursor (to_le_bytes 4 value) rest p small in
    let e' = rw (length-to_le_bytes 4 value) at e in
    rw (e', from_le_bytes-to_le_bytes 4 value bound)

-- A successful read.
pub record Taken (data_ : List ℕ) (cursor count : ℕ) (xs : List ℕ) (last : ℕ) : Type 0 where
  pub moved : last ≡ cursor + count
  pub fits : last < usize_size
  pub within : last ≤ length data_
  pub counted : length xs ≡ count
  pub split : drop cursor data_ ≡ xs ++ drop last data_

pub take_bytes-Taken :
    (data_ : List ℕ) (cursor count : ℕ) {xs : List ℕ} {last : ℕ}
    → take_bytes data_ cursor count ≡ some (xs, last)
    → Taken data_ cursor count xs last
unfolding take_bytes
take_bytes-Taken data_ cursor count {xs} {last} e = record {
  moved = moved;
  fits = fits;
  within = within;
  counted =
      ap length xs_lem
      ∙ length-take count (drop cursor data_)
          (omega (arith, within, moved, length-drop cursor data_));
  split =
      sym (take-append-drop count (drop cursor data_))
      ∙ ap (λ t. t ++ drop count (drop cursor data_)) (sym xs_lem)
      ∙ ap (λ t. xs ++ t) (drop-drop cursor count data_ ∙ ap (λ k. drop k data_) (sym moved));
}
  where
    moved : last ≡ cursor + count
    moved = ground arith

    fits : last < usize_size
    fits = ground arith

    within : last ≤ length data_
    within = ground arith

    xs_lem : xs ≡ take count (drop cursor data_)
    xs_lem = ground arith

pub record Read (data_ : List ℕ) (cursor value last : ℕ) : Type 0 where
  pub moved : last ≡ cursor + 4
  pub within : last ≤ length data_
  pub bounded : value < 2 ^ 32
  pub split : drop cursor data_ ≡ to_le_bytes 4 value ++ drop last data_

pub drop-IsBytes : (n : ℕ) (data_ : List ℕ) → IsBytes data_ → IsBytes (drop n data_)
drop-IsBytes n data_ h =
    All-append_right _ (take n data_) (drop n data_) (rw (take-append-drop n data_) h)

pub Taken-IsBytes :
    {data_ : List ℕ} {cursor count : ℕ} {xs : List ℕ} {last : ℕ}
    → IsBytes data_
    → Taken data_ cursor count xs last
    → IsBytes xs
Taken-IsBytes {data_} {cursor} {xs} {last} h t =
    All-append_left _ xs (drop last data_) (rw (← t.split) (drop-IsBytes cursor data_ h))

Read-of_Taken :
    {data_ : List ℕ} {cursor : ℕ} {raw : List ℕ} {value last : ℕ}
    → IsBytes data_
    → Taken data_ cursor 4 raw last
    → from_le_bytes raw ≡ value
    → Read data_ cursor value last
Read-of_Taken {data_} {raw} {value} {last} h t e =
    let b = Taken-IsBytes h t in
    let bound = from_le_bytes-lt raw b in
    record {
      moved = t.moved;
      within = t.within;
      bounded = rw (← e) (rw t.counted at bound);
      split = t.split ∙ ap (λ xs. xs ++ drop last data_) (sym same);
    }
  where
    same : to_le_bytes 4 value ≡ raw
    same =
        ap (to_le_bytes 4) (sym e)
        ∙ ap (λ k. to_le_bytes k (from_le_bytes raw)) (sym t.counted)
        ∙ to_le_bytes-from_le_bytes raw (Taken-IsBytes h t)

pub read_u32-Read :
    (data_ : List ℕ) (cursor : ℕ) {value last : ℕ}
    → IsBytes data_
    → read_u32 data_ cursor ≡ some (value, last)
    → Read data_ cursor value last
unfolding read_u32
read_u32-Read data_ cursor {value} {last} h e =
    let ((raw, last'), taken, same) = >>=-eq-some (take_bytes data_ cursor 4) _ e in
    let value_lem : from_le_bytes raw ≡ value = ground arith in
    let taken' : take_bytes data_ cursor 4 ≡ some (raw, last) = ground arith in
    Read-of_Taken h (take_bytes-Taken data_ cursor 4 taken') value_lem

-- A successful write of a length.
pub push_u32-eq-some :
    (output : List ℕ) (value : ℕ) {written : List ℕ}
    → push_u32 output value ≡ some written
    → (value < 2 ^ 32) × (written ≡ output ++ to_le_bytes 4 value)
unfolding push_u32
push_u32-eq-some output value e = (ground arith, ground arith)
