-- ===== src/StateWasm/Frame/Layout.antt =====
-- An independent description of value frames: the bytes of a frame, and which values have one.
use axonyx_runtime.Prelude.{
  ℕ, ◌-◌, ◌^◌, ◌<◌, ◌≡◌, true, false, List, [], ◌∷◌, ◌++◌, length, if◌then◌else◌,
}
use axonyx_runtime.Prelude.Bytes.{IsBytes, to_le_bytes, is_utf8, contains}
use axonyx_runtime.Prelude.Int.{in_i64, to_word}
use axonyx_runtime.StateWasm.Value.{
  ExprValue, null, string, bool, float, int, bytes, list, object, Values, nil, cons, Fields, end,
  field,
}
use axonyx_runtime.StateWasm.Frame.{
  Kind, a_null, a_string, a_bool, a_float, an_int, a_bytes, a_list, an_object, tag, frame_version,
  is_finite, length_items, length_fields,
}

abbrev pub frame_header : Kind → List ℕ
frame_header kind = b'A' ∷ b'X' ∷ frame_version ∷ tag kind ∷ []

abbrev pub counted : List ℕ → List ℕ
counted text = to_le_bytes 4 (length text) ++ text

unfoldable mutual
  pub frame : ExprValue → List ℕ
  frame null = frame_header a_null
  frame (string text) = frame_header a_string ++ counted text
  frame (bool b) = frame_header a_bool ++ (if b then 1 else 0) ∷ []
  frame (float bits) = frame_header a_float ++ to_le_bytes 8 bits
  frame (int a) = frame_header an_int ++ to_le_bytes 8 (to_word a)
  frame (bytes raw) = frame_header a_bytes ++ counted raw
  frame (list vs) = frame_header a_list ++ (to_le_bytes 4 (length_items vs) ++ frame_items vs)
  frame (object fs) =
      frame_header an_object ++ (to_le_bytes 4 (length_fields fs) ++ frame_fields fs)

  pub frame_items : Values → List ℕ
  frame_items nil = []
  frame_items (cons v vs) = frame v ++ frame_items vs

  pub frame_fields : Fields → List ℕ
  frame_fields end = []
  frame_fields (field k v fs) = counted k ++ (frame v ++ frame_fields fs)

-- What Rust's types promise of a value, and that no object repeats a key; `keys` are those to the
-- left of the fields.
abbrev mutual
  pub IsValue : ExprValue → Type 0
  IsValue null = Unit
  IsValue (string text) = IsBytes text × (is_utf8 text ≡ true)
  IsValue (bool b) = Unit
  IsValue (float bits) = bits < 2 ^ 64
  IsValue (int a) = in_i64 a ≡ true
  IsValue (bytes raw) = IsBytes raw
  IsValue (list vs) = AreValues vs
  IsValue (object fs) = AreFields [] fs

  pub AreValues : Values → Type 0
  AreValues nil = Unit
  AreValues (cons v vs) = IsValue v × AreValues vs

  pub AreFields : List (List ℕ) → Fields → Type 0
  AreFields keys end = Unit
  AreFields keys (field k v fs) =
      IsBytes k
      × (is_utf8 k ≡ true)
      × (contains keys k ≡ false)
      × IsValue v
      × AreFields (k ∷ keys) fs

-- The limits of the format: nesting within `levels`, lengths in 32 bits, finite floats.
abbrev mutual
  pub Fits : ℕ → ExprValue → Type 0
  Fits levels null = 0 < levels
  Fits levels (string text) = (0 < levels) × (length text < 2 ^ 32)
  Fits levels (bool b) = 0 < levels
  Fits levels (float bits) = (0 < levels) × (is_finite bits ≡ true)
  Fits levels (int a) = 0 < levels
  Fits levels (bytes raw) = (0 < levels) × (length raw < 2 ^ 32)
  Fits levels (list vs) = (0 < levels) × (length_items vs < 2 ^ 32) × FitsItems (levels - 1) vs
  Fits levels (object fs) = (0 < levels) × (length_fields fs < 2 ^ 32) × FitsFields (levels - 1) fs

  pub FitsItems : ℕ → Values → Type 0
  FitsItems levels nil = Unit
  FitsItems levels (cons v vs) = Fits levels v × FitsItems levels vs

  pub FitsFields : ℕ → Fields → Type 0
  FitsFields levels end = Unit
  FitsFields levels (field k v fs) = (length k < 2 ^ 32) × Fits levels v × FitsFields levels fs
