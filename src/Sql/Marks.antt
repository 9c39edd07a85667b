-- ===== src/Sql/Marks.antt =====
-- The placeholders in the pieces of text that crates/axonyx-core/src/ax_sql.rs puts together.
use axonyx_runtime.Prelude.{ℕ, ◌+◌, ◌≡◌, refl, ◌∙◌, Option, none, some, List, [], ◌∷◌, ◌++◌, arith}
use axonyx_runtime.Prelude.Bytes.{ascii}
use axonyx_runtime.StateWasm.Operators.{decimal}
use axonyx_runtime.Sql.Plan.{
  Text, Dialect, postgres, my_sql, sqlite, Direction, asc, desc, query, mutation, Context, FilterOp,
  eq, ne, in_list, not_in, quote_ident, order_direction_name, join,
}
use axonyx_runtime.Sql.Clauses.{comma_space, operator, empty_list_clause}
use axonyx_runtime.Sql.Compile.{and_word, where_text, order_text, bound_text}
use axonyx_runtime.Sql.Counting.{count, count-append, count_all, mark_of, count-join, count-decimal}

abbrev pub marks : Dialect → Text → ℕ
marks d t = count (mark_of d) t

-- No placeholder starts in the text.
abbrev pub IsBare : Dialect → Text → Type 0
IsBare d t = marks d t ≡ 0

pub marks-equality :
    (d : Dialect) (field op mark : Text)
    → marks d (field ++ (b' ' ∷ (op ++ b' ' ∷ mark))) ≡ marks d field + marks d op + marks d mark
unfolding count
marks-equality postgres field op mark = simp count-append (omega arith)
marks-equality my_sql field op mark = simp count-append (omega arith)
marks-equality sqlite field op mark = simp count-append (omega arith)

pub marks-list :
    (d : Dialect) (field op list : Text)
    → marks d (field ++ (b' ' ∷ (op ++ (ascii " (" ++ (list ++ ascii ")")))))
      ≡ marks d field + marks d op + marks d list
unfolding count
marks-list postgres field op list = simp count-append (omega arith)
marks-list my_sql field op list = simp count-append (omega arith)
marks-list sqlite field op list = simp count-append (omega arith)

pub marks-is_null :
    (d : Dialect) (field : Text) → marks d (field ++ ascii " is null") ≡ marks d field
unfolding count
marks-is_null postgres field = simp count-append (omega arith)
marks-is_null my_sql field = simp count-append (omega arith)
marks-is_null sqlite field = simp count-append (omega arith)

pub marks-is_not_null :
    (d : Dialect) (field : Text) → marks d (field ++ ascii " is not null") ≡ marks d field
unfolding count
marks-is_not_null postgres field = simp count-append (omega arith)
marks-is_not_null my_sql field = simp count-append (omega arith)
marks-is_not_null sqlite field = simp count-append (omega arith)

pub marks-quote_ident : (d : Dialect) (ident : Text) → marks d (quote_ident d ident) ≡ marks d ident
unfolding count quote_ident
marks-quote_ident postgres ident = simp count-append (omega arith)
marks-quote_ident my_sql ident = simp count-append (omega arith)
marks-quote_ident sqlite ident = simp count-append (omega arith)

pub marks-dot : (d : Dialect) (a b : Text) → marks d (a ++ b'.' ∷ b) ≡ marks d a + marks d b
unfolding count
marks-dot postgres a b = simp count-append (omega arith)
marks-dot my_sql a b = simp count-append (omega arith)
marks-dot sqlite a b = simp count-append (omega arith)

literal : (d : Dialect) (t : Text) → marks postgres t ≡ 0 → marks sqlite t ≡ 0 → marks d t ≡ 0
literal postgres t p q = p
literal my_sql t p q = q
literal sqlite t p q = q

pub marks-operator : (d : Dialect) (op : FilterOp) → marks d (operator op) ≡ 0
unfolding count
marks-operator d ne = literal d (operator ne) refl refl
marks-operator d in_list = literal d (operator in_list) refl refl
marks-operator d not_in = literal d (operator not_in) refl refl
marks-operator d _ = literal d (operator eq) refl refl

pub marks-empty_list :
    (d : Dialect) (op : FilterOp) (context : Context) → marks d (empty_list_clause op context) ≡ 0
unfolding count
marks-empty_list d not_in query = literal d (empty_list_clause not_in query) refl refl
marks-empty_list d _ _ = literal d (empty_list_clause not_in mutation) refl refl

pub marks-assignment :
    (d : Dialect) (a b : Text) → marks d (a ++ (ascii " = " ++ b)) ≡ marks d a + marks d b
unfolding count
marks-assignment postgres a b = simp count-append (omega arith)
marks-assignment my_sql a b = simp count-append (omega arith)
marks-assignment sqlite a b = simp count-append (omega arith)

pub marks-inner_join :
    (d : Dialect) (a b : Text)
    → marks d (ascii " inner join " ++ (a ++ (ascii " on " ++ b))) ≡ marks d a + marks d b
unfolding count
marks-inner_join postgres a b = simp count-append (omega arith)
marks-inner_join my_sql a b = simp count-append (omega arith)
marks-inner_join sqlite a b = simp count-append (omega arith)

pub marks-comma :
    (d : Dialect) (ts : List Text) → marks d (join comma_space ts) ≡ count_all (mark_of d) ts
unfolding count
marks-comma postgres ts = count-join _ comma_space ts refl
marks-comma my_sql ts = count-join _ comma_space ts refl
marks-comma sqlite ts = count-join _ comma_space ts refl

pub marks-and :
    (d : Dialect) (ts : List Text) → marks d (join and_word ts) ≡ count_all (mark_of d) ts
unfolding count
marks-and postgres ts = count-join _ and_word ts refl
marks-and my_sql ts = count-join _ and_word ts refl
marks-and sqlite ts = count-join _ and_word ts refl

direction-literal :
    (d : Dialect) (direction : Direction) → marks d (b' ' ∷ order_direction_name direction) ≡ 0
unfolding count order_direction_name
direction-literal d asc = literal d (b' ' ∷ ascii "asc") refl refl
direction-literal d desc = literal d (b' ' ∷ ascii "desc") refl refl

pub marks-direction :
    (d : Dialect) (field : Text) (direction : Direction)
    → marks d (field ++ b' ' ∷ order_direction_name direction) ≡ marks d field
marks-direction d field direction = omega (
  arith,
  count-append (mark_of d) field (b' ' ∷ order_direction_name direction),
  direction-literal d direction,
)

pub marks-where : (d : Dialect) (t : Text) → marks d (ascii " where " ++ t) ≡ marks d t
unfolding count
marks-where postgres t = simp count-append (omega arith)
marks-where my_sql t = simp count-append (omega arith)
marks-where sqlite t = simp count-append (omega arith)

pub marks-order_by : (d : Dialect) (t : Text) → marks d (ascii " order by " ++ t) ≡ marks d t
unfolding count
marks-order_by postgres t = simp count-append (omega arith)
marks-order_by my_sql t = simp count-append (omega arith)
marks-order_by sqlite t = simp count-append (omega arith)

pub marks-select :
    (d : Dialect) (a b : Text)
    → marks d (ascii "select " ++ (a ++ (ascii ".* from " ++ b))) ≡ marks d a + marks d b
unfolding count
marks-select postgres a b = simp count-append (omega arith)
marks-select my_sql a b = simp count-append (omega arith)
marks-select sqlite a b = simp count-append (omega arith)

pub marks-select_all : (d : Dialect) (t : Text) → marks d (ascii "select * from " ++ t) ≡ marks d t
unfolding count
marks-select_all postgres t = simp count-append (omega arith)
marks-select_all my_sql t = simp count-append (omega arith)
marks-select_all sqlite t = simp count-append (omega arith)

pub marks-insert :
    (d : Dialect) (a b c : Text)
    → marks d (
        ascii "insert into "
        ++ (a ++ (ascii " (" ++ (b ++ (ascii ") values (" ++ (c ++ ascii ")"))))))
      ≡ marks d a + marks d b + marks d c
unfolding count
marks-insert postgres a b c = simp count-append (omega arith)
marks-insert my_sql a b c = simp count-append (omega arith)
marks-insert sqlite a b c = simp count-append (omega arith)

pub marks-update :
    (d : Dialect) (a b c : Text)
    → marks d (ascii "update " ++ (a ++ (ascii " set " ++ (b ++ c))))
      ≡ marks d a + marks d b + marks d c
unfolding count
marks-update postgres a b c = simp count-append (omega arith)
marks-update my_sql a b c = simp count-append (omega arith)
marks-update sqlite a b c = simp count-append (omega arith)

pub marks-delete :
    (d : Dialect) (a b : Text)
    → marks d (ascii "delete from " ++ (a ++ (ascii " where " ++ b))) ≡ marks d a + marks d b
unfolding count
marks-delete postgres a b = simp count-append (omega arith)
marks-delete my_sql a b = simp count-append (omega arith)
marks-delete sqlite a b = simp count-append (omega arith)

pub marks-where_text :
    (d : Dialect) (ts : List Text) → marks d (where_text ts) ≡ count_all (mark_of d) ts
unfolding where_text
marks-where_text d [] = unfold count count_all in refl
marks-where_text d (t ∷ ts) = marks-where d (join and_word (t ∷ ts)) ∙ marks-and d (t ∷ ts)

pub marks-order_text :
    (d : Dialect) (ts : List Text) → marks d (order_text ts) ≡ count_all (mark_of d) ts
unfolding order_text
marks-order_text d [] = unfold count count_all in refl
marks-order_text d (t ∷ ts) = marks-order_by d (join comma_space (t ∷ ts)) ∙ marks-comma d (t ∷ ts)

pub marks-bound_text :
    (d : Dialect) (keyword : Text) (n : Option ℕ)
    → marks d keyword ≡ 0
    → marks d (bound_text keyword n) ≡ 0
unfolding bound_text
marks-bound_text d keyword none h = unfold count in refl
marks-bound_text d keyword (some n) h =
    let e : marks d [] ≡ 0 = unfold count in refl in
    rw (count-append (mark_of d) keyword (decimal 10 n []), count-decimal d 10 n [], e, h) refl

pub marks-limit : (d : Dialect) (n : Option ℕ) → marks d (bound_text (ascii " limit ") n) ≡ 0
unfolding count
marks-limit d n = marks-bound_text d (ascii " limit ") n (literal d (ascii " limit ") refl refl)

pub marks-offset : (d : Dialect) (n : Option ℕ) → marks d (bound_text (ascii " offset ") n) ≡ 0
unfolding count
marks-offset d n = marks-bound_text d (ascii " offset ") n (literal d (ascii " offset ") refl refl)
