-- ===== src/Qb/Value/Writes.antt =====
-- What each value writes, as a template, and the values whose template is well marked.
use cqlx.Common.Int.{ℤ, pos, pred, rounds}
use cqlx.Common.{
  ℕ, zero, suc, Bytes, List, [], ◌∷◌, ◌++◌, ◌≡◌, refl, append-nil, append_assoc, length, codes, All,
  arith, ◌∙◌, ap,
}
use cqlx.Qb.Binding.{
  IsPlain, WellMarked, WellMarked-nil, ◌⊳◌, ◌⊕◌, WellMarked-text, WellMarked-hole, WellMarked-each,
}
use cqlx.Qb.Emit.{◌>>◌, write_string, write_byte, return_names, skip}
use cqlx.Qb.Template.{
  text, hole, Template, render, holes, mark, join_each, render-append, holes-append, Writes,
  Writes-string, Writes-byte, Writes-each,
}
use cqlx.Qb.Value.{
  placeholders, write_columns, Func, write_func, Value, param, tuple_param, lit, func, tuple_name,
  write_elements, write_tuple_param, write_value,
}

abbrev pub comma : Template
comma = text (b',' ∷ []) ∷ []

abbrev pub text_template : Bytes → Template
text_template s = text s ∷ []

abbrev pub hole_template : Bytes → Template
hole_template n = hole n ∷ []

unfoldable pub columns_template : List Bytes → Template
columns_template = join_each comma text_template

-- A keyword, columns and a space, or nothing if there are no columns.
unfoldable pub columns_clause : Bytes → List Bytes → Template
columns_clause keyword [] = []
columns_clause keyword (c ∷ cols) =
    text keyword ∷ (columns_template (c ∷ cols) ++ text (codes " ") ∷ [])

-- `?` for each name, with commas between.
unfoldable pub holes_template : List Bytes → Template
holes_template = join_each comma hole_template

unfoldable pub func_template : Func → Template
func_template f =
    text f.name ∷ (text (b'(' ∷ []) ∷ (holes_template f.param_names ++ (text (b')' ∷ []) ∷ [])))

-- The names of the elements of a tuple from index `i` on: `n` of them.
element_names : Bytes → ℕ → ℕ → List Bytes
element_names base zero i = []
element_names base (suc n) i = tuple_name base (pos i) ∷ element_names base n (suc i)

-- `base[0]` to `base[count-1]`. A count below 2 leaves the one name `base[count-1]`.
unfoldable pub tuple_names : Bytes → ℤ → List Bytes
unfolding element_names
tuple_names base count =
    element_names base (rounds (pred count)) 0 ++ tuple_name base (pred count) ∷ []

unfoldable pub value_template : Value → Template
unfolding func_template tuple_names holes_template
value_template (param p) = hole p ∷ []
value_template (tuple_param p count) =
    text (b'(' ∷ []) ∷ (holes_template (tuple_names p count) ++ (text (b')' ∷ []) ∷ []))
value_template (lit l) = text l ∷ []
value_template (func f) = func_template f

pub Writes-columns : (cols : List Bytes) → Writes (write_columns cols) (columns_template cols)
unfolding write_columns columns_template
Writes-columns = Writes-each (Writes-byte b',') Writes-string

marks-holes :
    (ns : List Bytes) (cql : Bytes)
    → placeholders (length ns) cql ≡ (cql ++ render (holes_template ns), [])
unfolding placeholders holes_template join_each write_byte ◌>>◌ render skip
marks-holes [] cql = rw append-nil
marks-holes (n ∷ []) cql = refl
marks-holes (n ∷ m ∷ ns) cql =
    simp (append_assoc) (marks-holes (m ∷ ns) (cql ++ (mark ∷ b',' ∷ [])) ∙ rw append_assoc)

holes-holes : (ns : List Bytes) → holes (holes_template ns) ≡ ns
unfolding holes_template join_each holes
holes-holes [] = refl
holes-holes (n ∷ []) = refl
holes-holes (n ∷ m ∷ ns) = ap (◌∷◌ n) (holes-holes (m ∷ ns))

pub Writes-func : (f : Func) → Writes (write_func f) (func_template f)
unfolding write_func func_template ◌>>◌ write_string write_byte return_names render holes
Writes-func f = record {
  runs = λ cql. simp (
    marks-holes, render-append, holes-append, holes-holes, append_assoc, append-nil, render, holes,
  );
}

-- Each name's marker with a comma behind it.
marks_before : List Bytes → Bytes
marks_before [] = []
marks_before (n ∷ ns) = mark ∷ b',' ∷ marks_before ns

write_elements_lem :
    (base : Bytes) (n i : ℕ) (cql : Bytes)
    → write_elements base n i cql
      ≡ (cql ++ marks_before (element_names base n i), element_names base n i)
unfolding write_elements element_names marks_before ◌>>◌ write_byte return_names skip
write_elements_lem base zero i cql = rw append-nil
write_elements_lem base (suc n) i cql = rw (write_elements_lem base n (suc i)) (simp append_assoc)

holes-concat :
    (ns : List Bytes) (last : Bytes)
    → render (holes_template (ns ++ last ∷ [])) ≡ marks_before ns ++ mark ∷ []
unfolding holes_template join_each render marks_before
holes-concat [] last = refl
holes-concat (n ∷ []) last = refl
holes-concat (n ∷ m ∷ ns) last = ap (λ s. mark ∷ b',' ∷ s) (holes-concat (m ∷ ns) last)

pub Writes-value : (v : Value) → Writes (write_value v) (value_template v)
unfolding write_value value_template ◌>>◌ write_byte return_names render holes
Writes-value (param p) = record { runs = λ cql. refl }
Writes-value (tuple_param p count) = record {
  runs = λ cql.
      unfold write_tuple_param tuple_names in
      simp (
        write_elements_lem, render-append, holes-append, holes-holes, holes-concat, append_assoc,
        append-nil, render, holes,
      );
}
Writes-value (lit l) = Writes-string l
Writes-value (func f) = Writes-func f

-- The texts of a value hold no `?` of their own.
abbrev pub PlainValue : Value → Type 0
PlainValue (param p) = Unit
PlainValue (tuple_param p count) = Unit
PlainValue (lit l) = IsPlain l
PlainValue (func f) = IsPlain f.name

holes_template-WellMarked : (ns : List Bytes) → WellMarked (holes_template ns)
unfolding holes_template join_each
holes_template-WellMarked [] = WellMarked-nil
holes_template-WellMarked (n ∷ []) = WellMarked-hole WellMarked-nil
holes_template-WellMarked (n ∷ m ∷ ns) =
    WellMarked-hole (omega arith ⊳ holes_template-WellMarked (m ∷ ns))

pub columns-WellMarked : (cols : List Bytes) → All IsPlain cols → WellMarked (columns_template cols)
unfolding columns_template
columns-WellMarked =
    WellMarked-each IsPlain (WellMarked-text (omega arith)) (λ c p. WellMarked-text p)

pub columns_clause-WellMarked :
    (keyword : Bytes) (cols : List Bytes)
    → IsPlain keyword
    → All IsPlain cols
    → WellMarked (columns_clause keyword cols)
unfolding columns_clause
columns_clause-WellMarked keyword [] k h = WellMarked-nil
columns_clause-WellMarked keyword (c ∷ cols) k h =
    k ⊳ columns-WellMarked (c ∷ cols) h ⊕ WellMarked-text (omega arith)

func-WellMarked : (f : Func) → IsPlain f.name → WellMarked (func_template f)
unfolding func_template
func-WellMarked f h =
    h ⊳ omega arith ⊳ holes_template-WellMarked f.param_names ⊕ WellMarked-text (omega arith)

pub value-WellMarked : (v : Value) → PlainValue v → WellMarked (value_template v)
unfolding value_template
value-WellMarked (param p) h = WellMarked-hole WellMarked-nil
value-WellMarked (tuple_param p count) h =
    omega arith ⊳ holes_template-WellMarked (tuple_names p count) ⊕ WellMarked-text (omega arith)
value-WellMarked (lit l) h = WellMarked-text h
value-WellMarked (func f) h = func-WellMarked f h
