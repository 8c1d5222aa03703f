-- ===== src/Qb/Cmp/Writes.antt =====
-- What a comparator and the WHERE and IF clauses write, as templates.
use cqlx.Common.{Bytes, List, [], ◌∷◌, ◌++◌, append_assoc, codes, All, arith}
use cqlx.Qb.Binding.{
  IsPlain, WellMarked, WellMarked-nil, ◌⊳◌, ◌⊕◌, WellMarked-text, WellMarked-each,
}
use cqlx.Qb.Cmp.Defs.{
  Op, eq, ne, lt, leq, gt, geq, in_list, cnt, cnt_key, like, Cmp, write_op, write_cmp, write_cmps,
  write_where, write_if,
}
use cqlx.Qb.Emit.{◌>>◌, write_string, write_byte}
use cqlx.Qb.Template.{
  text, Template, render, holes, join_each, Writes, Writes-seq, Writes-string, Writes-byte,
  Writes-skip, Writes-each,
}
use cqlx.Qb.Value.Writes.{value_template, Writes-value, PlainValue, value-WellMarked}

-- The operator as CQL spells it.
unfoldable pub op_text : Op → Bytes
op_text eq = codes "="
op_text ne = codes "!="
op_text lt = codes "<"
op_text leq = codes "<="
op_text gt = codes ">"
op_text geq = codes ">="
op_text in_list = codes " IN "
op_text cnt = codes " CONTAINS "
op_text cnt_key = codes " CONTAINS KEY "
op_text like = codes " LIKE "

unfoldable pub cmp_template : Cmp → Template
unfolding op_text
cmp_template c = text c.column ∷ (text (op_text c.op) ∷ value_template c.value)

-- The comparators joined by AND, with a space behind.
unfoldable pub cmps_template : List Cmp → Template
cmps_template cs = join_each (text (codes " AND ") ∷ []) cmp_template cs ++ text (codes " ") ∷ []

-- A keyword and its comparators, or nothing if there are none.
unfoldable pub clause_template : Bytes → List Cmp → Template
unfolding cmps_template
clause_template keyword [] = []
clause_template keyword (c ∷ cs) = text keyword ∷ cmps_template (c ∷ cs)

Writes-op : (o : Op) → Writes (write_op o) (text (op_text o) ∷ [])
unfolding write_op op_text ◌>>◌ write_byte write_string render holes
Writes-op leq = record { runs = λ cql. rw append_assoc }
Writes-op geq = record { runs = λ cql. rw append_assoc }
Writes-op eq = Writes-byte b'='
Writes-op lt = Writes-byte b'<'
Writes-op gt = Writes-byte b'>'
Writes-op ne = Writes-string _
Writes-op in_list = Writes-string _
Writes-op cnt = Writes-string _
Writes-op cnt_key = Writes-string _
Writes-op like = Writes-string _

pub Writes-cmp : (c : Cmp) → Writes (write_cmp c) (cmp_template c)
unfolding write_cmp cmp_template
Writes-cmp c =
    Writes-seq (Writes-string c.column) (Writes-seq (Writes-op c.op) (Writes-value c.value))

pub Writes-cmps : (cs : List Cmp) → Writes (write_cmps cs) (cmps_template cs)
unfolding write_cmps cmps_template
Writes-cmps cs =
    Writes-seq (Writes-each (Writes-string (codes " AND ")) Writes-cmp cs) (Writes-byte b' ')

pub Writes-where : (w : List Cmp) → Writes (write_where w) (clause_template (codes "WHERE ") w)
unfolding write_where clause_template
Writes-where [] = Writes-skip
Writes-where (c ∷ w) = Writes-seq (Writes-string (codes "WHERE ")) (Writes-cmps (c ∷ w))

pub Writes-cond : (w : List Cmp) → Writes (write_if w) (clause_template (codes "IF ") w)
unfolding write_if clause_template
Writes-cond [] = Writes-skip
Writes-cond (c ∷ w) = Writes-seq (Writes-string (codes "IF ")) (Writes-cmps (c ∷ w))

-- The column and the texts of the value hold no `?`.
abbrev pub PlainCmp : Cmp → Type 0
PlainCmp c = IsPlain c.column × PlainValue c.value

op_text-IsPlain : (o : Op) → IsPlain (op_text o)
unfolding op_text
op_text-IsPlain eq = omega arith
op_text-IsPlain _ = omega arith

pub cmp-WellMarked : (c : Cmp) → PlainCmp c → WellMarked (cmp_template c)
unfolding cmp_template
cmp-WellMarked c (p, v) = p ⊳ op_text-IsPlain c.op ⊳ value-WellMarked c.value v

cmps-WellMarked : (cs : List Cmp) → All PlainCmp cs → WellMarked (cmps_template cs)
unfolding cmps_template
cmps-WellMarked cs h =
    WellMarked-each PlainCmp (WellMarked-text (omega arith)) cmp-WellMarked cs h
    ⊕ WellMarked-text (omega arith)

pub clause-WellMarked :
    (keyword : Bytes) (cs : List Cmp)
    → IsPlain keyword
    → All PlainCmp cs
    → WellMarked (clause_template keyword cs)
unfolding clause_template
clause-WellMarked keyword [] p h = WellMarked-nil
clause-WellMarked keyword (c ∷ cs) p h = p ⊳ cmps-WellMarked (c ∷ cs) h
